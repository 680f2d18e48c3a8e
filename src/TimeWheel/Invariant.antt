-- ===== src/TimeWheel/Invariant.antt =====
-- The abstract wheel: for each slot the list of its timers; and what ties it to pointers.
use linux_server_programming.Base.{
  ℕ, ◌<◌, ◌≡◌, refl, true, false, ◌⊎◌, inl, inr, none, [], ◌∷◌, arith, ◌==◌, if◌then◌else◌,
  Bool-cases,
}
use linux_server_programming.Memory.{Ptr, null, Store}
use linux_server_programming.Memory.Chain
use linux_server_programming.Memory.Chain.{Cells, Chain, has, first, erase}
use linux_server_programming.TimeWheel.{TwTimer, TimeWheel, slot_count}
use linux_server_programming.TimeWheel.Sweep.{sweep}

abbrev pub Slots : Type 0
Slots = ℕ → Cells TwTimer

abbrev pub put : Slots → ℕ → Cells TwTimer → Slots
put l i xs = λ j. if j == i then xs else l j

-- the timers' own record of their slot
abbrev pub Placed : ℕ → Cells TwTimer → Type 0
Placed i [] = Unit
Placed i ((p, v) ∷ xs) = (v.time_slot ≡ i) × Placed i xs

-- Each slot of `w` holds the chain of its timers, and no node is in two slots.
pub record IsWheel (l : Slots) (w : TimeWheel) : Type 0 where
  pub current : w.cur_slot < slot_count
  pub heads : (i : ℕ) → i < slot_count → w.slots i ≡ first (l i)
  pub chains : (i : ℕ) → i < slot_count → Chain w.store null (l i)
  pub apart :
      (i j : ℕ) (p : Ptr)
      → i < slot_count
      → j < slot_count
      → has p (l i) ≡ true
      → has p (l j) ≡ true
      → i ≡ j
  pub placed : (i : ℕ) → i < slot_count → Placed i (l i)

Chain-live :
    (h : Store TwTimer) (q p : Ptr) (xs : Cells TwTimer)
    → Chain h q xs
    → h p ≡ none
    → has p xs ≡ false
Chain-live h q p [] c e = refl
Chain-live h q p ((a, v) ∷ xs) (live, at, new, c) e = ground (arith, Chain-live h a p xs c e)

-- a node that is in no slot
pub outside :
    {l : Slots} {w : TimeWheel}
    → IsWheel l w
    → (p : Ptr) → w.store p ≡ none
    → (i : ℕ) → i < slot_count
    → has p (l i) ≡ false
outside {l} {w} wf p e i h = Chain-live w.store null p (l i) (wf.chains i h) e

-- The nodes of one slot, and new ones, are in no other slot.
not-shared :
    (l : Slots) (w : TimeWheel) (i j : ℕ) (xs : Cells TwTimer) (p : Ptr)
    → IsWheel l w
    → i < slot_count
    → j < slot_count
    → (j == i) ≡ false
    → ((a : Ptr) → has a xs ≡ true → (has a (l i) ≡ true) ⊎ (w.store a ≡ none))
    → has p (l j) ≡ true
    → (has p xs ≡ false) × (has p (l i) ≡ false)
not-shared l w i j xs p wf hi hj ne origin m = (
  ground
      (arith, origin p, wf.apart j i p hj hi m, Chain-live w.store null p (l j) (wf.chains j hj)),
  ground (arith, wf.apart j i p hj hi m),
)

-- One slot is given another chain, of its own nodes and new ones.
pub relink :
    {l : Slots} {w : TimeWheel} (i : ℕ) (xs : Cells TwTimer) (w' : TimeWheel)
    → IsWheel l w
    → i < slot_count
    → w'.cur_slot < slot_count
    → ((j : ℕ) → w'.slots j ≡ (if j == i then first xs else w.slots j))
    → Chain w'.store null xs
    → ((a : Ptr) → has a (l i) ≡ false → has a xs ≡ false → w'.store a ≡ w.store a)
    → ((a : Ptr) → has a xs ≡ true → (has a (l i) ≡ true) ⊎ (w.store a ≡ none))
    → Placed i xs
    → IsWheel (put l i xs) w'
relink {l} {w} i xs w' wf hi cur slots chain same origin placed = record {
  current = cur;
  heads = λ j hj.
      rw (slots j)
        (elim (Bool-cases (j == i)) [ inl e ↦ rw e refl | inr e ↦ rw e (wf.heads j hj) ]);
  chains = λ j hj. elim (Bool-cases (j == i)) [
    | inl e ↦ rw e chain
    | inr e ↦ rw e (
        Chain.frame null (l j) (wf.chains j hj) (λ a m.
          same a (ground (arith, not-shared l w i j xs a wf hi hj e origin m))
            (ground (arith, not-shared l w i j xs a wf hi hj e origin m))))
  ];
  apart = λ j k p hj hk. elim (Bool-cases (j == i)) [
    | inl e ↦ elim (Bool-cases (k == i)) [
      | inl e' ↦ λ _ _. ground arith
      | inr e' ↦
          rw (e, e')
            (λ m m'. absurd (ground (arith, not-shared l w i k xs p wf hi hk e' origin m')))
    ]
    | inr e ↦ elim (Bool-cases (k == i)) [
      | inl e' ↦
          rw (e, e') (λ m m'. absurd (ground (arith, not-shared l w i j xs p wf hi hj e origin m)))
      | inr e' ↦ rw (e, e') (wf.apart j k p hj hk)
    ]
  ];
  placed = λ j hj. elim (Bool-cases (j == i)) [
    | inl e ↦ let is : j ≡ i = ground arith in rw (e, is) placed
    | inr e ↦ rw e (wf.placed j hj)
  ];
}

pub Placed-sweep : (i : ℕ) (xs : Cells TwTimer) → Placed i xs → Placed i (sweep xs)
unfolding sweep
Placed-sweep i [] h = tt
Placed-sweep i ((p, v) ∷ xs) (at, h) = ground (arith, Placed-sweep i xs h)

pub Placed-erase : (i : ℕ) (p : Ptr) (xs : Cells TwTimer) → Placed i xs → Placed i (erase p xs)
Placed-erase i p [] h = tt
Placed-erase i p ((a, v) ∷ xs) (at, h) = ground (arith, Placed-erase i p xs h)
