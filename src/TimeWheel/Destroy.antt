-- ===== src/TimeWheel/Destroy.antt =====
-- The destructor of TimeWheel.h.
use linux_server_programming.Base.{
  ℕ, zero, suc, ◌+◌, ◌<◌, ◌≤◌, ◌≡◌, refl, ◌∙◌, sym, ap, subst, none, true, false, [], ◌∷◌, arith,
  ◌==◌, length, Returns, ne→==, ==_refl, lt→ltb, if◌then◌else◌, Bool-cases, inl, inr, ok,
}
use linux_server_programming.Memory.{Ptr, null, write}
use linux_server_programming.Memory.Chain
use linux_server_programming.Memory.Chain.{Cells, Chain, has, first, SameOutside}
use linux_server_programming.TimeWheel.{
  TwTimer, TimeWheel, slot_count, slot, set_slot, destroy_loop, destroy_slots, destroy,
}
use linux_server_programming.TimeWheel.Invariant.{Slots, put, IsWheel, relink}

-- what the inner loop does to the slot `i` with the nodes `xs`
record Emptied (i : ℕ) (w : TimeWheel) (xs : Cells TwTimer) (w' : TimeWheel) : Type 0 where
  current : w'.cur_slot ≡ w.cur_slot
  slots : (j : ℕ) → w'.slots j ≡ (if j == i then null else w.slots j)
  gone : (d : Ptr) → has d xs ≡ true → w'.store d ≡ none
  same : SameOutside xs w.store w'.store

module _ (i : ℕ) (hi : i < slot_count) where
  -- the state after a round
  abbrev dropped : TimeWheel → Ptr → Cells TwTimer → TimeWheel
  dropped w a xs = record w {
    slots = λ j. if j == i then first xs else w.slots j;
    store = write w.store a none;
  }

  destroy_loop-drops :
      (k : ℕ) (w : TimeWheel) (q a : Ptr) (u : TwTimer) (xs : Cells TwTimer)
      → Chain w.store q ((a, u) ∷ xs)
      → destroy_loop (suc k) i w a ≡ destroy_loop k i (dropped w a xs) (first xs)
  unfolding destroy_loop set_slot slot
  destroy_loop-drops k w q a u xs (live, at, new, c) = rw (
    ne→== a null live,
    Chain.load-ok w.store a live at,
    lt→ltb i slot_count hi,
    Chain.free-ok w.store a live at,
    ==_refl i,
  )

  destroy_loop-Emptied :
      (k : ℕ) (w : TimeWheel) (q : Ptr) (xs : Cells TwTimer)
      → Chain w.store q xs
      → w.slots i ≡ first xs
      → length xs < k
      → Returns (Emptied i w xs) (destroy_loop k i w (first xs))
  unfolding destroy_loop
  destroy_loop-Emptied zero w q xs c at enough = absurd (omega arith)
  destroy_loop-Emptied (suc k) w q [] c at enough = (
    w,
    refl,
    record {
      current = refl;
      slots = λ j. elim (Bool-cases (j == i)) [
        | inl e ↦ let is : j ≡ i = ground arith in rw (e, is) at
        | inr e ↦ rw e refl
      ];
      gone = λ d m. cc;
      same = λ d o. refl;
    },
  )
  destroy_loop-Emptied (suc k) w q ((a, u) ∷ xs) c at enough =
      let (live, own, new, rest) = c in
      let (w', run, t) =
        destroy_loop-Emptied k (dropped w a xs) a xs
          (Chain.frame-write w.store a xs a none rest new) (rw (==_refl i) refl) (omega arith) in
      (
        w',
        destroy_loop-drops k w q a u xs c ∙ run,
        record {
          current = t.current;
          slots = λ j. ground (arith, t.slots j);
          gone = λ d m. elim (Bool-cases (d == a)) [
            | inl e ↦
                let is : d ≡ a = ground arith in
                rw is (t.same a new ∙ Chain.write_self w.store a none)
            | inr e ↦ t.gone d (rw e at m)
          ];
          same = λ d o. t.same d (ground arith) ∙ Chain.write-other w.store a d none (ground arith);
        },
      )

  -- a slot is emptied
  empty-IsWheel :
      (l : Slots) (w w' : TimeWheel) → IsWheel l w → Emptied i w (l i) w' → IsWheel (put l i []) w'
  empty-IsWheel l w w' wf t =
      relink i [] w' wf hi (subst (λ n. n < slot_count) (sym t.current) wf.current) t.slots tt
        (λ a o _. t.same a o) (λ a m. cc) tt

-- what the destructor does from slot `i` on
pub record Destroyed (i : ℕ) (l : Slots) (w w' : TimeWheel) : Type 0 where
  pub gone : (j : ℕ) → i ≤ j → j < slot_count → (d : Ptr) → has d (l j) ≡ true → w'.store d ≡ none
  pub same :
      (d : Ptr) → ((j : ℕ) → i ≤ j → j < slot_count → has d (l j) ≡ false) → w'.store d ≡ w.store d

Destroyed-suc :
    (i : ℕ) (l : Slots) (w w1 w' : TimeWheel)
    → i < slot_count
    → IsWheel l w
    → Emptied i w (l i) w1
    → Destroyed (i + 1) (put l i []) w1 w'
    → Destroyed i l w w'
Destroyed-suc i l w w1 w' hi wf e t = record {
  gone = λ j low hj d m. elim (Bool-cases (j == i)) [
    | inl is ↦
        let at : has d (l i) ≡ true = ground arith in
        t.same d (λ k lo hk. elim (Bool-cases (has d (l k))) [
          | inl h ↦ let same = wf.apart i k d hi hk at h in absurd (omega arith)
          | inr o ↦ rw (ne→== k i (omega arith)) o
        ])
        ∙ e.gone d at
    | inr other ↦ t.gone j (ground arith) hj d (rw other m)
  ];
  same = λ d o.
      t.same d (λ k lo hk. rw (ne→== k i (omega arith)) (o k (omega arith) hk))
      ∙ e.same d (o i (omega arith) hi);
}

destroy_slots-Destroyed :
    (fuel left i : ℕ) (l : Slots) (w : TimeWheel)
    → i + left ≡ slot_count
    → IsWheel l w
    → ((j : ℕ) → j < slot_count → length (l j) < fuel)
    → Returns (Destroyed i l w) (destroy_slots fuel left i w)
unfolding destroy_slots slot
destroy_slots-Destroyed fuel zero i l w sum wf enough =
    (w, refl, record { gone = λ j low hj. absurd (omega arith); same = λ d o. refl })
destroy_slots-Destroyed fuel (suc k) i l w sum wf enough =
    let hi : i < slot_count = omega arith in
    let (w1, run1, e) =
      destroy_loop-Emptied i hi fuel w null (l i) (wf.chains i hi) (wf.heads i hi) (enough i hi) in
    let (w', run, t) =
      destroy_slots-Destroyed fuel k (i + 1) (put l i []) w1 (omega arith)
        (empty-IsWheel i hi l w w1 wf e)
        (λ j hj. elim (Bool-cases (j == i)) [
          | inl is ↦ rw is (let h = enough j hj in omega arith)
          | inr o ↦ rw o (enough j hj)
        ]) in
    let at : destroy_loop fuel i w (w.slots i) ≡ ok w1 =
      ap (destroy_loop fuel i w) (wf.heads i hi) ∙ run1 in
    (w', rw (lt→ltb i slot_count hi, at) run, Destroyed-suc i l w w1 w' hi wf e t)

-- The destructor of a wheel, with fuel above the number of timers of each slot, deletes every timer
-- of every slot once, and nothing else.
pub destroy-Destroyed :
    (fuel : ℕ) (l : Slots) (w : TimeWheel)
    → IsWheel l w
    → ((j : ℕ) → j < slot_count → length (l j) < fuel)
    → Returns (Destroyed 0 l w) (destroy fuel w)
unfolding destroy
destroy-Destroyed fuel l w wf enough = destroy_slots-Destroyed fuel 60 0 l w refl wf enough
