-- ===== src/TimerServer/Marked.antt =====
-- The timers of the wheel of TimeWheel.cpp and the clients they belong to.
use linux_server_programming.Base.{
  ℕ, ◌<◌, ◌≡◌, ◌≢◌, refl, sym, ◌∙◌, subst, arith, true, false, ◌&&◌, not, none, some, List, [], ◌∷◌,
  ◌==◌, if◌then◌else◌, Bool-cases, inl, inr, ne→==, ==_refl, ltb,
}
use linux_server_programming.Memory.{Ptr, null, Store}
use linux_server_programming.Memory.Chain
use linux_server_programming.Memory.Chain.{Cells, Chain, has, first, erase}
use linux_server_programming.Callback.{Call, call}
use linux_server_programming.TimeWheel.{TwTimer, TimeWheel, slot_count}
use linux_server_programming.TimeWheel.Sweep.{sweep, fired, Armed, has-sweep}
use linux_server_programming.TimeWheel.Invariant.{Slots, put, IsWheel}
use linux_server_programming.TimerServer.Containers.{callback}
use linux_server_programming.TimerServer.Clients.{Owner, without, with_timer}

-- Each timer calls back for its owner.
abbrev pub Marked : Owner → Cells TwTimer → Type 0
Marked o [] = Unit
Marked o ((p, v) ∷ xs) =
    ((n : ℕ) × (v.cb_func ≡ some callback) × (v.user_data ≡ some n) × (o p ≡ some n)) × Marked o xs

-- The timers in the slots are those that have an owner.
pub record Matches (o : Owner) (l : Slots) : Type 0 where
  pub marked : (i : ℕ) → i < slot_count → Marked o (l i)
  pub found : (p n : ℕ) → o p ≡ some n → (i : ℕ) × (i < slot_count) × (has p (l i) ≡ true)

abbrev pub Unique : Cells TwTimer → Type 0
Unique [] = Unit
Unique ((p, v) ∷ xs) = (has p xs ≡ false) × Unique xs

pub Chain-Unique : (h : Store TwTimer) (q : Ptr) (xs : Cells TwTimer) → Chain h q xs → Unique xs
Chain-Unique h q [] c = tt
Chain-Unique h q ((p, v) ∷ xs) (live, at, new, c) = (new, Chain-Unique h p xs c)

pub Armed-Marked : (o : Owner) (xs : Cells TwTimer) → Marked o xs → Armed xs
Armed-Marked o [] m = tt
Armed-Marked o ((p, v) ∷ xs) ((n, cb, user, own), m) =
    ((λ e. let z : some callback ≡ none = sym cb ∙ e in cc), Armed-Marked o xs m)

Marked-change :
    (o o' : Owner) (xs : Cells TwTimer)
    → Marked o xs
    → ((p : Ptr) → has p xs ≡ true → o' p ≡ o p)
    → Marked o' xs
Marked-change o o' [] m same = tt
Marked-change o o' ((p, v) ∷ xs) ((n, cb, user, own), m) same = (
  (n, cb, user, same p (rw (==_refl p)) ∙ own),
  Marked-change o o' xs m (λ q h. same q (ground arith)),
)

Marked-sweep : (o : Owner) (xs : Cells TwTimer) → Marked o xs → Marked o (sweep xs)
unfolding sweep
Marked-sweep o [] m = tt
Marked-sweep o ((p, v) ∷ xs) (mine, m) = elim (Bool-cases (ltb 0 v.rotation)) [
  | inl e ↦ rw e (mine, Marked-sweep o xs m)
  | inr e ↦ rw e (Marked-sweep o xs m)
]

Marked-erase : (o : Owner) (p : Ptr) (xs : Cells TwTimer) → Marked o xs → Marked o (erase p xs)
Marked-erase o p [] m = tt
Marked-erase o p ((a, v) ∷ xs) (mine, m) = elim (Bool-cases (p == a)) [
  | inl e ↦ rw e m
  | inr e ↦ rw e (mine, Marked-erase o p xs m)
]

has-erase_other :
    (p q : Ptr) (xs : Cells TwTimer)
    → (q == p) ≡ false
    → has q xs ≡ true
    → has q (erase p xs) ≡ true
has-erase_other p q [] o h = h
has-erase_other p q ((a, v) ∷ xs) o h = ground (arith, has-erase_other p q xs)

-- timers with their clients, one after the other
abbrev pub AllOwned : Owner → Cells ℕ → Type 0
AllOwned o [] = Unit
AllOwned o ((p, n) ∷ qs) = (o p ≡ some n) × (has p qs ≡ false) × AllOwned o qs

abbrev pub without_all : Cells ℕ → Owner → Owner
without_all [] o = o
without_all ((p, _) ∷ qs) o = without_all qs (without p o)

abbrev pub calls_by : Cells ℕ → List Call
calls_by [] = []
calls_by ((_, n) ∷ qs) = call callback (some n) ∷ calls_by qs

pub AllOwned-without :
    (o : Owner) (p : Ptr) (qs : Cells ℕ)
    → AllOwned o qs
    → has p qs ≡ false
    → AllOwned (without p o) qs
AllOwned-without o p [] a out = tt
AllOwned-without o p ((q, n) ∷ qs) (own, new, a) out =
    let other : (q == p) ≡ false = ground arith in
    (rw other own, new, AllOwned-without o p qs a (ground arith))

without_all-has :
    (qs : Cells ℕ) (o : Owner) (p : Ptr) → without_all qs o p ≡ (if has p qs then none else o p)
without_all-has [] o p = refl
without_all-has ((q, n) ∷ qs) o p = without_all-has qs (without q o) p ∙ ground arith

-- the timers that fire, with their clients
abbrev pub Due : Owner → Cells TwTimer → Cells ℕ → Type 0
Due o xs qs =
    (fired xs ≡ calls_by qs)
    × AllOwned o qs
    × ((p : Ptr) → has p qs ≡ has p xs && not (has p (sweep xs)))

pub Due-fired :
    (o : Owner) (xs : Cells TwTimer) → Marked o xs → Unique xs → (qs : Cells ℕ) × Due o xs qs
unfolding fired sweep
Due-fired o [] m u = ([], (refl, tt, λ p. refl))
Due-fired o ((p, v) ∷ xs) ((n, cb, user, own), m) (new, u) =
    let (qs, (calls, owned, which)) = Due-fired o xs m u in
    elim (Bool-cases (ltb 0 v.rotation)) [
      | inl e ↦ (
        qs,
        (
          rw e calls,
          owned,
          λ q. rw e (elim (Bool-cases (q == p)) [
            | inl here ↦ let is : q ≡ p = ground arith in rw (here, is) (which p ∙ rw new refl)
            | inr there ↦ rw there (which q)
          ]),
        ),
      )
      | inr e ↦ (
        (p, n) ∷ qs,
        (
          rw (e, cb, user, calls) refl,
          (own, which p ∙ rw new refl, owned),
          λ q. rw e (elim (Bool-cases (q == p)) [
            | inl here ↦ let is : q ≡ p = ground arith in rw (here, is, has-sweep p xs new) refl
            | inr there ↦ rw there (which q)
          ]),
        ),
      )
    ]

module _ (o : Owner) (l : Slots) (w : TimeWheel) (wf : IsWheel l w) (m : Matches o l) where
  -- `tick` has swept the current slot.
  pub sweep-Matches :
      (qs : Cells ℕ)
      → Due o (l w.cur_slot) qs
      → Matches (without_all qs o) (put l w.cur_slot (sweep (l w.cur_slot)))
  sweep-Matches qs (calls, owned, which) =
      let cur = w.cur_slot in
      record {
        marked = λ i hi. elim (Bool-cases (i == cur)) [
          | inl e ↦ rw e (
              Marked-change o (without_all qs o) (sweep (l cur))
                (Marked-sweep o (l cur) (m.marked cur wf.current))
                (λ p h. without_all-has qs o p ∙ ground (arith, which p)))
          | inr e ↦ rw e (
              Marked-change o (without_all qs o) (l i) (m.marked i hi) (λ p h.
                let out : has p (l cur) ≡ false = ground (arith, wf.apart i cur p hi wf.current) in
                without_all-has qs o p ∙ ground (arith, which p)))
        ];
        found = λ p n e.
            let kept : has p qs ≡ false = let at = without_all-has qs o p in ground arith in
            let own : o p ≡ some n = let at = without_all-has qs o p in ground arith in
            let (i, hi, h) = m.found p n own in
            (
              i,
              hi,
              elim (Bool-cases (i == cur)) [
                | inl e ↦
                    let is : i ≡ cur = ground arith in
                    let here : has p (l cur) ≡ true = subst (λ j. has p (l j) ≡ true) is h in
                    rw e (ground (arith, which p))
                | inr e ↦ rw e h
              ],
            );
      }

  -- The timer `p` of slot `i` is deleted.
  pub erase-Matches :
      (i : ℕ) (p : Ptr)
      → i < slot_count
      → has p (l i) ≡ true
      → Matches (without p o) (put l i (erase p (l i)))
  erase-Matches i p hi here =
      let gone = Chain.not-has-erase w.store null p (l i) (wf.chains i hi) in
      record {
        marked = λ j hj. elim (Bool-cases (j == i)) [
          | inl e ↦ rw e (
              Marked-change o (without p o) (erase p (l i)) (Marked-erase o p (l i) (m.marked i hi))
                (λ q h.
                  let other : q ≢ p =
                    λ is. let z = subst (λ a. has a (erase p (l i)) ≡ true) is h in cc in
                  rw (ne→== q p other)))
          | inr e ↦ rw e (
              Marked-change o (without p o) (l j) (m.marked j hj) (λ q h.
                let other : q ≢ p = λ is.
                  let both = wf.apart j i p hj hi (subst (λ a. has a (l j) ≡ true) is h) here in
                  ground arith in
                rw (ne→== q p other)))
        ];
        found = λ q n e.
            let other : (q == p) ≡ false = ground arith in
            let own : o q ≡ some n = ground arith in
            let (j, hj, h) = m.found q n own in
            (
              j,
              hj,
              elim (Bool-cases (j == i)) [
                | inl is ↦ rw is (
                    has-erase_other p q (l i) other
                      (let same : j ≡ i = ground arith in subst (λ a. has q (l a) ≡ true) same h))
                | inr is ↦ rw is h
              ],
            );
      }

  -- A timer of client `n` is put in front of slot `i`.
  pub put-Matches :
      (i : ℕ) (p : Ptr) (n : ℕ) (v : TwTimer) (l' : Slots)
      → i < slot_count
      → ((j : ℕ) → j < slot_count → has p (l j) ≡ false)
      → v.cb_func ≡ some callback
      → v.user_data ≡ some n
      → l' i ≡ (p, v) ∷ l i
      → ((j : ℕ) → j ≢ i → l' j ≡ l j)
      → Matches (with_timer p n o) l'
  put-Matches i p n v l' hi new cb user at others =
      let old : (j : ℕ) → j < slot_count → Marked (with_timer p n o) (l j) = λ j hj.
        Marked-change o (with_timer p n o) (l j) (m.marked j hj) (λ q h.
          let other : q ≢ p =
            λ is. let z = subst (λ a. has a (l j) ≡ true) is h in let y = new j hj in cc in
          rw (ne→== q p other)) in
      record {
        marked = λ j hj. elim (Bool-cases (j == i)) [
          | inl e ↦
              let is : i ≡ j = ground arith in
              subst (λ a. Marked (with_timer p n o) (l' a)) is
                (rw at ((n, cb, user, rw (==_refl p)), old i hi))
          | inr e ↦ rw (others j (λ is. ground arith)) (old j hj)
        ];
        found = λ q k e. elim (Bool-cases (q == p)) [
          | inl here ↦ (i, hi, rw (at, here) refl)
          | inr there ↦
              let (j, hj, h) = m.found q k (ground arith) in
              (
                j,
                hj,
                elim (Bool-cases (j == i)) [
                  | inl e ↦
                      let is : j ≡ i = ground arith in
                      subst (λ a. has q (l' a) ≡ true) (sym is)
                        (rw (at, there) (subst (λ a. has q (l a) ≡ true) is h))
                  | inr e ↦ rw (others j (λ is. ground arith)) h
                ],
              )
        ];
      }
