-- ===== src/TimeHeap/Items.antt =====
-- Arrays as functions on indices, and how often a pointer stands among the first `n` entries.
use linux_server_programming.Base.{
  ℕ, zero, suc, ◌+◌, ◌≤◌, ◌<◌, ◌≡◌, refl, Bool, true, false, arith, ◌==◌, if◌then◌else◌, Bool-cases,
  inl, inr,
}
use native.Mathlib.Numerals.{add-one}
use linux_server_programming.Memory.{Ptr}

abbrev pub upd : (ℕ → Ptr) → ℕ → Ptr → ℕ → Ptr
upd a i x = λ j. if j == i then x else a j

abbrev pub one : Bool → ℕ
one true = 1
one false = 0

unfoldable pub count : Ptr → ℕ → (ℕ → Ptr) → ℕ
count p zero a = 0
count p (suc n) a = one (a n == p) + count p n a

-- the same pointers, as often
abbrev pub SameItems : ℕ → (ℕ → Ptr) → (ℕ → Ptr) → Type 0
SameItems n a b = (p : Ptr) → count p n a ≡ count p n b

pub count-same :
    (p : Ptr) (n : ℕ) (a b : ℕ → Ptr) → ((i : ℕ) → i < n → a i ≡ b i) → count p n a ≡ count p n b
unfolding count
count-same p zero a b h = refl
count-same p (suc n) a b h = ground (arith, h n, count-same p n a b (λ i k. h i (omega arith)))

-- a write trades the old entry for the new one
pub count-upd :
    (p : Ptr) (n : ℕ) (a : ℕ → Ptr) (i : ℕ) (x : Ptr)
    → i < n
    → count p n (upd a i x) + one (a i == p) ≡ count p n a + one (x == p)
unfolding count
count-upd p zero a i x h = absurd (omega arith)
count-upd p (suc n) a i x h = elim (Bool-cases (n == i)) [
  | inl e ↦
      let is : n ≡ i = ground arith in
      let rest = count-same p n (upd a i x) a (λ j k. ground arith) in
      let same : one (a n == p) ≡ one (a i == p) = rw is in rw e (omega arith)
  | inr e ↦ let ih = count-upd p n a i x (ground arith) in rw e (omega arith)
]

-- a pointer that is counted stands somewhere
pub count-find : (p : Ptr) (n : ℕ) (a : ℕ → Ptr) → 0 < count p n a → (i : ℕ) × (i < n) × (a i ≡ p)
unfolding count
count-find p zero a h = absurd (omega arith)
count-find p (suc n) a h = elim (Bool-cases (a n == p)) [
  | inl e ↦ (n, omega arith, ground arith)
  | inr e ↦
      let (i, lt, is) = count-find p n a (let h' = rw e at h in omega arith) in (i, omega arith, is)
]

pub count-pos : (n : ℕ) (a : ℕ → Ptr) (i : ℕ) → i < n → 0 < count (a i) n a
unfolding count
count-pos zero a i h = absurd (omega arith)
count-pos (suc n) a i h = elim (Bool-cases (n == i)) [
  | inl e ↦ let is : n ≡ i = ground arith in rw is (ground arith)
  | inr e ↦ let ih = count-pos n a i (ground arith) in omega arith
]

-- Moving an entry from `c` to the hole at `i` keeps what the array holds, the hole filled with `x`.
pub count-move :
    (p : Ptr) (n : ℕ) (a : ℕ → Ptr) (i c : ℕ) (x : Ptr)
    → i < n
    → c < n
    → (c == i) ≡ false
    → count p n (upd (upd a i (a c)) c x) ≡ count p n (upd a i x)
count-move p n a i c x hi hc ne =
    let moved = count-upd p n (upd a i (a c)) c x hc in
    let kept = count-upd p n a i (a c) hi in
    let filled = count-upd p n a i x hi in
    let own : one (upd a i (a c) c == p) ≡ one (a c == p) = rw ne in omega arith

-- an entry behind the last one
pub count-push :
    (q : Ptr) (n : ℕ) (a : ℕ → Ptr) (p : Ptr)
    → count q (n + 1) (upd a n p) ≡ count q n a + one (p == q)
count-push q n a p =
    let same = count-same q n (upd a n p) a (λ i h. ground arith) in
    let here : (n == n) ≡ true = ground arith in
    let step : count q (suc n) (upd a n p) ≡ one (p == q) + count q n (upd a n p) =
      unfold count in rw here refl in
    rw add-one (omega arith)

-- no more than once, if the new entry was not there
pub count-push_once :
    (q : Ptr) (n : ℕ) (a : ℕ → Ptr) (p : Ptr)
    → count p n a ≡ 0
    → count q n a ≤ 1
    → count q n a + one (p == q) ≤ 1
count-push_once q n a p new once = elim (Bool-cases (p == q)) [
  | inl e ↦
      let is : p ≡ q = ground arith in
      let none_there : count q n a ≡ 0 = rw is at new in rw e (omega arith)
  | inr e ↦ rw e (omega arith)
]

-- two places that hold the same pointer
pub count-two : (n : ℕ) (a : ℕ → Ptr) (i j : ℕ) → i < j → j < n → a i ≡ a j → 2 ≤ count (a i) n a
count-two zero a i j lt hj e = absurd (omega arith)
count-two (suc n) a i j lt hj e = elim (Bool-cases (n == j)) [
  | inl is ↦
      let at_end : n ≡ j = ground arith in
      let hit : (a n == a i) ≡ true = rw (at_end, e) (ground arith) in
      let pos = count-pos n a i (omega arith) in
      let step : count (a i) (suc n) a ≡ one (a n == a i) + count (a i) n a =
        unfold count in refl in
      let full : one (a n == a i) ≡ 1 = rw hit refl in omega arith
  | inr is ↦
      let ih = count-two n a i j lt (ground arith) e in
      let step : count (a i) (suc n) a ≡ one (a n == a i) + count (a i) n a =
        unfold count in refl in
      omega arith
]
