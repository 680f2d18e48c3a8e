-- ===== src/Base.antt =====
-- What the modules share: names of the libraries, tests on numbers, runs that may fault.
-- A run stands for the execution of C++ code: it returns, it does what C++ leaves undefined (a null
-- or dangling pointer, an index out of range, a failed assertion), or the model's fuel runs out.
pub use Prim.Native.Nat.{ℕ, zero, suc, ◌+◌, ◌-◌, ◌*◌, ◌/◌, ◌%◌, ◌≤◌, ◌<◌}
pub use mathlib.Core.Path.{◌≡◌, refl, sym, ap, ap₂, subst, subst₂, ◌∙◌}
pub use mathlib.Core.Logic.{◌≢◌, ◌⊎◌, ◌↔◌, inl, inr}
pub use mathlib.Core.Bool.{Bool, true, false, ◌&&◌, ◌||◌, not}
pub use mathlib.Core.Option.{Option, none, some}
pub use mathlib.Core.List.{List, [], ◌∷◌, ◌++◌, append_assoc, append-nil}
pub use native.Mathlib.Omega.{arith}
use Prim.Native.Nat.{compare, Ordering}

abbrev pub ltb : ℕ → ℕ → Bool
ltb a b = elim (compare a b) [ Ordering.lt ↦ true | _ ↦ false ]

abbrev pub leb : ℕ → ℕ → Bool
leb a b = elim (compare a b) [ Ordering.gt ↦ false | _ ↦ true ]

infix 50 ◌==◌
abbrev pub ◌==◌ : ℕ → ℕ → Bool
a == b = elim (compare a b) [ Ordering.eq ↦ true | _ ↦ false ]

infix 1 if◌then◌else◌
abbrev pub if◌then◌else◌ {ℓ} : {A : Type ℓ} → Bool → A → A → A
if true then x else y = x
if false then x else y = y

pub if_true : {A : Type 0} (b : Bool) (x y : A) → b ≡ true → (if b then x else y) ≡ x
if_true b x y e = rw e

pub if_false : {A : Type 0} (b : Bool) (x y : A) → b ≡ false → (if b then x else y) ≡ y
if_false b x y e = rw e

pub Bool-cases : (b : Bool) → (b ≡ true) ⊎ (b ≡ false)
Bool-cases true = inl refl
Bool-cases false = inr refl

pub lt→ltb : (a b : ℕ) → a < b → ltb a b ≡ true
lt→ltb a b h = ground arith

pub ltb→lt : (a b : ℕ) → ltb a b ≡ true → a < b
ltb→lt a b h = ground arith

pub ne→== : (a b : ℕ) → a ≢ b → (a == b) ≡ false
ne→== a b h = ground arith

pub ==_refl : (a : ℕ) → (a == a) ≡ true
==_refl a = ground arith

abbrev pub length {ℓ} : {A : Type ℓ} → List A → ℕ
length [] = 0
length (_ ∷ xs) = suc (length xs)

-- the first `k` elements
abbrev pub take : ℕ → List ℕ → List ℕ
take zero l = []
take (suc k) [] = []
take (suc k) (c ∷ l) = c ∷ take k l

pub take-all : (k : ℕ) (l : List ℕ) → length l ≤ k → take k l ≡ l
take-all zero [] h = refl
take-all zero (c ∷ l) h = absurd (omega arith)
take-all (suc k) [] h = refl
take-all (suc k) (c ∷ l) h = ap (λ t. c ∷ t) (take-all k l (omega arith))

pub length-append : (xs ys : List ℕ) → length (xs ++ ys) ≡ length xs + length ys
length-append [] ys = omega arith
length-append (x ∷ xs) ys = let h = length-append xs ys in omega arith

pub length-take :
    (k : ℕ) (l : List ℕ) → length (take k l) ≡ (if leb k (length l) then k else length l)
length-take zero l = ground arith
length-take (suc k) [] = ground arith
length-take (suc k) (c ∷ l) = ground (arith, length-take k l)

pub take-bound : (k : ℕ) (l : List ℕ) → length (take k l) ≤ k
take-bound zero l = omega arith
take-bound (suc k) [] = omega arith
take-bound (suc k) (c ∷ l) = let rest = take-bound k l in omega arith

-- A C `int`. `negsuc n` is -(n + 1).
pub data ℤ : Type 0 where
  pos : ℕ → ℤ
  negsuc : ℕ → ℤ

pub data Run {ℓ} (A : Type ℓ) : Type ℓ where
  ok : A → Run A
  fault out_of_fuel : Run A

infixl 5 ◌>>=◌
abbrev pub ◌>>=◌ {ℓ κ} : {A : Type ℓ} {B : Type κ} → Run A → (A → Run B) → Run B
ok a >>= f = f a
fault >>= f = fault
out_of_fuel >>= f = out_of_fuel

-- The run returns, and its result satisfies `P`.
abbrev pub Returns {ℓ κ} : {A : Type ℓ} → (A → Type κ) → Run A → Type (ℓ ⊔ κ)
Returns {A} P r = (a : A) × (r ≡ ok a) × P a
