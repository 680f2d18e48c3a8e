-- ===== src/Process/Kernel.antt =====
-- What holds of a process for every answer that a kernel may give.
use linux_server_programming.Base.{
  ℕ, zero, suc, ◌<◌, arith, List, [], ◌∷◌, ◌≡◌, refl, Bool, true, false, if◌then◌else◌,
}
use linux_server_programming.Process.{
  Sys, Answer, Prog, done, fault, aborted, out_of_fuel, paused, sys, ◌>>=◌, assert, arg, argc,
}

-- A view of the process that a kernel has: in which states it may make a call, what the kernel
-- promises of the answer, and the state behind it.
pub record Kernel (S : Type 0) : Type 1 where
  pub allowed : S → Sys → Type 0
  pub granted : S → Sys → Answer → Type 0
  pub after : S → Sys → Answer → S

-- Whatever the kernel answers, the process never faults, no loop runs out of fuel, every call is
-- allowed, and where it ends, `P` holds of the state and of its result. A failed `assert` ends it too.
unfoldable pub Throughout : {S A : Type 0} → Kernel S → (S → A → Type 0) → S → Prog A → Type 0
Throughout o P s (done a) = P s a
Throughout o P s fault = ⊥
Throughout o P s aborted = Unit
Throughout o P s out_of_fuel = ⊥
Throughout o P s paused = Unit
Throughout o P s (sys c k) =
    o.allowed s c × ((r : Answer) → o.granted s c r → Throughout o P (o.after s c r) (k r))

module _ {S : Type 0} (o : Kernel S) where
  pub bind-Throughout :
      {A B : Type 0} (Q : S → A → Type 0) (P : S → B → Type 0) (s : S) (p : Prog A) (f : A → Prog B)
      → Throughout o Q s p
      → ((s' : S) (a : A) → Q s' a → Throughout o P s' (f a))
      → Throughout o P s (p >>= f)
  unfolding Throughout
  bind-Throughout Q P s (done a) f h g = g s a h
  bind-Throughout Q P s fault f h g = h
  bind-Throughout Q P s aborted f h g = tt
  bind-Throughout Q P s out_of_fuel f h g = h
  bind-Throughout Q P s paused f h g = tt
  bind-Throughout Q P s (sys c k) f (may, h) g =
      (may, λ r granted. bind-Throughout Q P (o.after s c r) (k r) f (h r granted) g)

  -- a kernel that promises more
  pub stricter-Throughout :
      {A : Type 0} (promised : S → Sys → Answer → Type 0) (P : S → A → Type 0) (s : S) (p : Prog A)
      → ((t : S) (c : Sys) (r : Answer) → promised t c r → o.granted t c r)
      → Throughout o P s p
      → Throughout (record o { granted = promised }) P s p
  unfolding Throughout
  stricter-Throughout promised P s (done a) f h = h
  stricter-Throughout promised P s fault f h = h
  stricter-Throughout promised P s aborted f h = tt
  stricter-Throughout promised P s out_of_fuel f h = h
  stricter-Throughout promised P s paused f h = tt
  stricter-Throughout promised P s (sys c k) f (may, h) =
      (may, λ r g. stricter-Throughout promised P (o.after s c r) (k r) f (h r (f s c r g)))

  pub done-Throughout :
      {A : Type 0} (P : S → A → Type 0) (s : S) (a : A) → P s a → Throughout o P s (done a)
  unfolding Throughout
  done-Throughout P s a h = h

  pub sys-Throughout :
      {A : Type 0} (P : S → A → Type 0) (s : S) (c : Sys) (k : Answer → Prog A)
      → o.allowed s c
      → ((r : Answer) → o.granted s c r → Throughout o P (o.after s c r) (k r))
      → Throughout o P s (sys c k)
  unfolding Throughout
  sys-Throughout P s c k may h = (may, h)

  pub if-Throughout :
      {A : Type 0} (P : S → A → Type 0) (s : S) (b : Bool) (p q : Prog A)
      → (b ≡ true → Throughout o P s p)
      → (b ≡ false → Throughout o P s q)
      → Throughout o P s (if b then p else q)
  if-Throughout P s true p q hp hq = hp refl
  if-Throughout P s false p q hp hq = hq refl

  pub assert-Throughout :
      {A : Type 0} (P : S → A → Type 0) (s : S) (b : Bool) (p : Prog A)
      → (b ≡ true → Throughout o P s p)
      → Throughout o P s (assert b >>= λ _. p)
  assert-Throughout P s true p h = h refl
  assert-Throughout P s false p h = unfold Throughout in tt

  pub assert-any :
      {A : Type 0} (P : S → A → Type 0) (s : S) (b : Bool) (p : Prog A)
      → Throughout o P s p
      → Throughout o P s (assert b >>= λ _. p)
  assert-any P s b p h = assert-Throughout P s b p (λ _. h)

  -- an argument that is given
  pub arg-Throughout :
      {A : Type 0} (P : S → A → Type 0) (s : S) (argv : List ℕ) (i : ℕ) (k : ℕ → Prog A)
      → i < argc argv
      → ((a : ℕ) → Throughout o P s (k a))
      → Throughout o P s (arg argv i >>= k)
  unfolding arg
  arg-Throughout P s [] i k few h = absurd (omega arith)
  arg-Throughout P s (a ∷ argv) zero k few h = h a
  arg-Throughout P s (a ∷ argv) (suc i) k few h = arg-Throughout P s argv i k (omega arith) h
