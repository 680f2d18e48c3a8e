-- ===== src/Process/Exec.antt =====
-- Runs of a process: the calls it makes while the kernel answers in a given way.
use linux_server_programming.Base.{
  ◌≡◌, refl, ap, take, ℕ, List, [], ◌∷◌, Bool, false, ℤ, pos, length,
}
use linux_server_programming.Process.{
  Sys, recv, Event, Answer, Prog, done, fault, aborted, out_of_fuel, paused, sys, ◌>>=◌,
}

-- Where the answers end, the process waits in its next call, which is the last of the log.
unfoldable pub calls_of : {A : Type 0} → Prog A → List Answer → List Sys
calls_of (sys c k) [] = c ∷ []
calls_of (sys c k) (r ∷ rs) = c ∷ calls_of (k r) rs
calls_of (done _) rs = []
calls_of fault rs = []
calls_of aborted rs = []
calls_of out_of_fuel rs = []
calls_of paused rs = []

pub calls_of_assoc :
    {A B C : Type 0} (p : Prog A) (f : A → Prog B) (g : B → Prog C) (rs : List Answer)
    → calls_of ((p >>= f) >>= g) rs ≡ calls_of (p >>= λ a. f a >>= g) rs
unfolding calls_of
calls_of_assoc (done a) f g rs = refl
calls_of_assoc fault f g rs = refl
calls_of_assoc aborted f g rs = refl
calls_of_assoc out_of_fuel f g rs = refl
calls_of_assoc paused f g rs = refl
calls_of_assoc (sys c k) f g [] = refl
calls_of_assoc (sys c k) f g (r ∷ rs) = ap (λ cs. c ∷ cs) (calls_of_assoc (k r) f g rs)

-- an answer of a call that concerns no file and opens no pair
abbrev pub answer : ℤ → Bool → List ℕ → List Event → Answer
answer ret again bytes events = record {
  ret = ret;
  try_again = again;
  bytes = bytes;
  pair = (0, 0);
  events = events;
  file = record { is_dir = false; mode = 0; size = 0 };
}

-- `recv` has read these bytes.
abbrev pub got : List ℕ → Answer
got bs = answer (pos (length bs)) false bs []

-- How a process stands once these answers are used up.
pub data Outcome (A : Type 0) : Type 0 where
  returned : A → Outcome A
  crashed assertion_failed unfinished waiting : Outcome A

unfoldable pub outcome : {A : Type 0} → Prog A → List Answer → Outcome A
outcome (sys c k) [] = waiting
outcome (sys c k) (r ∷ rs) = outcome (k r) rs
outcome (done a) rs = returned a
outcome fault rs = crashed
outcome aborted rs = assertion_failed
outcome out_of_fuel rs = unfinished
outcome paused rs = unfinished

-- the same, where each answer depends on its call
unfoldable pub outcome_on : {A : Type 0} → Prog A → List (Sys → Answer) → Outcome A
outcome_on (sys c k) [] = waiting
outcome_on (sys c k) (f ∷ fs) = outcome_on (k (f c)) fs
outcome_on (done a) fs = returned a
outcome_on fault fs = crashed
outcome_on aborted fs = assertion_failed
outcome_on out_of_fuel fs = unfinished
outcome_on paused fs = unfinished

-- `recv` reads as much of `bs` as it is asked for.
abbrev pub delivers : List ℕ → Sys → Answer
delivers bs (recv _ size) = got (take size bs)
delivers bs _ = answer (pos 0) false [] []

-- Every other call succeeds, with this result.
abbrev pub returns : ℕ → Sys → Answer
returns n _ = answer (pos n) false [] []
