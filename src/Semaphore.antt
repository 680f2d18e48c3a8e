-- ===== src/Semaphore.antt =====
-- seml.cpp: processes that print from a critical section guarded by a System V semaphore.
-- Any number of processes run the program, each with an argument or without. One that has an argument
-- sets the semaphore to 1 and deletes it. A scheduler picks which process takes its next step. A
-- wait on a semaphore of value 0 leaves the process where it is. `semget` and `semctl` succeed.
-- `sleep`, the messages to standard error and the line that a process prints once it has finished
-- are left out. The output of all processes goes to one terminal.
pub mod Exclusion
pub mod Schedules
mod Tests
use linux_server_programming.Base.{
  ℕ, zero, suc, ◌+◌, ◌-◌, Bool, true, false, List, [], ◌∷◌, ◌++◌, ◌==◌, if◌then◌else◌,
}

-- Where a process stands in `main`, with the rounds of its loop that are left.
pub data Pc : Type 0 where
  starting finished : Pc
  outside entered printed leaving : (rounds : ℕ) → Pc

pub record System : Type 0 where
  pub value : ℕ
  pub removed : Bool
  pub pc : ℕ → Pc
  pub output : List ℕ

-- `semget` has made a new semaphore, whose value is 0.
abbrev pub begin : System
begin = record { value = 0; removed = false; pc = λ _. starting; output = [] }

-- the rounds of the loop in `main`
abbrev pub round_count : ℕ
round_count = 10

unfoldable pub goto : ℕ → Pc → System → System
goto i p s = record s { pc = λ j. if j == i then p else s.pc j }

-- `set_semvalue`
unfoldable pub set_semvalue : System → System
set_semvalue s = record s { value = 1 }

-- `del_semvalue`
unfoldable pub del_semvalue : System → System
del_semvalue s = record s { removed = true }

-- `semaphore_p` and the exit where it fails
unfoldable pub semaphore_p : (i rounds : ℕ) → System → System
semaphore_p i rounds s =
    if s.removed
    then goto i finished s
    else if s.value == 0
    then s
    else goto i (entered rounds) (record s { value = s.value - 1 })

-- `semaphore_v` and the exit where it fails
unfoldable pub semaphore_v : (i rounds : ℕ) → System → System
semaphore_v i rounds s =
    if s.removed
    then goto i finished s
    else goto i (outside rounds) (record s { value = s.value + 1 })

unfoldable pub print : ℕ → System → System
print message s = record s { output = s.output ++ message ∷ [] }

-- The next step of process `i`, which stands at `p`. `has_arg` is `argc > 1`, and `message` the
-- character it prints.
unfoldable pub step : (has_arg : ℕ → Bool) (message : ℕ → ℕ) (i : ℕ) → Pc → System → System
step has_arg message i starting s =
    goto i (outside round_count) (if has_arg i then set_semvalue s else s)
step has_arg message i (outside zero) s = goto i finished (if has_arg i then del_semvalue s else s)
step has_arg message i (outside (suc k)) s = semaphore_p i k s
step has_arg message i (entered k) s = goto i (printed k) (print (message i) s)
step has_arg message i (printed k) s = goto i (leaving k) (print (message i) s)
step has_arg message i (leaving k) s = semaphore_v i k s
step has_arg message i finished s = s

unfoldable pub run : (has_arg : ℕ → Bool) (message : ℕ → ℕ) (schedule : List ℕ) → System → System
run has_arg message [] s = s
run has_arg message (i ∷ is) s = run has_arg message is (step has_arg message i (s.pc i) s)
