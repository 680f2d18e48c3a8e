-- ===== src/IpcPrivate.antt =====
-- IPC_Private.cpp: a parent and its child take turns by a semaphore of their own.
-- A scheduler picks who takes the next step. A wait on a semaphore of value 0 leaves the process
-- where it is, as `waitpid` leaves the parent while the child runs. What `semop` returns is not
-- looked at, so on a deleted semaphore both operations pass. `sleep` and `printf` are left out.
pub mod Turns
mod Tests
use linux_server_programming.Base.{
  ℕ, ◌+◌, ◌-◌, Bool, true, false, List, [], ◌∷◌, ◌==◌, if◌then◌else◌,
}

-- Where a process stands: before, between and behind its two calls of `pv`.
pub data Stage : Type 0 where
  before between behind : Stage

pub record Pair : Type 0 where
  pub value : ℕ
  pub removed : Bool
  pub parent : Stage
  pub child : Stage

-- the state behind `fork`: `semctl` has set the value to 1.
abbrev pub forked : Pair
forked = record { value = 1; removed = false; parent = before; child = before }

-- The new value of the semaphore, and whether the call has returned.
unfoldable pub pv_down : Pair → ℕ × Bool
pv_down s =
    if s.removed then (s.value, true) else if s.value == 0 then (0, false) else (s.value - 1, true)

unfoldable pub pv_up : Pair → ℕ
pv_up s = if s.removed then s.value else s.value + 1

unfoldable pub step_child : Stage → Pair → Pair
step_child before s =
    let (value, passed) = pv_down s in
    record s { value = value; child = if passed then between else before }
step_child between s = record s { value = pv_up s; child = behind }
step_child behind s = s

abbrev pub has_ended : Stage → Bool
has_ended behind = true
has_ended _ = false

-- Behind its turn the parent waits for the child and deletes the semaphore.
unfoldable pub step_parent : Stage → Pair → Pair
step_parent before s =
    let (value, passed) = pv_down s in
    record s { value = value; parent = if passed then between else before }
step_parent between s = record s { value = pv_up s; parent = behind }
step_parent behind s = record s { removed = if has_ended s.child then true else s.removed }

-- `true` picks the parent.
unfoldable pub run : List Bool → Pair → Pair
run [] s = s
run (true ∷ picks) s = run picks (step_parent s.parent s)
run (false ∷ picks) s = run picks (step_child s.child s)
