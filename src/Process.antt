-- ===== src/Process.antt =====
-- Processes as trees of system calls: what the programs' `main` functions do, for every answer
-- that the kernel may give.
-- A descriptor is a C `int`. `argv` is given by what `atoi` makes of each argument, and an argument
-- past the last is NULL, which `atoi` does not take.
pub mod Kernel
pub mod Files
pub mod Epoll
pub mod Exec
use linux_server_programming.Base.{
  ℕ, zero, suc, ◌+◌, ◌*◌, ◌/◌, ◌%◌, Bool, true, false, List, [], ◌∷◌, ltb, leb, ◌==◌, if◌then◌else◌,
  ℤ, pos, negsuc, Run,
}

pub data Kind : Type 0 where
  stream dgram : Kind

-- The port is what stands in `sin_port`. A program has one file and one
-- shared memory, which it names. `allocate` is `new`,
-- with the addresses that are in use.
pub data Sys : Type 0 where
  socket : Kind → Sys
  bind connect : (fd : ℤ) (sin_port : ℕ) → Sys
  listen : (fd : ℤ) (backlog : ℕ) → Sys
  accept close : (fd : ℤ) → Sys
  recv : (fd : ℤ) (size : ℕ) → Sys
  send : (fd : ℤ) (bytes : List ℕ) → Sys
  set_option get_option : (fd : ℤ) (value : ℕ) → Sys
  epoll_create : Sys
  epoll_wait : (epoll_fd : ℤ) → Sys
  epoll_add : (epoll_fd fd : ℤ) → Sys
  set_nonblocking : (fd : ℤ) → Sys
  socketpair : Sys
  add_signal : ℕ → Sys
  poll : (fds : List ℤ) → Sys
  stat open_file : Sys
  read_file : (fd : ℤ) (size : ℕ) → Sys
  writev : (fd : ℤ) (parts : List (List ℕ)) → Sys
  epoll_del : (epoll_fd fd : ℤ) → Sys
  alarm : (seconds : ℕ) → Sys
  time : Sys
  allocate : (in_use : ℕ → Bool) → Sys
  pipe : Sys
  splice : (from to : ℤ) (size : ℕ) → Sys
  open_shared : Sys
  resize map_shared : (fd : ℤ) (size : ℕ) → Sys

-- What `epoll_wait` and `poll` report of a descriptor.
pub record Event : Type 0 where
  pub fd : ℤ
  pub readable : Bool
  pub hang_up : Bool
  pub error : Bool

-- no event
abbrev pub nothing : Event
nothing = record { fd = negsuc 0; readable = false; hang_up = false; error = false }

-- what `poll` writes to entry `i`
abbrev pub event_at : ℕ → List Event → Event
event_at i [] = nothing
event_at zero (e ∷ es) = e
event_at (suc i) (e ∷ es) = event_at i es

-- What `stat` writes of a file: whether it is a directory, `st_mode` and `st_size`.
pub record Stat : Type 0 where
  pub is_dir : Bool
  pub mode : ℕ
  pub size : ℕ

-- `ret` is what the call returns, `errno` whether a failure is EAGAIN or EINTR, the others what it
-- writes through its arguments.
pub record Answer : Type 0 where
  pub ret : ℤ
  pub try_again : Bool
  pub bytes : List ℕ
  pub pair : ℕ × ℕ
  pub events : List Event
  pub file : Stat

-- `paused` is where the part of a run that is looked at ends.
pub data Prog (A : Type 0) : Type 0 where
  done : A → Prog A
  fault aborted out_of_fuel paused : Prog A
  sys : Sys → (Answer → Prog A) → Prog A

infixl 5 ◌>>=◌ ◌>>◌
abbrev pub ◌>>=◌ : {A B : Type 0} → Prog A → (A → Prog B) → Prog B
done a >>= f = f a
fault >>= f = fault
aborted >>= f = aborted
out_of_fuel >>= f = out_of_fuel
paused >>= f = paused
sys c k >>= f = sys c (λ r. k r >>= f)

abbrev pub ◌>>◌ : {A B : Type 0} → Prog A → Prog B → Prog B
p >> q = p >>= λ _. q

abbrev pub call : Sys → Prog Answer
call c = sys c done

abbrev pub invoke : Sys → Prog ℤ
invoke c = sys c (λ r. done r.ret)

abbrev pub is_neg : ℤ → Bool
is_neg (pos _) = false
is_neg (negsuc _) = true

abbrev pub is_minus_one : ℤ → Bool
is_minus_one (pos _) = false
is_minus_one (negsuc n) = n == 0

-- `assert`
abbrev pub assert : Bool → Prog (Unit {0})
assert true = done tt
assert false = aborted

-- `atoi(argv[i])`
unfoldable pub arg : List ℕ → ℕ → Prog ℕ
arg [] i = fault
arg (a ∷ _) zero = done a
arg (_ ∷ as') (suc i) = arg as' i

abbrev pub argc : List ℕ → ℕ
argc [] = 0
argc (_ ∷ args) = suc (argc args)

-- a 16-bit number with its bytes swapped
abbrev pub htons : ℕ → ℕ
htons n = n % 256 * 256 + n / 256 % 256

abbrev pub same_fd : ℤ → ℤ → Bool
same_fd (pos a) (pos b) = a == b
same_fd (negsuc a) (negsuc b) = a == b
same_fd _ _ = false

-- a run on the program's memory
abbrev pub from_run : {A : Type 0} → Run A → Prog A
from_run (Run.ok a) = done a
from_run Run.fault = fault
from_run Run.out_of_fuel = out_of_fuel
