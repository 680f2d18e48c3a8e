-- ===== src/Callback.antt =====
-- The calls that a timer container makes through its timers' callback pointers, as a log.
-- What the callbacks of the three timer programs do (they close a connection) does not touch the
-- container, so a call is an entry of the log.
use linux_server_programming.Base.{ℕ, Option, none, some, List, [], ◌∷◌, ◌++◌, Run, ok, fault}

pub record Call : Type 0 where
  pub func : ℕ
  pub arg : Option ℕ

abbrev pub call : ℕ → Option ℕ → Call
call f a = record { func = f; arg = a }

-- A call through a pointer that was never set is a fault.
abbrev pub call_back : Option ℕ → Option ℕ → List Call → Run (List Call)
call_back none arg log = fault
call_back (some f) arg log = ok (log ++ call f arg ∷ [])
