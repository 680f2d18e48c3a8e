-- ===== src/ShmChat/Invariant.antt =====
-- The invariant of the table of clients of ShmChat.cpp.
use linux_server_programming.Base.{
  ℕ, ◌≤◌, ◌<◌, ◌≡◌, pos, arith, ok, lt→ltb, ℤ, negsuc, sym, ◌∙◌, ap, ◌==◌, if◌then◌else◌,
}
use linux_server_programming.ShmChat.{
  Client, Server, user_limit, process_limit, new_server, user, set_user, process, set_process,
}

-- Every user's child is mapped to the user's index.
pub record IsServer (w : Server) : Type 0 where
  pub bound : w.user_count ≤ user_limit
  pub small : (i : ℕ) → i < w.user_count → (w.users i).pid < process_limit
  pub mapped : (i : ℕ) → i < w.user_count → w.sub_process ((w.users i).pid) ≡ pos i

-- `u` is one of the users.
pub record IsUser (w : Server) (u : Client) : Type 0 where
  pub index : ℕ
  pub below : index < w.user_count
  pub entry : w.users index ≡ u

pub new_server-IsServer : (us : ℕ → Client) → IsServer (new_server us)
unfolding new_server
new_server-IsServer us = record {
  bound = omega arith;
  small = λ i h. omega arith;
  mapped = λ i h. absurd (omega arith);
}

abbrev number : ℤ → ℕ
number (pos n) = n
number (negsuc _) = 0

-- no two users share a child
pub pid_injective :
    (w : Server) (i j : ℕ)
    → IsServer w
    → i < w.user_count
    → j < w.user_count
    → (w.users i).pid ≡ (w.users j).pid
    → i ≡ j
pid_injective w i j wf hi hj e =
    ap number (sym (wf.mapped i hi) ∙ ap w.sub_process e ∙ wf.mapped j hj)

pub user-ok : (w : Server) (i : ℕ) → i < user_limit → user w i ≡ ok (w.users i)
unfolding user
user-ok w i h = rw (lt→ltb i user_limit h)

pub set_user-ok :
    (w : Server) (i : ℕ) (u : Client)
    → i < user_limit
    → set_user w i u ≡ ok (record w { users = λ j. if j == i then u else w.users j })
unfolding set_user
set_user-ok w i u h = rw (lt→ltb i user_limit h)

pub process-ok :
    (w : Server) (pid : ℕ) → pid < process_limit → process w pid ≡ ok (w.sub_process pid)
unfolding process
process-ok w pid h = rw (lt→ltb pid process_limit h)

pub set_process-ok :
    (w : Server) (pid : ℕ) (n : ℤ)
    → pid < process_limit
    → set_process w pid n
      ≡ ok (record w { sub_process = λ q. if q == pid then n else w.sub_process q })
unfolding set_process
set_process-ok w pid n h = rw (lt→ltb pid process_limit h)
