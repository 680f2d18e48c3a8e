-- ===== src/ShmChat/Reachable.antt =====
-- The states that the parent of ShmChat.cpp reaches, event by event.
use linux_server_programming.Base.{
  ℕ, ◌<◌, ◌≡◌, ◌≢◌, refl, sym, ◌∙◌, ap, subst, arith, ◌==◌, Option, some, none, Bool-cases, inl,
  inr, Returns, ne→==, ok, fault, out_of_fuel, Run, leb, true, false, if◌then◌else◌, List, [], ◌∷◌,
}
use linux_server_programming.ShmChat.{
  Client, Server, Arrival, sigchld, sigterm, sigint, user_limit, process_limit, close_fd, refuse,
  new_server, accept_user, admit, handle_signal, shut_down, relay, perform,
}
use linux_server_programming.ShmChat.Invariant.{
  IsServer, IsUser, pid_injective, new_server-IsServer, user-ok, set_user-ok,
}
use linux_server_programming.ShmChat.ReapAll.{Children}
use linux_server_programming.ShmChat.ShutDown.{handle_signal-sigchld, shut_down-IsServer}
use linux_server_programming.ShmChat.Accept.{accept_user-joins}
use linux_server_programming.ShmChat.Relay.{relay-sends_except}

-- The kernel gives a new child a number that no running child has.
abbrev pub IsWelcome : Server → Arrival → Type 0
IsWelcome w a =
    (pid : ℕ) → a.pid ≡ some pid → (pid < process_limit) × ((u : Client) → IsUser w u → u.pid ≢ pid)

-- One branch of the event loop after another. `waitpid` returns distinct children of users.
pub data Reachable : Server → Type 0 where
  begin : (us : ℕ → Client) → Reachable (new_server us)
  arrives :
      (w w' : Server) (a : Arrival)
      → Reachable w
      → IsWelcome w a
      → accept_user w a ≡ ok w'
      → Reachable w'
  children_end :
      (w w' : Server) (pids : List ℕ)
      → Reachable w
      → Children w pids
      → handle_signal (sigchld pids) w ≡ ok w'
      → Reachable w'
  terminates : (w w' : Server) → Reachable w → handle_signal sigterm w ≡ ok w' → Reachable w'
  interrupts : (w w' : Server) → Reachable w → handle_signal sigint w ≡ ok w' → Reachable w'
  relays :
      (w w' : Server) (sockfd child : ℕ)
      → Reachable w
      → relay sockfd child w.user_count 0 w ≡ ok w'
      → Reachable w'

abbrev or_else {ℓ} : {A : Type ℓ} → A → Run A → A
or_else a (ok b) = b
or_else a fault = a
or_else a out_of_fuel = a

ok_injective {ℓ} : {A : Type ℓ} (a b : A) → ok a ≡ ok b → a ≡ b
ok_injective a b e = ap (or_else a) e

abbrev Returned : Run Server → Type 0
Returned (ok _) = Unit
Returned fault = ⊥
Returned out_of_fuel = ⊥

faulted : {B : Type 0} (w : Server) → fault ≡ ok w → B
faulted w e = absurd (subst Returned (sym e) tt)

ok-P : {P : Server → Type 0} (w : Server) (r : Run Server) → Returns P r → r ≡ ok w → P w
ok-P {P} w r (a, run, p) e = subst P (ok_injective a w (sym run ∙ e)) p

-- the failure of `fork`
pub fork-IsServer :
    (w : Server) (connfd address pipefd0 pipefd1 : ℕ)
    → IsServer w
    → w.user_count < user_limit
    → Returns IsServer (
        accept_user w (record {
          connfd = some connfd;
          address = address;
          pipe = some (pipefd0, pipefd1);
          pid = none;
        }))
unfolding accept_user admit
fork-IsServer w connfd address pipefd0 pipefd1 wf room =
    let n = w.user_count in
    let u : Client = record (w.users n) {
      address = address;
      connfd = connfd;
      pipefd0 = pipefd0;
      pipefd1 = pipefd1;
    } in
    let w1 : Server = record w { users = λ j. if j == n then u else w.users j } in
    let low : leb user_limit n ≡ false = ground arith in
    (
      perform w1 (close_fd connfd ∷ []),
      rw (low, user-ok w n room, set_user-ok w n u room),
      record {
        bound = wf.bound;
        small = λ j h. rw (ne→== j n (omega arith)) (wf.small j h);
        mapped = λ j h. rw (ne→== j n (omega arith)) (wf.mapped j h);
      },
    )

accept_user-IsServer :
    (w w' : Server) (connfd : Option ℕ) (address : ℕ) (pipe : Option (ℕ × ℕ)) (pid : Option ℕ)
    → IsServer w
    → IsWelcome w (record { connfd = connfd; address = address; pipe = pipe; pid = pid })
    → leb user_limit w.user_count ≡ false
    → accept_user w (record { connfd = connfd; address = address; pipe = pipe; pid = pid }) ≡ ok w'
    → IsServer w'
unfolding accept_user
accept_user-IsServer w w' none address pipe pid wf new e run =
    subst IsServer (ok_injective w w' run) wf
accept_user-IsServer w w' (some c) address none pid wf new e run =
    let a : Arrival = record { connfd = some c; address = address; pipe = none; pid = pid } in
    let stops : accept_user w a ≡ fault = rw e in faulted w' (sym stops ∙ run)
accept_user-IsServer w w' (some c) address (some (p, q)) none wf new e run =
    ok-P w'
      (accept_user w
        (record { connfd = some c; address = address; pipe = some (p, q); pid = none }))
      (fork-IsServer w c address p q wf (ground arith)) run
accept_user-IsServer w w' (some c) address (some (p, q)) (some pid) wf new e run =
    let (small, other) = new pid refl in
    let (w1, run1, (wf1, _, _, _)) =
      accept_user-joins w wf address c p q pid (ground arith) small other in
    subst IsServer (ok_injective w1 w' (sym run1 ∙ run)) wf1

-- a server that is full
accept_user-full :
    (w w' : Server) (connfd : Option ℕ) (address : ℕ) (pipe : Option (ℕ × ℕ)) (pid : Option ℕ)
    → IsServer w
    → leb user_limit w.user_count ≡ true
    → accept_user w (record { connfd = connfd; address = address; pipe = pipe; pid = pid }) ≡ ok w'
    → IsServer w'
unfolding accept_user
accept_user-full w w' none address pipe pid wf e run = subst IsServer (ok_injective w w' run) wf
accept_user-full w w' (some c) address pipe pid wf e run =
    let w1 = perform w (refuse c ∷ close_fd c ∷ []) in
    let a : Arrival = record { connfd = some c; address = address; pipe = pipe; pid = pid } in
    let away : accept_user w a ≡ ok w1 = rw e in
    subst IsServer (ok_injective w1 w' (sym away ∙ run))
      (record { bound = wf.bound; small = wf.small; mapped = wf.mapped })

Reachable-IsServer_lem : (w : Server) → Reachable w → IsServer w
unfolding handle_signal
Reachable-IsServer_lem w (begin us) = new_server-IsServer us
Reachable-IsServer_lem w' (arrives w _ a r new run) =
    let wf = Reachable-IsServer_lem w r in
    elim (Bool-cases (leb user_limit w.user_count)) [
      | inl e ↦ accept_user-full w w' a.connfd a.address a.pipe a.pid wf e run
      | inr e ↦ accept_user-IsServer w w' a.connfd a.address a.pipe a.pid wf new e run
    ]
Reachable-IsServer_lem w' (children_end w _ pids r cs run) =
    let (w1, run1, (wf1, _, _, _, _)) =
      handle_signal-sigchld w pids (Reachable-IsServer_lem w r) cs in
    subst IsServer (ok_injective w1 w' (sym run1 ∙ run)) wf1
Reachable-IsServer_lem w' (terminates w _ r run) =
    ok-P w' (shut_down w) (shut_down-IsServer w (Reachable-IsServer_lem w r)) run
Reachable-IsServer_lem w' (interrupts w _ r run) =
    ok-P w' (shut_down w) (shut_down-IsServer w (Reachable-IsServer_lem w r)) run
Reachable-IsServer_lem w' (relays w _ sockfd child r run) =
    let wf = Reachable-IsServer_lem w r in
    subst IsServer (ok_injective _ w' (sym (relay-sends_except sockfd child w wf) ∙ run))
      (record { bound = wf.bound; small = wf.small; mapped = wf.mapped })

-- In every state that the parent reaches, there are at most `USER_LIMIT` users, each user's child
-- is mapped to that user, and no two users share a child.
pub Reachable-IsServer :
    (w : Server)
    → Reachable w
    → IsServer w
      × ((i j : ℕ)
          → i < w.user_count
          → j < w.user_count
          → (w.users i).pid ≡ (w.users j).pid
          → i ≡ j)
Reachable-IsServer w r =
    let wf = Reachable-IsServer_lem w r in (wf, λ i j hi hj. pid_injective w i j wf hi hj)
