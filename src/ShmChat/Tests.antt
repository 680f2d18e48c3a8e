-- ===== src/ShmChat/Tests.antt =====
-- ShmChat.cpp's table at concrete clients.
use linux_server_programming.Base.{
  ℕ, ℤ, zero, suc, ◌+◌, ◌-◌, ◌<◌, ◌≡◌, refl, ap, arith, ◌==◌, some, none, pos, negsuc, List, [],
  ◌∷◌, Returns, if◌then◌else◌, true, false, ltb,
}
use linux_server_programming.ShmChat.{
  Client, Server, Arrival, close_fd, add_fd, sigterm, sigint, new_server, accept_user, reap,
  reap_all, handle_signal, handle_signals, admit, attach, user, set_user, set_process, shut_down,
}
use linux_server_programming.ShmChat.Invariant.{IsServer, IsUser}
use linux_server_programming.ShmChild.{Child, start_child}
use linux_server_programming.ShmChat.Joined.{get_elem?, arrival_of, join_all}
use linux_server_programming.ShmChat.Shared.{Overwritten, reap-start_child}
use linux_server_programming.ShmChat.ReapAll.{Children, ReapedAll, reap_all-ReapedAll}
use linux_server_programming.ShmChat.ShutDown.{kills, sigchlds, shut_down-stops}
use linux_server_programming.ShmChat.Reachable.{Reachable, begin, arrives, Reachable-IsServer}
use linux_server_programming.Base.{Option, ◌⊎◌}
use linux_server_programming.ShmChat.EventLoop.{Event, arrival, signals, Fds, del_resource, serve}
use linux_server_programming.ShmChat.Running.{serve-Reachable}

-- the client that a number stands for: its child is that number and 100
abbrev client : ℕ → Client
client n = record {
  address = n;
  connfd = 10 + n;
  pid = 100 + n;
  pipefd0 = 20 + n;
  pipefd1 = 30 + n;
}

abbrev child_index : ℕ → ℕ → ℤ
child_index n pid =
    if ltb pid 100 then negsuc 0 else if ltb pid (100 + n) then pos (pid - 100) else negsuc 0

-- two clients
abbrev duo : Server
duo = record {
  users = client;
  user_count = 2;
  sub_process = child_index 2;
  terminate = false;
  stop_server = false;
  actions = [];
}

duo-IsServer : IsServer duo
duo-IsServer = record { bound = omega arith; small = λ i h. omega arith; mapped = mapped }
  where
    mapped : (i : ℕ) → i < 2 → child_index 2 (100 + i) ≡ pos i
    mapped zero h = refl
    mapped (suc zero) h = refl
    mapped (suc (suc i)) h = absurd (omega arith)

client-IsUser : (i : ℕ) → i < 2 → IsUser duo (client i)
client-IsUser i h = record { index = i; below = h; entry = refl }

abbrev ended : List ℕ
ended = 101 ∷ 100 ∷ []

ended-Children : Children duo ended
unfolding Children
ended-Children = (
  (client 1, client-IsUser 1 (omega arith), refl),
  refl,
  ((client 0, client-IsUser 0 (omega arith), refl), refl, tt),
)

reap_all-ReapedAll_example : Returns (ReapedAll duo ended) (reap_all ended duo)
reap_all-ReapedAll_example = reap_all-ReapedAll ended duo duo-IsServer ended-Children

-- The two children end one after the other.
abbrev one_by_one : List (List ℕ)
one_by_one = (101 ∷ []) ∷ (100 ∷ []) ∷ []

shut_down-stops_example :
    Returns
      (λ w1.
        (w1.actions ≡ kills 2 0 client)
        × (w1.stop_server ≡ false)
        × Returns
            (λ w2. (w2.terminate ≡ true) × (w2.user_count + 2 ≡ 2) × (w2.stop_server ≡ true))
            (handle_signals (sigchlds one_by_one) w1))
      (handle_signal sigterm duo)
shut_down-stops_example =
    shut_down-stops duo one_by_one duo-IsServer (omega arith) refl ended-Children

-- Joining and leaving: SIGINT stops a server without users at once.
stops_at_once :
    Returns (λ w. w.stop_server ≡ true) (handle_signals (sigint ∷ []) (new_server client))
unfolding new_server handle_signals handle_signal shut_down
stops_at_once = (record (new_server client) { stop_server = true }, refl, refl)

abbrev first_arrival : Arrival
first_arrival = record { connfd = some 10; address = 0; pipe = some (20, 30); pid = some 100 }

-- the server that its first client has joined
abbrev solo : Server
solo = record {
  users = λ j.
      if j == 0 then client 0 else if j == 0 then record (client 0) { pid = 100 } else client j;
  user_count = 1;
  sub_process = λ q. if q == 100 then pos 0 else negsuc 0;
  terminate = false;
  stop_server = false;
  actions = close_fd 10 ∷ close_fd 30 ∷ add_fd 20 ∷ [];
}

solo-Reachable : Reachable solo
unfolding accept_user admit attach user set_user set_process new_server
solo-Reachable =
    arrives (new_server client) solo first_arrival (begin client)
      (λ pid e.
        let at : 100 ≡ pid = ap (λ o. elim o [ none ↦ 0 | some n ↦ n ]) e in
        (omega arith, λ u is. let h = is.below in absurd (omega arith)))
      refl

Reachable-IsServer_example :
    IsServer solo × ((i j : ℕ) → i < 1 → j < 1 → (solo.users i).pid ≡ (solo.users j).pid → i ≡ j)
Reachable-IsServer_example = Reachable-IsServer solo solo-Reachable

abbrev serving : ℕ → Child
serving i = record { idx = i; share_mem = λ _. 0; stop_child = false; sent = [] }

-- The first of two clients leaves, and a third one joins.
reap-start_child_example :
    Returns
      (λ r.
        let w = r.0 in
        (a : Child) × (get_elem? r.1 1 ≡ some a)
        × (some (client 1) ≡ some (w.users (w.user_count - 1)))
        × (some (client 0) ≡ some (w.users 0))
        × Returns
            (λ w1.
              ((start_child w1 (λ _. 0)).idx ≡ a.idx)
              × Returns
                  (λ w2.
                    IsUser w2 (w.users (w.user_count - 1))
                    × (v : Client) × IsUser w2 v
                    × (v.pid ≡ 102))
                  (accept_user w1 (arrival_of (client 2)))
              × Overwritten a (start_child w1 (λ _. 0)) (serving 0) (104 ∷ []) (105 ∷ []))
            (reap w ((w.users 0).pid)))
      (join_all (client 0 ∷ client 1 ∷ []) (λ _. 0) (new_server client))
reap-start_child_example =
    reap-start_child client (client 0 ∷ client 1 ∷ []) (client 2) 0 (λ _. 0) (serving 0) (104 ∷ [])
      (105 ∷ []) (omega arith) (omega arith, refl, (omega arith, refl, (omega arith, refl, tt)))
      (omega arith) (omega arith) (omega arith)

abbrev own : Fds
own = record { sig_pipefd = (5, 6); listenfd = 3; epollfd = 4 }

-- a client joins, and SIGTERM comes
abbrev batches : List (Option (List Event))
batches = some (arrival first_arrival ∷ signals (some (sigterm ∷ [])) ∷ []) ∷ []

serve-Reachable_example :
    Returns
      (λ w'. (w : Server) × Reachable w × ((w' ≡ w) ⊎ (w' ≡ del_resource own w)))
      (serve own batches client)
unfolding new_server
serve-Reachable_example = serve-Reachable 32768 (omega arith) own batches client (
  (
    (
      (λ pid e.
          let at : 100 ≡ pid = ap (λ o. elim o [ none ↦ 0 | some n ↦ n ]) e in
          (omega arith, λ u is. let h = is.below in absurd (omega arith))),
      λ e. cc,
    ),
    λ w' run. ((tt, λ w2 run2. tt), λ w2 run2. tt),
  ),
  λ w' run. tt,
)
