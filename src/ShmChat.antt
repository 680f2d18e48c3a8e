-- ===== src/ShmChat.antt =====
-- The parent process of ShmChat.cpp: the table of clients and the children that serve them.
-- `address` and descriptors are numbers. The results of system calls are arguments, and the calls
-- that have an effect outside the process are logged in `actions`. `printf` is left out. An index
-- outside an array is a fault, as is a failed `assert`.
pub mod Invariant
pub mod Reap
pub mod ReapAll
pub mod ShutDown
pub mod Accept
pub mod Relay
pub mod Reachable
pub mod Joined
pub mod Shared
pub mod Start
pub mod Opened
pub mod EventLoop
pub mod Running
mod Tests
use linux_server_programming.Base.{
  ℕ, zero, suc, ◌+◌, ◌-◌, Bool, true, false, ◌&&◌, Option, none, some, List, [], ◌∷◌, ◌++◌, ltb,
  leb, ◌==◌, if◌then◌else◌, ℤ, pos, negsuc, Run, ok, fault, ◌>>=◌,
}

-- `client_data`; `pipefd` is its two fields.
pub record Client : Type 0 where
  pub address : ℕ
  pub connfd : ℕ
  pub pid : ℕ
  pub pipefd0 : ℕ
  pub pipefd1 : ℕ

-- `close`, `addfd`, `EPOLL_CTL_DEL`, `kill(pid, SIGTERM)`, `shm_unlink` and the two calls of `send`
pub data Action : Type 0 where
  close_fd add_fd del_fd kill_child refuse : ℕ → Action
  unlink_shm : Action
  send_child : (fd child : ℕ) → Action

pub record Server : Type 0 where
  pub users : ℕ → Client
  pub user_count : ℕ
  pub sub_process : ℕ → ℤ
  pub terminate : Bool
  pub stop_server : Bool
  pub actions : List Action

-- What `accept`, `socketpair` and `fork` give; `none` is their failure.
pub record Arrival : Type 0 where
  pub connfd : Option ℕ
  pub address : ℕ
  pub pipe : Option (ℕ × ℕ)
  pub pid : Option ℕ

-- A byte of the signal pipe. With SIGCHLD come the children that `waitpid` returns.
pub data Signal : Type 0 where
  sigchld : List ℕ → Signal
  sigterm sigint other : Signal

-- `USER_LIMIT` and `PROCESS_LIMIT`
abbrev pub user_limit : ℕ
user_limit = 5

abbrev pub process_limit : ℕ
process_limit = 65536

unfoldable pub new_server : (ℕ → Client) → Server
new_server users = record {
  users = users;
  user_count = 0;
  sub_process = λ _. negsuc 0;
  terminate = false;
  stop_server = false;
  actions = [];
}

abbrev pub perform : Server → List Action → Server
perform w done = record w { actions = w.actions ++ done }

-- `users[i]`
unfoldable pub user : Server → ℕ → Run Client
user w i = if ltb i user_limit then ok (w.users i) else fault

-- `users[i] = u`
unfoldable pub set_user : Server → ℕ → Client → Run Server
set_user w i u =
    if ltb i user_limit
    then ok (record w { users = λ j. if j == i then u else w.users j })
    else fault

-- `sub_process[pid]`
unfoldable pub process : Server → ℕ → Run ℤ
process w pid = if ltb pid process_limit then ok (w.sub_process pid) else fault

-- `sub_process[pid] = n`
unfoldable pub set_process : Server → ℕ → ℤ → Run Server
set_process w pid n =
    if ltb pid process_limit
    then ok (record w { sub_process = λ q. if q == pid then n else w.sub_process q })
    else fault

-- the parent behind `fork`
unfoldable pub attach : Server → Client → (connfd pid : ℕ) → Run Server
attach w u connfd pid = do
  let n = w.user_count
  let w1 = perform w (close_fd connfd ∷ close_fd u.pipefd1 ∷ add_fd u.pipefd0 ∷ [])
  w2 ← set_user w1 n (record u { pid = pid })
  w3 ← set_process w2 pid (pos n)
  ok (record w3 { user_count = n + 1 })

-- a new client of a server that is not full
unfoldable pub admit : Server → Arrival → (connfd : ℕ) → (ℕ × ℕ) → Run Server
admit w a connfd (pipefd0, pipefd1) = do
  old ← user w w.user_count
  let u : Client = record old {
    address = a.address;
    connfd = connfd;
    pipefd0 = pipefd0;
    pipefd1 = pipefd1;
  }
  w1 ← set_user w w.user_count u
  elim (a.pid) [ none ↦ ok (perform w1 (close_fd connfd ∷ [])) | some pid ↦ attach w1 u connfd pid ]

-- the branch of the event loop for `listenfd`
unfoldable pub accept_user : Server → Arrival → Run Server
accept_user w a = elim (a.connfd) [
  | none ↦ ok w
  | some connfd ↦
      if leb user_limit w.user_count
      then ok (perform w (refuse connfd ∷ close_fd connfd ∷ []))
      else elim (a.pipe) [ none ↦ fault | some p ↦ admit w a connfd p ]
]

-- the removal of user `i`; with no users, `--user_count` makes the index -1.
unfoldable pub remove_user : Server → ℕ → Run Server
remove_user w i = do
  u ← user w i
  let w1 = perform w (del_fd u.pipefd0 ∷ close_fd u.pipefd0 ∷ [])
  let n = w1.user_count - 1
  last ← if w1.user_count == 0 then fault else user w1 n
  w2 ← set_user (record w1 { user_count = n }) i last
  set_process w2 last.pid (pos i)

-- one round of the loop over `waitpid`
unfoldable pub reap : Server → ℕ → Run Server
reap w pid = do
  del_user ← process w pid
  w1 ← set_process w pid (negsuc 0)
  elim del_user [ negsuc _ ↦ ok w1 | pos i ↦ if ltb user_limit i then ok w1 else remove_user w1 i ]

unfoldable pub reap_all : List ℕ → Server → Run Server
reap_all [] w = ok w
reap_all (pid ∷ pids) w = reap w pid >>= reap_all pids

-- the loop that kills the children, with `k` rounds left
unfoldable pub kill_users : (k i : ℕ) → Server → Run Server
kill_users zero i w = ok w
kill_users (suc k) i w = do u ← user w i; kill_users k (suc i) (perform w (kill_child u.pid ∷ []))

unfoldable pub shut_down : Server → Run Server
shut_down w =
    if w.user_count == 0
    then ok (record w { stop_server = true })
    else do w1 ← kill_users w.user_count 0 w; ok (record w1 { terminate = true })

unfoldable pub handle_signal : Signal → Server → Run Server
handle_signal (sigchld pids) w = do
  w1 ← reap_all pids w
  ok (if w1.terminate && (w1.user_count == 0) then record w1 { stop_server = true } else w1)
handle_signal sigterm w = shut_down w
handle_signal sigint w = shut_down w
handle_signal other w = ok w

unfoldable pub handle_signals : List Signal → Server → Run Server
handle_signals [] w = ok w
handle_signals (s ∷ ss) w = handle_signal s w >>= handle_signals ss

-- the loop that passes a child's message on, with `k` rounds left
unfoldable pub relay : (sockfd child k j : ℕ) → Server → Run Server
relay sockfd child zero j w = ok w
relay sockfd child (suc k) j w = do
  u ← user w j
  let sent = if u.pipefd0 == sockfd then w else perform w (send_child u.pipefd0 child ∷ [])
  relay sockfd child k (suc j) sent
