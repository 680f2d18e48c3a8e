-- ===== src/ShmChat/Start.antt =====
-- The start of ShmChat.cpp's `main`, up to its event loop, and the descriptors that it leaves open.
use linux_server_programming.Base.{
  ℕ, ◌*◌, not, Option, none, some, List, leb, if◌then◌else◌, ℤ, pos,
}
use linux_server_programming.Process.{
  stream, socket, bind, listen, epoll_create, epoll_add, set_nonblocking, socketpair, add_signal,
  open_shared, resize, map_shared, close, Prog, done, ◌>>=◌, call, invoke, is_neg, is_minus_one,
  assert, arg, argc, htons,
}
use linux_server_programming.ShmChat.{user_limit}

-- the numbers of the signals on Linux, and the size of a segment
abbrev pub sigint : ℕ
sigint = 2

abbrev pub sigpipe : ℕ
sigpipe = 13

abbrev pub sigterm : ℕ
sigterm = 15

abbrev pub sigchld : ℕ
sigchld = 17

abbrev pub buffer_size : ℕ
buffer_size = 1024

pub record Fds : Type 0 where
  pub listenfd : ℤ
  pub epollfd : ℤ
  pub sig_pipefd : ℕ × ℕ

unfoldable pub add_fd : (epollfd fd : ℤ) → Prog (Unit {0})
add_fd epollfd fd = do _ ← invoke (epoll_add epollfd fd); _ ← invoke (set_nonblocking fd); done tt

unfoldable pub add_sig : (sig : ℕ) → Prog (Unit {0})
add_sig sig = do ret ← invoke (add_signal sig); assert (not (is_minus_one ret))

-- behind `shm_open`
unfoldable pub map_opened : (shmfd : ℤ) → Prog (Unit {0})
map_opened shmfd = do
  ret ← invoke (resize shmfd (user_limit * buffer_size))
  _ ← assert (not (is_minus_one ret))
  mem ← invoke (map_shared shmfd (user_limit * buffer_size))
  _ ← assert (not (is_minus_one mem))
  _ ← invoke (close shmfd)
  done tt

-- the shared memory
unfoldable pub map_memory : Prog (Unit {0})
map_memory = do shmfd ← invoke open_shared; _ ← assert (not (is_minus_one shmfd)); map_opened shmfd

-- from `epoll_create` on
unfoldable pub prepare : (listenfd epollfd : ℤ) → Prog Fds
prepare listenfd epollfd = do
  _ ← add_fd epollfd listenfd
  r ← call socketpair
  _ ← assert (not (is_minus_one r.ret))
  _ ← invoke (set_nonblocking (pos r.pair.1))
  _ ← add_fd epollfd (pos r.pair.0)
  _ ← add_sig sigchld
  _ ← add_sig sigterm
  _ ← add_sig sigint
  _ ← add_sig sigpipe
  _ ← map_memory
  done (record { listenfd = listenfd; epollfd = epollfd; sig_pipefd = r.pair })

-- from `bind` on
unfoldable pub open_server : (port : ℕ) (listenfd : ℤ) → Prog Fds
open_server port listenfd = do
  ret ← invoke (bind listenfd (htons port))
  _ ← assert (not (is_minus_one ret))
  ret ← invoke (listen listenfd 5)
  _ ← assert (not (is_minus_one ret))
  epollfd ← invoke epoll_create
  _ ← assert (not (is_minus_one epollfd))
  prepare listenfd epollfd

-- `none` where the program prints its usage and returns 1
unfoldable pub start : (argv : List ℕ) → Prog (Option Fds)
start argv = if leb (argc argv) 2 then done none else do
  port ← arg argv 2
  listenfd ← invoke (socket stream)
  _ ← assert (not (is_neg listenfd))
  fds ← open_server port listenfd
  done (some fds)
