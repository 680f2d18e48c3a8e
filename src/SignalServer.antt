-- ===== src/SignalServer.antt =====
-- Signal.cpp: a server that takes its signals from a pipe in its event loop.
-- A signal is a byte, as `sigHandler` writes it to the pipe. `printf` is left out. The event loop
-- runs on fuel.
pub mod Stop
mod Tests
use linux_server_programming.Base.{
  ℕ, zero, suc, Bool, true, false, ◌&&◌, List, [], ◌∷◌, leb, ltb, not, ◌==◌, ◌%◌, if◌then◌else◌, ℤ,
  pos, negsuc,
}
use linux_server_programming.Process.{
  stream, Sys, socket, bind, listen, accept, close, recv, send, epoll_create, epoll_wait, epoll_add,
  set_nonblocking, socketpair, add_signal, Event, Answer, Prog, done, fault, aborted, out_of_fuel,
  paused, sys, ◌>>=◌, call, invoke, is_neg, is_minus_one, assert, arg, argc, htons, same_fd,
}

-- the numbers of the signals on Linux
abbrev pub sighup : ℕ
sighup = 1

abbrev pub sigint : ℕ
sigint = 2

abbrev pub sigterm : ℕ
sigterm = 15

abbrev pub sigchld : ℕ
sigchld = 17

unfoldable pub add_fd : (epoll_fd fd : ℤ) → Prog ℤ
add_fd epoll_fd fd = do _ ← invoke (epoll_add epoll_fd fd); invoke (set_nonblocking fd)

-- what a handler sends to the pipe: the low byte of the signal's number
unfoldable pub sig_handler : (pipe1 : ℤ) (sig : ℕ) → Prog (Unit {0})
sig_handler pipe1 sig = do _ ← invoke (send pipe1 (sig % 256 ∷ [])); done tt

unfoldable pub add_sig : ℕ → Prog (Unit {0})
add_sig sig = do ret ← invoke (add_signal sig); assert (not (is_minus_one ret))

-- the `switch`, with `stopServer`; SIGTERM falls through to SIGINT.
unfoldable pub on_signal : ℕ → Bool → Bool
on_signal sig stop =
    if sig == sigchld
    then stop
    else if sig == sighup
    then stop
    else if sig == sigterm
    then true
    else if sig == sigint
    then true
    else stop

unfoldable pub on_signals : List ℕ → Bool → Bool
on_signals [] stop = stop
on_signals (sig ∷ sigs) stop = on_signals sigs (on_signal sig stop)

-- the descriptors of the server
pub record Fds : Type 0 where
  pub listen_fd : ℤ
  pub epoll_fd : ℤ
  pub pipe0 : ℤ
  pub pipe1 : ℤ

unfoldable pub on_event : Fds → Event → Bool → Prog Bool
on_event fds e stop =
    let arrival : Prog Bool = (do
      conn_fd ← invoke (accept fds.listen_fd)
      _ ← add_fd fds.epoll_fd conn_fd
      done stop) in
    let signals : Prog Bool = (do
      r ← call (recv fds.pipe0 1024)
      elim (r.ret) [
        | negsuc _ ↦ done stop
        | pos n ↦ if n == 0 then done stop else done (on_signals r.bytes stop)
      ]) in
    if same_fd e.fd fds.listen_fd
    then arrival
    else if same_fd e.fd fds.pipe0 && e.readable
    then signals
    else done stop

unfoldable pub on_events : Fds → List Event → Bool → Prog Bool
on_events fds [] stop = done stop
on_events fds (e ∷ es) stop = on_event fds e stop >>= on_events fds es

unfoldable pub event_loop : (rounds : ℕ) → Fds → Bool → Prog (Unit {0})
event_loop rounds fds true = done tt
event_loop zero fds false = paused
event_loop (suc k) fds false = sys (epoll_wait fds.epoll_fd) λ r.
    let round : Prog (Unit {0}) = (do
      stop ← on_events fds (if is_neg r.ret then [] else r.events) false
      event_loop k fds stop) in
    if is_neg r.ret && not r.try_again then done tt else round

-- the event loop and what follows it
unfoldable pub serve : (rounds : ℕ) → Fds → Prog ℕ
serve rounds fds = do
  _ ← event_loop rounds fds false
  _ ← invoke (close fds.listen_fd)
  _ ← invoke (close fds.pipe1)
  _ ← invoke (close fds.pipe0)
  done 0

unfoldable pub main : (rounds : ℕ) (argv : List ℕ) → Prog ℕ
main rounds argv = if leb (argc argv) 2 then done 1 else do
  port ← arg argv 2
  listen_fd ← invoke (socket stream)
  _ ← assert (not (is_neg listen_fd))
  ret ← invoke (bind listen_fd (htons port))
  _ ← assert (not (is_neg ret))
  ret ← invoke (listen listen_fd 5)
  _ ← assert (not (is_minus_one ret))
  epoll_fd ← invoke epoll_create
  _ ← assert (not (is_minus_one epoll_fd))
  _ ← add_fd epoll_fd listen_fd
  pair ← call socketpair
  _ ← assert (not (is_minus_one pair.ret))
  _ ← invoke (set_nonblocking (pos pair.pair.1))
  _ ← add_fd epoll_fd (pos pair.pair.0)
  _ ← add_sig sighup
  _ ← add_sig sigchld
  _ ← add_sig sigterm
  _ ← add_sig sigint
  serve rounds (record {
    listen_fd = listen_fd;
    epoll_fd = epoll_fd;
    pipe0 = pos pair.pair.0;
    pipe1 = pos pair.pair.1;
  })
