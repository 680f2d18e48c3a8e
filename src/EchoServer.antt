-- ===== src/EchoServer.antt =====
-- Echoserver.cpp: an echo server over TCP and UDP in one event loop.
-- `printf` is left out. The loops run on fuel.
pub mod Echo
mod Tests
use linux_server_programming.Base.{
  ℕ, zero, suc, ◌-◌, Bool, true, false, List, [], ◌∷◌, ◌++◌, leb, ltb, not, ◌||◌, length,
  if◌then◌else◌, ℤ, pos, negsuc,
}
use linux_server_programming.Process.{
  stream, dgram, Sys, socket, bind, listen, accept, close, recv, send, epoll_create, epoll_wait,
  epoll_add, set_nonblocking, Event, Answer, Prog, done, fault, aborted, out_of_fuel, paused, sys,
  ◌>>=◌, ◌>>◌, call, invoke, is_neg, is_minus_one, assert, arg, argc, htons, same_fd,
}

-- `TCP_BUFFER_SIZE` and `UDP_BUFFER_SIZE`
abbrev pub tcp_buffer_size : ℕ
tcp_buffer_size = 512

abbrev pub udp_buffer_size : ℕ
udp_buffer_size = 1024

unfoldable pub add_fd : (epoll_fd fd : ℤ) → Prog ℤ
add_fd epoll_fd fd = do _ ← invoke (epoll_add epoll_fd fd); invoke (set_nonblocking fd)

-- the branch for a connection that is readable
unfoldable pub serve_tcp : (fuel : ℕ) (fd : ℤ) → Prog (Unit {0})
serve_tcp zero fd = paused
serve_tcp (suc k) fd = sys (recv fd (tcp_buffer_size - 1)) λ r.
    let finish : Prog (Unit {0}) = (do _ ← invoke (close fd); done tt) in
    let again : Prog (Unit {0}) = (do _ ← invoke (close fd); serve_tcp k fd) in
    let echo : Prog (Unit {0}) = (do _ ← invoke (send fd r.bytes); serve_tcp k fd) in
    elim (r.ret) [
      | negsuc _ ↦ if r.try_again then done tt else finish
      | pos n ↦ if ltb 0 n then echo else again
    ]

-- the buffer behind what has been read is zero
abbrev pub zeros : ℕ → List ℕ
zeros zero = []
zeros (suc n) = 0 ∷ zeros n

-- the branch for the datagram socket
unfoldable pub serve_udp : (fd : ℤ) → Prog (Unit {0})
serve_udp fd = sys (recv fd (udp_buffer_size - 1)) λ r.
    let buf = r.bytes ++ zeros (udp_buffer_size - 1 - length r.bytes) in
    let reply : Prog (Unit {0}) = (do _ ← invoke (send fd buf); done tt) in
    elim (r.ret) [ negsuc _ ↦ done tt | pos n ↦ if ltb 0 n then reply else done tt ]

unfoldable pub serve_new : (epoll_fd listen_fd : ℤ) → Prog (Unit {0})
serve_new epoll_fd listen_fd = do
  conn_fd ← invoke (accept listen_fd)
  _ ← add_fd epoll_fd conn_fd
  done tt

-- the events that one `epoll_wait` reports
unfoldable pub serve_events :
    (fuel : ℕ) (epoll_fd listen_fd udp_fd : ℤ) → List Event → Prog (Unit {0})
serve_events fuel epoll_fd listen_fd udp_fd [] = done tt
serve_events fuel epoll_fd listen_fd udp_fd (e ∷ es) = do
  _ ←
      (if same_fd e.fd listen_fd
        then serve_new epoll_fd listen_fd
        else if same_fd e.fd udp_fd
        then serve_udp udp_fd
        else if e.readable
        then serve_tcp fuel e.fd
        else done tt)
  serve_events fuel epoll_fd listen_fd udp_fd es

unfoldable pub event_loop : (rounds fuel : ℕ) (epoll_fd listen_fd udp_fd : ℤ) → Prog (Unit {0})
event_loop zero fuel epoll_fd listen_fd udp_fd = paused
event_loop (suc k) fuel epoll_fd listen_fd udp_fd = sys (epoll_wait epoll_fd) λ r.
    let round : Prog (Unit {0}) = (do
      _ ← serve_events fuel epoll_fd listen_fd udp_fd r.events
      event_loop k fuel epoll_fd listen_fd udp_fd) in
    if is_neg r.ret then done tt else round

unfoldable pub main : (rounds fuel : ℕ) (argv : List ℕ) → Prog ℕ
main rounds fuel argv = if leb (argc argv) 2 then done 1 else do
  port ← arg argv 2
  listen_fd ← invoke (socket stream)
  _ ← assert (not (is_neg listen_fd))
  ret ← invoke (bind listen_fd (htons port))
  _ ← assert (not (is_minus_one ret))
  ret ← invoke (listen listen_fd 5)
  _ ← assert (not (is_minus_one ret))
  udp_fd ← invoke (socket dgram)
  _ ← assert (not (is_neg udp_fd))
  ret ← invoke (bind udp_fd (htons port))
  _ ← assert (not (is_minus_one ret))
  epoll_fd ← invoke epoll_create
  _ ← assert (not (is_minus_one epoll_fd))
  _ ← add_fd epoll_fd listen_fd
  _ ← add_fd epoll_fd udp_fd
  _ ← event_loop rounds fuel epoll_fd listen_fd udp_fd
  _ ← invoke (close listen_fd)
  done 0
