-- ===== src/ChatClient.antt =====
-- ChatClient.cpp: a chat client over `poll`, which passes what is typed through a pipe.
-- `printf` and the bytes of `read_buf`, which are only printed, are left out. The loop runs on fuel.
pub mod Relaying
pub mod Forwarding
mod Tests
use linux_server_programming.Base.{
  ℕ, zero, suc, ◌-◌, List, [], ◌∷◌, leb, not, if◌then◌else◌, ℤ, pos,
}
use linux_server_programming.Process.{
  stream, socket, connect, close, recv, poll, pipe, splice, Event, event_at, Answer, Prog, done,
  fault, aborted, out_of_fuel, paused, sys, ◌>>=◌, call, invoke, is_neg, is_minus_one, assert, arg,
  argc,
}

-- `BUFFER_SIZE`, and the size given to `splice`
abbrev pub buffer_size : ℕ
buffer_size = 64

abbrev pub splice_size : ℕ
splice_size = 32768

-- data of the server
unfoldable pub show_data : (sock : ℤ) → Event → Prog (Unit {0})
show_data sock e =
    let show : Prog (Unit {0}) = (do _ ← invoke (recv sock (buffer_size - 1)); done tt) in
    if e.readable then show else done tt

-- what is typed
unfoldable pub pass_on : (sock : ℤ) (pipe_fd : ℕ × ℕ) → Event → Prog (Unit {0})
pass_on sock pipe_fd e =
    let pass : Prog (Unit {0}) = (do
      _ ← invoke (splice (pos 0) (pos pipe_fd.1) splice_size)
      _ ← invoke (splice (pos pipe_fd.0) sock splice_size)
      done tt) in
    if e.readable then pass else done tt

unfoldable pub event_loop : (rounds : ℕ) (sock : ℤ) (pipe_fd : ℕ × ℕ) → Prog (Unit {0})
event_loop zero sock pipe_fd = paused
event_loop (suc k) sock pipe_fd = do
  r ← call (poll (pos 0 ∷ sock ∷ []))
  let typed = event_at 0 r.events
  let server = event_at 1 r.events
  let round : Prog (Unit {0}) = (do
    _ ← show_data sock server
    _ ← pass_on sock pipe_fd typed
    event_loop k sock pipe_fd)
  if is_neg r.ret then done tt else if server.hang_up then done tt else round

-- from `connect` on; the port is not converted
unfoldable pub session : (rounds port : ℕ) (sock : ℤ) → Prog ℕ
session rounds port sock = do
  ret ← invoke (connect sock port)
  let failed : Prog ℕ = (do _ ← invoke (close sock); done 1)
  let connected : Prog ℕ = (do
    r ← call pipe
    _ ← assert (not (is_minus_one r.ret))
    _ ← event_loop rounds sock r.pair
    _ ← invoke (close sock)
    done 0)
  if is_neg ret then failed else connected

unfoldable pub main : (rounds : ℕ) (argv : List ℕ) → Prog ℕ
main rounds argv = if leb (argc argv) 2 then done 1 else do
  port ← arg argv 2
  sock ← invoke (socket stream)
  _ ← assert (not (is_neg sock))
  session rounds port sock
