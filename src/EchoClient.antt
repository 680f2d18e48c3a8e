-- ===== src/EchoClient.antt =====
-- TcpEchoClient.cpp, UdpEchoClient.cpp and SignalClient.cpp: clients that send what is typed.
-- `buf` is the client's array of 1024 bytes. `printf` and `perror` are left out. `read` and `write`
-- on a descriptor are `recv` and `send`. The loops run on fuel.
pub mod Typed
pub mod Held
mod Tests
use linux_server_programming.Base.{
  ℕ, zero, suc, ◌-◌, Bool, true, false, Option, none, some, List, [], ◌∷◌, ◌++◌, leb, ltb, not,
  ◌==◌, length, if◌then◌else◌, ℤ, pos, negsuc, Run,
}
use linux_server_programming.Process.{
  stream, dgram, Sys, socket, connect, close, recv, send, socketpair, set_nonblocking, Answer, Prog,
  done, fault, aborted, out_of_fuel, paused, sys, ◌>>=◌, call, invoke, is_neg, is_minus_one, assert,
  arg, argc, htons, from_run,
}
use linux_server_programming.Line.{newline, fgets, scan, s_gets}

-- the size of `buf`
abbrev pub buffer_size : ℕ
buffer_size = 1024

-- `new` is written over the front of `old`.
unfoldable pub over : List ℕ → List ℕ → List ℕ
over [] old = old
over (b ∷ new) [] = b ∷ over new []
over (b ∷ new) (_ ∷ old) = b ∷ over new old

-- `st[i] = '\0'`
unfoldable pub set_zero : ℕ → List ℕ → List ℕ
set_zero i [] = []
set_zero zero (_ ∷ buf) = 0 ∷ buf
set_zero (suc i) (b ∷ buf) = b ∷ set_zero i buf

-- what `s_gets` writes to `buf`
unfoldable pub typed_over : (n : ℕ) (input buf : List ℕ) → List ℕ
typed_over n input buf = elim (fgets n input) [
  | none ↦ buf
  | some (st, _) ↦
      let (front, found) = scan st in
      let buf' = over (st ++ 0 ∷ []) buf in if found then set_zero (length front) buf' else buf'
]

-- the string in `buf`; a read past its end faults
unfoldable pub text : List ℕ → Prog (List ℕ)
text [] = fault
text (b ∷ buf) =
    let rest : Prog (List ℕ) = (do bs ← text buf; done (b ∷ bs)) in if b == 0 then done [] else rest

-- The loop of TcpEchoClient.cpp; `fuel` is for `s_gets`.
unfoldable pub tcp_loop : (rounds fuel : ℕ) (sock : ℤ) (input buf : List ℕ) → Prog (Unit {0})
tcp_loop zero fuel sock input buf = paused
tcp_loop (suc k) fuel sock input buf = do
  (_, rest) ← from_run (s_gets fuel buffer_size input)
  let buf' = typed_over buffer_size input buf
  message ← text buf'
  _ ← invoke (send sock message)
  r ← call (recv sock buffer_size)
  let onward = tcp_loop k fuel sock rest (over r.bytes buf')
  elim (r.ret) [ negsuc _ ↦ done tt | pos n ↦ if n == 0 then done tt else onward ]

-- TcpEchoClient.cpp from `connect` on
unfoldable pub tcp_session : (rounds fuel port : ℕ) (input buf : List ℕ) (sock : ℤ) → Prog ℕ
tcp_session rounds fuel port input buf sock = do
  ret ← invoke (connect sock (htons port))
  let session : Prog ℕ = (do
    _ ← tcp_loop rounds fuel sock input buf
    _ ← invoke (close sock)
    done 0)
  if is_neg ret then done 1 else session

unfoldable pub tcp_main : (rounds fuel : ℕ) (argv input buf : List ℕ) → Prog ℕ
tcp_main rounds fuel argv input buf = if leb (argc argv) 2 then done 1 else do
  port ← arg argv 2
  sock ← invoke (socket stream)
  _ ← assert (not (is_neg sock))
  tcp_session rounds fuel port input buf sock

-- The loop of UdpEchoClient.cpp. A failure of `sendto` is only printed.
unfoldable pub udp_loop : (rounds fuel : ℕ) (sock : ℤ) (input buf : List ℕ) → Prog (Unit {0})
udp_loop zero fuel sock input buf = paused
udp_loop (suc k) fuel sock input buf = do
  (_, rest) ← from_run (s_gets fuel buffer_size input)
  let buf' = typed_over buffer_size input buf
  message ← text buf'
  _ ← invoke (send sock message)
  r ← call (recv sock (length message))
  let onward = udp_loop k fuel sock rest (over r.bytes buf')
  if is_neg r.ret then done tt else onward

unfoldable pub udp_session : (rounds fuel : ℕ) (input buf : List ℕ) (sock : ℤ) → Prog ℕ
udp_session rounds fuel input buf sock = do
  _ ← udp_loop rounds fuel sock input buf
  _ ← invoke (close sock)
  done 0

unfoldable pub udp_main : (rounds fuel : ℕ) (argv input buf : List ℕ) → Prog ℕ
udp_main rounds fuel argv input buf = if leb (argc argv) 2 then done 1 else do
  _ ← arg argv 2
  sock ← invoke (socket dgram)
  _ ← assert (not (is_neg sock))
  udp_session rounds fuel input buf sock

-- The loop of SignalClient.cpp, which writes to its own pair of sockets.
unfoldable pub signal_loop :
    (rounds fuel : ℕ) (sock pipe : ℤ) (input buf : List ℕ) → Prog (Unit {0})
signal_loop zero fuel sock pipe input buf = paused
signal_loop (suc k) fuel sock pipe input buf = do
  (_, rest) ← from_run (s_gets fuel buffer_size input)
  let buf' = typed_over buffer_size input buf
  message ← text buf'
  _ ← invoke (send pipe message)
  r ← call (recv sock buffer_size)
  let onward = signal_loop k fuel sock pipe rest (over r.bytes buf')
  elim (r.ret) [ negsuc _ ↦ done tt | pos n ↦ if n == 0 then done tt else onward ]

-- SignalClient.cpp from `connect` on
unfoldable pub signal_session : (rounds fuel port : ℕ) (input buf : List ℕ) (sock : ℤ) → Prog ℕ
signal_session rounds fuel port input buf sock = do
  ret ← invoke (connect sock (htons port))
  let session : Prog ℕ = (do
    pair ← call socketpair
    _ ← assert (not (is_minus_one pair.ret))
    _ ← invoke (set_nonblocking (pos pair.pair.1))
    _ ← signal_loop rounds fuel sock (pos pair.pair.1) input buf
    _ ← invoke (close sock)
    done 0)
  if is_neg ret then done 1 else session

unfoldable pub signal_main : (rounds fuel : ℕ) (argv input buf : List ℕ) → Prog ℕ
signal_main rounds fuel argv input buf = if leb (argc argv) 2 then done 1 else do
  port ← arg argv 2
  sock ← invoke (socket stream)
  _ ← assert (not (is_neg sock))
  signal_session rounds fuel port input buf sock
