-- ===== src/SocketExercises.antt =====
-- LinuxChangeTcpReceiveBuffer.cpp, SetConnectTimeO.cpp and LinuxGetDayTime.cpp: a receiver, a
-- connection with a timeout, and a daytime client.
-- `printf` and the bytes that are only printed are left out. The loop runs on fuel. What
-- `gethostbyname` and `getservbyname` return is given. What `getsockopt` writes is the first number
-- of `pair`.
pub mod Descriptors
pub mod DayTime
mod Tests
use linux_server_programming.Base.{
  ℕ, zero, suc, ◌-◌, Bool, Option, none, some, List, [], ◌∷◌, leb, ltb, not, ◌==◌, if◌then◌else◌, ℤ,
  pos, negsuc,
}
use linux_server_programming.Process.{
  stream, socket, bind, listen, accept, connect, close, recv, set_option, get_option, Answer, Prog,
  done, fault, aborted, out_of_fuel, paused, sys, ◌>>=◌, call, invoke, is_neg, is_minus_one, assert,
  arg, argc, htons,
}

-- the two sizes of buffers
abbrev pub buffer_size : ℕ
buffer_size = 512

abbrev pub answer_size : ℕ
answer_size = 128

-- the loop over `recv`
unfoldable pub receive_loop : (rounds : ℕ) (connfd : ℤ) → Prog (Unit {0})
receive_loop zero connfd = paused
receive_loop (suc k) connfd = do
  ret ← invoke (recv connfd (buffer_size - 1))
  let onward = receive_loop k connfd
  elim ret [ negsuc _ ↦ done tt | pos n ↦ if ltb 0 n then onward else done tt ]

-- from `accept` on
unfoldable pub receive : (rounds : ℕ) (sock : ℤ) → Prog ℕ
receive rounds sock = do
  connfd ← invoke (accept sock)
  let connected : Prog (Unit {0}) = (do
    _ ← receive_loop rounds connfd
    _ ← invoke (close connfd)
    done tt)
  _ ← if is_neg connfd then done tt else connected
  _ ← invoke (close sock)
  done 0

-- LinuxChangeTcpReceiveBuffer.cpp behind `socket`; the port is not converted
unfoldable pub receiver : (rounds port : ℕ) (argv : List ℕ) (sock : ℤ) → Prog ℕ
receiver rounds port argv sock = do
  rec_buf ← arg argv 3
  _ ← invoke (set_option sock rec_buf)
  r ← call (get_option sock rec_buf)
  _ ← invoke (set_option sock r.pair.0)
  ret ← invoke (bind sock port)
  _ ← assert (not (is_minus_one ret))
  ret ← invoke (listen sock 5)
  _ ← assert (not (is_minus_one ret))
  receive rounds sock

unfoldable pub receive_main : (rounds : ℕ) (argv : List ℕ) → Prog ℕ
receive_main rounds argv = if leb (argc argv) 2 then done 1 else do
  port ← arg argv 2
  sock ← invoke (socket stream)
  _ ← assert (not (is_neg sock))
  receiver rounds port argv sock

-- SetConnectTimeO.cpp: `timeout_connect` behind `socket`
unfoldable pub connect_within : (port time : ℕ) (sock : ℤ) → Prog ℤ
connect_within port time sock = do
  ret ← invoke (set_option sock time)
  _ ← assert (not (is_minus_one ret))
  ret ← invoke (connect sock (htons port))
  if is_minus_one ret then done (negsuc 0) else done sock

unfoldable pub timeout_connect : (port time : ℕ) → Prog ℤ
timeout_connect port time = do
  sock ← invoke (socket stream)
  _ ← assert (not (is_neg sock))
  connect_within port time sock

unfoldable pub timeout_main : (argv : List ℕ) → Prog ℕ
timeout_main argv = if leb (argc argv) 2 then done 1 else do
  port ← arg argv 2
  sock ← timeout_connect port 10
  if is_neg sock then done 1 else done 0

-- `buffer[result] = '\0'` and what follows it
unfoldable pub daytime_end : (sockfd result : ℤ) → Prog ℕ
daytime_end sockfd (negsuc _) = aborted
daytime_end sockfd (pos n) =
    let finish : Prog ℕ = (do _ ← invoke (close sockfd); done 0) in
    if n == 0 then aborted else if ltb n answer_size then finish else fault

-- LinuxGetDayTime.cpp; `service` is the port as it stands in `s_port`
unfoldable pub daytime_main : (argv : List ℕ) (host_found : Bool) (service : Option ℕ) → Prog ℕ
daytime_main argv host_found service = do
  _ ← assert (argc argv == 2)
  _ ← assert host_found
  let query = λ (s_port : ℕ). (do
    sockfd ← invoke (socket stream)
    result ← invoke (connect sockfd s_port)
    let connected : Prog ℕ = (do
      result ← invoke (recv sockfd answer_size)
      daytime_end sockfd result)
    if is_minus_one result then done 1 else connected)
  elim service [ none ↦ aborted | some s_port ↦ query s_port ]
