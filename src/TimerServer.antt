-- ===== src/TimerServer.antt =====
-- TimeWheel.cpp, LST_Timer.cpp and TimeHeap.cpp: servers that close idle connections by timers.
-- The three files repeat one program around three containers of timers. Here it is written once,
-- over a `Container`. `printf` and the bytes of `buf`, which are only printed, are left out. The
-- event loop runs on fuel. `time(NULL)` does not fail.
pub mod Containers
pub mod Clients
pub mod Pigeon
pub mod Marked
pub mod Timeouts
pub mod Leaving
pub mod Joining
pub mod Handlers
pub mod Running
pub mod Alarm
pub mod Extending
mod Tests
use linux_server_programming.Base.{
  ℕ, zero, suc, ◌-◌, Bool, true, false, ◌&&◌, Option, none, some, List, [], ◌∷◌, leb, ltb, not,
  ◌==◌, ◌%◌, if◌then◌else◌, ℤ, pos, negsuc,
}
use linux_server_programming.Memory.{Ptr, null}
use linux_server_programming.Callback.{Call}
use linux_server_programming.Process.{
  stream, Sys, socket, bind, listen, accept, close, recv, send, set_option, epoll_create,
  epoll_wait, epoll_add, epoll_del, set_nonblocking, socketpair, add_signal, alarm, time, allocate,
  Event, Answer, Prog, done, fault, aborted, out_of_fuel, paused, sys, ◌>>=◌, call, invoke, is_neg,
  is_minus_one, assert, arg, argc, htons, same_fd,
}
use linux_server_programming.Process.Files.{fd_limit}

-- what the servers do with their container
pub record Container (W : Type 0) : Type 0 where
  -- the signals that are handled, and the first `alarm`
  pub signals : List ℕ
  pub first_alarm : ℕ
  -- a new connection, whose `client_data` has this index
  pub start : ℕ → W → Prog (Ptr × W)
  -- behind `cb_func` at the end of a connection
  pub remove : Ptr → W → Prog W
  -- data has come
  pub touch : Ptr → W → Prog W
  -- `tick`, with the callbacks that it has made
  pub tick : W → Prog (W × List Call)
  -- what `cb_func` does besides closing the connection
  pub on_close : W → W
  -- the end of `timer_handler`
  pub rearm : W → Prog W

-- `TIMESLOT` and `BUFFER_SIZE`
abbrev pub time_slot : ℕ
time_slot = 5

abbrev pub buffer_size : ℕ
buffer_size = 64

-- the numbers of the signals on Linux
abbrev pub sigpipe : ℕ
sigpipe = 13

abbrev pub sigalrm : ℕ
sigalrm = 14

abbrev pub sigterm : ℕ
sigterm = 15

-- `client_data`; `none` is a pointer that was never set.
pub record ClientData : Type 0 where
  pub sock_fd : ℤ
  pub timer : Option Ptr

pub record Fds : Type 0 where
  pub listen_fd : ℤ
  pub epoll_fd : ℤ
  pub pipe0 : ℤ
  pub pipe1 : ℤ

pub record State (W : Type 0) : Type 0 where
  pub timers : W
  pub users : ℕ → ClientData
  pub timeout : Bool
  pub stop_server : Bool

unfoldable pub add_fd : (epoll_fd fd : ℤ) → Prog ℤ
add_fd epoll_fd fd = do _ ← invoke (epoll_add epoll_fd fd); invoke (set_nonblocking fd)

unfoldable pub sig_handler : (pipe1 : ℤ) (sig : ℕ) → Prog (Unit {0})
sig_handler pipe1 sig = do _ ← invoke (send pipe1 (sig % 256 ∷ [])); done tt

unfoldable pub add_sigs : List ℕ → Prog (Unit {0})
add_sigs [] = done tt
add_sigs (sig ∷ sigs) = do
  ret ← invoke (add_signal sig)
  _ ← assert (not (is_minus_one ret))
  add_sigs sigs

-- `new`, which throws where it finds no memory
unfoldable pub fresh : (in_use : Ptr → Bool) → Prog Ptr
fresh in_use = do ret ← invoke (allocate in_use); elim ret [ pos p ↦ done p | negsuc _ ↦ aborted ]

-- `time(NULL)`
unfoldable pub now : Prog ℕ
now = do ret ← invoke time; elim ret [ pos t ↦ done t | negsuc _ ↦ fault ]

module _ {W : Type 0} where
  -- `users[fd]`
  unfoldable pub user : State W → ℤ → Prog ClientData
  user s (pos n) = if ltb n fd_limit then done (s.users n) else fault
  user s (negsuc _) = fault

  -- `users[fd] = u`
  unfoldable pub set_user : State W → ℕ → ClientData → Prog (State W)
  set_user s n u =
      if ltb n fd_limit
      then done (record s { users = λ j. if j == n then u else s.users j })
      else fault

  unfoldable pub on_signal : ℕ → State W → State W
  on_signal sig s =
      if sig == sigalrm
      then record s { timeout = true }
      else if sig == sigterm
      then record s { stop_server = true }
      else s

  unfoldable pub on_signals : List ℕ → State W → State W
  on_signals [] s = s
  on_signals (sig ∷ sigs) s = on_signals sigs (on_signal sig s)

  module _ (c : Container W) (fds : Fds) where
    -- `cb_func(&users[n])`
    unfoldable pub cb_func : State W → ℤ → Prog (State W)
    cb_func s n = do
      u ← user s n
      _ ← invoke (epoll_del fds.epoll_fd u.sock_fd)
      _ ← invoke (close u.sock_fd)
      done (record s { timers = c.on_close s.timers })

    -- the callbacks that `tick` makes
    unfoldable pub call_all : List Call → State W → Prog (State W)
    call_all [] s = done s
    call_all (r ∷ rs) s =
        let next = λ (n : ℕ). (do s' ← cb_func s (pos n); call_all rs s') in
        elim (r.arg) [ none ↦ fault | some n ↦ next n ]

    unfoldable pub timer_handler : State W → Prog (State W)
    timer_handler s = do
      (w, calls) ← c.tick s.timers
      s1 ← call_all calls (record s { timers = w })
      w' ← c.rearm s1.timers
      done (record s1 { timers = w' })

    -- a new connection
    unfoldable pub join : State W → (conn_fd : ℤ) → Prog (State W)
    join s (negsuc m) = do _ ← add_fd fds.epoll_fd (negsuc m); fault
    join s (pos n) = do
      _ ← add_fd fds.epoll_fd (pos n)
      u ← user s (pos n)
      s1 ← set_user s n (record u { sock_fd = pos n })
      (timer, w) ← c.start n s1.timers
      set_user (record s1 { timers = w }) n (record { sock_fd = pos n; timer = some timer })

    unfoldable pub serve_new : State W → Prog (State W)
    serve_new s = do
      conn_fd ← invoke (accept fds.listen_fd)
      if is_minus_one conn_fd then done s else join s conn_fd

    -- the end of a connection, with the value of `timer` in its `client_data`
    unfoldable pub leave : State W → (fd : ℤ) → Ptr → Prog (State W)
    leave s fd timer = do
      s1 ← cb_func s fd
      w ← c.remove timer s1.timers
      done (record s1 { timers = w })

    -- what follows `recv`, which has returned `ret`
    unfoldable pub received : State W → (fd ret : ℤ) (try_again : Bool) → Ptr → Prog (State W)
    received s fd (negsuc _) try_again timer = if try_again then done s else leave s fd timer
    received s fd (pos n) try_again timer =
        let stay : Prog (State W) = (do
          w ← c.touch timer s.timers
          done (record s { timers = w })) in
        if n == 0 then leave s fd timer else stay

    -- data of a client
    unfoldable pub serve_client : State W → (fd : ℤ) → Prog (State W)
    serve_client s fd = do
      u ← user s fd
      r ← call (recv fd (buffer_size - 1))
      elim (u.timer) [ none ↦ fault | some timer ↦ received s fd r.ret r.try_again timer ]

    unfoldable pub on_event : Event → State W → Prog (State W)
    on_event e s =
        let signals : Prog (State W) = (do
          r ← call (recv fds.pipe0 1024)
          elim (r.ret) [
            | negsuc _ ↦ done s
            | pos n ↦ if n == 0 then done s else done (on_signals r.bytes s)
          ]) in
        if same_fd e.fd fds.listen_fd
        then serve_new s
        else if same_fd e.fd fds.pipe0 && e.readable
        then signals
        else if e.readable
        then serve_client s e.fd
        else done s

    unfoldable pub on_events : List Event → State W → Prog (State W)
    on_events [] s = done s
    on_events (e ∷ es) s = on_event e s >>= on_events es

    -- what follows the events
    unfoldable pub on_timeout : State W → Prog (State W)
    on_timeout s =
        let handled : Prog (State W) = (do
          s' ← timer_handler s
          done (record s' { timeout = false })) in
        if s.timeout then handled else done s

    unfoldable pub event_loop : (rounds : ℕ) → State W → Prog (State W)
    event_loop zero s = if s.stop_server then done s else paused
    event_loop (suc k) s =
        let round : Prog (State W) = (do
          r ← call (epoll_wait fds.epoll_fd)
          s1 ← on_events (if is_neg r.ret then [] else r.events) s
          s2 ← on_timeout s1
          event_loop k s2) in
        if s.stop_server then done s else round

    -- the event loop and what follows it
    unfoldable pub serve : (rounds : ℕ) → W → (ℕ → ClientData) → Prog ℕ
    serve rounds w users = do
      _ ← invoke (alarm c.first_alarm)
      _ ←
          event_loop rounds
            (record { timers = w; users = users; timeout = false; stop_server = false })
      _ ← invoke (close fds.listen_fd)
      _ ← invoke (close fds.pipe1)
      _ ← invoke (close fds.pipe0)
      done 0

  unfoldable pub main : Container W → (rounds : ℕ) (argv : List ℕ) → W → (ℕ → ClientData) → Prog ℕ
  main c rounds argv w users = if ltb (argc argv) 2 then done 1 else do
    port ← arg argv 2
    listen_fd ← invoke (socket stream)
    _ ← assert (not (is_neg listen_fd))
    _ ← invoke (set_option listen_fd 1)
    ret ← invoke (bind listen_fd (htons port))
    _ ← assert (not (is_minus_one ret))
    ret ← invoke (listen listen_fd 5)
    _ ← assert (not (is_minus_one ret))
    epoll_fd ← invoke epoll_create
    _ ← assert (not (is_minus_one epoll_fd))
    _ ← add_fd epoll_fd listen_fd
    pair ← call socketpair
    _ ← assert (not (is_minus_one pair.ret))
    _ ← invoke (set_nonblocking (pos pair.pair.1))
    _ ← add_fd epoll_fd (pos pair.pair.0)
    _ ← add_sigs c.signals
    serve c
        (record {
          listen_fd = listen_fd;
          epoll_fd = epoll_fd;
          pipe0 = pos pair.pair.0;
          pipe1 = pos pair.pair.1;
        })
        rounds w users
