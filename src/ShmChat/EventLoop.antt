-- ===== src/ShmChat/EventLoop.antt =====
-- The event loop of ShmChat.cpp's parent, on the events that `epoll_wait` reports, and what follows it.
-- Each event comes with what the calls of its branch return.
use linux_server_programming.Base.{
  ℕ, Bool, true, Option, none, some, List, [], ◌∷◌, if◌then◌else◌, Run, ok, ◌>>=◌,
}
use linux_server_programming.ShmChat.{
  Client, Server, Arrival, Signal, close_fd, unlink_shm, new_server, perform, accept_user,
  handle_signals, relay,
}

-- An event of `listenfd`; one of the pipe of signals, with what is read there; and any other, which
-- is taken for a message of a child. `none` is a `recv` that has returned -1 or 0.
pub data Event : Type 0 where
  arrival : Arrival → Event
  signals : Option (List Signal) → Event
  message : (sockfd : ℕ) (child : Option ℕ) → Event

-- the descriptors that the parent keeps open
pub record Fds : Type 0 where
  pub sig_pipefd : ℕ × ℕ
  pub listenfd : ℕ
  pub epollfd : ℕ

unfoldable pub on_event : Event → Server → Run Server
on_event (arrival a) w = accept_user w a
on_event (signals none) w = ok w
on_event (signals (some ss)) w = handle_signals ss w
on_event (message sockfd none) w = ok w
on_event (message sockfd (some child)) w = relay sockfd child w.user_count 0 w

unfoldable pub on_events : List Event → Server → Run Server
on_events [] w = ok w
on_events (e ∷ es) w = on_event e w >>= on_events es

-- The results of `epoll_wait`; `none` is a failure other than EINTR. EINTR comes without events.
-- The loop tells whether it has ended; where the results end, the parent waits.
unfoldable pub event_loop : List (Option (List Event)) → Server → Run (Bool × Server)
event_loop [] w = ok (w.stop_server, w)
event_loop (b ∷ bs) w =
    let round = λ (es : List Event). (do w' ← on_events es w; event_loop bs w') in
    if w.stop_server then ok (true, w) else elim b [ none ↦ ok (true, w) | some es ↦ round es ]

unfoldable pub del_resource : Fds → Server → Server
del_resource fds w = perform w (
    close_fd fds.sig_pipefd.0
    ∷ close_fd fds.sig_pipefd.1
    ∷ close_fd fds.listenfd
    ∷ close_fd fds.epollfd
    ∷ unlink_shm
    ∷ [])

-- `main` from the arrays on
unfoldable pub serve : Fds → List (Option (List Event)) → (users : ℕ → Client) → Run Server
serve fds bs users = do
  (ended, w) ← event_loop bs (new_server users)
  ok (if ended then del_resource fds w else w)
