-- ===== src/ShmChat/Running.antt =====
-- The event loop of ShmChat.cpp's parent takes the steps of the relation `Reachable`, and does not stop before.
use linux_server_programming.Base.{
  ℕ, ◌≡◌, ◌≢◌, ◌∙◌, ◌≤◌, ◌<◌, refl, ap, ◌⊎◌, Bool, if_true, if_false, arith, Bool-cases, true,
  false, Option, none, some, List, [], ◌∷◌, if◌then◌else◌, leb, inl, inr, Returns, ok, ◌>>=◌,
}
use linux_server_programming.ShmChat.{
  Client, Server, Signal, sigchld, sigterm, sigint, other, user_limit, process_limit, Arrival,
  new_server, close_fd, refuse, perform, accept_user, handle_signal, handle_signals,
}
use linux_server_programming.ShmChat.Invariant.{IsServer, IsUser}
use linux_server_programming.ShmChat.Accept.{accept_user-joins}
use linux_server_programming.ShmChat.ReapAll.{Children}
use linux_server_programming.ShmChat.ShutDown.{handle_signal-sigchld, shut_down-IsServer}
use linux_server_programming.ShmChat.Relay.{relay-sends_except}
use linux_server_programming.ShmChat.Reachable.{
  Reachable, begin, arrives, children_end, terminates, interrupts, relays, IsWelcome,
  Reachable-IsServer, fork-IsServer,
}
use linux_server_programming.ShmChat.EventLoop.{
  Event, arrival, signals, message, on_event, on_events, event_loop, Fds, del_resource, serve,
}

-- What the kernel promises of a signal: `waitpid` returns distinct children of users.
abbrev pub IsDue : Signal → Server → Type 0
IsDue (sigchld pids) w = Children w pids
IsDue sigterm w = Unit
IsDue sigint w = Unit
IsDue other w = Unit

abbrev pub AreDue : List Signal → Server → Type 0
AreDue [] w = Unit
AreDue (s ∷ ss) w = IsDue s w × ((w' : Server) → handle_signal s w ≡ ok w' → AreDue ss w')

-- And of an event: a new child has a number below `pid_max` that no running child has, and
-- `socketpair` succeeds, which the source asserts.
abbrev pub IsForked : (pid_max : ℕ) → Server → Arrival → Type 0
IsForked pid_max w a =
    (pid : ℕ) → a.pid ≡ some pid → (pid < pid_max) × ((u : Client) → IsUser w u → u.pid ≢ pid)

abbrev pub Fits : (pid_max : ℕ) → Event → Server → Type 0
Fits pid_max (arrival a) w = IsForked pid_max w a × (a.pipe ≢ none)
Fits pid_max (signals none) w = Unit
Fits pid_max (signals (some ss)) w = AreDue ss w
Fits pid_max (message _ _) w = Unit

abbrev pub AllFit : (pid_max : ℕ) → List Event → Server → Type 0
AllFit pid_max [] w = Unit
AllFit pid_max (e ∷ es) w =
    Fits pid_max e w × ((w' : Server) → on_event e w ≡ ok w' → AllFit pid_max es w')

abbrev pub Promised : (pid_max : ℕ) → List (Option (List Event)) → Server → Type 0
Promised pid_max [] w = Unit
Promised pid_max (none ∷ bs) w = Unit
Promised pid_max (some es ∷ bs) w =
    AllFit pid_max es w × ((w' : Server) → on_events es w ≡ ok w' → Promised pid_max bs w')

abbrev Any : Server → Type 0
Any _ = Unit

valid : (w : Server) → Reachable w → IsServer w
valid w r = let (wf, _) = Reachable-IsServer w r in wf

accept_user-Returns :
    (w : Server) (connfd : Option ℕ) (address : ℕ) (pipe : Option (ℕ × ℕ)) (pid : Option ℕ)
    → IsServer w
    → IsWelcome w (record { connfd = connfd; address = address; pipe = pipe; pid = pid })
    → pipe ≢ none
    → Returns Any
        (accept_user w (record { connfd = connfd; address = address; pipe = pipe; pid = pid }))
unfolding accept_user
accept_user-Returns w none address pipe pid wf new made = (w, refl, tt)
accept_user-Returns w (some c) address none pid wf new made = absurd (made refl)
accept_user-Returns w (some c) address (some (p, q)) pid wf new made =
    elim (Bool-cases (leb user_limit w.user_count)) [
      | inl full ↦ (perform w (refuse c ∷ close_fd c ∷ []), rw full, tt)
      | inr room ↦ forked pid new (ground arith)
    ]
  where
    forked :
        (o : Option ℕ)
        → IsWelcome w (record { connfd = some c; address = address; pipe = some (p, q); pid = o })
        → w.user_count < user_limit
        → Returns Any (
            accept_user w
              (record { connfd = some c; address = address; pipe = some (p, q); pid = o }))
    forked none fresh room =
        let (w', run, _) = fork-IsServer w c address p q wf room in (w', run, tt)
    forked (some n) fresh room =
        let (small, differs) = fresh n refl in
        let (w', run, _) = accept_user-joins w wf address c p q n room small differs in
        (w', run, tt)

handle_signal-Reachable :
    (s : Signal) (w : Server) → Reachable w → IsDue s w → Returns Reachable (handle_signal s w)
unfolding handle_signal
handle_signal-Reachable (sigchld pids) w r due =
    let (w', run, _) = handle_signal-sigchld w pids (valid w r) due in
    (w', run, children_end w w' pids r due run)
handle_signal-Reachable sigterm w r due =
    let (w', run, _) = shut_down-IsServer w (valid w r) in (w', run, terminates w w' r run)
handle_signal-Reachable sigint w r due =
    let (w', run, _) = shut_down-IsServer w (valid w r) in (w', run, interrupts w w' r run)
handle_signal-Reachable other w r due = (w, refl, r)

handle_signals-Reachable :
    (ss : List Signal) (w : Server)
    → Reachable w
    → AreDue ss w
    → Returns Reachable (handle_signals ss w)
unfolding handle_signals
handle_signals-Reachable [] w r due = (w, refl, r)
handle_signals-Reachable (s ∷ ss) w r (due, rest) =
    let (w1, run1, r1) = handle_signal-Reachable s w r due in
    let (w2, run2, r2) = handle_signals-Reachable ss w1 r1 (rest w1 run1) in (w2, rw run1 run2, r2)

-- a round of the loop
event_loop-round :
    (es : List Event) (bs : List (Option (List Event))) (w w1 : Server)
    → w.stop_server ≡ false
    → on_events es w ≡ ok w1
    → event_loop (some es ∷ bs) w ≡ event_loop bs w1
unfolding event_loop
event_loop-round es bs w w1 go run =
    if_false w.stop_server (ok (true, w)) (on_events es w >>= event_loop bs) go
    ∙ ap (λ r. r >>= event_loop bs) run

module _ (pid_max : ℕ) (numbers : pid_max ≤ process_limit) where
  on_event-Reachable :
      (e : Event) (w : Server) → Reachable w → Fits pid_max e w → Returns Reachable (on_event e w)
  unfolding on_event
  on_event-Reachable (arrival a) w r (new, made) =
      let welcome : IsWelcome w a =
        λ pid e. let (h, differs) = new pid e in (omega arith, differs) in
      let (w', run, _) =
        accept_user-Returns w a.connfd a.address a.pipe a.pid (valid w r) welcome made in
      (w', run, arrives w w' a r welcome run)
  on_event-Reachable (signals none) w r due = (w, refl, r)
  on_event-Reachable (signals (some ss)) w r due = handle_signals-Reachable ss w r due
  on_event-Reachable (message sockfd none) w r due = (w, refl, r)
  on_event-Reachable (message sockfd (some child)) w r due =
      let run = relay-sends_except sockfd child w (valid w r) in
      (_, run, relays w _ sockfd child r run)

  on_events-Reachable :
      (es : List Event) (w : Server)
      → Reachable w
      → AllFit pid_max es w
      → Returns Reachable (on_events es w)
  unfolding on_events
  on_events-Reachable [] w r fit = (w, refl, r)
  on_events-Reachable (e ∷ es) w r (fit, rest) =
      let (w1, run1, r1) = on_event-Reachable e w r fit in
      let (w2, run2, r2) = on_events-Reachable es w1 r1 (rest w1 run1) in (w2, rw run1 run2, r2)

  event_loop-Reachable :
      (bs : List (Option (List Event))) (w : Server)
      → Reachable w
      → Promised pid_max bs w
      → Returns (λ r. Reachable r.1) (event_loop bs w)
  unfolding event_loop
  event_loop-Reachable [] w r fit = ((w.stop_server, w), refl, r)
  event_loop-Reachable (none ∷ bs) w r fit = elim (Bool-cases w.stop_server) [
    | inl stop ↦ ((true, w), if_true w.stop_server _ _ stop, r)
    | inr go ↦ ((true, w), if_false w.stop_server (ok (true, w)) (ok (true, w)) go, r)
  ]
  event_loop-Reachable (some es ∷ bs) w r (fits, rest) =
      let (w1, run1, r1) = on_events-Reachable es w r fits in
      let (e2, run2, r2) = event_loop-Reachable bs w1 r1 (rest w1 run1) in
      elim (Bool-cases w.stop_server) [
        | inl stop ↦ ((true, w), if_true w.stop_server _ _ stop, r)
        | inr go ↦ (e2, event_loop-round es bs w w1 go run1 ∙ run2, r2)
      ]

  -- On a system whose process numbers are below 65536, that is, whose `pid_max` is `PROCESS_LIMIT` at
  -- most: whatever events come, as long as `waitpid` returns distinct children of users, a new child
  -- has a number that no running child has, and `socketpair` succeeds, the parent of ShmChat.cpp never
  -- leaves its arrays. It waits in a state of the relation `Reachable`, or has left its event loop in
  -- one and freed its resources.
  pub serve-Reachable :
      (fds : Fds) (bs : List (Option (List Event))) (users : ℕ → Client)
      → Promised pid_max bs (new_server users)
      → Returns
          (λ w'. (w : Server) × Reachable w × ((w' ≡ w) ⊎ (w' ≡ del_resource fds w)))
          (serve fds bs users)
  unfolding serve
  serve-Reachable fds bs users promised =
      let ((ended, w), run, r) =
        event_loop-Reachable bs (new_server users) (begin users) promised in
      ((if ended then del_resource fds w else w), rw run refl, (w, r, left ended w))
    where
      left :
          (b : Bool) (w : Server)
          → ((if b then del_resource fds w else w) ≡ w)
            ⊎ ((if b then del_resource fds w else w) ≡ del_resource fds w)
      left true w = inr refl
      left false w = inl refl
