-- ===== src/TimerServer/Handlers.antt =====
-- The server of TimeWheel.cpp: what the events of a batch do to its clients and their timers.
use linux_server_programming.Base.{
  ℕ, ◌≡◌, ◌≢◌, refl, ◌∙◌, ap, arith, true, ◌&&◌, List, [], ◌∷◌, ◌==◌, if◌then◌else◌, Bool-cases,
  inl, inr, ℤ, pos, negsuc,
}
use linux_server_programming.Process.{recv, done, Event}
use linux_server_programming.Process.Kernel.{
  Throughout, bind-Throughout, if-Throughout, done-Throughout, sys-Throughout,
}
use linux_server_programming.Process.Files.{holds}
use linux_server_programming.Process.Epoll.{Watch, epoll, NoEvent, AreEvents}
use linux_server_programming.TimeWheel.{TimeWheel}
use linux_server_programming.TimerServer.{
  sigalrm, sigterm, State, on_signal, on_signals, on_event, on_events,
}
use linux_server_programming.TimerServer.Containers.{wheel}
use linux_server_programming.TimerServer.Clients.{Own, fds_of}
use linux_server_programming.TimerServer.Timeouts.{IsServer, flags-IsServer}
use linux_server_programming.TimerServer.Leaving.{Kept, stay-Kept, serve_client-Throughout}
use linux_server_programming.TimerServer.Joining.{serve_new-Throughout}

module _ (fuel : ℕ) (b : Own) where
  on_signals_same :
      (sigs : List ℕ) (s : State TimeWheel)
      → ((on_signals sigs s).timers ≡ s.timers) × ((on_signals sigs s).users ≡ s.users)
  unfolding on_signals on_signal
  on_signals_same [] s = (refl, refl)
  on_signals_same (sig ∷ sigs) s =
      let (timers, users) = on_signals_same sigs (on_signal sig s) in
      elim (Bool-cases (sig == sigalrm)) [
        | inl e ↦ (timers ∙ rw e refl, users ∙ rw e refl)
        | inr e ↦ elim (Bool-cases (sig == sigterm)) [
          | inl f ↦ (timers ∙ rw (e, f) refl, users ∙ rw (e, f) refl)
          | inr f ↦ (timers ∙ rw (e, f) refl, users ∙ rw (e, f) refl)
        ]
      ]

  signals-Kept :
      (s : State TimeWheel) (w : Watch) (t : IsServer b w s) (k : ℕ) (ret : ℤ) (sigs : List ℕ)
      → Throughout epoll (Kept fuel b k w.watched) w (elim ret [
        | negsuc _ ↦ done s
        | pos n ↦ if n == 0 then done s else done (on_signals sigs s)
      ])
  signals-Kept s w t k (negsuc _) sigs =
      done-Throughout epoll (Kept fuel b k w.watched) w s (stay-Kept fuel b k w s t)
  signals-Kept s w t k (pos n) sigs =
      let (timers, users) = on_signals_same sigs s in
      if-Throughout epoll (Kept fuel b k w.watched) w (n == 0) _ _
        (λ _. done-Throughout epoll (Kept fuel b k w.watched) w s (stay-Kept fuel b k w s t))
        (λ _. done-Throughout epoll (Kept fuel b k w.watched) w (on_signals sigs s) (
          stay-Kept fuel b k w (on_signals sigs s)
            (flags-IsServer b w s (on_signals sigs s) t timers users)))

  on_event-Throughout :
      (e : Event) (s : State TimeWheel) (w : Watch) (n : ℕ)
      → IsServer b w s
      → e.fd ≡ pos n
      → holds n w.watched ≡ true
      → Throughout epoll (Kept fuel b n w.watched) w (on_event (wheel fuel) (fds_of b) e s)
  unfolding on_event
  on_event-Throughout e s w n t is held =
      let (listening, efd, in0, in1) = t.serving.own in
      let K = Kept fuel b n w.watched in
      rw is (
        if-Throughout epoll K w (n == b.listen_fd) _ _ (λ _. serve_new-Throughout fuel b s w t n)
          (λ other.
            if-Throughout epoll K w ((n == b.pipe0) && e.readable) _ _
              (λ _.
                sys-Throughout epoll K w (recv (pos b.pipe0) 1024) _ in0
                  (λ r _. signals-Kept s w t n r.ret r.bytes))
              (λ quiet.
                if-Throughout epoll K w e.readable _ _
                  (λ readable. elim (t.serving.known n held) [
                    | inl is_listening ↦ absurd (ground arith)
                    | inr (inl is_pipe) ↦ absurd (ground arith)
                    | inr (inr (p, own)) ↦ serve_client-Throughout fuel b s w t p n own
                  ])
                  (λ _. done-Throughout epoll K w s (stay-Kept fuel b n w s t)))))

  events_kept :
      (n : ℕ) (old new : List ℕ) (es : List Event)
      → NoEvent n es
      → AreEvents old es
      → ((m : ℕ) → m ≢ n → holds m old ≡ true → holds m new ≡ true)
      → AreEvents new es
  events_kept n old new [] out a kept = tt
  events_kept n old new (e ∷ es) (other, out) (m, is, held, apart, a) kept = (
    m,
    is,
    kept m (λ same. other (is ∙ ap pos same)) held,
    apart,
    events_kept n old new es out a kept,
  )

  -- `epoll_wait` has reported these events.
  pub on_events-Throughout :
      (es : List Event) (s : State TimeWheel) (w : Watch)
      → IsServer b w s
      → AreEvents w.watched es
      → Throughout epoll (IsServer b) w (on_events (wheel fuel) (fds_of b) es s)
  unfolding on_events
  on_events-Throughout [] s w t a = done-Throughout epoll (IsServer b) w s t
  on_events-Throughout (e ∷ es) s w t (n, is, held, apart, a) =
      bind-Throughout epoll (Kept fuel b n w.watched) (IsServer b) w
        (on_event (wheel fuel) (fds_of b) e s) _ (on_event-Throughout e s w n t is held)
        (λ w' s' (t', kept).
          on_events-Throughout es s' w' t' (events_kept n w.watched w'.watched es apart a kept))
