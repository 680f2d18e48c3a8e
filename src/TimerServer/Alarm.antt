-- ===== src/TimerServer/Alarm.antt =====
-- What the server of TimeWheel.cpp does when SIGALRM arrives.
use linux_server_programming.Base.{
  ℕ, zero, suc, ◌<◌, ◌≡◌, refl, ◌∙◌, ap, ap₂, arith, Bool, true, false, ◌||◌, some, List, [], ◌∷◌,
  ◌==◌, Bool-cases, inl, inr, if◌then◌else◌, length, lt→ltb, ne→==, ℤ, pos, ok,
}
use linux_server_programming.Callback.{Call, call}
use linux_server_programming.Process.{
  Sys, epoll_wait, epoll_del, recv, close, alarm, Answer, Prog, done, sys, ◌>>=◌, same_fd,
}
use linux_server_programming.Process.Exec.{calls_of, calls_of_assoc, answer}
use linux_server_programming.Process.Files.{fd_limit}
use linux_server_programming.TimeWheel
use linux_server_programming.TimeWheel.{TimeWheel}
use linux_server_programming.TimeWheel.Sweep.{Armed, sweep, fired}
use linux_server_programming.TimeWheel.Invariant.{Slots, put, IsWheel}
use linux_server_programming.TimeWheel.Operations.{tick-sweep}
use linux_server_programming.TimerServer.{
  sigalrm, sigterm, ClientData, Fds, State, user, on_signal, on_signals, cb_func, call_all,
  timer_handler, on_event, on_events, on_timeout, event_loop,
}
use linux_server_programming.TimerServer.Containers.{callback, wheel}

abbrev pub has : ℕ → List ℕ → Bool
has sig [] = false
has sig (x ∷ xs) = (x == sig) || has sig xs

on_signals-has :
    (sigs : List ℕ) (s : State TimeWheel)
    → on_signals sigs s ≡ record s {
      timeout = s.timeout || has sigalrm sigs;
      stop_server = s.stop_server || has sigterm sigs;
    }
unfolding on_signals on_signal
on_signals-has [] s =
    let same : (b : Bool) → b ≡ (b || false) = λ b. ground arith in
    ap₂ (λ a b. record s { timeout = a; stop_server = b }) (same s.timeout) (same s.stop_server)
on_signals-has (sig ∷ sigs) s =
    on_signals-has sigs (on_signal sig s)
    ∙ (let absorbed : (a b : Bool) → (true || b) ≡ (a || (true || b)) = λ a b. ground arith in
        elim (Bool-cases (sig == sigalrm)) [
          | inl e ↦
              let o : (sig == sigterm) ≡ false = ground arith in
              rw (e, o)
                (ap (λ a. record s { timeout = a; stop_server = s.stop_server || has sigterm sigs })
                  (absorbed s.timeout (has sigalrm sigs)))
          | inr e ↦ elim (Bool-cases (sig == sigterm)) [
            | inl t ↦
                rw (e, t)
                  (ap (λ b. record s { timeout = s.timeout || has sigalrm sigs; stop_server = b })
                    (absorbed s.stop_server (has sigterm sigs)))
            | inr t ↦ rw (e, t)
          ]
        ])

-- the calls of `cb_func` for these entries of `users`
abbrev pub calls_with : List ℕ → List Call
calls_with [] = []
calls_with (n ∷ ns) = call callback (some n) ∷ calls_with ns

abbrev pub AllSmall : List ℕ → Type 0
AllSmall [] = Unit
AllSmall (n ∷ ns) = (n < fd_limit) × AllSmall ns

-- the answers while their connections are closed
abbrev pub acks : List ℕ → Answer → List Answer → List Answer
acks [] r rest = rest
acks (n ∷ ns) r rest = r ∷ r ∷ acks ns r rest

abbrev pub closes : (epoll_fd : ℤ) → (ℕ → ClientData) → List ℕ → List Sys → List Sys
closes epoll_fd users [] rest = rest
closes epoll_fd users (n ∷ ns) rest =
    epoll_del epoll_fd (users n).sock_fd ∷ close (users n).sock_fd ∷ closes epoll_fd users ns rest

-- `epoll_wait` reports the pipe, and these signals are read from it.
abbrev pub signalled : Fds → List ℕ → List Answer → List Answer
signalled fds sigs rest =
    answer (pos 1) false []
      (record { fd = fds.pipe0; readable = true; hang_up = false; error = false } ∷ [])
    ∷ answer (pos (length sigs)) false sigs []
    ∷ rest

module _ (fuel : ℕ) (fds : Fds) where
  call_all-closes :
      {A : Type 0} (s : State TimeWheel) (ns : List ℕ) (k : State TimeWheel → Prog A) (r : Answer)
      (rest : List Answer)
      → AllSmall ns
      → calls_of (call_all (wheel fuel) fds (calls_with ns) s >>= k) (acks ns r rest)
        ≡ closes fds.epoll_fd s.users ns (calls_of (k s) rest)
  unfolding call_all cb_func user wheel calls_of
  call_all-closes s [] k r rest small = refl
  call_all-closes s (n ∷ ns) k r rest (h, small) =
      rw (lt→ltb n fd_limit h, call_all-closes s ns k r rest small)

  called_all-closes :
      {A : Type 0} (s : State TimeWheel) (cs : List Call) (ns : List ℕ)
      (k : State TimeWheel → Prog A) (r : Answer) (rest : List Answer)
      → cs ≡ calls_with ns
      → AllSmall ns
      → calls_of (call_all (wheel fuel) fds cs s >>= k) (acks ns r rest)
        ≡ closes fds.epoll_fd s.users ns (calls_of (k s) rest)
  called_all-closes s cs ns k r rest e small = rw e (call_all-closes s ns k r rest small)

  on_timeout-closes :
      {A : Type 0} (w w' : TimeWheel) (users : ℕ → ClientData) (stop : Bool) (ns : List ℕ)
      (k : State TimeWheel → Prog A) (r : Answer) (rest : List Answer)
      → TimeWheel.tick fuel (record w { calls = [] }) ≡ ok w'
      → w'.calls ≡ calls_with ns
      → AllSmall ns
      → calls_of
          (on_timeout
              (wheel fuel)
              fds
              (record { timers = w; users = users; timeout = true; stop_server = stop })
            >>= k)
          (acks ns r (r ∷ rest))
        ≡ closes fds.epoll_fd users ns (
            alarm 1
            ∷ calls_of
                (k (record { timers = w'; users = users; timeout = false; stop_server = stop }))
                rest)
  unfolding on_timeout timer_handler wheel
  on_timeout-closes w w' users stop ns k r rest run called small =
      let s1 : State TimeWheel = record {
        timers = w';
        users = users;
        timeout = true;
        stop_server = stop;
      } in
      let p = call_all (wheel fuel) fds w'.calls s1 in
      let rearmed : State TimeWheel → Prog (State TimeWheel) = λ s2. sys (alarm 1) (λ _. done s2) in
      let reset : State TimeWheel → Prog (State TimeWheel) =
        λ s2. done (record s2 { timeout = false }) in
      let rs = acks ns r (r ∷ rest) in
      rw run (
        calls_of_assoc (p >>= rearmed) reset k rs
        ∙ calls_of_assoc p rearmed (λ s2. reset s2 >>= k) rs
        ∙ called_all-closes s1 w'.calls ns (λ s2. rearmed s2 >>= λ s3. reset s3 >>= k) r (r ∷ rest)
            called small
        ∙ ap (closes fds.epoll_fd users ns) (unfold calls_of in refl))

  -- the loop of a state that is to stop, or goes on
  event_loop-stop :
      {A : Type 0} (k : ℕ) (s : State TimeWheel) (h : State TimeWheel → Prog A) (rest : List Answer)
      → calls_of (event_loop (wheel fuel) fds k s >>= h) rest ≡ (
          if s.stop_server
          then calls_of (h s) rest
          else calls_of (event_loop (wheel fuel) fds k s >>= h) rest)
  unfolding event_loop
  event_loop-stop zero s h rest = elim (Bool-cases s.stop_server) [ inl e ↦ rw e | inr e ↦ rw e ]
  event_loop-stop (suc k) s h rest = elim (Bool-cases s.stop_server) [ inl e ↦ rw e | inr e ↦ rw e ]

  -- A batch of signals with SIGALRM turns the wheel once. The connections of exactly the timers in
  -- the current slot that have no rotation left are closed, in the order of the slot, and the alarm
  -- is set again. The wheel is in order afterwards, with that slot swept. Then the loop goes on, or,
  -- if SIGTERM was in the batch too, it has returned, and what follows it, `h`, comes next. This is
  -- for a wheel in order, whose timers have their callback, and of which those that fire belong to
  -- clients with a descriptor below the limit.
  pub event_loop-sweep :
      {A : Type 0} (l : Slots) (w : TimeWheel) (wf : IsWheel l w) (users : ℕ → ClientData)
      (ns sigs : List ℕ) (r : Answer) (k : ℕ) (rest : List Answer) (h : State TimeWheel → Prog A)
      → same_fd fds.pipe0 fds.listen_fd ≡ false
      → same_fd fds.pipe0 fds.pipe0 ≡ true
      → Armed (l w.cur_slot)
      → length (l w.cur_slot) < fuel
      → fired (l w.cur_slot) ≡ calls_with ns
      → AllSmall ns
      → has sigalrm sigs ≡ true
      → (w' : TimeWheel) × IsWheel (put l w.cur_slot (sweep (l w.cur_slot))) w'
        × (let after : State TimeWheel = record {
          timers = w';
          users = users;
          timeout = false;
          stop_server = has sigterm sigs;
        } in
            calls_of
              (event_loop
                  (wheel fuel)
                  fds
                  (suc k)
                  (record { timers = w; users = users; timeout = false; stop_server = false })
                >>= h)
              (signalled fds sigs (acks ns r (r ∷ rest)))
            ≡ epoll_wait fds.epoll_fd
              ∷ recv fds.pipe0 1024
              ∷ closes fds.epoll_fd users ns (
                  alarm 1
                  ∷ (if has sigterm sigs
                      then calls_of (h after) rest
                      else calls_of (event_loop (wheel fuel) fds k after >>= h) rest)))
  unfolding event_loop on_events on_event calls_of
  event_loop-sweep l w wf users ns [] r k rest h apart own armed enough due small alarmed = cc
  event_loop-sweep l w wf users ns (sig ∷ sigs) r k rest h apart own armed enough due small
        alarmed =
      let emptied : TimeWheel = record w { calls = [] } in
      let wf0 : IsWheel l emptied = record {
        current = wf.current;
        heads = wf.heads;
        chains = wf.chains;
        apart = wf.apart;
        placed = wf.placed;
      } in
      let (w', run, (wf', at, called, gone)) = tick-sweep l emptied wf0 fuel armed enough in
      let stop = has sigterm (sig ∷ sigs) in
      let p =
        on_timeout (wheel fuel) fds
          (record { timers = w; users = users; timeout = true; stop_server = stop }) in
      let rs = acks ns r (r ∷ rest) in
      let turned : calls_of ((p >>= event_loop (wheel fuel) fds k) >>= h) rs
          ≡ closes fds.epoll_fd users ns (alarm 1 ∷ _) =
        calls_of_assoc p (event_loop (wheel fuel) fds k) h rs
        ∙ on_timeout-closes w w' users stop ns (λ s. event_loop (wheel fuel) fds k s >>= h) r rest
            run (called ∙ due) small
        ∙ ap (λ cs. closes fds.epoll_fd users ns (alarm 1 ∷ cs))
            (event_loop-stop k
              (record { timers = w'; users = users; timeout = false; stop_server = stop }) h
              rest) in
      (
        w',
        wf',
        rw
            (
              apart,
              own,
              ne→== (suc (length sigs)) 0 (omega arith),
              on_signals-has (sig ∷ sigs),
              alarmed,
            )
            (ap (λ cs. epoll_wait fds.epoll_fd ∷ recv fds.pipe0 1024 ∷ cs) turned),
      )
