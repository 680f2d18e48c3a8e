-- ===== src/TimerServer/Running.antt =====
-- The server of TimeWheel.cpp from its start on.
use linux_server_programming.Base.{
  ℕ, ◌≤◌, zero, suc, ◌<◌, ◌≡◌, ◌≢◌, ◌⊎◌, refl, ◌∙◌, arith, Bool, true, false, not, none, List, [],
  ◌∷◌, ltb, if◌then◌else◌, Bool-cases, inl, inr, ℤ, pos, negsuc,
}
use linux_server_programming.Memory.{Store}
use linux_server_programming.Callback.{Call}
use linux_server_programming.Process.{
  stream, socket, bind, listen, set_option, epoll_create, socketpair, call, htons, epoll_wait,
  alarm, close, add_signal, set_nonblocking, epoll_add, invoke, Prog, ◌>>=◌, is_neg, is_minus_one,
  assert, argc,
}
use linux_server_programming.Process.Kernel.{
  stricter-Throughout, Throughout, bind-Throughout, if-Throughout, done-Throughout, sys-Throughout,
  assert-any, arg-Throughout,
}
use linux_server_programming.Process.Files.{
  holds, holds_first, holds_second, drop_fd, holds-drop_fd, fd_limit, opened, paired, IsNew,
  IsStatus,
}
use linux_server_programming.Process.Epoll.{Watch, epoll, epoll_below, epoll_below-epoll, AreEvents}
use linux_server_programming.TimeWheel.{TwTimer, TimeWheel, new_wheel}
use linux_server_programming.TimerServer.{
  ClientData, State, add_fd, add_sigs, event_loop, serve, main,
}
use linux_server_programming.TimerServer.Containers.{wheel, wheel_main}
use linux_server_programming.TimerServer.Clients.{Own, fds_of, AreOpen}
use linux_server_programming.TimerServer.Timeouts.{IsServer, on_timeout-Throughout}
use linux_server_programming.TimerServer.Handlers.{on_events-Throughout}

abbrev pub Ended : Watch → ℕ → Type 0
Ended _ _ = Unit

module _ (fuel : ℕ) (b : Own) (big : fd_limit < fuel) where
  event_loop-Throughout :
      (rounds : ℕ) (s : State TimeWheel) (w : Watch)
      → IsServer b w s
      → Throughout epoll (IsServer b) w (event_loop (wheel fuel) (fds_of b) rounds s)
  unfolding event_loop
  event_loop-Throughout zero s w t =
      if-Throughout epoll (IsServer b) w s.stop_server _ _
        (λ _. done-Throughout epoll (IsServer b) w s t) (λ _. unfold Throughout in tt)
  event_loop-Throughout (suc k) s w t =
      let (_, efd, _, _) = t.serving.own in
      if-Throughout epoll (IsServer b) w s.stop_server _ _
        (λ _. done-Throughout epoll (IsServer b) w s t)
        (λ _.
          sys-Throughout epoll (IsServer b) w (epoll_wait (pos b.epoll_fd)) _ efd (λ r (_, events).
            let seen : AreEvents w.watched (if is_neg r.ret then [] else r.events) =
              elim (Bool-cases (is_neg r.ret)) [ inl e ↦ rw e tt | inr e ↦ rw e events ] in
            bind-Throughout epoll (IsServer b) (IsServer b) w _ _
              (on_events-Throughout fuel b (if is_neg r.ret then [] else r.events) s w t seen)
              (λ w1 s1 t1.
                bind-Throughout epoll (IsServer b) (IsServer b) w1 _ _
                  (on_timeout-Throughout fuel b s1 w1 big t1)
                  (λ w2 s2 t2. event_loop-Throughout k s2 w2 t2))))

  serve-Throughout :
      (rounds : ℕ) (timers : TimeWheel) (users : ℕ → ClientData) (w : Watch)
      → IsServer b w
          (record { timers = timers; users = users; timeout = false; stop_server = false })
      → b.pipe0 ≢ b.pipe1
      → b.pipe0 ≢ b.listen_fd
      → b.pipe1 ≢ b.listen_fd
      → Throughout epoll Ended w (serve (wheel fuel) (fds_of b) rounds timers users)
  unfolding serve
  serve-Throughout rounds timers users w t o1 o2 o3 =
      sys-Throughout epoll Ended w (alarm _) _ tt (λ _ _.
        bind-Throughout epoll (IsServer b) Ended w _ _ (event_loop-Throughout rounds _ w t)
          (λ w' s' t'.
            let (listening, _, in0, in1) = t'.serving.own in
            let held1 : holds b.pipe1 (drop_fd b.listen_fd w'.opened_fds) ≡ true =
              holds-drop_fd b.pipe1 b.listen_fd w'.opened_fds o3 ∙ in1 in
            let held0 : holds b.pipe0 (drop_fd b.pipe1 (drop_fd b.listen_fd w'.opened_fds)) ≡ true =
              holds-drop_fd b.pipe0 b.pipe1 (drop_fd b.listen_fd w'.opened_fds) o1
              ∙ holds-drop_fd b.pipe0 b.listen_fd w'.opened_fds o2
              ∙ in0 in
            sys-Throughout epoll Ended w' (close (pos b.listen_fd)) _ listening (λ _ _.
              sys-Throughout epoll Ended _ (close (pos b.pipe1)) _ held1 (λ _ _.
                sys-Throughout epoll Ended _ (close (pos b.pipe0)) _ held0
                  (λ _ _. done-Throughout epoll Ended _ 0 tt)))))

-- the server before the first connection
ready-IsServer :
    (b : Own) (w : Watch) (h : Store TwTimer) (log : List Call) (users : ℕ → ClientData)
    → AreOpen b w.opened_fds
    → ((n : ℕ) → holds n w.watched ≡ true → (n ≡ b.listen_fd) ⊎ (n ≡ b.pipe0))
    → IsServer b w
        (record { timers = new_wheel h log; users = users; timeout = false; stop_server = false })
unfolding new_wheel
ready-IsServer b w h log users own known = record {
  slots = λ _. [];
  owner = λ _. none;
  in_order = record {
    current = omega arith;
    heads = λ i hi. refl;
    chains = λ i hi. tt;
    apart = λ i j p hi hj m. cc;
    placed = λ i hi. tt;
  };
  matches = record { marked = λ i hi. tt; found = λ p n e. cc };
  serving = record {
    own = own;
    mine = λ p n e. cc;
    known = λ n held. elim (known n held) [ inl e ↦ inl e | inr e ↦ inr (inl e) ];
  };
}

-- a failed `assert` ends the program
bind_assert :
    {A B : Type 0} (c : Bool) (P : Watch → B → Type 0) (w : Watch) (p : Prog A) (q : Prog B)
    → Throughout epoll P w (p >>= λ _. q)
    → Throughout epoll P w ((assert c >>= λ _. p) >>= λ _. q)
bind_assert true P w p q h = h
bind_assert false P w p q h = unfold Throughout in tt

add_sigs-Throughout :
    {A : Type 0} (P : Watch → A → Type 0) (sigs : List ℕ) (w : Watch) (q : Prog A)
    → Throughout epoll P w q
    → Throughout epoll P w (add_sigs sigs >>= λ _. q)
unfolding add_sigs
add_sigs-Throughout P [] w q h = h
add_sigs-Throughout P (sig ∷ sigs) w q h = sys-Throughout epoll P w (add_signal sig) _ tt (λ r _.
    bind_assert (not (is_minus_one r.ret)) P w (add_sigs sigs) q (add_sigs-Throughout P sigs w q h))

module _ (fuel rounds : ℕ) (h : Store TwTimer) (log : List Call) (users : ℕ → ClientData)
    (big : fd_limit < fuel) where
  -- the parts of `main`, from the end on
  abbrev after_pair : (listen_fd epoll_fd : ℤ) → ℕ × ℕ → Prog ℕ
  after_pair listen_fd epoll_fd (p0, p1) = do
    _ ← invoke (set_nonblocking (pos p1))
    _ ← add_fd epoll_fd (pos p0)
    _ ← add_sigs (wheel fuel).signals
    serve (wheel fuel)
        (record { listen_fd = listen_fd; epoll_fd = epoll_fd; pipe0 = pos p0; pipe1 = pos p1 })
        rounds (new_wheel h log) users

  abbrev after_epoll : (listen_fd epoll_fd : ℤ) → Prog ℕ
  after_epoll listen_fd epoll_fd = do
    _ ← assert (not (is_minus_one epoll_fd))
    _ ← add_fd epoll_fd listen_fd
    pair ← call socketpair
    _ ← assert (not (is_minus_one pair.ret))
    after_pair listen_fd epoll_fd pair.pair

  abbrev after_socket : (port : ℕ) (listen_fd : ℤ) → Prog ℕ
  after_socket port listen_fd = do
    _ ← assert (not (is_neg listen_fd))
    _ ← invoke (set_option listen_fd 1)
    ret ← invoke (bind listen_fd (htons port))
    _ ← assert (not (is_minus_one ret))
    ret ← invoke (listen listen_fd 5)
    _ ← assert (not (is_minus_one ret))
    epoll_fd ← invoke epoll_create
    after_epoll listen_fd epoll_fd

  -- what follows `socketpair`, on the descriptors that the server has by then
  paired-Throughout :
      (f e p0 p1 : ℕ)
      → e ≢ f
      → holds p0 (e ∷ f ∷ []) ≡ false
      → holds p1 (e ∷ f ∷ []) ≡ false
      → p0 ≢ p1
      → Throughout epoll Ended
          (record { opened_fds = p0 ∷ p1 ∷ e ∷ f ∷ []; watched = f ∷ [] })
          (after_pair (pos f) (pos e) (p0, p1))
  unfolding add_fd
  paired-Throughout f e p0 p1 ef new0 new1 apart =
      let b : Own = record { listen_fd = f; epoll_fd = e; pipe0 = p0; pipe1 = p1 } in
      let w : Watch = record { opened_fds = p0 ∷ p1 ∷ e ∷ f ∷ []; watched = p0 ∷ f ∷ [] } in
      let in_l : holds f w.opened_fds ≡ true = ground arith in
      let in_e : holds e w.opened_fds ≡ true = ground arith in
      let in_0 : holds p0 w.opened_fds ≡ true = ground arith in
      let in_1 : holds p1 w.opened_fds ≡ true = ground arith in
      sys-Throughout epoll Ended _ (set_nonblocking (pos p1)) _ in_1 (λ _ _.
        sys-Throughout epoll Ended _ (epoll_add (pos e) (pos p0)) _ (in_e, in_0)
          (λ _ _. sys-Throughout epoll Ended w (set_nonblocking (pos p0)) _ in_0 (λ _ _.
            add_sigs-Throughout Ended (wheel fuel).signals w _ (
              serve-Throughout fuel b big rounds (new_wheel h log) users w
                (ready-IsServer b w h log users (in_l, in_e, in_0, in_1) (λ n held. ground arith))
                apart (ground arith) (ground arith)))))

  pair_made :
      (f e : ℕ) (ret : ℤ) (pair : ℕ × ℕ)
      → e ≢ f
      → IsStatus ret
      → holds pair.0 (e ∷ f ∷ []) ≡ false
      → holds pair.1 (e ∷ f ∷ []) ≡ false
      → pair.0 ≢ pair.1
      → Throughout epoll Ended
          (record { opened_fds = paired (e ∷ f ∷ []) ret pair; watched = f ∷ [] })
          (assert (not (is_minus_one ret)) >>= λ _. after_pair (pos f) (pos e) pair)
  pair_made f e (pos _) (p0, p1) ef status new0 new1 apart =
      paired-Throughout f e p0 p1 ef new0 new1 apart
  pair_made f e (negsuc _) pair ef status new0 new1 apart = rw status (unfold Throughout in tt)

  epoll_made :
      (f : ℕ) (z : ℤ)
      → IsNew (f ∷ []) z
      → Throughout epoll Ended
          (record { opened_fds = opened (f ∷ []) z; watched = [] })
          (after_epoll (pos f) z)
  unfolding add_fd
  epoll_made f (pos e) (new, _) =
      let ef : e ≢ f = λ q. ground arith in
      let in_l : holds f (e ∷ f ∷ []) ≡ true = holds_second f e [] in
      let in_e : holds e (e ∷ f ∷ []) ≡ true = holds_first e (f ∷ []) in
      sys-Throughout epoll Ended _ (epoll_add (pos e) (pos f)) _ (in_e, in_l)
        (λ _ _. sys-Throughout epoll Ended _ (set_nonblocking (pos f)) _ in_l (λ _ _.
          sys-Throughout epoll Ended _ socketpair _ tt (λ r ((status, new0, new1, apart), _).
            pair_made f e r.ret r.pair ef status new0 new1 apart)))
  epoll_made f (negsuc _) new = rw new (unfold Throughout in tt)

  socket_made :
      (port : ℕ) (z : ℤ)
      → IsNew [] z
      → Throughout epoll Ended
          (record { opened_fds = opened [] z; watched = [] })
          (after_socket port z)
  socket_made port (pos f) new =
      let w : Watch = record { opened_fds = f ∷ []; watched = [] } in
      let held = holds_first f [] in
      sys-Throughout epoll Ended w (set_option (pos f) 1) _ held (λ _ _.
        sys-Throughout epoll Ended w (bind (pos f) (htons port)) _ held (λ r _.
          assert-any epoll Ended w (not (is_minus_one r.ret)) _ (
            sys-Throughout epoll Ended w (listen (pos f) 5) _ held (λ q _.
              assert-any epoll Ended w (not (is_minus_one q.ret)) _ (
                sys-Throughout epoll Ended w epoll_create _ tt
                  (λ c (new_e, _). epoll_made f c.ret new_e))))))
  socket_made port (negsuc _) new = unfold Throughout in tt

  main-Throughout :
      (argv : List ℕ)
      → argc argv ≢ 2
      → Throughout epoll Ended
          (record { opened_fds = []; watched = [] })
          (wheel_main rounds fuel argv (new_wheel h log) users)
  unfolding wheel_main main
  main-Throughout argv given =
      let none_open : Watch = record { opened_fds = []; watched = [] } in
      if-Throughout epoll Ended none_open (ltb (argc argv) 2) _ _
        (λ _. done-Throughout epoll Ended none_open 1 tt)
        (λ enough. arg-Throughout epoll Ended none_open argv 2 _ (ground arith) (λ port.
          sys-Throughout epoll Ended none_open (socket stream) _ tt
            (λ r (new, _). socket_made port r.ret new)))

  pub wheel_main-Throughout :
      (limit : ℕ) (argv : List ℕ)
      → limit ≤ fd_limit
      → argc argv ≢ 2
      → Throughout
          (epoll_below limit)
          Ended
          (record { opened_fds = []; watched = [] })
          (wheel_main rounds fuel argv (new_wheel h log) users)
  wheel_main-Throughout limit argv low given =
      stricter-Throughout epoll (epoll_below limit).granted Ended _ _
        (λ t c r. epoll_below-epoll limit t c r low) (main-Throughout argv given)
