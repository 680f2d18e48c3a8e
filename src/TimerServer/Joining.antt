-- ===== src/TimerServer/Joining.antt =====
-- The server of TimeWheel.cpp: new connections.
use linux_server_programming.Base.{
  ℕ, ◌/◌, ◌<◌, ◌≡◌, ◌≢◌, refl, arith, true, false, none, some, ◌∷◌, ◌==◌, if◌then◌else◌, lt→ltb,
  ne→==, ==_refl, ℤ, pos, negsuc,
}
use linux_server_programming.Memory.{Ptr, null, Store}
use linux_server_programming.Process.{
  accept, allocate, Prog, done, ◌>>=◌, from_run, aborted, is_minus_one,
}
use linux_server_programming.Process.Kernel.{
  Throughout, if-Throughout, done-Throughout, sys-Throughout,
}
use linux_server_programming.Process.Files.{holds, fd_limit, opened, IsNew, IsFresh}
use linux_server_programming.Process.Epoll.{Watch, epoll}
use linux_server_programming.TimeWheel
use linux_server_programming.TimeWheel.{
  TwTimer, TimeWheel, slot_count, new_timer, ticks_of, slot_of, arm,
}
use linux_server_programming.TimeWheel.Invariant.{Slots, put, IsWheel, outside}
use linux_server_programming.TimeWheel.Operations.{add_timer-put}
use linux_server_programming.TimeWheel.Lifetime.{armed_with, arm-IsWheel}
use linux_server_programming.TimerServer.{
  time_slot, ClientData, State, user, set_user, add_fd, fresh, join, serve_new,
}
use linux_server_programming.TimerServer.Containers.{callback, wheel, in_use}
use linux_server_programming.TimerServer.Clients.{Own, fds_of, with_timer, join-IsServing}
use linux_server_programming.TimerServer.Marked.{put-Matches}
use linux_server_programming.TimerServer.Timeouts.{IsServer}
use linux_server_programming.TimerServer.Leaving.{Kept, stay-Kept}

module _ (fuel : ℕ) (b : Own) where
  unused_of : (h : Store TwTimer) (p : Ptr) → in_use h p ≡ false → h p ≡ none
  unused_of h p e = ground arith

  -- what `join` does once `new` has returned
  abbrev start_with : State TimeWheel → (n : ℕ) → Ptr → Prog (Ptr × TimeWheel)
  start_with s n p = do
    (timer, w1) ← from_run (TimeWheel.add_timer p s.timers (pos time_slot))
    w2 ← from_run (arm w1 timer callback n)
    done (timer, w2)

  abbrev started :
      State TimeWheel → (n : ℕ) (old : ℕ → ClientData) → Ptr × TimeWheel → Prog (State TimeWheel)
  started s n old (timer, w2) =
      set_user (record s { users = old; timers = w2 }) n
        (record { sock_fd = pos n; timer = some timer })

  user-ok : (s : State TimeWheel) (n : ℕ) → n < fd_limit → user s (pos n) ≡ done (s.users n)
  unfolding user
  user-ok s n small = rw (lt→ltb n fd_limit small)

  set_user-ok :
      (s : State TimeWheel) (n : ℕ) (u : ClientData)
      → n < fd_limit
      → set_user s n u ≡ done (record s { users = λ j. if j == n then u else s.users j })
  unfolding set_user
  set_user-ok s n u small = rw (lt→ltb n fd_limit small)

  -- the new client `n` with the new timer `p`
  joined-Throughout :
      (s : State TimeWheel) (w : Watch) (t : IsServer b w s) (n p : ℕ) (k : ℕ)
      (old : ℕ → ClientData)
      → holds n w.opened_fds ≡ false
      → n < fd_limit
      → p ≢ null
      → s.timers.store p ≡ none
      → ((m : ℕ) → m ≢ n → old m ≡ s.users m)
      → let w' : Watch = record { opened_fds = n ∷ w.opened_fds; watched = n ∷ w.watched } in
        Throughout epoll (Kept fuel b k w.watched) w' (start_with s n p >>= started s n old)
  unfolding set_user
  joined-Throughout s w t n p k old new small live unused others =
      let l = t.slots in
      let wf : IsWheel l s.timers = t.in_order in
      let ticks = ticks_of time_slot in
      let ts = slot_of s.timers.cur_slot ticks in
      let hi : ts < slot_count = unfold slot_of in omega arith in
      let v = new_timer (ticks / slot_count) ts in
      let (r, run, (is, wf1, _, _)) = add_timer-put l s.timers wf p live unused time_slot in
      let l1 : Slots = put l ts ((p, v) ∷ l ts) in
      let (w2, run2, (wf2, _, _)) =
        arm-IsWheel l1 r.1 ts p v (l ts) callback n wf1 hi (rw (==_refl ts)) in
      let l2 : Slots = put l1 ts ((p, armed_with v callback n) ∷ l ts) in
      let free : t.owner p ≡ none =
        elim (t.owner p) as (λ o. t.owner p ≡ o → t.owner p ≡ none) [
          | none ↦ λ e. e
          | some m ↦ λ e.
              let (i, hi', h) = t.matches.found p m e in let z = outside wf p unused i hi' in cc
        ]
          refl in
      let users : ℕ → ClientData =
        λ j. if j == n then record { sock_fd = pos n; timer = some p } else old j in
      rw (run, is, run2, lt→ltb n fd_limit small)
        (done-Throughout epoll (Kept fuel b k w.watched) _ _ (
          record {
            slots = l2;
            owner = with_timer p n t.owner;
            in_order = wf2;
            matches =
                put-Matches t.owner l s.timers wf t.matches ts p n (armed_with v callback n) l2 hi
                  (λ j hj. outside wf p unused j hj) refl refl (rw (==_refl ts))
                  (λ j o. rw (ne→== j ts o));
            serving =
                join-IsServing t.owner b s.users w t.serving p n users free new small
                  (rw (==_refl n)) (λ m o. rw (ne→== m n o) (others m o));
          },
          λ m o held. rw held (ground arith),
        ))

  allocated-Throughout :
      (s : State TimeWheel) (w : Watch) (t : IsServer b w s) (n : ℕ) (k : ℕ) (old : ℕ → ClientData)
      → holds n w.opened_fds ≡ false
      → n < fd_limit
      → ((m : ℕ) → m ≢ n → old m ≡ s.users m)
      → (z : ℤ) → IsFresh (in_use s.timers.store) z
      → Throughout epoll
          (Kept fuel b k w.watched)
          (record { opened_fds = n ∷ w.opened_fds; watched = n ∷ w.watched })
          (((elim z as (λ _. Prog Ptr) [ pos p ↦ done p | negsuc _ ↦ aborted ]) >>= start_with s n)
            >>= started s n old)
  allocated-Throughout s w t n k old new small others (pos p) (live, free) =
      joined-Throughout s w t n p k old new small live (unused_of s.timers.store p free) others
  allocated-Throughout s w t n k old new small others (negsuc _) _ = unfold Throughout in tt

  join-Throughout :
      (s : State TimeWheel) (w : Watch) (t : IsServer b w s) (k : ℕ) (z : ℤ)
      → IsNew w.opened_fds z
      → is_minus_one z ≡ false
      → Throughout epoll
          (Kept fuel b k w.watched)
          (record { opened_fds = opened w.opened_fds z; watched = w.watched })
          (join (wheel fuel) (fds_of b) s z)
  unfolding join add_fd wheel fresh
  join-Throughout s w t k (negsuc m) new failed = absurd (ground arith)
  join-Throughout s w t k (pos n) (new, small) fine =
      let (_, efd, _, _) = t.serving.own in
      let old : ℕ → ClientData =
        λ j. if j == n then record { sock_fd = pos n; timer = (s.users n).timer } else s.users j in
      let held : holds n (n ∷ w.opened_fds) ≡ true = rw (==_refl n) in
      sys-Throughout epoll (Kept fuel b k w.watched) _ _ _ (ground arith, held)
        (λ _ _. sys-Throughout epoll (Kept fuel b k w.watched) _ _ _ held (λ _ _.
          rw
            (
              user-ok s n small,
              set_user-ok s n (record { sock_fd = pos n; timer = (s.users n).timer }) small,
            )
            (sys-Throughout epoll (Kept fuel b k w.watched) _ (allocate (in_use s.timers.store)) _
              tt
              (λ r (granted, _).
                allocated-Throughout s w t n k old new small (λ m o. rw (ne→== m n o)) r.ret
                  granted))))

  accept_failed :
      (s : State TimeWheel) (w : Watch) (t : IsServer b w s) (k : ℕ) (z : ℤ)
      → is_minus_one z ≡ true
      → Throughout epoll
          (Kept fuel b k w.watched)
          (record { opened_fds = opened w.opened_fds z; watched = w.watched })
          (done s)
  accept_failed s w t k (pos n) failed = cc
  accept_failed s w t k (negsuc m) failed =
      done-Throughout epoll (Kept fuel b k w.watched) w s (stay-Kept fuel b k w s t)

  pub serve_new-Throughout :
      (s : State TimeWheel) (w : Watch) (t : IsServer b w s) (k : ℕ)
      → Throughout epoll (Kept fuel b k w.watched) w (serve_new (wheel fuel) (fds_of b) s)
  unfolding serve_new
  serve_new-Throughout s w t k =
      let (listening, _, _, _) = t.serving.own in
      sys-Throughout epoll (Kept fuel b k w.watched) w (accept (pos b.listen_fd)) _ listening
        (λ r (new, _).
          if-Throughout epoll (Kept fuel b k w.watched) _ (is_minus_one r.ret) _ _
            (λ failed. accept_failed s w t k r.ret failed)
            (λ fine. join-Throughout s w t k r.ret new fine))
