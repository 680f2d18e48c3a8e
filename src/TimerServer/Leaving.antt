-- ===== src/TimerServer/Leaving.antt =====
-- The server of TimeWheel.cpp: data of a client, and the end of a connection.
use linux_server_programming.Base.{
  ℕ, ◌-◌, ◌≡◌, ◌≢◌, sym, subst, arith, Bool, true, none, some, List, ◌==◌, lt→ltb, ℤ, pos, negsuc,
}
use linux_server_programming.Memory.Chain.{erase}
use linux_server_programming.Process.{recv, Prog}
use linux_server_programming.Process.Kernel.{
  Throughout, if-Throughout, done-Throughout, sys-Throughout,
}
use linux_server_programming.Process.Files.{holds, fd_limit}
use linux_server_programming.Process.Epoll.{Watch, epoll, forget, holds-forget}
use linux_server_programming.TimeWheel.{TimeWheel}
use linux_server_programming.TimeWheel.Invariant.{put}
use linux_server_programming.TimeWheel.Operations.{del_timer-erase}
use linux_server_programming.TimerServer.{
  buffer_size, ClientData, State, user, leave, received, serve_client,
}
use linux_server_programming.TimerServer.Containers.{wheel}
use linux_server_programming.TimerServer.Clients.{Own, fds_of, without}
use linux_server_programming.TimerServer.Marked.{erase-Matches}
use linux_server_programming.TimerServer.Timeouts.{closed, IsServer, cb_func-Throughout}

module _ (fuel : ℕ) (b : Own) where
  -- The server is in order, and what was registered still is, except for `n`.
  abbrev pub Kept : ℕ → List ℕ → Watch → State TimeWheel → Type 0
  Kept n old w s =
      IsServer b w s × ((m : ℕ) → m ≢ n → holds m old ≡ true → holds m w.watched ≡ true)

  pub stay-Kept : (n : ℕ) (w : Watch) (s : State TimeWheel) → IsServer b w s → Kept n w.watched w s
  stay-Kept n w s t = (t, λ m o h. h)

  leave-Throughout :
      (s : State TimeWheel) (w : Watch) (t : IsServer b w s) (p n : ℕ)
      → t.owner p ≡ some n
      → Throughout epoll (Kept n w.watched) w (leave (wheel fuel) (fds_of b) s (pos n) p)
  unfolding leave
  leave-Throughout s w t p n own =
      let l = t.slots in
      let (i, hi, h) = t.matches.found p n own in
      let (w1, run, (wf1, _, _, _)) = del_timer-erase l s.timers t.in_order i hi p h in
      cb_func-Throughout fuel b (Kept n w.watched) _ t.owner s w p n t.serving own (λ t'.
        unfold wheel in
        rw run (
          done-Throughout epoll (Kept n w.watched) (closed n w) (record s { timers = w1 })
            (
              record {
                slots = put l i (erase p (l i));
                owner = without p t.owner;
                in_order = wf1;
                matches = erase-Matches t.owner l s.timers t.in_order t.matches i p hi h;
                serving = t';
              },
              λ m o held.
                  ground (arith, holds-forget n m (forget n w.watched), holds-forget n m w.watched),
            )))

  received-Throughout :
      (s : State TimeWheel) (w : Watch) (t : IsServer b w s) (p n : ℕ) (ret : ℤ) (again : Bool)
      → t.owner p ≡ some n
      → Throughout epoll
          (Kept n w.watched)
          w
          (received (wheel fuel) (fds_of b) s (pos n) ret again p)
  unfolding received wheel
  received-Throughout s w t p n (negsuc _) again own =
      if-Throughout epoll (Kept n w.watched) w again _ _
        (λ _. done-Throughout epoll (Kept n w.watched) w s (stay-Kept n w s t))
        (λ _. leave-Throughout s w t p n own)
  received-Throughout s w t p n (pos k) again own =
      if-Throughout epoll (Kept n w.watched) w (k == 0) _ _ (λ _. leave-Throughout s w t p n own)
        (λ _. done-Throughout epoll (Kept n w.watched) w s (stay-Kept n w s t))

  pub serve_client-Throughout :
      (s : State TimeWheel) (w : Watch) (t : IsServer b w s) (p n : ℕ)
      → t.owner p ≡ some n
      → Throughout epoll (Kept n w.watched) w (serve_client (wheel fuel) (fds_of b) s (pos n))
  unfolding serve_client user
  serve_client-Throughout s w t p n own =
      let (entry, held, small, _) = t.serving.mine p n own in
      rw (lt→ltb n fd_limit small) (
        sys-Throughout epoll (Kept n w.watched) w (recv (pos n) (buffer_size - 1)) _ held (λ r _.
          subst
            (λ (u : ClientData). Throughout epoll (Kept n w.watched) w (elim (u.timer) [
              | none ↦ Prog.fault
              | some timer ↦ received (wheel fuel) (fds_of b) s (pos n) r.ret r.try_again timer
            ]))
            (sym entry) (received-Throughout s w t p n r.ret r.try_again own)))
