-- ===== src/TimerServer/Timeouts.antt =====
-- The server of TimeWheel.cpp between its events: its clients and their timers, and SIGALRM.
use linux_server_programming.Base.{
  ℕ, suc, ◌<◌, ◌≤◌, ◌≡◌, refl, sym, ◌∙◌, ap, subst, arith, true, false, some, List, [], ◌∷◌, ◌==◌,
  Bool-cases, inl, inr, lt→ltb, length, ℤ, pos,
}
use linux_server_programming.Memory.{Ptr, null}
use linux_server_programming.Memory.Chain.{Cells, has}
use linux_server_programming.Callback.{Call}
use linux_server_programming.Process.{epoll_del, close, alarm, Prog, sys, ◌>>=◌}
use linux_server_programming.Process.Kernel.{
  Throughout, bind-Throughout, if-Throughout, done-Throughout, sys-Throughout,
}
use linux_server_programming.Process.Files.{drop_fd, holds, fd_limit}
use linux_server_programming.Process.Epoll.{forget, Watch, epoll}
use linux_server_programming.TimeWheel.{TwTimer, TimeWheel}
use linux_server_programming.TimeWheel.Sweep.{sweep}
use linux_server_programming.TimeWheel.Invariant.{Slots, put, IsWheel}
use linux_server_programming.TimeWheel.Operations.{tick-sweep}
use linux_server_programming.TimerServer.{
  ClientData, State, user, cb_func, call_all, timer_handler, on_timeout,
}
use linux_server_programming.TimerServer.Containers.{wheel}
use linux_server_programming.TimerServer.Clients.{
  Own, fds_of, Owner, IsServing, without, same_timer, close-IsServing,
}
use linux_server_programming.TimerServer.Pigeon.{AllBelow, AllDistinct, length-AllBelow}
use linux_server_programming.TimerServer.Marked.{
  Marked, Matches, Unique, Chain-Unique, Armed-Marked, AllOwned, AllOwned-without, without_all,
  calls_by, Due-fired, sweep-Matches,
}

-- `n` is closed.
abbrev pub closed : ℕ → Watch → Watch
closed n w = record { opened_fds = drop_fd n w.opened_fds; watched = forget n (forget n w.watched) }

-- The wheel is in order, its timers belong to the clients, and the clients are open.
pub record IsServer (b : Own) (w : Watch) (s : State TimeWheel) : Type 0 where
  pub slots : Slots
  pub owner : Owner
  pub in_order : IsWheel slots s.timers
  pub matches : Matches owner slots
  pub serving : IsServing owner b s.users w

pub flags-IsServer :
    (b : Own) (w : Watch) (s s' : State TimeWheel)
    → IsServer b w s
    → s'.timers ≡ s.timers
    → s'.users ≡ s.users
    → IsServer b w s'
flags-IsServer b w s s' t same_timers same_users = record {
  slots = t.slots;
  owner = t.owner;
  in_order = subst (IsWheel t.slots) (sym same_timers) t.in_order;
  matches = t.matches;
  serving = subst (λ u. IsServing t.owner b u w) (sym same_users) t.serving;
}

-- the clients whose timers are in a slot
Clients : Owner → Cells TwTimer → List ℕ → Type 0
Clients o xs ns =
    (length ns ≡ length xs)
    × AllBelow fd_limit ns
    × AllDistinct ns
    × ((n : ℕ) → holds n ns ≡ true → (p : Ptr) × (has p xs ≡ true) × (o p ≡ some n))

module _ (o : Owner) (b : Own) (users : ℕ → ClientData) (w : Watch)
    (t : IsServing o b users w) where
  due-Clients : (xs : Cells TwTimer) → Marked o xs → Unique xs → (ns : List ℕ) × Clients o xs ns
  unfolding Clients
  due-Clients [] m u = ([], (refl, tt, tt, λ n. cc))
  due-Clients ((p, v) ∷ xs) ((n, cb, mine, own), m) (new, u) =
      let (ns, (size, below, apart, whose)) = due-Clients xs m u in
      let (_, _, small, _) = t.mine p n own in
      let fresh : holds n ns ≡ false = elim (Bool-cases (holds n ns)) [
        | inl e ↦
            let (q, h, eq) = whose n e in
            let is : q ≡ p = same_timer o b users w t q p n eq own in
            let z = subst (λ a. has a xs ≡ true) is h in cc
        | inr e ↦ e
      ] in
      (
        n ∷ ns,
        (
          ap suc size,
          (small, below),
          (fresh, apart),
          λ k h. elim (Bool-cases (k == n)) [
            | inl e ↦ let is : n ≡ k = ground arith in (p, ground arith, own ∙ ap some is)
            | inr e ↦ let (q, i, eq) = whose k (ground arith) in (q, ground arith, eq)
          ],
        ),
      )

  -- No slot has more timers than there can be descriptors.
  pub length-Marked : (xs : Cells TwTimer) → Marked o xs → Unique xs → length xs ≤ fd_limit
  unfolding Clients
  length-Marked xs m u =
      let (ns, (size, below, apart, _)) = due-Clients xs m u in
      let h = length-AllBelow fd_limit ns below apart in omega arith

module _ (fuel : ℕ) (b : Own) where
  -- `cb_func` of the client whose timer is `p`
  pub cb_func-Throughout :
      {A : Type 0} (P : Watch → A → Type 0) (f : State TimeWheel → Prog A) (o : Owner)
      (s : State TimeWheel) (w : Watch) (p n : ℕ)
      → IsServing o b s.users w
      → o p ≡ some n
      → (IsServing (without p o) b s.users (closed n w) → Throughout epoll P (closed n w) (f s))
      → Throughout epoll P w (cb_func (wheel fuel) (fds_of b) s (pos n) >>= f)
  unfolding cb_func user wheel
  cb_func-Throughout P f o s w p n t own h =
      let (entry, held, small, _) = t.mine p n own in
      let (_, efd, _, _) = t.own in
      let closes : ℤ → Prog _ =
        λ z. sys (epoll_del (pos b.epoll_fd) z) (λ _. sys (close z) (λ _. f s)) in
      rw (lt→ltb n fd_limit small) (
        subst (λ u. Throughout epoll P w (closes u.sock_fd)) (sym entry)
          (sys-Throughout epoll P w _ _ (efd, held)
            (λ _ _.
              sys-Throughout epoll P _ _ _ held
                (λ _ _. h (close-IsServing o b s.users w t p n own)))))

  -- The callbacks close the connections of these timers.
  call_all-Throughout :
      (qs : Cells ℕ) (cs : List Call) (o : Owner) (s : State TimeWheel) (w : Watch)
      → cs ≡ calls_by qs
      → IsServing o b s.users w
      → AllOwned o qs
      → Throughout epoll
          (λ w' s'. (s' ≡ s) × IsServing (without_all qs o) b s.users w')
          w
          (call_all (wheel fuel) (fds_of b) cs s)
  unfolding call_all
  call_all-Throughout [] cs o s w e t a = rw e (done-Throughout epoll _ w s (refl, t))
  call_all-Throughout ((p, n) ∷ qs) cs o s w e t (own, new, a) = rw e (
      cb_func-Throughout _ (call_all (wheel fuel) (fds_of b) (calls_by qs)) o s w p n t own (λ t'.
        call_all-Throughout qs (calls_by qs) (without p o) s (closed n w) refl t'
          (AllOwned-without o p qs a new)))

  pub on_timeout-Throughout :
      (s : State TimeWheel) (w : Watch)
      → fd_limit < fuel
      → IsServer b w s
      → Throughout epoll (IsServer b) w (on_timeout (wheel fuel) (fds_of b) s)
  unfolding on_timeout timer_handler wheel
  on_timeout-Throughout s w big t =
      let cur = s.timers.cur_slot in
      let l = t.slots in
      let wf : IsWheel l s.timers = t.in_order in
      let m = t.matches.marked cur wf.current in
      let u = Chain-Unique s.timers.store null (l cur) (wf.chains cur wf.current) in
      let few = length-Marked t.owner b s.users w t.serving (l cur) m u in
      let emptied : TimeWheel = record s.timers { calls = [] } in
      let wf0 : IsWheel l emptied = record {
        current = wf.current;
        heads = wf.heads;
        chains = wf.chains;
        apart = wf.apart;
        placed = wf.placed;
      } in
      let (w1, run, (wf1, _, called, _)) =
        tick-sweep l emptied wf0 fuel (Armed-Marked t.owner (l cur) m) (omega arith) in
      let (qs, due) = Due-fired t.owner (l cur) m u in
      let (calls, owned, _) = due in
      let matches = sweep-Matches t.owner l s.timers wf t.matches qs due in
      let s1 : State TimeWheel = record s { timers = w1 } in
      if-Throughout epoll (IsServer b) w s.timeout _ _
        (λ _.
          bind-Throughout epoll (IsServer b) (IsServer b) w
            (timer_handler (wheel fuel) (fds_of b) s) _
            (rw run (
              bind-Throughout epoll _ (IsServer b) w (call_all (wheel fuel) (fds_of b) w1.calls s1)
                _ (call_all-Throughout qs w1.calls t.owner s1 w (called ∙ calls) t.serving owned)
                (λ w' s2 (same, t2). sys-Throughout epoll (IsServer b) w' (alarm 1) _ tt (λ _ _.
                  done-Throughout epoll (IsServer b) w' s2 (
                    subst (IsServer b w') (sym same) (record {
                      slots = put l cur (sweep (l cur));
                      owner = without_all qs t.owner;
                      in_order = wf1;
                      matches = matches;
                      serving = t2;
                    }))))))
            (λ w' s2 t'.
              done-Throughout epoll (IsServer b) w' (record s2 { timeout = false })
                (flags-IsServer b w' s2 _ t' refl refl)))
        (λ _. done-Throughout epoll (IsServer b) w s t)
