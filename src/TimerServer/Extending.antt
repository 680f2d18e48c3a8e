-- ===== src/TimerServer/Extending.antt =====
-- A message to the server of LST_Timer.cpp, from the client whose timer is the first of the list.
use linux_server_programming.Base.{
  ℕ, zero, suc, if_false, lt→ltb, ap, [], ◌+◌, ◌<◌, ◌≡◌, refl, ◌∙◌, false, some, ◌∷◌, arith, ltb,
  ◌==◌, ok, ne→==, length, pos,
}
use linux_server_programming.Memory.{Ptr, null, node, write, set_value}
use linux_server_programming.Memory.Chain
use linux_server_programming.Memory.Chain.{Cells, first}
use linux_server_programming.Process.{from_run, ◌>>=◌}
use linux_server_programming.Process.Exec.{returned, outcome, answer}
use linux_server_programming.TimerList.{
  UtilTimer, TimerList, add_timer, add_timer_to, add_timer_behind, tick_loop, tick,
}
use linux_server_programming.TimerList.Invariant.{IsTimerList, NoneAfter}
use linux_server_programming.TimerList.Add.{insert_loop-lost}
use linux_server_programming.TimerList.Tick.{tick_loop-pending}
use linux_server_programming.TimerServer.{now}
use linux_server_programming.TimerServer.Containers.{extend}

module _ (t : Ptr) (v : UtilTimer) (xs : Cells UtilTimer) (fuel : ℕ) (w : TimerList)
    (is : IsTimerList ((t, v) ∷ xs) w) (enough : length xs < fuel) where
  -- the head with a later expiry
  abbrev pub later : ℕ → UtilTimer
  later cur = record v { expire = cur + 15 }

  abbrev extended : ℕ → TimerList
  extended cur = record w { store = write w.store t (some (node (later cur) null (first xs))) }

  extended-IsTimerList : (cur : ℕ) → IsTimerList ((t, later cur) ∷ xs) (extended cur)
  extended-IsTimerList cur =
      let (live, at, new, c) = is.chain in
      record {
        head = is.head;
        chain = (live, Chain.write_self w.store t _, new, Chain.frame-write w.store t xs t _ c new);
        tail = is.tail;
      }

  -- `add_timer` of the head finds no place for it
  add_timer-head :
      (cur : ℕ) → NoneAfter (cur + 15) xs → add_timer fuel (extended cur) t ≡ ok (extended cur)
  unfolding add_timer add_timer_to add_timer_behind
  add_timer-head cur no_later =
      let is' = extended-IsTimerList cur in
      let (live, at, new, c) = is'.chain in
      let h = (extended cur).store in
      let loaded = Chain.load-ok h t live at in
      let same : ltb (cur + 15) (cur + 15) ≡ false = ground arith in
      rw
        (
          ne→== t null live,
          is.head,
          ne→== t null live,
          loaded,
          same,
          insert_loop-lost t (later cur) live fuel fuel h t t null (first xs) xs c at no_later
              enough,
        )
        refl

  -- the head has not expired
  tick_loop_idle :
      (cur n k : ℕ) → n < cur + 15 → 0 < k → tick_loop k n (extended cur) ≡ ok (extended cur)
  tick_loop_idle cur n zero soon some_left = absurd (omega arith)
  tick_loop_idle cur n (suc k) soon some_left =
      tick_loop-pending n (extended cur) t (later cur) xs (extended-IsTimerList cur) k
        (lt→ltb n (cur + 15) soon)

  tick-idle : (cur n : ℕ) → n < cur + 15 → tick fuel n (extended cur) ≡ ok (extended cur)
  unfolding tick
  tick-idle cur n soon =
      let (live, _, _, _) = is.chain in
      let e = extended cur in
      let there : (w.head == null) ≡ false = rw (is.head) (ne→== t null live) in
      if_false (w.head == null) (ok e) (tick_loop fuel n e) there
      ∙ tick_loop_idle cur n fuel soon (omega arith)

  -- Data of the client whose timer is the first of the list, where no other timer expires more than 15
  -- seconds later, gives that timer its new expiry, in 15 seconds, and leaves it in front. Until then
  -- `tick`, with fuel above the number of the other timers, does nothing, whatever other timers have
  -- expired.
  pub extend-delays :
      (cur : ℕ)
      → NoneAfter (cur + 15) xs
      → (w' : TimerList) × (outcome (extend fuel t w) (answer (pos cur) false [] [] ∷ [])
          ≡ returned w')
        × IsTimerList ((t, later cur) ∷ xs) w'
        × ((n : ℕ) → n < cur + 15 → tick fuel n w' ≡ ok w')
  unfolding extend now outcome
  extend-delays cur no_later =
      let (live, at, new, c) = is.chain in
      (
        extended cur,
        ap
              (λ r.
                outcome
                  (from_run r >>= λ m.
                    from_run (set_value w.store t (record m.value { expire = cur + 15 })) >>= λ h.
                    from_run (add_timer fuel (record w { store = h }) t))
                  [])
              (Chain.load-ok w.store t live at)
            ∙ ap
                (λ r.
                  outcome (from_run r >>= λ h. from_run (add_timer fuel (record w { store = h }) t))
                    [])
                (Chain.set_value-ok w.store t (later cur) live at)
            ∙ ap (λ r. outcome (from_run r) []) (add_timer-head cur no_later),
        extended-IsTimerList cur,
        λ n soon. tick-idle cur n soon,
      )
