-- ===== src/TimeWheel/Operations.antt =====
-- `add_timer`, `del_timer` and `tick` of TimeWheel.h against the abstract wheel.
use linux_server_programming.Base.{
  ℕ, ◌+◌, ◌/◌, ◌%◌, ◌<◌, ◌≡◌, ◌≢◌, refl, ◌∙◌, true, false, inl, some, none, ◌∷◌, ◌++◌, arith, ◌==◌,
  length, Returns, pos,
}
use linux_server_programming.Memory.{Ptr, null, Store, node, write}
use linux_server_programming.Memory.Chain
use linux_server_programming.Memory.Chain.{Cells, Chain, has, first, erase}
use linux_server_programming.TimeWheel.{
  TwTimer, TimeWheel, slot_count, new_timer, ticks_of, slot_of, add_timer, del_timer, tick,
}
use linux_server_programming.TimeWheel.Sweep.{sweep, fired, Armed, has-sweep}
use linux_server_programming.TimeWheel.Links.{push_slot-Relinked, del_timer-Relinked}
use linux_server_programming.TimeWheel.Turn.{tick-Turned}
use linux_server_programming.TimeWheel.Invariant.{
  Slots, put, IsWheel, outside, relink, Placed-sweep, Placed-erase,
}

module _ (l : Slots) (w : TimeWheel) (wf : IsWheel l w) where
  -- On a valid wheel, where the timers in the current slot have a callback, a call of `tick` with
  -- more fuel than timers in that slot returns. It sweeps the slot at `cur_slot`, whatever the other
  -- slots hold: timers with rotations left count down, the others are called in the chain's order
  -- and their nodes deleted. Then it moves on by one slot, modulo the number of slots.
  pub tick-sweep :
      (fuel : ℕ)
      → Armed (l w.cur_slot)
      → length (l w.cur_slot) < fuel
      → Returns
          (λ w'.
            IsWheel (put l w.cur_slot (sweep (l w.cur_slot))) w'
            × (w'.cur_slot ≡ (w.cur_slot + 1) % slot_count)
            × (w'.calls ≡ w.calls ++ fired (l w.cur_slot))
            × ((p : Ptr)
                → has p (l w.cur_slot) ≡ true
                → has p (sweep (l w.cur_slot)) ≡ false
                → w'.store p ≡ none))
          (tick fuel w)
  tick-sweep fuel armed enough =
      let i = w.cur_slot in
      let xs = l i in
      let (t, s, run) =
        tick-Turned fuel w xs (wf.chains i wf.current) wf.current (wf.heads i wf.current) armed
          enough in
      let w' : TimeWheel = record t { cur_slot = (i + 1) % slot_count } in
      (
        w',
        run,
        (
          relink i (sweep xs) w' wf wf.current (omega arith) s.slots s.chain
              (λ a o _. s.swept.same a o) (λ a m. inl (ground (arith, has-sweep a xs)))
              (Placed-sweep i xs (wf.placed i wf.current)),
          refl,
          s.swept.called,
          s.swept.gone,
        ),
      )

  module _ (fresh : Ptr) (live : fresh ≢ null) (unused : w.store fresh ≡ none) where
    -- On a valid wheel, with a fresh address, `add_timer` with a timeout that is not negative puts
    -- a new node, with its rotations and
    -- its slot, in front of the chain of slot `slot_of cur_slot ticks`, and returns it.
    pub add_timer-put :
        (timeout : ℕ)
        → let ticks = ticks_of timeout in
          let ts = slot_of w.cur_slot ticks in
          Returns
            (λ r.
              (r.0 ≡ fresh)
              × IsWheel (put l ts ((fresh, new_timer (ticks / slot_count) ts) ∷ l ts)) r.1
              × (r.1.cur_slot ≡ w.cur_slot)
              × (r.1.calls ≡ w.calls))
            (add_timer fresh w (pos timeout))
    unfolding add_timer
    add_timer-put timeout =
        let ticks = ticks_of timeout in
        let ts = slot_of w.cur_slot ticks in
        let v = new_timer (ticks / slot_count) ts in
        let xs = l ts in
        let hi : ts < slot_count = unfold slot_of in omega arith in
        let new = outside wf fresh unused ts hi in
        let h : Store TwTimer = write w.store fresh (some (node v null null)) in
        let own : h fresh ≡ some (node v null null) = unfold write in ground arith in
        let kept : (a : Ptr) → (a == fresh) ≡ false → h a ≡ w.store a =
          unfold write in ground arith in
        let mine : v.time_slot ≡ ts = unfold new_timer in refl in
        let (w', run, s) =
          push_slot-Relinked (record w { store = h }) ts hi fresh v xs
            (Chain.frame-write w.store null xs fresh _ (wf.chains ts hi) new) (wf.heads ts hi) live
            own new in
        (
          (fresh, w'),
          rw run,
          (
            refl,
            relink ts ((fresh, v) ∷ xs) w' wf hi (rw (s.current) (wf.current)) s.slots s.chain
                (λ a o o'. s.same a o o' ∙ kept a (ground arith)) (λ a m. ground arith)
                (mine, wf.placed ts hi),
            s.current,
            s.calls,
          ),
        )

  module _ (i : ℕ) (hi : i < slot_count) (p : Ptr) (m : has p (l i) ≡ true) where
    -- On a valid wheel, `del_timer` of a timer in slot `i` takes exactly its node out of the chain and deletes it.
    pub del_timer-erase :
        Returns
          (λ w'.
            IsWheel (put l i (erase p (l i))) w'
            × (w'.store p ≡ none)
            × (w'.cur_slot ≡ w.cur_slot)
            × (w'.calls ≡ w.calls))
          (del_timer w p)
    del_timer-erase =
        let xs = l i in
        let (w', run, (s, gone)) =
          del_timer-Relinked w i hi p xs (wf.chains i hi) (wf.heads i hi) (wf.placed i hi) m in
        (
          w',
          run,
          (
            relink i (erase p xs) w' wf hi (rw (s.current) (wf.current)) s.slots s.chain s.same
                (λ a k. inl (ground (arith, Chain.has-erase p a xs)))
                (Placed-erase i p xs (wf.placed i hi)),
            gone,
            s.current,
            s.calls,
          ),
        )
