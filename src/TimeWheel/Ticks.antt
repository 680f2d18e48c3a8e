-- ===== src/TimeWheel/Ticks.antt =====
-- When a timer of TimeWheel.h fires: many calls of `tick` in a row.
use linux_server_programming.Base.{
  ℕ, ◌+◌, ◌<◌, ◌≡◌, refl, ◌∙◌, true, inl, inr, some, none, List, [], ◌∷◌, ◌++◌, arith, ◌==◌,
  Bool-cases, length, ◌≤◌, suc, zero, append_assoc, Run, ok, Returns, ◌>>=◌,
}
use linux_server_programming.Memory.{Ptr, null}
use linux_server_programming.Memory.Chain.{Cells, has}
use linux_server_programming.Callback.{Call, call}
use linux_server_programming.TimeWheel.{TwTimer, TimeWheel, slot_count, tick}
use linux_server_programming.TimeWheel.Sweep.{sweep, fired, Armed}
use linux_server_programming.TimeWheel.Invariant.{Slots, IsWheel}
use linux_server_programming.TimeWheel.Operations.{tick-sweep}
use linux_server_programming.TimeWheel.Due.{
  lookup, due, turn, Called, Called-append_right, lookup-turn, has-sweep_due, Called-fired,
}

-- `tick` called `n` times, as the SIGALRM handler of TimeWheel.cpp does once a second
unfoldable pub ticks : ℕ → ℕ → TimeWheel → Run TimeWheel
ticks zero fuel w = ok w
ticks (suc n) fuel w = tick fuel w >>= ticks n fuel

-- Every timer's callback is set, and the fuel is more than the timers of any slot.
pub record IsReady (fuel : ℕ) (l : Slots) : Type 0 where
  pub armed : (i : ℕ) → i < slot_count → Armed (l i)
  pub enough : (i : ℕ) → i < slot_count → length (l i) < fuel

Armed-sweep : (xs : Cells TwTimer) → Armed xs → Armed (sweep xs)
unfolding sweep
Armed-sweep [] h = tt
Armed-sweep ((p, v) ∷ xs) (set, h) = ground (arith, Armed-sweep xs h)

length-sweep : (xs : Cells TwTimer) → length (sweep xs) ≤ length xs
unfolding sweep
length-sweep [] = omega arith
length-sweep ((p, v) ∷ xs) = ground (arith, length-sweep xs)

IsReady-turn :
    (fuel : ℕ) (l : Slots) (cur : ℕ) → cur < slot_count → IsReady fuel l → IsReady fuel (turn l cur)
IsReady-turn fuel l cur hc r = record {
  armed = λ i hi. elim (Bool-cases (i == cur)) [
    | inl e ↦ rw e (Armed-sweep (l cur) (r.armed cur hc))
    | inr e ↦ rw e (r.armed i hi)
  ];
  enough = λ i hi. elim (Bool-cases (i == cur)) [
    | inl e ↦ let b = r.enough cur hc in rw e (omega (arith, length-sweep (l cur)))
    | inr e ↦ rw e (r.enough i hi)
  ];
}

-- the timer is in slot `i`
has-lookup : (p : Ptr) (v : TwTimer) (xs : Cells TwTimer) → lookup p xs ≡ some v → has p xs ≡ true
has-lookup p v [] e = cc
has-lookup p v ((a, u) ∷ xs) e = ground (arith, has-lookup p v xs)

module _ (fuel i : ℕ) (hi : i < slot_count) (p : Ptr) where
  -- A timer outlasts as many calls of `tick` as `due` says: it is still in its slot, with what is
  -- left of its time.
  pub ticks-before_due :
      (n : ℕ) (l : Slots) (w : TimeWheel) (v : TwTimer)
      → IsWheel l w
      → IsReady fuel l
      → lookup p (l i) ≡ some v
      → n ≤ due w.cur_slot i v
      → Returns
          (λ w'.
            (l' : Slots) × IsWheel l' w'
            × (v' : TwTimer) × (lookup p (l' i) ≡ some v')
            × (due w'.cur_slot i v' + n ≡ due w.cur_slot i v))
          (ticks n fuel w)
  unfolding ticks
  ticks-before_due zero l w v wf ready e early = (w, refl, (l, wf, v, e, omega arith))
  ticks-before_due (suc n) l w v wf ready e early =
      let cur = w.cur_slot in
      let (w1, run, (wf1, at1, log1, gone)) =
        tick-sweep l w wf fuel (ready.armed cur wf.current) (ready.enough cur wf.current) in
      let (v1, e1, less, _, _) = lookup-turn l cur i p v wf.current hi e (omega arith) in
      let less' : due w1.cur_slot i v1 + 1 ≡ due cur i v = rw at1 less in
      let (w', run', (l', wf', v', e', left)) =
        ticks-before_due n (turn l cur) w1 v1 wf1 (IsReady-turn fuel l cur wf.current ready) e1
          (omega arith) in
      (w', rw run run', (l', wf', v', e', omega arith))

  -- In the call of `tick` after those the timer is called once more and its node deleted.
  pub ticks-due :
      (d : ℕ) (l : Slots) (w : TimeWheel) (v : TwTimer) (f : ℕ)
      → IsWheel l w
      → IsReady fuel l
      → lookup p (l i) ≡ some v
      → v.cb_func ≡ some f
      → due w.cur_slot i v ≡ d
      → Returns
          (λ w'.
            (log : List Call) × (w'.calls ≡ w.calls ++ log)
            × Called (call f v.user_data) log
            × (w'.store p ≡ none))
          (ticks (suc d) fuel w)
  ticks-due zero l w v f wf ready e set now =
      let cur = w.cur_slot in
      let (w1, run, (wf1, at1, log1, gone)) =
        tick-sweep l w wf fuel (ready.armed cur wf.current) (ready.enough cur wf.current) in
      let bound = wf.current in
      let same : i ≡ cur = unfold due in omega arith in
      let rot : v.rotation ≡ 0 = unfold due in omega arith in
      let here : lookup p (l cur) ≡ some v = rw same at e in
      unfold ticks in
      (
        w1,
        rw run,
        (
          fired (l cur),
          log1,
          Called-fired p v f (l cur) here rot set,
          gone p (has-lookup p v (l cur) here)
              (has-sweep_due w.store null p v (l cur) (wf.chains cur wf.current) here rot),
        ),
      )
  ticks-due (suc d) l w v f wf ready e set later =
      let cur = w.cur_slot in
      let (w1, run, (wf1, at1, log1, gone)) =
        tick-sweep l w wf fuel (ready.armed cur wf.current) (ready.enough cur wf.current) in
      let (v1, e1, less, cb, user) = lookup-turn l cur i p v wf.current hi e (omega arith) in
      let less' : due w1.cur_slot i v1 + 1 ≡ due cur i v = rw at1 less in
      let (w', run', (log, called, is_in, freed)) =
        ticks-due d (turn l cur) w1 v1 f wf1 (IsReady-turn fuel l cur wf.current ready) e1
          (cb ∙ set) (omega arith) in
      let first_step : ticks (suc (suc d)) fuel w ≡ ticks (suc d) fuel w1 =
        unfold ticks in rw run in
      (
        w',
        first_step ∙ run',
        (
          fired (l cur) ++ log,
          called ∙ rw log1 (append_assoc w.calls (fired (l cur)) log),
          Called-append_right _ (fired (l cur)) log (rw user at is_in),
          freed,
        ),
      )
