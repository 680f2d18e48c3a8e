-- ===== src/TimeWheel/Lifetime.antt =====
-- The life of a timer of TimeWheel.cpp, from `add_timer` to its callback.
use linux_server_programming.Base.{
  ℕ, ◌+◌, ◌/◌, ◌<◌, ◌≡◌, ◌≢◌, refl, ◌∙◌, true, false, inl, inr, some, none, List, ◌∷◌, ◌++◌, arith,
  ◌==◌, ap, Bool-cases, length, ◌≤◌, suc, Run, pos, Returns, ◌>>=◌, ==_refl,
}
use linux_server_programming.Memory.{Ptr, null, Store, node, write}
use linux_server_programming.Memory.Chain
use linux_server_programming.Memory.Chain.{Cells, Chain, has, first}
use linux_server_programming.Callback.{Call, call}
use linux_server_programming.TimeWheel.{
  TwTimer, TimeWheel, slot_count, new_timer, ticks_of, slot_of, add_timer, arm,
}
use linux_server_programming.TimeWheel.Sweep.{Armed}
use linux_server_programming.TimeWheel.Invariant.{Slots, put, IsWheel, relink}
use linux_server_programming.TimeWheel.Operations.{add_timer-put}
use linux_server_programming.TimeWheel.Due.{lookup, due, Called}
use linux_server_programming.TimeWheel.Ticks.{ticks, IsReady, ticks-before_due, ticks-due}

abbrev pub armed_with : TwTimer → ℕ → ℕ → TwTimer
armed_with v func user = record v { cb_func = some func; user_data = some user }

-- `arm` on the head of a slot
pub arm-IsWheel :
    (l : Slots) (w : TimeWheel) (i : ℕ) (p : Ptr) (v : TwTimer) (xs : Cells TwTimer) (func user : ℕ)
    → IsWheel l w
    → i < slot_count
    → l i ≡ (p, v) ∷ xs
    → Returns
        (λ w'.
          IsWheel (put l i ((p, armed_with v func user) ∷ xs)) w'
          × (w'.cur_slot ≡ w.cur_slot)
          × (w'.calls ≡ w.calls))
        (arm w p func user)
unfolding arm
arm-IsWheel l w i p v xs func user wf hi at =
    let (live, own, new, c) = rw at at (wf.chains i hi) in
    let (mine, placed) = rw at at (wf.placed i hi) in
    let head : w.slots i ≡ p = wf.heads i hi ∙ rw at in
    let h1 : Store TwTimer =
      write w.store p (some (node (record v { user_data = some user }) null (first xs))) in
    let own1 : h1 p ≡ some (node (record v { user_data = some user }) null (first xs)) =
      unfold write in ground arith in
    let h2 : Store TwTimer = write h1 p (some (node (armed_with v func user) null (first xs))) in
    let own2 : h2 p ≡ some (node (armed_with v func user) null (first xs)) =
      unfold write in ground arith in
    let kept : (a : Ptr) → (a == p) ≡ false → h2 a ≡ w.store a = unfold write in ground arith in
    let c1 = Chain.frame-write w.store p xs p _ c new in
    let c2 = Chain.frame-write h1 p xs p _ c1 new in
    let w' : TimeWheel = record w { store = h2 } in
    (
      w',
      rw (
        Chain.load-ok w.store p live own,
        Chain.set_value-ok w.store p (record v { user_data = some user }) live own,
        Chain.load-ok h1 p live own1,
        Chain.set_value-ok h1 p (armed_with v func user) live own1,
      ),
      (
        relink i ((p, armed_with v func user) ∷ xs) w' wf hi wf.current (λ j. ground (arith, head))
            (live, own2, new, c2) (λ a o o'. kept a (ground arith)) (λ a m. inl (rw at m))
            (mine, placed),
        refl,
        refl,
      ),
    )

-- what TimeWheel.cpp does for a new connection
abbrev pub start : Ptr → TimeWheel → ℕ → (func user : ℕ) → Run TimeWheel
start fresh w timeout func user = do (p, w1) ← add_timer fresh w (pos timeout); arm w1 p func user

module _ (fuel : ℕ) (l : Slots) (w : TimeWheel) (wf : IsWheel l w) (ready : IsReady fuel l)
    (fresh : Ptr) (live : fresh ≢ null) (unused : w.store fresh ≡ none)
    (timeout func user : ℕ) where
  -- the new timer's slot and what is in it
  abbrev spot : ℕ
  spot = slot_of w.cur_slot (ticks_of timeout)

  abbrev begun : TwTimer
  begun = armed_with (new_timer (ticks_of timeout / slot_count) spot) func user

  abbrev Started : TimeWheel → Type 0
  Started w' =
      (l' : Slots) × IsWheel l' w'
      × IsReady (suc fuel) l'
      × (lookup fresh (l' spot) ≡ some begun)
      × (w'.cur_slot ≡ w.cur_slot)
      × (w'.calls ≡ w.calls)

  spot-lt : spot < slot_count
  unfolding slot_of
  spot-lt = omega arith

  due-begun : due w.cur_slot spot begun ≡ ticks_of timeout
  unfolding due slot_of new_timer
  due-begun = let h = wf.current in omega arith

  start-Started : Returns Started (start fresh w timeout func user)
  start-Started =
      let v = new_timer (ticks_of timeout / slot_count) spot in
      let xs = l spot in
      let l1 = put l spot ((fresh, v) ∷ xs) in
      let here : (spot == spot) ≡ true = ==_refl spot in
      let (r, run, (is, wf1, at1, log1)) = add_timer-put l w wf fresh live unused timeout in
      let at : l1 spot ≡ (fresh, v) ∷ xs = rw here refl in
      let (w2, run2, (wf2, at2, log2)) =
        arm-IsWheel l1 r.1 spot fresh v xs func user wf1 spot-lt at in
      let l2 = put l1 spot ((fresh, begun) ∷ xs) in
      let armed : (i : ℕ) → i < slot_count → Armed (l2 i) = λ i hi. elim (Bool-cases (i == spot)) [
        | inl e ↦ rw e ((λ o. cc), ready.armed spot spot-lt)
        | inr e ↦ rw e (ready.armed i hi)
      ] in
      let enough : (i : ℕ) → i < slot_count → length (l2 i) < suc fuel = λ i hi.
        elim (Bool-cases (i == spot)) [
          | inl e ↦ let b = ready.enough spot spot-lt in rw e (omega arith)
          | inr e ↦ let b = ready.enough i hi in rw e (omega arith)
        ] in
      (
        w2,
        rw (run, is) run2,
        (
          l2,
          wf2,
          record { armed = armed; enough = enough },
          rw (here, ==_refl fresh) refl,
          at2 ∙ at1,
          log2 ∙ log1,
        ),
      )

  -- On a valid wheel whose timers all have a callback, with a fresh address and fuel above the
  -- length of every slot, TimeWheel.cpp's timer for a new connection is called back with its user
  -- data by the time `tick` has run `ticks_of timeout + 1` times, and its node is deleted.
  pub start-fires :
      Returns
        (λ w'.
          (log : List Call) × (w'.calls ≡ w.calls ++ log)
          × Called (call func (some user)) log
          × (w'.store fresh ≡ none))
        (start fresh w timeout func user >>= ticks (suc (ticks_of timeout)) (suc fuel))
  start-fires =
      let (w1, run, (l1, wf1, ready1, at, cur, calls)) = start-Started in
      let (w2, run2, (log, called, is_in, gone)) =
        ticks-due (suc fuel) spot spot-lt fresh (ticks_of timeout) l1 w1 begun func wf1 ready1 at
          refl (rw cur due-begun) in
      (w2, rw run run2, (log, called ∙ ap (λ z. z ++ log) calls, is_in, gone))

  -- Under the same conditions, up to `ticks_of timeout` calls of `tick` leave the timer in its slot,
  -- and as many remain until it is due.
  pub start-waits :
      (n : ℕ)
      → n ≤ ticks_of timeout
      → Returns
          (λ w'.
            (l' : Slots) × IsWheel l' w'
            × (v' : TwTimer) × (lookup fresh (l' spot) ≡ some v')
            × (due w'.cur_slot spot v' + n ≡ ticks_of timeout))
          (start fresh w timeout func user >>= ticks n (suc fuel))
  start-waits n early =
      let (w1, run, (l1, wf1, ready1, at, cur, calls)) = start-Started in
      let (w2, run2, (l', wf', v', e', left)) =
        ticks-before_due (suc fuel) spot spot-lt fresh n l1 w1 begun wf1 ready1 at
          (rw (cur, due-begun) early) in
      (w2, rw run run2, (l', wf', v', e', left ∙ rw cur due-begun))
