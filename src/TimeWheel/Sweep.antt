-- ===== src/TimeWheel/Sweep.antt =====
-- The rounds of the loop of `tick`: what `visit` and `drop_fired` do to a slot's chain.
use linux_server_programming.Base.{
  ℕ, suc, ◌-◌, ◌<◌, ◌≡◌, refl, ◌∙◌, ◌≢◌, true, false, none, some, List, [], ◌∷◌, ◌++◌, arith, ltb,
  ◌==◌, if◌then◌else◌, ok, Returns, ne→==, lt→ltb, ==_refl, sym,
}
use linux_server_programming.Memory.{Ptr, null, Store, node, write}
use linux_server_programming.Memory.Chain
use linux_server_programming.Memory.Chain.{Cells, Chain, SameOutside, has, first, erase}
use linux_server_programming.Callback.{Call, call, call_back}
use linux_server_programming.TimeWheel.{
  TwTimer, TimeWheel, slot_count, slot, set_slot, drop_fired, visit, tick_loop,
}

-- what one turn makes of a slot: timers with no rotation left go, the others count down
unfoldable pub sweep : Cells TwTimer → Cells TwTimer
sweep [] = []
sweep ((p, v) ∷ xs) =
    if ltb 0 v.rotation then (p, record v { rotation = v.rotation - 1 }) ∷ sweep xs else sweep xs

abbrev pub call_of : TwTimer → List Call
call_of v = elim (v.cb_func) [ none ↦ [] | some f ↦ call f v.user_data ∷ [] ]

-- the calls of the timers with no rotation left, in the order of the chain
unfoldable pub fired : Cells TwTimer → List Call
fired [] = []
fired ((p, v) ∷ xs) = if ltb 0 v.rotation then fired xs else call_of v ++ fired xs

-- the timers of a chain whose callback is set
abbrev pub Armed : Cells TwTimer → Type 0
Armed [] = Unit
Armed ((p, v) ∷ xs) = (v.cb_func ≢ none) × Armed xs

pub has-sweep : (p : Ptr) (xs : Cells TwTimer) → has p xs ≡ false → has p (sweep xs) ≡ false
unfolding sweep
has-sweep p [] o = refl
has-sweep p ((a, v) ∷ xs) o = ground (arith, has-sweep p xs)

pub call_back_ok :
    (v : TwTimer) (log : List Call)
    → v.cb_func ≢ none
    → call_back v.cb_func v.user_data log ≡ ok (log ++ call_of v)
call_back_ok v log armed = ground arith

pub slot-ok : (w : TimeWheel) (i : ℕ) → i < slot_count → slot w i ≡ ok (w.slots i)
unfolding slot
slot-ok w i h = rw (lt→ltb i slot_count h)

pub set_slot-ok :
    (w : TimeWheel) (i : ℕ) (p : Ptr)
    → i < slot_count
    → set_slot w i p ≡ ok (record w { slots = λ j. if j == i then p else w.slots j })
unfolding set_slot
set_slot-ok w i p h = rw (lt→ltb i slot_count h)

module _ (w : TimeWheel) (q b : Ptr) (v : TwTimer) (xs : Cells TwTimer)
    (c : Chain w.store q ((b, v) ∷ xs)) where
  -- a timer with rotations left counts down and stays
  pub visit-later :
      0 < v.rotation
      → let v' : TwTimer = record v { rotation = v.rotation - 1 } in
        visit w b
        ≡ ok (record w { store = write w.store b (some (node v' q (first xs))) }, first xs)
  unfolding visit
  visit-later h =
      let (live, at, _, _) = c in
      rw (
        Chain.load-ok w.store b live at,
        lt→ltb 0 v.rotation h,
        Chain.set_value-ok w.store b (record v { rotation = v.rotation - 1 }) live at,
      )

  pub visit-fires :
      v.rotation ≡ 0
      → v.cb_func ≢ none
      → visit w b ≡ drop_fired (record w { calls = w.calls ++ call_of v }) b
  unfolding visit
  visit-fires h armed =
      let (live, at, _, _) = c in
      let off : ltb 0 v.rotation ≡ false = ground arith in
      rw (Chain.load-ok w.store b live at, off, call_back_ok v w.calls armed)

-- What `drop_fired` does besides the links: `b` is deleted, and the loop goes on at `xs`.
pub record Dropped (w : TimeWheel) (b : Ptr) (old xs : Cells TwTimer) (r : TimeWheel × Ptr)
    : Type 0 where
  pub next : r.1 ≡ first xs
  pub current : r.0.cur_slot ≡ w.cur_slot
  pub calls : r.0.calls ≡ w.calls
  pub same : (a : Ptr) → has a old ≡ false → r.0.store a ≡ w.store a
  pub freed : r.0.store b ≡ none

pub drop-head :
    (w : TimeWheel) (b : Ptr) (v : TwTimer) (xs : Cells TwTimer)
    → Chain w.store null ((b, v) ∷ xs)
    → w.cur_slot < slot_count
    → w.slots w.cur_slot ≡ b
    → Returns
        (λ r.
          Dropped w b ((b, v) ∷ xs) xs r
          × Chain r.0.store null xs
          × ((j : ℕ) → r.0.slots j ≡ (if j == w.cur_slot then first xs else w.slots j)))
        (drop_fired w b)
unfolding drop_fired
drop-head w b v xs (live, at, new, c) cur head =
    let h1 : Store TwTimer = write w.store b none in
    let clear : h1 b ≡ none = unfold write in ground arith in
    let same1 : (a : Ptr) → (a == b) ≡ false → h1 a ≡ w.store a = unfold write in ground arith in
    let (h2, run, (chain, same)) =
      Chain.set_prev_if-Chain h1 b null xs (Chain.frame-write w.store b xs b none c new) in
    (
      (
        record w { slots = λ j. if j == w.cur_slot then first xs else w.slots j; store = h2 },
        first xs,
      ),
      rw (
        slot-ok w w.cur_slot cur,
        head,
        ==_refl b,
        Chain.load-ok w.store b live at,
        set_slot-ok w w.cur_slot (first xs) cur,
        Chain.free-ok w.store b live at,
        run,
      ),
      (
        record {
          next = refl;
          current = refl;
          calls = refl;
          same = λ a o. same a (ground arith) ∙ same1 a (ground arith);
          freed = same b new ∙ clear;
        },
        chain,
        λ j. refl,
      ),
    )

pub drop-second :
    (w : TimeWheel) (q a b : Ptr) (u v : TwTimer) (xs : Cells TwTimer)
    → Chain w.store q ((a, u) ∷ (b, v) ∷ xs)
    → w.cur_slot < slot_count
    → w.slots w.cur_slot ≢ b
    → Returns
        (λ r.
          Dropped w b ((a, u) ∷ (b, v) ∷ xs) xs r
          × Chain r.0.store q ((a, u) ∷ xs)
          × (r.0.slots ≡ w.slots))
        (drop_fired w b)
unfolding drop_fired
drop-second w q a b u v xs c cur other =
    let (live, at, new, (live', at', new', rest)) = c in
    let (h1, run, (chain, same)) = Chain.bypass-second w.store q b a u v xs c in
    let at1 : h1 b ≡ some (node v a (first xs)) = same b (ground arith) ∙ at' in
    let clear : write h1 b none b ≡ none = unfold write in ground arith in
    let same1 : (d : Ptr) → (d == b) ≡ false → write h1 b none d ≡ h1 d =
      unfold write in ground arith in
    (
      (record w { store = write h1 b none }, first xs),
      rw (
        slot-ok w w.cur_slot cur,
        ne→== b (w.slots w.cur_slot) (λ e. other (sym e)),
        run,
        Chain.load-ok h1 b live' at1,
        Chain.free-ok h1 b live' at1,
      ),
      (
        record {
          next = refl;
          current = refl;
          calls = refl;
          same = λ d o. same1 d (ground arith) ∙ same d (ground arith);
          freed = clear;
        },
        Chain.frame-write h1 q ((a, u) ∷ xs) b none chain (ground arith),
        refl,
      ),
    )

pub tick_loop-step :
    (k : ℕ) (w : TimeWheel) (p : Ptr) (r : TimeWheel × Ptr)
    → p ≢ null
    → visit w p ≡ ok r
    → tick_loop (suc k) w p ≡ tick_loop k r.0 r.1
unfolding tick_loop
tick_loop-step k w p r live e = rw (ne→== p null live, e)

-- What the loop does to a slot's nodes `xs` besides the links of those that stay.
pub record Swept (w : TimeWheel) (old xs : Cells TwTimer) (w' : TimeWheel) : Type 0 where
  pub current : w'.cur_slot ≡ w.cur_slot
  pub called : w'.calls ≡ w.calls ++ fired xs
  pub same : (d : Ptr) → has d old ≡ false → w'.store d ≡ w.store d
  pub gone : (d : Ptr) → has d xs ≡ true → has d (sweep xs) ≡ false → w'.store d ≡ none

module _ (p : Ptr) (v : TwTimer) (xs : Cells TwTimer) where
  abbrev pub count_down : TwTimer
  count_down = record v { rotation = v.rotation - 1 }

  pub sweep-later : 0 < v.rotation → sweep ((p, v) ∷ xs) ≡ (p, count_down) ∷ sweep xs
  unfolding sweep
  sweep-later h = ground arith

  pub sweep-due : v.rotation ≡ 0 → sweep ((p, v) ∷ xs) ≡ sweep xs
  unfolding sweep
  sweep-due h = ground arith

  pub fired-later : 0 < v.rotation → fired ((p, v) ∷ xs) ≡ fired xs
  unfolding fired
  fired-later h = ground arith

  pub fired-due : v.rotation ≡ 0 → fired ((p, v) ∷ xs) ≡ call_of v ++ fired xs
  unfolding fired
  fired-due h = ground arith
