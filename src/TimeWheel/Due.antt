-- ===== src/TimeWheel/Due.antt =====
-- How many calls of `tick` a timer outlasts, on the abstract wheel.
use linux_server_programming.Base.{
  ℕ, ◌+◌, ◌-◌, ◌*◌, ◌%◌, ◌<◌, ◌≡◌, ◌≢◌, refl, false, inl, inr, Option, some, none, ◌⊎◌, List, [],
  ◌∷◌, ◌++◌, arith, ◌==◌, if◌then◌else◌, Bool-cases, ltb,
}
use linux_server_programming.Memory.{Ptr, Store}
use linux_server_programming.Memory.Chain.{Cells, Chain, has}
use linux_server_programming.Callback.{Call, call}
use linux_server_programming.TimeWheel.{TwTimer, slot_count}
use linux_server_programming.TimeWheel.Sweep.{
  sweep, fired, call_of, fired-later, fired-due, sweep-later, sweep-due, has-sweep,
}
use linux_server_programming.TimeWheel.Invariant.{Slots, put}

abbrev pub lookup : Ptr → Cells TwTimer → Option TwTimer
lookup p [] = none
lookup p ((a, v) ∷ xs) = if p == a then some v else lookup p xs

-- the calls of `tick` that a timer of slot `i` outlasts while `cur_slot` is `cur`
unfoldable pub due : (cur i : ℕ) → TwTimer → ℕ
due cur i v = v.rotation * slot_count + (i + slot_count - cur) % slot_count

abbrev pub turn : Slots → ℕ → Slots
turn l cur = put l cur (sweep (l cur))

-- the call is in the log
abbrev pub Called : Call → List Call → Type 0
Called c [] = ⊥
Called c (d ∷ log) = (c ≡ d) ⊎ Called c log

lookup-sweep_later :
    (p : Ptr) (v : TwTimer) (xs : Cells TwTimer)
    → lookup p xs ≡ some v
    → 0 < v.rotation
    → lookup p (sweep xs) ≡ some (record v { rotation = v.rotation - 1 })
unfolding sweep
lookup-sweep_later p v [] e more = cc
lookup-sweep_later p v ((a, u) ∷ xs) e more = ground (arith, lookup-sweep_later p v xs)

pub has-sweep_due :
    (h : Store TwTimer) (q p : Ptr) (v : TwTimer) (xs : Cells TwTimer)
    → Chain h q xs
    → lookup p xs ≡ some v
    → v.rotation ≡ 0
    → has p (sweep xs) ≡ false
has-sweep_due h q p v [] c e now = cc
has-sweep_due h q p v ((a, u) ∷ xs) (live, at, new, c) e now = elim (Bool-cases (p == a)) [
  | inl hit ↦
      let is : p ≡ a = ground arith in
      let rot : u.rotation ≡ 0 = ground arith in rw (sweep-due a u xs rot, is) (has-sweep a xs new)
  | inr miss ↦
      let ih = has-sweep_due h a p v xs c (rw miss at e) now in
      elim (Bool-cases (ltb 0 u.rotation)) [
        | inl later ↦ rw (sweep-later a u xs (ground arith), miss) ih
        | inr out ↦ rw (sweep-due a u xs (ground arith)) ih
      ]
]

pub Called-append_left : (c : Call) (xs ys : List Call) → Called c xs → Called c (xs ++ ys)
Called-append_left c [] ys h = absurd h
Called-append_left c (x ∷ xs) ys (inl e) = inl e
Called-append_left c (x ∷ xs) ys (inr h) = inr (Called-append_left c xs ys h)

pub Called-append_right : (c : Call) (xs ys : List Call) → Called c ys → Called c (xs ++ ys)
Called-append_right c [] ys h = h
Called-append_right c (x ∷ xs) ys h = inr (Called-append_right c xs ys h)

Called-call_of :
    (v : TwTimer) (f : ℕ) (log : List Call)
    → v.cb_func ≡ some f
    → Called (call f v.user_data) (call_of v ++ log)
Called-call_of v f log set = rw set (inl refl)

pub Called-fired :
    (p : Ptr) (v : TwTimer) (f : ℕ) (xs : Cells TwTimer)
    → lookup p xs ≡ some v
    → v.rotation ≡ 0
    → v.cb_func ≡ some f
    → Called (call f v.user_data) (fired xs)
Called-fired p v f [] e now set = cc
Called-fired p v f ((a, u) ∷ xs) e now set = elim (Bool-cases (p == a)) [
  | inl hit ↦
      let is : u ≡ v = ground arith in
      rw (is, fired-due a v xs now) (Called-call_of v f (fired xs) set)
  | inr miss ↦
      let ih = Called-fired p v f xs (rw miss at e) now set in
      elim (Bool-cases (ltb 0 u.rotation)) [
        | inl later ↦ rw (fired-later a u xs (ground arith)) ih
        | inr out ↦
            rw (fired-due a u xs (ground arith)) (Called-append_right _ (call_of u) (fired xs) ih)
      ]
]

-- One call of `tick` before the timer is due.
pub lookup-turn :
    (l : Slots) (cur i : ℕ) (p : Ptr) (v : TwTimer)
    → cur < slot_count
    → i < slot_count
    → lookup p (l i) ≡ some v
    → 0 < due cur i v
    → (v' : TwTimer) × (lookup p (turn l cur i) ≡ some v')
      × (due ((cur + 1) % slot_count) i v' + 1 ≡ due cur i v)
      × (v'.cb_func ≡ v.cb_func)
      × (v'.user_data ≡ v.user_data)
unfolding due
lookup-turn l cur i p v hc hi e more = elim (Bool-cases (i == cur)) [
  | inl here ↦
      let is : i ≡ cur = ground arith in
      let rot : 0 < v.rotation = omega arith in
      (
        record v { rotation = v.rotation - 1 },
        rw (here, ← is) (lookup-sweep_later p v (l i) e rot),
        omega arith,
        refl,
        refl,
      )
  | inr away ↦ let ne : i ≢ cur = ground arith in (v, rw away e, omega arith, refl, refl)
]
