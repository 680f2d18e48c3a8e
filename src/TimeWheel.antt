-- ===== src/TimeWheel.antt =====
-- The timing wheel of TimeWheel.h: `tw_timer` and `time_wheel`.
-- The nodes live in a store, the callbacks' calls are logged, and `printf` is left out. An index
-- outside `slots` is a fault. The loop of `tick` runs on fuel. `fresh` is what `new` returns.
pub mod Sweep
pub mod Behind
pub mod Turn
pub mod Invariant
pub mod Links
pub mod Operations
pub mod Due
pub mod Ticks
pub mod Lifetime
pub mod Destroy
mod Tests
use linux_server_programming.Base.{
  ℕ, zero, suc, ◌+◌, ◌-◌, ◌/◌, ◌%◌, Option, none, some, List, ltb, ◌==◌, if◌then◌else◌, ℤ, pos,
  negsuc, Run, ok, fault, out_of_fuel, ◌>>=◌,
}
use linux_server_programming.Memory.{
  Ptr, null, Node, node, Store, write, load, set_value, set_prev, set_next, free, set_prev_if,
  bypass,
}
use linux_server_programming.Callback.{Call, call_back}

-- `none` is a pointer that the constructor leaves unset.
pub record TwTimer : Type 0 where
  pub rotation : ℕ
  pub time_slot : ℕ
  pub cb_func : Option ℕ
  pub user_data : Option ℕ

pub record TimeWheel : Type 0 where
  pub slots : ℕ → Ptr
  pub cur_slot : ℕ
  pub store : Store TwTimer
  pub calls : List Call

-- `N` and `SI` of the source
abbrev pub slot_count : ℕ
slot_count = 60

abbrev pub slot_interval : ℕ
slot_interval = 1

unfoldable pub new_timer : (rot ts : ℕ) → TwTimer
new_timer rot ts = record { rotation = rot; time_slot = ts; cb_func = none; user_data = none }

unfoldable pub new_wheel : Store TwTimer → List Call → TimeWheel
new_wheel h log = record { slots = λ _. null; cur_slot = 0; store = h; calls = log }

-- `slots[i]`
unfoldable pub slot : TimeWheel → ℕ → Run Ptr
slot w i = if ltb i slot_count then ok (w.slots i) else fault

-- `slots[i] = p`
unfoldable pub set_slot : TimeWheel → ℕ → Ptr → Run TimeWheel
set_slot w i p =
    if ltb i slot_count
    then ok (record w { slots = λ j. if j == i then p else w.slots j })
    else fault

unfoldable pub ticks_of : ℕ → ℕ
ticks_of timeout = if ltb timeout slot_interval then 1 else timeout / slot_interval

-- the slot that a timer of so many ticks is put in
unfoldable pub slot_of : (cur ticks : ℕ) → ℕ
slot_of cur ticks = (cur + ticks % slot_count) % slot_count

-- the writes that put a new node into its slot
unfoldable pub push_slot : TimeWheel → ℕ → Ptr → Run TimeWheel
push_slot w ts timer = do
  head ← slot w ts
  if head == null then set_slot w ts timer else do
    h1 ← set_next w.store timer head
    h2 ← set_prev h1 head timer
    set_slot (record w { store = h2 }) ts timer

unfoldable pub add_timer : (fresh : Ptr) → TimeWheel → ℤ → Run (Ptr × TimeWheel)
add_timer fresh w (negsuc _) = ok (null, w)
add_timer fresh w (pos timeout) = do
  let ticks = ticks_of timeout
  let ts = slot_of w.cur_slot ticks
  let timer = new_timer (ticks / slot_count) ts
  w' ← push_slot (record w { store = write w.store fresh (some (node timer null null)) }) ts fresh
  ok (fresh, w')

unfoldable pub del_timer : TimeWheel → Ptr → Run TimeWheel
del_timer w timer = if timer == null then ok w else do
  n ← load w.store timer
  let ts = n.value.time_slot
  head ← slot w ts
  if timer == head
      then (do
        n1 ← load w.store head
        w1 ← set_slot w ts n1.next
        h1 ← set_prev_if w1.store n1.next null
        h2 ← free h1 timer
        ok (record w1 { store = h2 }))
      else (do h1 ← bypass w.store timer; h2 ← free h1 timer; ok (record w { store = h2 }))

-- the branch of `tick` for a timer that has been called: unlink and delete it, and go on behind it
unfoldable pub drop_fired : TimeWheel → Ptr → Run (TimeWheel × Ptr)
drop_fired w tmp = do
  head ← slot w w.cur_slot
  if tmp == head
      then (do
        n ← load w.store tmp
        w1 ← set_slot w w.cur_slot n.next
        h1 ← free w1.store tmp
        h2 ← set_prev_if h1 n.next null
        ok (record w1 { store = h2 }, n.next))
      else (do
        h1 ← bypass w.store tmp
        n ← load h1 tmp
        h2 ← free h1 tmp
        ok (record w { store = h2 }, n.next))

-- one round of the loop of `tick`, with the next `tmp`
unfoldable pub visit : TimeWheel → Ptr → Run (TimeWheel × Ptr)
visit w tmp = do
  n ← load w.store tmp
  if ltb 0 n.value.rotation
      then (do
        h ← set_value w.store tmp (record n.value { rotation = n.value.rotation - 1 })
        ok (record w { store = h }, n.next))
      else (do
        log ← call_back n.value.cb_func n.value.user_data w.calls
        drop_fired (record w { calls = log }) tmp)

unfoldable pub tick_loop : ℕ → TimeWheel → Ptr → Run TimeWheel
tick_loop zero w tmp = out_of_fuel
tick_loop (suc k) w tmp =
    let round : Run TimeWheel = (do (w', next) ← visit w tmp; tick_loop k w' next) in
    if tmp == null then ok w else round

unfoldable pub tick : ℕ → TimeWheel → Run TimeWheel
tick fuel w = do
  head ← slot w w.cur_slot
  w' ← tick_loop fuel w head
  ok (record w' { cur_slot = (w'.cur_slot + 1) % slot_count })

-- `timer->user_data = &users[connFd]; timer->cb_func = cb_func;` of TimeWheel.cpp
unfoldable pub arm : TimeWheel → Ptr → (func user : ℕ) → Run TimeWheel
arm w timer func user = do
  n ← load w.store timer
  h1 ← set_value w.store timer (record n.value { user_data = some user })
  n1 ← load h1 timer
  h2 ← set_value h1 timer (record n1.value { cb_func = some func })
  ok (record w { store = h2 })

-- the inner loop of the destructor, with `tmp` equal to `slots[i]`
unfoldable pub destroy_loop : ℕ → (i : ℕ) → TimeWheel → (tmp : Ptr) → Run TimeWheel
destroy_loop zero i w tmp = out_of_fuel
destroy_loop (suc k) i w tmp =
    let round : Run TimeWheel = (do
      n ← load w.store tmp
      w1 ← set_slot w i n.next
      h ← free w1.store tmp
      next ← slot (record w1 { store = h }) i
      destroy_loop k i (record w1 { store = h }) next) in
    if tmp == null then ok w else round

-- the outer loop, with so many rounds left
unfoldable pub destroy_slots : (fuel left i : ℕ) → TimeWheel → Run TimeWheel
destroy_slots fuel zero i w = ok w
destroy_slots fuel (suc k) i w = do
  head ← slot w i
  w' ← destroy_loop fuel i w head
  destroy_slots fuel k (i + 1) w'

unfoldable pub destroy : (fuel : ℕ) → TimeWheel → Run TimeWheel
destroy fuel w = destroy_slots fuel slot_count 0 w
