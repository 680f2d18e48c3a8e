-- ===== src/TimerList.antt =====
-- The ascending timer list of LST_Timer.h: `util_timer` and `sort_timer_lst`.
-- Times are seconds since the epoch. What `time(NULL)` returns is an argument, `printf` is left
-- out, and the loops run on fuel.
pub mod Insert
pub mod Invariant
pub mod Add
pub mod Remove
pub mod Tick
pub mod Destroy
mod Tests
use linux_server_programming.Base.{
  ℕ, zero, suc, ◌&&◌, Option, none, some, List, ltb, ◌==◌, if◌then◌else◌, Run, ok, out_of_fuel,
  ◌>>=◌,
}
use linux_server_programming.Memory.{Ptr, null, Store, load, set_prev, set_next, free, set_prev_if}
use linux_server_programming.Callback.{Call, call_back}

pub record UtilTimer : Type 0 where
  pub expire : ℕ
  pub cb_func : Option ℕ
  pub user_data : Option ℕ

pub record TimerList : Type 0 where
  pub head : Ptr
  pub tail : Ptr
  pub store : Store UtilTimer
  pub calls : List Call

unfoldable pub new_list : Store UtilTimer → List Call → TimerList
new_list h log = record { head = null; tail = null; store = h; calls = log }

-- the writes that put `timer` between `prev` and `tmp`
unfoldable pub link_between : Store UtilTimer → (timer prev tmp : Ptr) → Run (Store UtilTimer)
link_between h timer prev tmp = do
  h1 ← set_next h prev timer
  h2 ← set_next h1 timer tmp
  h3 ← set_prev h2 tmp timer
  set_prev h3 timer prev

-- the loop of the private `add_timer`
unfoldable pub insert_loop : ℕ → Store UtilTimer → (timer prev tmp : Ptr) → Run (Store UtilTimer)
insert_loop zero h timer prev tmp = out_of_fuel
insert_loop (suc k) h timer prev tmp =
    let round : Run (Store UtilTimer) = (do
      t ← load h timer
      n ← load h tmp
      let onward = insert_loop k h timer tmp n.next
      if ltb t.value.expire n.value.expire then link_between h timer prev tmp else onward) in
    if tmp == null then ok h else round

-- the private `add_timer`
unfoldable pub add_timer_behind : ℕ → TimerList → (timer lst_head : Ptr) → Run TimerList
add_timer_behind fuel w timer lst_head = do
  n ← load w.store lst_head
  h ← insert_loop fuel w.store timer lst_head n.next
  ok (record w { store = h })

-- `add_timer` on a list that is not empty
unfoldable pub add_timer_to : ℕ → TimerList → Ptr → Run TimerList
add_timer_to fuel w timer = do
  t ← load w.store timer
  n ← load w.store w.head
  if ltb t.value.expire n.value.expire
      then (do
        h1 ← set_next w.store timer w.head
        h2 ← set_prev h1 w.head timer
        ok (record w { head = timer; store = h2 }))
      else add_timer_behind fuel w timer w.head

unfoldable pub add_timer : ℕ → TimerList → Ptr → Run TimerList
add_timer fuel w timer =
    if timer == null
    then ok w
    else if w.head == null
    then ok (record w { head = timer; tail = timer })
    else add_timer_to fuel w timer

-- `adjust_timer` where the timer has to move
unfoldable pub move_timer : ℕ → TimerList → Ptr → Run TimerList
move_timer fuel w timer =
    if timer == w.head
    then (do
      n ← load w.store w.head
      h1 ← set_prev w.store n.next null
      h2 ← set_next h1 timer null
      add_timer_behind fuel (record w { head = n.next; store = h2 }) timer n.next)
    else (do
      n ← load w.store timer
      h1 ← set_next w.store n.prev n.next
      n1 ← load h1 timer
      h2 ← set_prev h1 n1.next n1.prev
      n2 ← load h2 timer
      add_timer_behind fuel (record w { store = h2 }) timer n2.next)

unfoldable pub adjust_timer : ℕ → TimerList → Ptr → Run TimerList
adjust_timer fuel w timer = if timer == null then ok w else do
  t ← load w.store timer
  let stay : Run TimerList = ok w
  if t.next == null then stay else do
    n ← load w.store t.next
    if ltb t.value.expire n.value.expire then stay else move_timer fuel w timer

unfoldable pub del_timer : TimerList → Ptr → Run TimerList
del_timer w timer =
    if timer == null
    then ok w
    else if (timer == w.head) && (timer == w.tail)
    then (do h ← free w.store timer; ok (record w { head = null; tail = null; store = h }))
    else if timer == w.head
    then (do
      n ← load w.store w.head
      h1 ← set_prev w.store n.next null
      h2 ← free h1 timer
      ok (record w { head = n.next; store = h2 }))
    else if timer == w.tail
    then (do
      n ← load w.store w.tail
      h1 ← set_next w.store n.prev null
      h2 ← free h1 timer
      ok (record w { tail = n.prev; store = h2 }))
    else (do
      n ← load w.store timer
      h1 ← set_next w.store n.prev n.next
      n1 ← load h1 timer
      h2 ← set_prev h1 n1.next n1.prev
      h3 ← free h2 timer
      ok (record w { store = h3 }))

-- the loop of `tick`, with `tmp` equal to `head`; `tail` is never written
unfoldable pub tick_loop : ℕ → ℕ → TimerList → Run TimerList
tick_loop zero cur w = out_of_fuel
tick_loop (suc k) cur w =
    let fire = λ (log : List Call) (next : Ptr). (do
      h1 ← set_prev_if w.store next null
      h2 ← free h1 w.head
      tick_loop k cur (record w { head = next; store = h2; calls = log })) in
    let round : Run TimerList = (do
      n ← load w.store w.head
      let expired = (do log ← call_back n.value.cb_func n.value.user_data w.calls; fire log n.next)
      if ltb cur n.value.expire then ok w else expired) in
    if w.head == null then ok w else round

unfoldable pub tick : (fuel cur : ℕ) → TimerList → Run TimerList
tick fuel cur w = if w.head == null then ok w else tick_loop fuel cur w

-- the loop of the destructor
unfoldable pub destroy_loop : ℕ → TimerList → (tmp : Ptr) → Run TimerList
destroy_loop zero w tmp = out_of_fuel
destroy_loop (suc k) w tmp =
    let round : Run TimerList = (do
      n ← load w.store tmp
      h ← free w.store tmp
      destroy_loop k (record w { head = n.next; store = h }) n.next) in
    if tmp == null then ok w else round

unfoldable pub destroy : (fuel : ℕ) → TimerList → Run TimerList
destroy fuel w = destroy_loop fuel w w.head
