-- ===== src/TimeHeap.antt =====
-- The timer heap of TimeHeap.h: `heap_timer` and `time_heap`.
-- `array` holds pointers to timers in a store; an index outside its `capacity` is a fault, as is an
-- access through NULL or through a deleted timer. What `time(NULL)` returns is an argument. Loops
-- run on fuel. `int` does not overflow while the capacity stays below 2 ^ 30.
pub mod Items
pub mod Order
pub mod Access
pub mod Down
pub mod Up
pub mod Valid
pub mod Add
pub mod Pop
pub mod Tick
pub mod TickLoop
pub mod Build
pub mod Disconnect
pub mod Destroy
mod Tests
use linux_server_programming.Base.{
  ℕ, zero, suc, ◌+◌, ◌-◌, ◌*◌, ◌/◌, Bool, false, Option, none, some, List, ltb, leb, ◌==◌,
  if◌then◌else◌, Run, ok, fault, out_of_fuel, ◌>>=◌,
}
use linux_server_programming.Memory.{Ptr, null}
use linux_server_programming.Callback.{Call, call_back}

-- `cb_func` is `none` where it is NULL.
pub record HeapTimer : Type 0 where
  pub expire : ℕ
  pub cb_func : Option ℕ
  pub user_data : Option ℕ

abbrev pub Timers : Type 0
Timers = Ptr → Option HeapTimer

pub record TimeHeap : Type 0 where
  pub array : ℕ → Ptr
  pub capacity : ℕ
  pub cur_size : ℕ
  pub store : Timers
  pub calls : List Call

unfoldable pub write_timer : Timers → Ptr → Option HeapTimer → Timers
write_timer h p c a = if a == p then c else h a

-- `*p`
unfoldable pub load_timer : Timers → Ptr → Run HeapTimer
load_timer h p = if p == null then fault else elim (h p) [ none ↦ fault | some t ↦ ok t ]

-- `array[i]`
unfoldable pub at : TimeHeap → ℕ → Run Ptr
at w i = if ltb i w.capacity then ok (w.array i) else fault

-- `array[i] = p`
unfoldable pub set_at : TimeHeap → ℕ → Ptr → Run TimeHeap
set_at w i p =
    if ltb i w.capacity
    then ok (record w { array = λ j. if j == i then p else w.array j })
    else fault

-- `array[i]->expire`
unfoldable pub expire_at : TimeHeap → ℕ → Run ℕ
expire_at w i = do p ← at w i; t ← load_timer w.store p; ok t.expire

abbrev pub empty : TimeHeap → Bool
empty w = w.cur_size == 0

-- the child that the loop of `percolate_down` compares; `&&` reads the right one only if it exists
unfoldable pub smaller_child : TimeHeap → ℕ → Run ℕ
smaller_child w hole =
    let child = hole * 2 + 1 in
    if ltb (child + 1) w.cur_size
    then (do
      r ← expire_at w (child + 1)
      l ← expire_at w child
      ok (if ltb r l then child + 1 else child))
    else ok child

unfoldable pub percolate_loop : ℕ → TimeHeap → (temp : Ptr) (hole : ℕ) → Run TimeHeap
percolate_loop zero w temp hole = out_of_fuel
percolate_loop (suc k) w temp hole =
    let round : Run TimeHeap = (do
      child ← smaller_child w hole
      e ← expire_at w child
      t ← load_timer w.store temp
      let sink : Run TimeHeap = (do
        p ← at w child
        w' ← set_at w hole p
        percolate_loop k w' temp child)
      if ltb e t.expire then sink else set_at w hole temp) in
    if ltb (hole * 2 + 1) w.cur_size then round else set_at w hole temp

unfoldable pub percolate_down : TimeHeap → ℕ → Run TimeHeap
percolate_down w hole = do temp ← at w hole; percolate_loop (suc w.cur_size) w temp hole

-- the loop of `add_timer`, and the write behind it
unfoldable pub rise_loop : ℕ → TimeHeap → (timer : Ptr) (hole : ℕ) → Run TimeHeap
rise_loop zero w timer hole = out_of_fuel
rise_loop (suc k) w timer hole =
    let round : Run TimeHeap = (do
      let parent = (hole - 1) / 2
      e ← expire_at w parent
      t ← load_timer w.store timer
      let rise : Run TimeHeap = (do
        p ← at w parent
        w' ← set_at w hole p
        rise_loop k w' timer parent)
      if leb e t.expire then set_at w hole timer else rise) in
    if ltb 0 hole then round else set_at w hole timer

-- The new array is filled with NULL before the timers are copied.
unfoldable pub resize : TimeHeap → Run TimeHeap
resize w =
    if leb w.cur_size w.capacity
    then ok (record w {
      array = λ i. if ltb i w.cur_size then w.array i else null;
      capacity = 2 * w.capacity;
    })
    else fault

unfoldable pub add_timer : TimeHeap → Ptr → Run TimeHeap
add_timer w timer = if timer == null then ok w else do
  w1 ← if leb w.capacity w.cur_size then resize w else ok w
  let hole = w1.cur_size
  rise_loop (suc hole) (record w1 { cur_size = hole + 1 }) timer hole

unfoldable pub del_timer : TimeHeap → Ptr → Run TimeHeap
del_timer w timer = if timer == null then ok w else do
  t ← load_timer w.store timer
  ok (record w { store = write_timer w.store timer (some (record t { cb_func = none })) })

unfoldable pub top : TimeHeap → Run Ptr
top w = if empty w then ok null else at w 0

-- `delete array[0]; array[0] = array[--cur_size]; percolate_down(0);`
unfoldable pub drop_top : TimeHeap → Ptr → Run TimeHeap
drop_top w p = do
  _ ← load_timer w.store p
  let w1 = record w { cur_size = w.cur_size - 1; store = write_timer w.store p none }
  q ← at w1 w1.cur_size
  w2 ← set_at w1 0 q
  percolate_down w2 0

unfoldable pub pop_timer : TimeHeap → Run TimeHeap
pop_timer w = if empty w then ok w else do p ← at w 0; if p == null then ok w else drop_top w p

-- the call of `array[0]->cb_func`, if it is not NULL
unfoldable pub call_top : TimeHeap → Run TimeHeap
call_top w = do
  p ← at w 0
  t ← load_timer w.store p
  let call = (do log ← call_back t.cb_func t.user_data w.calls; ok (record w { calls = log }))
  elim (t.cb_func) [ none ↦ ok w | some _ ↦ call ]

unfoldable pub tick_loop : ℕ → (cur : ℕ) → TimeHeap → (tmp : Ptr) → Run TimeHeap
tick_loop zero cur w tmp = out_of_fuel
tick_loop (suc k) cur w tmp =
    let fire : Run TimeHeap = (do
      w1 ← call_top w
      w2 ← pop_timer w1
      tmp' ← at w2 0
      tick_loop k cur w2 tmp') in
    let round : Run TimeHeap = (do
      t ← load_timer w.store tmp
      if ltb cur t.expire then ok w else fire) in
    if empty w then ok w else if tmp == null then ok w else round

unfoldable pub tick : (cur : ℕ) → TimeHeap → Run TimeHeap
tick cur w = do tmp ← at w 0; tick_loop (suc w.cur_size) cur w tmp

-- the loop of the second constructor, from `i - 1` down to 0
unfoldable pub heapify : ℕ → TimeHeap → Run TimeHeap
heapify zero w = ok w
heapify (suc i) w = percolate_down w i >>= heapify i

-- `time_heap(int cap)`
unfoldable pub new_heap : Timers → ℕ → TimeHeap
new_heap h cap = record {
  array = λ _. null;
  capacity = cap;
  cur_size = 0;
  store = h;
  calls = List.[];
}

-- `time_heap(heap_timer** init_array, int size, int capacity)`; `none` is the exception.
unfoldable pub new_heap_from :
    Timers → (init_array : ℕ → Ptr) (size capacity : ℕ) → Run (Option TimeHeap)
new_heap_from h init_array size capacity =
    let start : TimeHeap = record {
      array = λ i. if ltb i size then init_array i else null;
      capacity = capacity;
      cur_size = size;
      store = h;
      calls = List.[];
    } in
    if ltb capacity size
    then ok none
    else if size == 0
    then ok (some start)
    else (do w ← heapify ((size - 1) / 2 + 1) start; ok (some w))

-- what TimeHeap.cpp does with the heap when a client's connection ends
unfoldable pub disconnect : TimeHeap → Ptr → Run TimeHeap
disconnect w timer = do w1 ← del_timer w timer; pop_timer w1

-- `delete p`
unfoldable pub delete_timer : Timers → Ptr → Run Timers
delete_timer h p = if p == null then ok h else do _ ← load_timer h p; ok (write_timer h p none)

-- the loop of the destructor, with so many rounds left
unfoldable pub destroy_from : (left i : ℕ) → TimeHeap → Run TimeHeap
destroy_from zero i w = ok w
destroy_from (suc k) i w = do
  p ← at w i
  h ← delete_timer w.store p
  destroy_from k (i + 1) (record w { store = h })

-- The timers that the destructor leaves; the array is gone.
unfoldable pub destroy : TimeHeap → Run Timers
destroy w = do w' ← destroy_from w.cur_size 0 w; ok w'.store
