-- ===== src/TimeHeap/Tests.antt =====
-- TimeHeap.h at concrete heaps.
use linux_server_programming.Base.{
  ℕ, ◌≤◌, ◌<◌, ◌≡◌, ◌⊎◌, refl, true, some, none, List, [], ◌∷◌, arith, ◌==◌, if◌then◌else◌,
  Bool-cases, inl, inr, Run, ok, Returns, ◌>>=◌,
}
use linux_server_programming.Memory.{Ptr, null}
use linux_server_programming.Callback.{Call, call}
use linux_server_programming.TimeHeap.{
  HeapTimer, Timers, TimeHeap, write_timer, load_timer, at, set_at, expire_at, smaller_child,
  percolate_loop, percolate_down, rise_loop, resize, add_timer, del_timer, drop_top, pop_timer,
  call_top, tick_loop, tick, new_heap_from, disconnect,
}
use linux_server_programming.TimeHeap.Items.{count, SameItems}
use linux_server_programming.TimeHeap.Access.{AllLive}
use linux_server_programming.TimeHeap.Valid.{IsValid}
use linux_server_programming.TimeHeap.Add.{Added, add_timer-Added}
use linux_server_programming.TimeHeap.Pop.{Popped, pop_timer-Popped}
use linux_server_programming.TimeHeap.Tick.{Ticked}
use linux_server_programming.TimeHeap.TickLoop.{tick-Ticked}
use linux_server_programming.TimeHeap.Build.{new_heap_from-IsValid}
use linux_server_programming.TimeHeap.Disconnect.{silenced, disconnect-drops_root}

abbrev timer : ℕ → ℕ → HeapTimer
timer e u = record { expire = e; cb_func = some 9; user_data = some u }

-- pointers 1, 2 and 3
abbrev timers : Timers
timers p =
    if p == 1
    then some (timer 30 1)
    else if p == 2
    then some (timer 10 2)
    else if p == 3
    then some (timer 20 3)
    else none

-- pointers 1 and 2 in a full heap
abbrev entries : ℕ → Ptr
entries i = if i == 0 then 2 else if i == 1 then 1 else null

abbrev sample : TimeHeap
sample = record { array = entries; capacity = 2; cur_size = 2; store = timers; calls = [] }

entries-live : AllLive timers 2 entries
entries-live i hi = elim (Bool-cases (i == 0)) [
  | inl e ↦ rw e ((λ z. omega arith), (λ z. cc))
  | inr e ↦ let is : (i == 1) ≡ true = ground arith in rw (e, is) ((λ z. omega arith), (λ z. cc))
]

entries-once : (p : Ptr) → count p 2 entries ≤ 1
unfolding count
entries-once p = ground arith

sample-IsValid : IsValid sample
sample-IsValid = record {
  fits = omega arith;
  room = omega arith;
  live = entries-live;
  once = entries-once;
  order = λ c p q r. let is : c ≡ 1 = omega arith in rw is (omega arith);
}

abbrev calls_of : TimeHeap → Run (List Call)
calls_of w = ok w.calls

-- The third timer makes the array grow; at 20 the two earlier ones are called in order.
add_and_tick :
    ((add_timer sample 3 >>= tick 20) >>= calls_of) ≡ ok (call 9 (some 2) ∷ call 9 (some 3) ∷ [])
unfolding write_timer load_timer at set_at expire_at smaller_child percolate_loop percolate_down
    rise_loop resize add_timer drop_top pop_timer call_top tick_loop tick
add_and_tick = refl

-- A client that disconnects takes the timer at the root with it, and its own is left.
drop_then_tick : ((disconnect sample 1 >>= tick 40) >>= calls_of) ≡ ok []
unfolding write_timer load_timer at set_at expire_at smaller_child percolate_loop percolate_down
    del_timer drop_top pop_timer call_top tick_loop tick disconnect
drop_then_tick = refl

add_timer-Added_example : Returns (Added sample 3) (add_timer sample 3)
unfolding count
add_timer-Added_example = add_timer-Added sample 3 sample-IsValid (λ e. omega arith) (λ e. cc) refl

pop_timer-Popped_example : Returns (Popped sample) (pop_timer sample)
pop_timer-Popped_example = pop_timer-Popped sample sample-IsValid (omega arith)

tick-Ticked_example : Returns (λ w'. (ps : List Ptr) × Ticked 15 sample w' ps) (tick 15 sample)
tick-Ticked_example = tick-Ticked 15 sample sample-IsValid

new_heap_from-IsValid_example :
    Returns
      (λ o.
        ((o ≡ none) × (3 < 2))
        ⊎ ((w : TimeHeap) × (o ≡ some w)
            × IsValid w
            × (w.cur_size ≡ 2)
            × (w.capacity ≡ 3)
            × (w.store ≡ timers)
            × SameItems 2 w.array entries))
      (new_heap_from timers entries 2 3)
new_heap_from-IsValid_example =
    new_heap_from-IsValid timers entries 2 3 (omega arith) entries-live entries-once

disconnect-drops_root_example :
    Returns
      (λ w'.
        IsValid w'
        × (w'.store 2 ≡ none)
        × (w'.calls ≡ [])
        × (count 1 w'.cur_size w'.array ≡ 1)
        × (w'.store 1 ≡ some (silenced (timer 30 1))))
      (disconnect sample 1)
disconnect-drops_root_example =
    disconnect-drops_root sample 1 (timer 30 1) refl 1 sample-IsValid (omega arith) (omega arith)
      refl
