-- ===== src/TimeWheel/Tests.antt =====
-- TimeWheel.h at concrete wheels.
use linux_server_programming.Base.{
  ℕ, ◌+◌, ◌≡◌, refl, true, false, Option, some, none, List, [], ◌∷◌, ◌++◌, arith, ◌==◌,
  if◌then◌else◌, inr, Run, ok, Returns, ◌>>=◌, suc,
}
use linux_server_programming.Memory.{
  Ptr, null, Store, Node, node, write, load, set_value, set_prev, set_next, free, set_prev_if,
  bypass,
}
use linux_server_programming.Memory.Chain.{Cells, has, erase}
use linux_server_programming.Callback.{Call, call}
use linux_server_programming.Base.{length, Bool-cases, inl, inr, ◌<◌}
use linux_server_programming.TimeWheel.Destroy.{Destroyed, destroy-Destroyed}
use linux_server_programming.TimeWheel.{destroy}
use linux_server_programming.TimeWheel.{
  TwTimer, TimeWheel, new_timer, slot, set_slot, ticks_of, slot_of, push_slot, add_timer, del_timer,
  drop_fired, visit, tick_loop, tick, arm,
}
use linux_server_programming.TimeWheel.Sweep.{sweep, fired}
use linux_server_programming.TimeWheel.Invariant.{Slots, put, IsWheel, relink}
use linux_server_programming.TimeWheel.Operations.{tick-sweep, del_timer-erase}
use linux_server_programming.TimeWheel.Due.{lookup, due, Called}
use linux_server_programming.TimeWheel.Ticks.{ticks, IsReady}
use linux_server_programming.TimeWheel.Lifetime.{start, start-fires, start-waits}

abbrev no_timers : Slots
no_timers = λ _. []

abbrev blank : TimeWheel
blank = record { slots = λ _. null; cur_slot = 58; store = λ _. none; calls = [] }

blank-IsWheel : IsWheel no_timers blank
blank-IsWheel = record {
  current = omega arith;
  heads = λ i hi. refl;
  chains = λ i hi. tt;
  apart = λ i j p hi hj m. cc;
  placed = λ i hi. tt;
}

blank-IsReady : IsReady 1 no_timers
blank-IsReady = record { armed = λ i hi. tt; enough = λ i hi. omega arith }

-- two timers in the current slot, one of them due
abbrev later_timer : TwTimer
later_timer = record { rotation = 2; time_slot = 58; cb_func = some 9; user_data = some 4 }

abbrev due_timer : TwTimer
due_timer = record { rotation = 0; time_slot = 58; cb_func = some 9; user_data = some 5 }

abbrev two_timers : Cells TwTimer
two_timers = (2, later_timer) ∷ (3, due_timer) ∷ []

abbrev pair_store : Store TwTimer
pair_store =
    write (write (λ _. none) 2 (some (node later_timer null 3))) 3 (some (node due_timer 2 null))

abbrev pair : TimeWheel
pair = record {
  slots = λ j. if j == 58 then 2 else null;
  cur_slot = 58;
  store = pair_store;
  calls = [];
}

pair-IsWheel : IsWheel (put no_timers 58 two_timers) pair
unfolding write
pair-IsWheel =
    relink 58 two_timers pair blank-IsWheel (omega arith) (omega arith) (λ j. refl)
      ((λ e. omega arith), refl, refl, ((λ e. omega arith), refl, refl, tt))
      (λ a o o'. ground arith) (λ a m. inr refl) (refl, (refl, tt))

-- A timer with timeout 5 made at slot 58 fires in the sixth tick.
abbrev seen : TimeWheel → Run (List Call × ℕ × Option (Node TwTimer))
seen w = ok (w.calls, w.cur_slot, w.store 7)

run_six : ((start 7 blank 5 9 4 >>= ticks 6 2) >>= seen) ≡ ok (call 9 (some 4) ∷ [], 4, none)
unfolding write load set_value set_prev set_next free set_prev_if bypass new_timer slot set_slot
    ticks_of slot_of push_slot add_timer drop_fired visit tick_loop tick arm ticks
run_six = refl

tick-sweep_example :
    Returns
      (λ w'.
        IsWheel (put (put no_timers 58 two_timers) 58 (sweep two_timers)) w'
        × (w'.cur_slot ≡ 59)
        × (w'.calls ≡ [] ++ fired two_timers)
        × ((p : Ptr)
            → has p two_timers ≡ true
            → has p (sweep two_timers) ≡ false
            → w'.store p ≡ none))
      (tick 3 pair)
tick-sweep_example =
    tick-sweep (put no_timers 58 two_timers) pair pair-IsWheel 3 ((λ e. cc), ((λ e. cc), tt))
      (omega arith)

del_timer-erase_example :
    Returns
      (λ w'.
        IsWheel (put (put no_timers 58 two_timers) 58 (erase 3 two_timers)) w'
        × (w'.store 3 ≡ none)
        × (w'.cur_slot ≡ 58)
        × (w'.calls ≡ []))
      (del_timer pair 3)
del_timer-erase_example =
    del_timer-erase (put no_timers 58 two_timers) pair pair-IsWheel 58 (omega arith) 3 refl

start-fires_example :
    Returns
      (λ w'.
        (log : List Call) × (w'.calls ≡ [] ++ log)
        × Called (call 9 (some 4)) log
        × (w'.store 7 ≡ none))
      (start 7 blank 5 9 4 >>= ticks (suc (ticks_of 5)) 2)
start-fires_example =
    start-fires 1 no_timers blank blank-IsWheel blank-IsReady 7 (λ e. omega arith) refl 5 9 4

start-waits_example :
    Returns
      (λ w'.
        (l' : Slots) × IsWheel l' w'
        × (v' : TwTimer) × (lookup 7 (l' (slot_of 58 (ticks_of 5))) ≡ some v')
        × (due w'.cur_slot (slot_of 58 (ticks_of 5)) v' + 3 ≡ ticks_of 5))
      (start 7 blank 5 9 4 >>= ticks 3 2)
unfolding ticks_of
start-waits_example =
    start-waits 1 no_timers blank blank-IsWheel blank-IsReady 7 (λ e. omega arith) refl 5 9 4 3
      (omega arith)

at_most_two : (j : ℕ) → length (put no_timers 58 two_timers j) < 3
at_most_two j = elim (Bool-cases (j == 58)) [
  | inl e ↦ rw e (omega arith)
  | inr e ↦ rw e (omega arith)
]

destroy-Destroyed_example :
    Returns (Destroyed 0 (put no_timers 58 two_timers) pair) (destroy 3 pair)
destroy-Destroyed_example =
    destroy-Destroyed 3 (put no_timers 58 two_timers) pair pair-IsWheel (λ j hj. at_most_two j)
