-- ===== src/TimerList/Tests.antt =====
-- LST_Timer.h at concrete lists.
use linux_server_programming.Base.{
  ℕ, ◌≡◌, refl, some, none, [], ◌∷◌, arith, ok, ◌>>=◌, fault, Returns, ◌>>=◌,
}
use linux_server_programming.Memory.{null, node, write, load, set_prev, set_next, free, set_prev_if}
use linux_server_programming.Memory.Chain.{Cells}
use linux_server_programming.Callback.{call}
use linux_server_programming.TimerList.{
  UtilTimer, TimerList, insert_loop, link_between, add_timer_behind, add_timer_to, add_timer,
  del_timer, tick_loop, tick, adjust_timer, move_timer,
}
use linux_server_programming.TimerList.Invariant.{IsTimerList}
use linux_server_programming.TimerList.Add.{Added, add_timer-insert, add_timer-loses}
use linux_server_programming.TimerList.Remove.{Removed, del_timer-Removed}
use linux_server_programming.TimerList.Tick.{Ticked, tick-pending}

abbrev timer : ℕ → ℕ → UtilTimer
timer e u = record { expire = e; cb_func = some 9; user_data = some u }

abbrev two_timers : Cells UtilTimer
two_timers = (2, timer 100 5) ∷ (3, timer 110 6) ∷ []

-- Pointers 4 and 5 are new timers.
abbrev sample : TimerList
sample = record {
  head = 2;
  tail = 3;
  store =
      write
        (write
          (write (write (λ _. none) 2 (some (node (timer 100 5) null 3))) 3
            (some (node (timer 110 6) 2 null)))
          4 (some (node (timer 105 7) null null)))
        5 (some (node (timer 115 8) null null));
  calls = [];
}

sample-IsTimerList : IsTimerList two_timers sample
unfolding write
sample-IsTimerList = record {
  head = refl;
  chain = ((λ e. omega arith), refl, refl, ((λ e. omega arith), refl, refl, tt));
  tail = refl;
}

-- The timer in between is inserted, and the first two fire at 105.
insert_and_tick :
    (do w ← add_timer 5 sample 4; w' ← tick 5 105 w; ok w'.calls)
    ≡ ok (call 9 (some 5) ∷ call 9 (some 7) ∷ [])
unfolding write load set_prev set_next free set_prev_if insert_loop link_between add_timer_behind
    add_timer_to add_timer tick_loop tick
insert_and_tick = refl

-- A head that expires later now is moved behind the next timer only if another follows.
adjust_head : (do w ← add_timer 5 sample 4; w' ← adjust_timer 5 w 3; ok w'.head) ≡ ok 2
unfolding write load set_prev set_next free set_prev_if insert_loop link_between add_timer_behind
    add_timer_to add_timer move_timer adjust_timer
adjust_head = refl

add_timer-insert_example :
    Returns (Added 4 (timer 105 7) (λ e. omega arith) 5 sample two_timers) (add_timer 5 sample 4)
unfolding write
add_timer-insert_example =
    add_timer-insert 4 (timer 105 7) (λ e. omega arith) 5 sample two_timers sample-IsTimerList refl
      refl (omega arith)

add_timer-loses_example :
    (add_timer 5 sample 5 ≡ ok sample) × ((add_timer 5 sample 5 >>= λ w'. del_timer w' 5) ≡ fault)
unfolding write
add_timer-loses_example =
    add_timer-loses 5 (timer 115 8) (λ e. omega arith) 5 sample 2 (timer 100 5)
      ((3, timer 110 6) ∷ []) sample-IsTimerList refl refl (omega arith) (omega arith)

del_timer-Removed_example :
    Returns
      (Removed sample 3 2
        (timer 100 5)
        ((3, timer 110 6) ∷ [])
        sample-IsTimerList
        ((2, timer 100 5) ∷ []))
      (del_timer sample 3)
del_timer-Removed_example =
    del_timer-Removed sample 3 2 (timer 100 5) ((3, timer 110 6) ∷ []) sample-IsTimerList refl

tick-pending_example : Returns (Ticked 105 sample two_timers) (tick 3 105 sample)
tick-pending_example =
    tick-pending 3 105 sample two_timers sample-IsTimerList (omega arith)
      ((λ e. cc), ((λ e. cc), tt)) (omega arith)
