-- ===== src/TimerServer/Containers.antt =====
-- The containers of TimeWheel.cpp, LST_Timer.cpp and TimeHeap.cpp, as their event loops use them.
-- The number of a callback stands for `cb_func`, the only one there is. The log of the calls is
-- emptied before each `tick`. `sleep` in `cb_func` of LST_Timer.cpp is left out.
use linux_server_programming.Base.{
  Option, none, ℕ, ◌+◌, ◌-◌, ◌*◌, Bool, true, false, some, List, [], ◌∷◌, ltb, ◌==◌, if◌then◌else◌,
  pos,
}
use linux_server_programming.Memory.{Ptr, null, node, write, load, set_value}
use linux_server_programming.Callback.{Call}
use linux_server_programming.Process.{alarm, Prog, done, ◌>>=◌, invoke, from_run}
use linux_server_programming.TimeWheel
use linux_server_programming.TimeWheel.{TimeWheel, arm}
use linux_server_programming.TimerList
use linux_server_programming.TimerList.{UtilTimer, TimerList}
use linux_server_programming.TimeHeap
use linux_server_programming.TimeHeap.{
  HeapTimer, TimeHeap, write_timer, load_timer, top, disconnect,
}
use linux_server_programming.TimerServer.{
  Container, ClientData, time_slot, sigpipe, sigalrm, sigterm, fresh, now, main,
}

-- `cb_func`
abbrev pub callback : ℕ
callback = 1

-- the addresses of the live timers
abbrev pub in_use : {A : Type 0} → (Ptr → Option A) → Ptr → Bool
in_use h p = elim (h p) [ none ↦ false | some _ ↦ true ]

-- TimeWheel.cpp
unfoldable pub wheel : (fuel : ℕ) → Container TimeWheel
wheel fuel = record {
  signals = sigalrm ∷ sigterm ∷ [];
  first_alarm = 1;
  start = λ user w. (do
    p ← fresh (in_use w.store)
    (timer, w1) ← from_run (TimeWheel.add_timer p w (pos time_slot))
    w2 ← from_run (arm w1 timer callback user)
    done (timer, w2));
  remove = λ timer w. from_run (TimeWheel.del_timer w timer);
  touch = λ timer w. done w;
  tick =
      λ w. (do w' ← from_run (TimeWheel.tick fuel (record w { calls = [] })); done (w', w'.calls));
  on_close = λ w. w;
  rearm = λ w. (do _ ← invoke (alarm 1); done w);
}

unfoldable pub wheel_main :
    (rounds fuel : ℕ) (argv : List ℕ) → TimeWheel → (ℕ → ClientData) → Prog ℕ
wheel_main rounds fuel argv w users = main (wheel fuel) rounds argv w users

-- `timer->expire = cur + 3 * TIMESLOT; timer_lst.add_timer(timer);`
unfoldable pub extend : (fuel : ℕ) → Ptr → TimerList → Prog TimerList
extend fuel timer w = do
  cur ← now
  n ← from_run (load w.store timer)
  h ← from_run (set_value w.store timer (record n.value { expire = cur + 3 * time_slot }))
  from_run (TimerList.add_timer fuel (record w { store = h }) timer)

-- `new util_timer` with its callback
unfoldable pub new_util_timer : (user : ℕ) → UtilTimer
new_util_timer user = record { expire = 0; cb_func = some callback; user_data = some user }

-- LST_Timer.cpp
unfoldable pub list : (fuel : ℕ) → Container TimerList
list fuel = record {
  signals = sigalrm ∷ sigterm ∷ [];
  first_alarm = time_slot;
  start = λ user w. (do
    p ← fresh (in_use w.store)
    let h = write w.store p (some (node (new_util_timer user) null null))
    w' ← extend fuel p (record w { store = h })
    done (p, w'));
  remove = λ timer w. from_run (TimerList.del_timer w timer);
  touch = λ timer w. if timer == null then done w else extend fuel timer w;
  tick = λ w.
      let run : Prog (TimerList × List Call) = (do
        cur ← now
        w' ← from_run (TimerList.tick fuel cur (record w { calls = [] }))
        done (w', w'.calls)) in
      if w.head == null then done (w, []) else run;
  on_close = λ w. w;
  rearm = λ w. (do _ ← invoke (alarm time_slot); done w);
}

unfoldable pub list_main : (rounds fuel : ℕ) (argv : List ℕ) → TimerList → (ℕ → ClientData) → Prog ℕ
list_main rounds fuel argv w users = main (list fuel) rounds argv w users

-- the heap with `is_sig_alarm`
pub record Alarmed : Type 0 where
  pub heap : TimeHeap
  pub is_sig_alarm : Bool

-- `new heap_timer(TIMESLOT)` with its callback, as `time(NULL)` returns `cur`
unfoldable pub new_heap_timer : (cur user : ℕ) → HeapTimer
new_heap_timer cur user = record {
  expire = cur + time_slot;
  cb_func = some callback;
  user_data = some user;
}

-- `alarm(TIMESLOT)`, unless an alarm is set
unfoldable pub set_alarm : Alarmed → Prog Alarmed
set_alarm w =
    let set : Prog Alarmed = (do
      _ ← invoke (alarm time_slot)
      done (record w { is_sig_alarm = true })) in
    if w.is_sig_alarm then done w else set

-- the alarm for the root, unless one is set
unfoldable pub rearm_heap : Alarmed → Prog Alarmed
rearm_heap w =
    let for_top = λ (p : Ptr). (do
      t ← from_run (load_timer w.heap.store p)
      cur ← now
      _ ← invoke (alarm (if ltb cur t.expire then t.expire - cur else 1))
      done (record w { is_sig_alarm = true })) in
    let set : Prog Alarmed = (do
      p ← from_run (top w.heap)
      if p == null then done w else for_top p) in
    if w.is_sig_alarm then done w else set

-- TimeHeap.cpp
unfoldable pub heap : Container Alarmed
heap = record {
  signals = sigalrm ∷ sigterm ∷ sigpipe ∷ [];
  first_alarm = 10;
  start = λ user w. (do
    p ← fresh (in_use w.heap.store)
    cur ← now
    let h = write_timer w.heap.store p (some (new_heap_timer cur user))
    heap' ← from_run (TimeHeap.add_timer (record w.heap { store = h }) p)
    w' ← set_alarm (record w { heap = heap' })
    done (p, w'));
  remove =
      λ timer w. (do heap' ← from_run (disconnect w.heap timer); done (record w { heap = heap' }));
  touch = λ timer w. done w;
  tick = λ w. (do
    cur ← now
    heap' ← from_run (TimeHeap.tick cur (record w.heap { calls = [] }))
    done (record w { heap = heap' }, heap'.calls));
  on_close = λ w. record w { is_sig_alarm = false };
  rearm = rearm_heap;
}

unfoldable pub heap_main : (rounds : ℕ) (argv : List ℕ) → Alarmed → (ℕ → ClientData) → Prog ℕ
heap_main rounds argv w users = main heap rounds argv w users
