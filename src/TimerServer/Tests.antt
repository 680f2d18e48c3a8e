-- ===== src/TimerServer/Tests.antt =====
-- The server of TimeWheel.cpp with one client whose timer is due.
use linux_server_programming.Base.{
  ℕ, ◌≡◌, refl, arith, false, some, none, [], ◌∷◌, ◌==◌, if◌then◌else◌, inr, pos,
}
use linux_server_programming.Memory.{null, Store, node, write}
use linux_server_programming.Memory.Chain.{Cells}
use linux_server_programming.Process.{
  epoll_wait, epoll_del, recv, close, alarm, Prog, sys, done, ◌>>=◌,
}
use linux_server_programming.Process.Exec.{calls_of, got}
use linux_server_programming.TimeWheel.{TwTimer, TimeWheel}
use linux_server_programming.TimeWheel.Sweep.{sweep, fired}
use linux_server_programming.TimeWheel.Invariant.{Slots, put, IsWheel, relink}
use linux_server_programming.TimerServer.{State, sigalrm, sigterm, ClientData, Fds, event_loop}
use linux_server_programming.TimerServer.Containers.{callback, wheel}
use linux_server_programming.Process.Kernel.{Throughout}
use linux_server_programming.Process.Epoll.{epoll_below}
use linux_server_programming.TimerServer.Running.{Ended, wheel_main-Throughout}
use linux_server_programming.TimeWheel.{new_wheel}
use linux_server_programming.TimerServer.Containers.{wheel_main}
use linux_server_programming.Base.{false, ◌<◌, ok}
use linux_server_programming.Process.Exec.{outcome, answer, returned}
use linux_server_programming.TimerList.{UtilTimer, TimerList, tick}
use linux_server_programming.TimerList.Invariant.{IsTimerList}
use linux_server_programming.TimerServer.Containers.{extend}
use linux_server_programming.TimerServer.Extending.{extend-delays}
use linux_server_programming.TimerServer.Alarm.{event_loop-sweep, signalled}

abbrev no_timers : Slots
no_timers = λ _. []

abbrev blank : TimeWheel
blank = record { slots = λ _. null; cur_slot = 58; store = λ _. none; calls = [] }

blank-IsWheel : IsWheel no_timers blank
blank-IsWheel = record {
  current = omega arith;
  heads = λ i hi. refl;
  chains = λ i hi. tt;
  apart = λ i j p hi hj m. cc;
  placed = λ i hi. tt;
}

-- the timer of the client with descriptor 7
abbrev one_timer : Cells TwTimer
one_timer =
    (3, record { rotation = 0; time_slot = 58; cb_func = some callback; user_data = some 7 }) ∷ []

abbrev one_store : Store TwTimer
one_store =
    write (λ _. none) 3
      (some (
        node (record { rotation = 0; time_slot = 58; cb_func = some callback; user_data = some 7 })
          null null))

abbrev one : TimeWheel
one = record {
  slots = λ j. if j == 58 then 3 else null;
  cur_slot = 58;
  store = one_store;
  calls = [];
}

one-IsWheel : IsWheel (put no_timers 58 one_timer) one
unfolding write
one-IsWheel =
    relink 58 one_timer one blank-IsWheel (omega arith) (omega arith) (λ j. refl)
      ((λ e. omega arith), refl, refl, tt) (λ a o o'. ground arith) (λ a m. inr refl) (refl, tt)

abbrev descriptors : Fds
descriptors = record { listen_fd = pos 3; epoll_fd = pos 4; pipe0 = pos 5; pipe1 = pos 6 }

abbrev clients : ℕ → ClientData
clients = λ n. record { sock_fd = pos n; timer = some 3 }

-- what follows the loop
abbrev leaving : State TimeWheel → Prog Unit
leaving _ = sys (close (pos 3)) (λ _. done tt)

event_loop-sweep_example :
    (w' : TimeWheel) × IsWheel (put (put no_timers 58 one_timer) 58 (sweep one_timer)) w'
    × (calls_of
          (event_loop
              (wheel 2)
              descriptors
              2
              (record { timers = one; users = clients; timeout = false; stop_server = false })
            >>= leaving)
          (signalled descriptors (sigalrm ∷ sigterm ∷ []) (got [] ∷ got [] ∷ got [] ∷ []))
        ≡ epoll_wait (pos 4)
          ∷ recv (pos 5) 1024
          ∷ epoll_del (pos 4) (pos 7)
          ∷ close (pos 7)
          ∷ alarm 1
          ∷ close (pos 3)
          ∷ [])
unfolding calls_of
event_loop-sweep_example =
    event_loop-sweep 2 descriptors (put no_timers 58 one_timer) one one-IsWheel clients (7 ∷ [])
      (sigalrm ∷ sigterm ∷ []) (got []) 1 [] leaving refl refl ((λ e. cc), tt) (omega arith)
      (unfold fired in refl) (omega arith, tt) refl

wheel_main-Throughout_example :
    Throughout
      (epoll_below 1024)
      Ended
      (record { opened_fds = []; watched = [] })
      (wheel_main 100 65536 (0 ∷ 127 ∷ 80 ∷ []) (new_wheel (λ _. none) []) clients)
wheel_main-Throughout_example =
    wheel_main-Throughout 65536 100 (λ _. none) [] clients (omega arith) 1024 (0 ∷ 127 ∷ 80 ∷ [])
      (omega arith) (λ e. omega arith)

-- two timers of the server of LST_Timer.cpp
abbrev soon_timer : UtilTimer
soon_timer = record { expire = 100; cb_func = some callback; user_data = some 7 }

abbrev late_timer : UtilTimer
late_timer = record { expire = 110; cb_func = some callback; user_data = some 8 }

abbrev queue : TimerList
queue = record {
  head = 2;
  tail = 3;
  store =
      write (write (λ _. none) 2 (some (node soon_timer null 3))) 3 (some (node late_timer 2 null));
  calls = [];
}

queue-IsTimerList : IsTimerList ((2, soon_timer) ∷ (3, late_timer) ∷ []) queue
unfolding write
queue-IsTimerList = record {
  head = refl;
  chain = ((λ e. omega arith), refl, refl, ((λ e. omega arith), refl, refl, tt));
  tail = refl;
}

-- At 99 the first client sends data; the other one's timer expires at 110.
extend-delays_example :
    (w' : TimerList) × (outcome (extend 5 2 queue) (answer (pos 99) false [] [] ∷ []) ≡ returned w')
    × IsTimerList ((2, record soon_timer { expire = 114 }) ∷ (3, late_timer) ∷ []) w'
    × ((n : ℕ) → n < 114 → tick 5 n w' ≡ ok w')
extend-delays_example =
    extend-delays 2 soon_timer ((3, late_timer) ∷ []) 5 queue queue-IsTimerList (omega arith) 99
      (omega arith, tt)
