-- ===== src/SocketExercises/Tests.antt =====
-- The exercises at concrete arguments.
use linux_server_programming.Base.{arith, true, some, [], ◌∷◌, ◌≡◌, refl}
use linux_server_programming.Process.Exec.{returned, outcome_on, delivers, returns}
use linux_server_programming.Process.Files.{Always}
use linux_server_programming.SocketExercises.{
  receive_main, timeout_connect, timeout_main, daytime_main,
}
use linux_server_programming.SocketExercises.Descriptors.{
  NoneLeft, OneLeft, AtMostOne, receive_main-Always,
}
use linux_server_programming.SocketExercises.DayTime.{daytime_main-overflows}

receive_main-Always_example :
    Always NoneLeft [] (receive_main 100 (0 ∷ 127 ∷ 9000 ∷ 2500 ∷ []))
    × Always OneLeft [] (timeout_connect 9000 10)
    × Always AtMostOne [] (timeout_main (0 ∷ 127 ∷ 9000 ∷ 2500 ∷ []))
receive_main-Always_example =
    receive_main-Always 100 10 9000 (0 ∷ 127 ∷ 9000 ∷ 2500 ∷ []) (λ e. omega arith)

daytime_main-overflows_example :
    outcome_on
      (daytime_main (0 ∷ 1 ∷ []) true (some 13))
      (returns 3 ∷ returns 0 ∷ delivers (49 ∷ 50 ∷ []) ∷ returns 0 ∷ [])
    ≡ returned 0
daytime_main-overflows_example =
    daytime_main-overflows (0 ∷ 1 ∷ []) 13 3 (49 ∷ 50 ∷ []) refl (omega arith)
