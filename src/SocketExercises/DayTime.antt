-- ===== src/SocketExercises/DayTime.antt =====
-- What LinuxGetDayTime.cpp does with the answer of the server.
use linux_server_programming.Base.{
  ℕ, ◌<◌, ◌≡◌, arith, true, some, List, [], ◌∷◌, leb, take, length-take, if◌then◌else◌, length, ℤ,
  pos,
}
use linux_server_programming.Process.{argc}
use linux_server_programming.Process.Exec.{returned, crashed, outcome_on, delivers, returns}
use linux_server_programming.SocketExercises.{answer_size, daytime_end, daytime_main}

daytime_end-outcome_on :
    (sock : ℤ) (n len : ℕ)
    → 0 < n
    → n ≡ (if leb answer_size len then answer_size else len)
    → outcome_on (daytime_end sock (pos n)) (returns 0 ∷ [])
      ≡ (if leb answer_size len then crashed else returned 0)
unfolding daytime_end outcome_on
daytime_end-outcome_on sock n len some_read is = ground arith

-- LinuxGetDayTime.cpp, started with a host that is found, and connected to the service, reads as much
-- of what the service sends as it asks for. It returns 0 where that is shorter than its buffer; where
-- the service sends at least as much as the buffer holds, it writes behind it.
pub daytime_main-overflows :
    (argv : List ℕ) (s_port sock : ℕ) (bs : List ℕ)
    → argc argv ≡ 2
    → 0 < length bs
    → outcome_on
        (daytime_main argv true (some s_port))
        (returns sock ∷ returns 0 ∷ delivers bs ∷ returns 0 ∷ [])
      ≡ (if leb answer_size (length bs) then crashed else returned 0)
unfolding daytime_main outcome_on
daytime_main-overflows argv s_port sock bs given some_sent =
    let is = length-take answer_size bs in
    rw given (
      daytime_end-outcome_on (pos sock) (length (take answer_size bs)) (length bs) (ground arith)
        is)
