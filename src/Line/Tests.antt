-- ===== src/Line/Tests.antt =====
-- `s_gets` at concrete inputs.
use linux_server_programming.Base.{◌≡◌, arith, some, [], ◌∷◌, ok}
use linux_server_programming.Line.{newline, s_gets}
use linux_server_programming.Line.Gets.{s_gets-take}

-- "abc", cut to two characters, and another line
s_gets-take_example :
    s_gets 9 3 (97 ∷ 98 ∷ 99 ∷ newline ∷ 100 ∷ newline ∷ [])
    ≡ ok (some (97 ∷ 98 ∷ []), 100 ∷ newline ∷ [])
s_gets-take_example =
    s_gets-take 9 3 (97 ∷ 98 ∷ 99 ∷ []) (100 ∷ newline ∷ [])
      (omega arith, omega arith, (omega arith, omega arith, (omega arith, omega arith, tt)))
      (omega arith)
