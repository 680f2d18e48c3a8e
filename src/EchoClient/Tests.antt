-- ===== src/EchoClient/Tests.antt =====
-- The clients at concrete input.
use linux_server_programming.Base.{◌≡◌, arith, false, [], ◌∷◌, pos}
use linux_server_programming.Process.{recv, send}
use linux_server_programming.Process.Exec.{calls_of, answer, got}
use linux_server_programming.Process.Files.{Always}
use linux_server_programming.Line.{newline}
use linux_server_programming.EchoClient.{tcp_loop, tcp_main, udp_main, signal_main}
use linux_server_programming.EchoClient.Typed.{tcp_loop-messages}
use linux_server_programming.EchoClient.Held.{AllClosed, PairLeft, tcp_main-Always}

-- "a", which the server repeats, and "b"
tcp_loop-messages_example :
    calls_of
      (tcp_loop 2 9 (pos 3) (97 ∷ newline ∷ 98 ∷ newline ∷ []) [])
      (answer (pos 1) false [] [] ∷ got (97 ∷ []) ∷ answer (pos 1) false [] [] ∷ got [] ∷ [])
    ≡ send (pos 3) (97 ∷ []) ∷ recv (pos 3) 1024 ∷ send (pos 3) (98 ∷ []) ∷ recv (pos 3) 1024 ∷ []
tcp_loop-messages_example =
    tcp_loop-messages 2 9 (pos 3) (answer (pos 1) false [] []) ((97 ∷ [], 97 ∷ []) ∷ []) (98 ∷ [])
      [] [] ((omega arith, omega arith, tt), omega arith, omega arith, tt)
      (omega arith, omega arith, tt) (omega arith) (omega arith)

-- one line, "a", with the address in front of the port 80
tcp_main-Always_example :
    Always AllClosed [] (tcp_main 1 9 (0 ∷ 127 ∷ 80 ∷ []) (97 ∷ newline ∷ []) [])
    × Always AllClosed [] (udp_main 1 9 (0 ∷ 127 ∷ 80 ∷ []) (97 ∷ newline ∷ []) [])
    × Always PairLeft [] (signal_main 1 9 (0 ∷ 127 ∷ 80 ∷ []) (97 ∷ newline ∷ []) [])
tcp_main-Always_example =
    tcp_main-Always 1 9 ((97 ∷ []) ∷ []) [] ((omega arith, omega arith, tt), omega arith, tt)
      (omega arith) (0 ∷ 127 ∷ 80 ∷ [])
