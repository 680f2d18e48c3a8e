-- ===== src/EchoServer/Tests.antt =====
-- Echoserver.cpp at concrete answers of the kernel.
use linux_server_programming.Base.{◌≡◌, arith, false, true, [], ◌∷◌, pos, negsuc}
use linux_server_programming.Process.{recv, send, close}
use linux_server_programming.Process.Exec.{calls_of, outcome, returned, answer, got}
use linux_server_programming.EchoServer.{serve_tcp}
use linux_server_programming.EchoServer.Echo.{serve_tcp-echoes, serve_tcp-closes_twice}

serve_tcp-echoes_example :
    (calls_of
        (serve_tcp 3 (pos 7))
        (got (104 ∷ 105 ∷ []) ∷ answer (pos 2) false [] [] ∷ answer (negsuc 0) true [] [] ∷ [])
      ≡ recv (pos 7) 511 ∷ send (pos 7) (104 ∷ 105 ∷ []) ∷ recv (pos 7) 511 ∷ [])
    × (outcome
          (serve_tcp 3 (pos 7))
          (got (104 ∷ 105 ∷ []) ∷ answer (pos 2) false [] [] ∷ answer (negsuc 0) true [] [] ∷ [])
        ≡ returned tt)
serve_tcp-echoes_example =
    serve_tcp-echoes 3 (pos 7) (pos 2) ((104 ∷ 105 ∷ []) ∷ []) (omega arith, tt) (omega arith)

serve_tcp-closes_twice_example :
    calls_of (serve_tcp 3 (pos 7)) (
      got (104 ∷ [])
      ∷ answer (pos 1) false [] []
      ∷ got []
      ∷ answer (pos 0) false [] []
      ∷ answer (negsuc 0) false [] []
      ∷ answer (pos 0) false [] []
      ∷ [])
    ≡ recv (pos 7) 511
      ∷ send (pos 7) (104 ∷ [])
      ∷ recv (pos 7) 511
      ∷ close (pos 7)
      ∷ recv (pos 7) 511
      ∷ close (pos 7)
      ∷ []
serve_tcp-closes_twice_example =
    serve_tcp-closes_twice 3 (pos 7) (pos 1) (pos 0) ((104 ∷ []) ∷ []) (omega arith, tt)
      (omega arith)
