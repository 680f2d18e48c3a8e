-- ===== src/EchoServer/Echo.antt =====
-- What Echoserver.cpp sends back.
use linux_server_programming.Base.{
  ℕ, zero, suc, ◌+◌, ◌-◌, ◌<◌, ◌≡◌, refl, ap, ◌∙◌, arith, true, false, List, [], ◌∷◌, length,
  lt→ltb, ℤ, negsuc,
}
use linux_server_programming.Process.{Sys, close, recv, send, Answer}
use linux_server_programming.Process.Exec.{calls_of, outcome, returned, answer, got}
use linux_server_programming.EchoServer.{tcp_buffer_size, serve_tcp}

-- The client has sent these chunks; `send` may return anything.
abbrev pub chunks : (sent : ℤ) → List (List ℕ) → List Answer → List Answer
chunks sent [] rest = rest
chunks sent (bs ∷ cs) rest = got bs ∷ answer sent false [] [] ∷ chunks sent cs rest

abbrev pub NoneEmpty : List (List ℕ) → Type 0
NoneEmpty [] = Unit
NoneEmpty (bs ∷ cs) = (0 < length bs) × NoneEmpty cs

abbrev pub echoes : ℤ → List (List ℕ) → List Sys → List Sys
echoes fd [] rest = rest
echoes fd (bs ∷ cs) rest = recv fd (tcp_buffer_size - 1) ∷ send fd bs ∷ echoes fd cs rest

serve_tcp-outcome :
    (fuel k : ℕ) (fd sent : ℤ) (cs : List (List ℕ)) (rest : List Answer)
    → NoneEmpty cs
    → fuel ≡ length cs + k
    → outcome (serve_tcp fuel fd) (chunks sent cs rest) ≡ outcome (serve_tcp k fd) rest
unfolding serve_tcp outcome
serve_tcp-outcome fuel k fd sent [] rest h e =
    let is : fuel ≡ k = omega arith in ap (λ n. outcome (serve_tcp n fd) rest) is
serve_tcp-outcome zero k fd sent (bs ∷ cs) rest h e = absurd (omega arith)
serve_tcp-outcome (suc fuel) k fd sent (bs ∷ cs) rest (some_bytes, h) e =
    let on = serve_tcp-outcome fuel k fd sent cs rest h (omega arith) in ground (arith, on)

serve_tcp-chunks :
    (fuel k : ℕ) (fd sent : ℤ) (cs : List (List ℕ)) (rest : List Answer)
    → NoneEmpty cs
    → fuel ≡ length cs + k
    → calls_of (serve_tcp fuel fd) (chunks sent cs rest)
      ≡ echoes fd cs (calls_of (serve_tcp k fd) rest)
unfolding serve_tcp calls_of
serve_tcp-chunks fuel k fd sent [] rest h e =
    let is : fuel ≡ k = omega arith in ap (λ n. calls_of (serve_tcp n fd) rest) is
serve_tcp-chunks zero k fd sent (bs ∷ cs) rest h e = absurd (omega arith)
serve_tcp-chunks (suc fuel) k fd sent (bs ∷ cs) rest (some_bytes, h) e =
    rw (lt→ltb 0 (length bs) some_bytes, serve_tcp-chunks fuel k fd sent cs rest h (omega arith))

-- Every chunk that the client sends is sent back, unchanged and in order, before the next is read.
-- Once `recv` fails with EAGAIN the function returns to its event loop, the connection still open.
pub serve_tcp-echoes :
    (fuel : ℕ) (fd sent : ℤ) (cs : List (List ℕ))
    → NoneEmpty cs
    → length cs < fuel
    → (calls_of (serve_tcp fuel fd) (chunks sent cs (answer (negsuc 0) true [] [] ∷ []))
        ≡ echoes fd cs (recv fd (tcp_buffer_size - 1) ∷ []))
      × (outcome (serve_tcp fuel fd) (chunks sent cs (answer (negsuc 0) true [] [] ∷ []))
          ≡ returned tt)
serve_tcp-echoes fuel fd sent cs h enough =
    let k = fuel - length cs - 1 in
    (
      serve_tcp-chunks fuel (suc k) fd sent cs _ h (omega arith)
          ∙ ap (echoes fd cs) (unfold serve_tcp calls_of in refl),
      serve_tcp-outcome fuel (suc k) fd sent cs _ h (omega arith)
          ∙ (unfold serve_tcp outcome in refl),
    )

-- When the client closes the connection, the server closes its descriptor, calls `recv` on it once
-- more, and, when that fails with EBADF, closes it a second time.
pub serve_tcp-closes_twice :
    (fuel : ℕ) (fd sent closed : ℤ) (cs : List (List ℕ))
    → NoneEmpty cs
    → length cs + 1 < fuel
    → calls_of (serve_tcp fuel fd) (
        chunks sent cs (
          got []
          ∷ answer closed false [] []
          ∷ answer (negsuc 0) false [] []
          ∷ answer closed false [] []
          ∷ []))
      ≡ echoes fd cs
          (recv fd (tcp_buffer_size - 1) ∷ close fd ∷ recv fd (tcp_buffer_size - 1) ∷ close fd ∷ [])
serve_tcp-closes_twice fuel fd sent closed cs h enough =
    let k = fuel - length cs - 2 in
    serve_tcp-chunks fuel (suc (suc k)) fd sent cs _ h (omega arith)
    ∙ ap (echoes fd cs) (unfold serve_tcp calls_of in refl)
