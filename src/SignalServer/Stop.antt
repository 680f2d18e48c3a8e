-- ===== src/SignalServer/Stop.antt =====
-- Which signals stop the server of Signal.cpp, and when.
use linux_server_programming.Base.{
  ℕ, zero, suc, ◌<◌, ◌≡◌, refl, ap, arith, Bool, true, false, ◌||◌, List, [], ◌∷◌, ◌==◌, length,
  ne→==, pos,
}
use linux_server_programming.Process.{Sys, recv, close, epoll_wait, Answer, same_fd}
use linux_server_programming.Process.Exec.{calls_of, answer}
use linux_server_programming.SignalServer.{
  sigterm, sigint, on_signal, on_signals, Fds, on_event, on_events, event_loop, serve,
}

-- SIGTERM or SIGINT is among the signals.
abbrev pub asks_stop : List ℕ → Bool
asks_stop [] = false
asks_stop (sig ∷ sigs) = (sig == sigterm) || (sig == sigint) || asks_stop sigs

on_signals-true : (sigs : List ℕ) → on_signals sigs true ≡ true
unfolding on_signals on_signal
on_signals-true [] = refl
on_signals-true (sig ∷ sigs) = ground (arith, on_signals-true sigs)

pub on_signals-asks_stop : (sigs : List ℕ) → on_signals sigs false ≡ asks_stop sigs
unfolding on_signals on_signal
on_signals-asks_stop [] = refl
on_signals-asks_stop (sig ∷ sigs) = ground (arith, on_signals-true sigs, on_signals-asks_stop sigs)

module _ (fds : Fds) (apart : same_fd fds.pipe0 fds.listen_fd ≡ false)
    (own : same_fd fds.pipe0 fds.pipe0 ≡ true) where
  -- `epoll_wait` reports the pipe, and these signals are read from it.
  abbrev pub arrive : List (List ℕ) → List Answer → List Answer
  arrive [] rest = rest
  arrive (sigs ∷ bs) rest =
      answer (pos 1) false []
        (record { fd = fds.pipe0; readable = true; hang_up = false; error = false } ∷ [])
      ∷ answer (pos (length sigs)) false sigs []
      ∷ arrive bs rest

  abbrev pub waits : List (List ℕ) → List Sys → List Sys
  waits [] rest = rest
  waits (_ ∷ bs) rest = epoll_wait fds.epoll_fd ∷ recv fds.pipe0 1024 ∷ waits bs rest

  -- batches of signals none of which asks to stop
  abbrev pub GoOn : List (List ℕ) → Type 0
  GoOn [] = Unit
  GoOn (sigs ∷ bs) = (0 < length sigs) × (asks_stop sigs ≡ false) × GoOn bs

  -- Batches of signals without SIGTERM and SIGINT leave the server waiting. With the first batch
  -- that has one of them, wherever it stands in it, the server leaves its event loop and closes its
  -- listening socket and both ends of the pipe.
  pub serve-stops :
      (rounds : ℕ) (bs : List (List ℕ)) (last : List ℕ) (ret : Answer)
      → GoOn bs
      → asks_stop last ≡ true
      → length bs < rounds
      → calls_of (serve rounds fds) (arrive (bs) (arrive (last ∷ []) (ret ∷ ret ∷ ret ∷ [])))
        ≡ waits bs
            (waits (last ∷ []) (close fds.listen_fd ∷ close fds.pipe1 ∷ close fds.pipe0 ∷ []))
  unfolding serve event_loop on_events on_event calls_of
  serve-stops zero bs last ret go stop enough = absurd (omega arith)
  serve-stops (suc k) [] [] ret go stop enough = cc
  serve-stops (suc k) [] (sig ∷ sigs) ret go stop enough = rw (
    apart,
    own,
    ne→== (suc (length sigs)) 0 (omega arith),
    on_signals-asks_stop (sig ∷ sigs),
    stop,
  )
  serve-stops (suc k) (sigs ∷ bs) last ret (some_sigs, quiet, go) stop enough =
      rw (apart, own, ne→== (length sigs) 0 (omega arith), on_signals-asks_stop sigs, quiet)
        (ap (λ cs. epoll_wait fds.epoll_fd ∷ recv fds.pipe0 1024 ∷ cs)
          (serve-stops k bs last ret go stop (omega arith)))
