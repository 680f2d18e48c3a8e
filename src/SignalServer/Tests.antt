-- ===== src/SignalServer/Tests.antt =====
-- Signal.cpp at concrete signals.
use linux_server_programming.Base.{◌≡◌, refl, arith, [], ◌∷◌, pos}
use linux_server_programming.Process.{recv, close, epoll_wait}
use linux_server_programming.Process.Exec.{calls_of, got}
use linux_server_programming.SignalServer.{sighup, sigchld, sigterm, Fds, serve}
use linux_server_programming.SignalServer.Stop.{serve-stops, arrive}

abbrev descriptors : Fds
descriptors = record { listen_fd = pos 3; epoll_fd = pos 4; pipe0 = pos 5; pipe1 = pos 6 }

-- SIGHUP, and then SIGCHLD and SIGTERM together
serve-stops_example :
    calls_of (serve 2 descriptors) (
      arrive descriptors refl refl ((sighup ∷ []) ∷ []) (
        arrive descriptors refl refl
          ((sigchld ∷ sigterm ∷ []) ∷ [])
          (got [] ∷ got [] ∷ got [] ∷ [])))
    ≡ epoll_wait (pos 4)
      ∷ recv (pos 5) 1024
      ∷ epoll_wait (pos 4)
      ∷ recv (pos 5) 1024
      ∷ close (pos 3)
      ∷ close (pos 6)
      ∷ close (pos 5)
      ∷ []
serve-stops_example =
    serve-stops descriptors refl refl 2 ((sighup ∷ []) ∷ []) (sigchld ∷ sigterm ∷ []) (got [])
      (omega arith, refl, tt) refl (omega arith)
