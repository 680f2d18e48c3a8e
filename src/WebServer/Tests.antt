-- ===== src/WebServer/Tests.antt =====
-- LinuxWebWritev.cpp at concrete files.
use linux_server_programming.Base.{◌≡◌, ◌<◌, refl, arith, false, [], ◌∷◌, length, pos, negsuc}
use linux_server_programming.Process.{stat, open_file, read_file, writev, send, close, Stat}
use linux_server_programming.Process.Exec.{calls_of, answer, got, outcome, crashed}
use linux_server_programming.WebServer.{buffer_size, respond}
use linux_server_programming.WebServer.Response.{
  file_header, error_header, stat_answer, respond-file, respond-crashes,
}

respond-file_example :
    (calls_of (respond (pos 4)) (
        stat_answer (pos 0) (record { is_dir = false; mode = 420; size = 2 })
        ∷ answer (pos 5) false [] []
        ∷ got (104 ∷ 105 ∷ [])
        ∷ answer (pos 40) false [] []
        ∷ answer (pos 40) false [] []
        ∷ [])
      ≡ stat
        ∷ open_file
        ∷ read_file (pos 5) 2
        ∷ writev (pos 4) (file_header 2 ∷ (104 ∷ 105 ∷ []) ∷ [])
        ∷ close (pos 4)
        ∷ [])
    × (length (file_header 2) < buffer_size)
respond-file_example = respond-file (pos 4) (pos 5) (pos 40) 0 420 (104 ∷ 105 ∷ []) (omega arith)

-- no such file
abbrev missing : Stat
missing = record { is_dir = false; mode = 0; size = 0 }

respond-crashes_example :
    let answers =
      stat_answer (negsuc 0) missing
      ∷ answer (pos 39) false [] []
      ∷ answer (pos 39) false [] []
      ∷ [] in
    (calls_of (respond (pos 4)) answers ≡ stat ∷ send (pos 4) error_header ∷ close (pos 4) ∷ [])
    × (outcome (respond (pos 4)) answers ≡ crashed)
respond-crashes_example = respond-crashes (pos 4) (pos 39) (negsuc 0) missing refl
