-- ===== src/ChatClient/Tests.antt =====
-- ChatClient.cpp on port 9000.
use linux_server_programming.Base.{[], ◌∷◌}
use linux_server_programming.Process.Kernel.{Throughout}
use linux_server_programming.ChatClient.{main}
use linux_server_programming.ChatClient.Relaying.{relaying, started}
use linux_server_programming.ChatClient.Forwarding.{Forwarded, main-Throughout}

main-Throughout_example :
    Throughout relaying Forwarded (started (0, 0)) (main 100 (0 ∷ 127 ∷ 9000 ∷ []))
main-Throughout_example = main-Throughout 100 (0 ∷ 127 ∷ 9000 ∷ []) (0, 0)
