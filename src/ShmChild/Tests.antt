-- ===== src/ShmChild/Tests.antt =====
-- Two children of ShmChat.cpp at a concrete message.
use linux_server_programming.Base.{
  ℕ, ◌-◌, ◌*◌, ◌≡◌, ◌≢◌, arith, false, List, [], ◌∷◌, ◌++◌, length, Returns,
}
use linux_server_programming.ShmChild.{
  buffer_size, data_read, to_parent, to_client, Child, load_bytes, read_client, read_parent,
}
use linux_server_programming.Base.{◌⊎◌}
use linux_server_programming.ShmChild.EventLoop.{
  from_client, from_parent, Wake, ready, terminated, run_child,
}
use linux_server_programming.ShmChild.Running.{Apart, run_child-Apart}
use linux_server_programming.ShmChild.Segment.{zeros, read_client-read_parent}

abbrev child : ℕ → Child
child i = record { idx = i; share_mem = λ _. 7; stop_child = false; sent = [] }

abbrev message : List ℕ
message = 104 ∷ 105 ∷ []

read_client-read_parent_example :
    Returns
      (λ c'.
        (c'.sent ≡ to_parent 1 ∷ [])
        × ((i : ℕ)
            → i ≢ 1
            → load_bytes (i * buffer_size) buffer_size c'.share_mem
              ≡ load_bytes (i * buffer_size) buffer_size (λ _. 7))
        × Returns
            (λ d'. d'.sent ≡ to_client (message ++ zeros (buffer_size - length message)) ∷ [])
            (read_parent (record (child 2) { share_mem = c'.share_mem }) (data_read 1)))
      (read_client (child 1) (data_read message))
read_client-read_parent_example =
    read_client-read_parent (child 1) (child 2) message (omega arith) (omega arith)

-- The client sends a message, the parent passes another on, and SIGTERM comes.
abbrev wakes : List Wake
wakes = ready (from_client (data_read message) ∷ from_parent (data_read 0) ∷ []) ∷ terminated ∷ []

run_child-Apart_example :
    Returns
      (λ r. Apart 1 (child 1) r.0 × ((r.1 ≡ []) ⊎ (r.1 ≡ 8 ∷ 9 ∷ 10 ∷ [])))
      (run_child 8 9 10 wakes (child 1))
run_child-Apart_example =
    run_child-Apart 8 9 10 wakes (child 1) (omega arith) ((tt, (omega arith, tt)), tt)
