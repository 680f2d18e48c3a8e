-- ===== src/ShmChild/EventLoop.antt =====
-- The loop of ShmChat.cpp's `run_child`, on the events that `epoll_wait` reports. The memory is changed
-- by this child only.
use linux_server_programming.Base.{ℕ, Bool, true, List, [], ◌∷◌, if◌then◌else◌, Run, ok, ◌>>=◌}
use linux_server_programming.ShmChild.{Received, Child, read_client, read_parent}

-- An event of `connfd` or of `pipefd`, with what `recv` gives, and one that is passed over.
pub data Event : Type 0 where
  from_client : Received (List ℕ) → Event
  from_parent : Received ℕ → Event
  unknown : Event

-- What ends a wait: events, SIGTERM, whose handler sets `stop_child`, or a failure.
pub data Wake : Type 0 where
  ready : List Event → Wake
  terminated failure : Wake

unfoldable pub on_event : Event → Child → Run Child
on_event (from_client r) c = read_client c r
on_event (from_parent r) c = read_parent c r
on_event unknown c = ok c

unfoldable pub on_events : List Event → Child → Run Child
on_events [] c = ok c
on_events (e ∷ es) c = on_event e c >>= on_events es

-- The loop, and whether it has ended. Where the list ends, the child waits.
unfoldable pub event_loop : List Wake → Child → Run (Bool × Child)
event_loop [] c = ok (c.stop_child, c)
event_loop (b ∷ bs) c =
    let round = λ (es : List Event). (do c' ← on_events es c; event_loop bs c') in
    let stopped = event_loop bs (record c { stop_child = true }) in
    if c.stop_child
    then ok (true, c)
    else elim b [ ready es ↦ round es | terminated ↦ stopped | failure ↦ ok (true, c) ]

-- `run_child` from its loop on, with the descriptors that it closes
unfoldable pub run_child :
    (connfd pipefd child_epollfd : ℕ) → List Wake → Child → Run (Child × List ℕ)
run_child connfd pipefd child_epollfd bs c = do
  (ended, c') ← event_loop bs c
  ok (c', if ended then connfd ∷ pipefd ∷ child_epollfd ∷ [] else [])
