-- ===== src/ShmChat/Relay.antt =====
-- How ShmChat.cpp passes a child's message on to the other children.
use linux_server_programming.Base.{
  ℕ, zero, suc, ◌+◌, ◌≤◌, ◌≡◌, arith, ◌==◌, List, [], ◌∷◌, ◌++◌, Bool-cases, inl, inr, ok,
  append_assoc, append-nil, if◌then◌else◌,
}
use linux_server_programming.ShmChat.{
  Client, Action, send_child, Server, user_limit, perform, relay,
}
use linux_server_programming.ShmChat.Invariant.{IsServer, user-ok}

-- the pipes of users `j` to `j + k - 1`
abbrev pub pipes : (k j : ℕ) → (ℕ → Client) → List ℕ
pipes zero j us = []
pipes (suc k) j us = (us j).pipefd0 ∷ pipes k (suc j) us

-- the message to all of these pipes but `sockfd`
abbrev pub sends_except : (sockfd child : ℕ) → List ℕ → List Action
sends_except sockfd child [] = []
sends_except sockfd child (fd ∷ fds) =
    (if fd == sockfd then [] else send_child fd child ∷ []) ++ sends_except sockfd child fds

relay_from :
    (sockfd child k j : ℕ) (w : Server)
    → j + k ≤ user_limit
    → relay sockfd child k j w ≡ ok (perform w (sends_except sockfd child (pipes k j w.users)))
unfolding relay
relay_from sockfd child zero j w h = rw (append-nil w.actions)
relay_from sockfd child (suc k) j w h = elim (Bool-cases ((w.users j).pipefd0 == sockfd)) [
  | inl e ↦ rw (user-ok w j (omega arith), e, relay_from sockfd child k (suc j) w (omega arith))
  | inr e ↦
      let own = send_child ((w.users j).pipefd0) child ∷ [] in
      rw (
        user-ok w j (omega arith),
        e,
        relay_from sockfd child k (suc j) (perform w own) (omega arith),
        append_assoc w.actions own (sends_except sockfd child (pipes k (suc j) w.users)),
      )
]

-- A message from the child behind `sockfd` is sent once to every other user's child, in the order
-- of the table, and nothing else happens.
pub relay-sends_except :
    (sockfd child : ℕ) (w : Server)
    → IsServer w
    → relay sockfd child w.user_count 0 w
      ≡ ok (perform w (sends_except sockfd child (pipes w.user_count 0 w.users)))
relay-sends_except sockfd child w wf =
    let b = wf.bound in relay_from sockfd child w.user_count 0 w (omega arith)
