-- ===== src/ChatServer/Tests.antt =====
-- ChatServer.cpp at concrete arguments and users.
use linux_server_programming.Base.{
  ℕ, ◌+◌, ◌≡◌, refl, arith, false, [], ◌∷◌, none, ◌==◌, if◌then◌else◌, Bool-cases, inl, inr, pos,
}
use linux_server_programming.Process.{done}
use linux_server_programming.Process.Files.{Always}
use linux_server_programming.ChatServer.{User, PollFd, Chat, entry, received, main}
use linux_server_programming.ChatServer.Table.{IsTable}
use linux_server_programming.ChatServer.Serving.{Ends, main-Always}
use linux_server_programming.ChatServer.Delivery.{IsTold, received-delivers}

abbrev silent : ℕ → User
silent = λ _. record { write_buf = none; buf = [] }

main-Always_example : Always Ends [] (main 100 20 (0 ∷ 127 ∷ 80 ∷ []) silent)
main-Always_example = main-Always 100 20 (0 ∷ 127 ∷ 80 ∷ []) silent (omega arith)

-- the listening socket 3 and two users with the descriptors 7 and 8
abbrev number : ℕ → ℕ
number = λ j. if j == 0 then 3 else 6 + j

abbrev quiet_entry : PollFd
quiet_entry = record (entry (pos 3)) { pollrdhup = false }

abbrev two_users : Chat
two_users = record {
  users = silent;
  fds = λ j. if j == 0 then quiet_entry else entry (pos (6 + j));
  user_count = 2;
}

abbrev two_users_table : IsTable 3 (3 ∷ 7 ∷ 8 ∷ []) two_users
two_users_table = record {
  bound = omega arith;
  quiet = (refl, refl, refl);
  number = number;
  first = refl;
  known = λ j h. elim (Bool-cases (j == 0)) [ inl e ↦ rw e refl | inr e ↦ rw e refl ];
  held = λ j h. ground arith;
  small = λ j h. ground arith;
  distinct = λ j k hj hk same. ground arith;
  pointing = λ j m h out at. cc;
}

received-delivers_example :
    (c' : Chat) × (received two_users 1 (pos 7) (pos 5) false ≡ done (c', false))
    × IsTold number 2 7 1 two_users c'
received-delivers_example =
    received-delivers 3 1 4 (3 ∷ 7 ∷ 8 ∷ []) two_users false two_users_table (omega arith)
      (omega arith)
