-- ===== src/ChatServer.antt =====
-- ChatServer.cpp: a chat server over `poll`.
-- `write_buf` points to the `buf` of a user, which is given by that user's descriptor. `buf` is the
-- bytes that were last read into it. `printf` is left out. An access outside `users` or `fds` is a
-- fault. The loops run on fuel.
pub mod Table
pub mod Accepting
pub mod Leaving
pub mod Writing
pub mod Serving
pub mod Delivery
mod Tests
use linux_server_programming.Base.{
  ℕ, zero, suc, ◌+◌, ◌-◌, Bool, true, false, ◌&&◌, Option, none, some, List, [], ◌∷◌, leb, ltb, not,
  ◌==◌, if◌then◌else◌, ℤ, pos, negsuc,
}
use linux_server_programming.Process.{
  stream, Sys, socket, bind, listen, accept, close, recv, send, set_nonblocking, poll, get_option,
  Event, event_at, Answer, Prog, done, fault, aborted, out_of_fuel, paused, sys, ◌>>=◌, call,
  invoke, is_neg, is_minus_one, assert, arg, argc, htons, same_fd,
}
use linux_server_programming.Process.Files.{fd_limit}

-- `USER_LIMIT` and `BUFFER_SIZE`
abbrev pub user_limit : ℕ
user_limit = 5

abbrev pub buffer_size : ℕ
buffer_size = 64

-- `client_data`; the address is left out, since `accept` does not write it.
pub record User : Type 0 where
  pub write_buf : Option ℕ
  pub buf : List ℕ

-- `pollfd`: `pollin`, `pollout` and `pollrdhup` are flags of `events`, the last three of `revents`.
pub record PollFd : Type 0 where
  pub fd : ℤ
  pub pollin : Bool
  pub pollout : Bool
  pub pollrdhup : Bool
  pub readable : Bool
  pub hang_up : Bool
  pub error : Bool

pub record Chat : Type 0 where
  pub users : ℕ → User
  pub fds : ℕ → PollFd
  pub user_count : ℕ

-- `users[fd]`
unfoldable pub user : Chat → ℤ → Prog User
user c (pos n) = if ltb n fd_limit then done (c.users n) else fault
user c (negsuc _) = fault

-- `users[fd] = u`
unfoldable pub set_user : Chat → ℤ → User → Prog Chat
set_user c (pos n) u =
    if ltb n fd_limit
    then done (record c { users = λ j. if j == n then u else c.users j })
    else fault
set_user c (negsuc _) u = fault

-- `fds[i]`
unfoldable pub slot : Chat → ℕ → Prog PollFd
slot c i = if leb i user_limit then done (c.fds i) else fault

-- `fds[i] = s`
unfoldable pub set_slot : Chat → ℕ → PollFd → Prog Chat
set_slot c i s =
    if leb i user_limit then done (record c { fds = λ j. if j == i then s else c.fds j }) else fault

-- "too many users" and a newline
abbrev pub too_many : List ℕ
too_many = 116 ∷ 111 ∷ 111 ∷ 32 ∷ 109 ∷ 97 ∷ 110 ∷ 121 ∷ 32 ∷ 117 ∷ 115 ∷ 101 ∷ 114 ∷ 115 ∷ 10 ∷ []

-- the entry of a new user
abbrev pub entry : ℤ → PollFd
entry fd = record {
  fd = fd;
  pollin = true;
  pollout = false;
  pollrdhup = true;
  readable = false;
  hang_up = false;
  error = false;
}

-- what follows `accept`, which has returned `conn_fd`
unfoldable pub admit : Chat → (conn_fd : ℤ) → Prog Chat
admit c conn_fd =
    let refuse : Prog Chat = (do
      _ ← invoke (send conn_fd too_many)
      _ ← invoke (close conn_fd)
      done c) in
    let n = c.user_count + 1 in
    let add : Prog Chat = (do
      _ ← user c conn_fd
      _ ← invoke (set_nonblocking conn_fd)
      set_slot (record c { user_count = n }) n (entry conn_fd)) in
    if is_neg conn_fd then done c else if leb user_limit c.user_count then refuse else add

-- a new connection
unfoldable pub serve_new : (listen_fd : ℤ) → Chat → Prog Chat
serve_new listen_fd c = sys (accept listen_fd) (λ r. admit c r.ret)

-- `users[fd] = users[last_fd];`
unfoldable pub copy_user : Chat → (fd last_fd : ℤ) → Prog Chat
copy_user c fd last_fd = do u ← user c last_fd; set_user c fd u

-- `fds[i] = fds[user_count]; user_count--;`
unfoldable pub move_last : Chat → ℕ → PollFd → Prog Chat
move_last c i last = do c1 ← set_slot c i last; done (record c1 { user_count = c.user_count - 1 })

-- a pointer to `users[fd].buf`
abbrev pub buf_of : (fd : ℤ) → Option ℕ
buf_of (pos n) = some n
buf_of (negsuc _) = none

-- Entry `j`, whose descriptor is `fd`, is to write what `sender` has sent.
unfoldable pub tell : Chat → (j : ℕ) → PollFd → (fd sender : ℤ) → Prog Chat
tell c j s fd sender = do
  c1 ← set_slot c j (record s { pollin = false; pollout = true })
  u ← user c1 fd
  set_user c1 fd (record u { write_buf = buf_of sender })

-- the loop over the other users, from entry `j` on
unfoldable pub broadcast : (k j : ℕ) (sender : ℤ) → Chat → Prog Chat
broadcast zero j sender c = done c
broadcast (suc k) j sender c = do
  s ← slot c j
  c' ← (if same_fd s.fd sender then done c else tell c j s s.fd sender)
  broadcast k (suc j) sender c'

-- A user whose connection has failed leaves its entry to the last one, whose descriptor is `last_fd`.
unfoldable pub drop_for : Chat → ℕ → (fd : ℤ) → PollFd → (last_fd : ℤ) → Prog (Chat × Bool)
drop_for c i fd last last_fd = do
  c1 ← copy_user c fd last_fd
  c2 ← move_last c1 i last
  done (c2, true)

-- What follows `recv`, which has returned `ret`; the Boolean of the result tells whether the entry
-- has been removed.
unfoldable pub received : Chat → ℕ → (fd ret : ℤ) → (try_again : Bool) → Prog (Chat × Bool)
received c i fd (negsuc _) try_again =
    let drop_user : Prog (Chat × Bool) = (do
      _ ← invoke (close fd)
      last ← slot c c.user_count
      drop_for c i fd last last.fd) in
    if try_again then done (c, false) else drop_user
received c i fd (pos n) try_again =
    let spread : Prog (Chat × Bool) = (do c1 ← broadcast c.user_count 1 fd c; done (c1, false)) in
    if n == 0 then done (c, false) else spread

-- data of a user
unfoldable pub serve_data : Chat → ℕ → (fd : ℤ) → Prog (Chat × Bool)
serve_data c i fd = do
  u ← user c fd
  sys (recv fd (buffer_size - 1))
      λ r. (do c1 ← set_user c fd (record u { buf = r.bytes }); received c1 i fd r.ret r.try_again)

-- the bytes in front of the NUL
unfoldable pub text : List ℕ → List ℕ
text [] = []
text (b ∷ bs) = let rest = b ∷ text bs in if b == 0 then [] else rest

-- a user that has something to write, which stands in the buffer of `source`
unfoldable pub write_from : Chat → ℕ → PollFd → (fd : ℤ) → User → Option ℕ → Prog (Chat × Bool)
write_from c i s fd u none = done (c, false)
write_from c i s fd u (some source) = do
  from ← user c (pos source)
  _ ← invoke (send fd (text from.buf))
  c1 ← set_user c fd (record u { write_buf = none })
  c2 ← set_slot c1 i (record s { pollout = false; pollin = true })
  done (c2, false)

unfoldable pub serve_write : Chat → ℕ → PollFd → (fd : ℤ) → Prog (Chat × Bool)
serve_write c i s fd = do u ← user c fd; write_from c i s fd u u.write_buf

-- A user that has hung up leaves its entry to the last one, whose descriptor is `last_fd`.
unfoldable pub leave_for : Chat → ℕ → (fd : ℤ) → PollFd → (last_fd : ℤ) → Prog (Chat × Bool)
leave_for c i fd last last_fd = do
  c1 ← copy_user c fd last_fd
  _ ← invoke (close fd)
  c2 ← move_last c1 i last
  done (c2, true)

unfoldable pub serve_leave : Chat → ℕ → (fd : ℤ) → Prog (Chat × Bool)
serve_leave c i fd = do last ← slot c c.user_count; leave_for c i fd last last.fd

-- entry `i`, which is `s` and whose descriptor is `fd`
unfoldable pub dispatch : (listen_fd : ℤ) → Chat → ℕ → PollFd → (fd : ℤ) → Prog (Chat × Bool)
dispatch listen_fd c i s fd =
    let arrival : Prog (Chat × Bool) = (do c1 ← serve_new listen_fd c; done (c1, false)) in
    let failure : Prog (Chat × Bool) = (do _ ← invoke (get_option fd 0); done (c, false)) in
    if same_fd fd listen_fd && s.readable
    then arrival
    else if s.error
    then failure
    else if s.hang_up
    then serve_leave c i fd
    else if s.readable
    then serve_data c i fd
    else if s.pollout
    then serve_write c i s fd
    else done (c, false)

-- the body of the loop over the entries; the Boolean is `i--`.
unfoldable pub serve_entry : (listen_fd : ℤ) → Chat → ℕ → Prog (Chat × Bool)
serve_entry listen_fd c i = do s ← slot c i; dispatch listen_fd c i s s.fd

-- the loop over the entries, from `i` on
unfoldable pub serve_entries : (fuel i : ℕ) (listen_fd : ℤ) → Chat → Prog Chat
serve_entries zero i listen_fd c = out_of_fuel
serve_entries (suc k) i listen_fd c =
    let round : Prog Chat = (do
      (c', again) ← serve_entry listen_fd c i
      serve_entries k (if again then i else i + 1) listen_fd c') in
    if leb i c.user_count then round else done c

-- `poll` reports what has been asked for, and errors.
unfoldable pub reported : List Event → Chat → Chat
reported es c = record c {
  fds = λ j. record (c.fds j) {
    readable = (event_at j es).readable && (c.fds j).pollin;
    hang_up = (event_at j es).hang_up && (c.fds j).pollrdhup;
    error = (event_at j es).error;
  };
}

-- the descriptors of `n` entries from `i` on
abbrev pub polled : (n i : ℕ) → Chat → List ℤ
polled zero i c = []
polled (suc n) i c = (c.fds i).fd ∷ polled n (suc i) c

unfoldable pub event_loop : (rounds fuel : ℕ) (listen_fd : ℤ) → Chat → Prog Chat
event_loop zero fuel listen_fd c = paused
event_loop (suc k) fuel listen_fd c = sys (poll (polled (c.user_count + 1) 0 c)) λ r.
    let round : Prog Chat = (do
      c' ← serve_entries fuel 0 listen_fd (reported r.events c)
      event_loop k fuel listen_fd c') in
    if is_neg r.ret then done c else round

-- `users` and `fds` before the event loop; `new` leaves the pointers of `users` unset.
unfoldable pub new_chat : (ℕ → User) → (listen_fd : ℤ) → Chat
new_chat users listen_fd = record {
  users = users;
  fds = λ j. record {
    fd = if j == 0 then listen_fd else negsuc 0;
    pollin = j == 0;
    pollout = false;
    pollrdhup = false;
    readable = false;
    hang_up = false;
    error = false;
  };
  user_count = 0;
}

-- from `bind` on
unfoldable pub serve : (rounds fuel port : ℕ) → (ℕ → User) → (listen_fd : ℤ) → Prog ℕ
serve rounds fuel port users listen_fd = do
  ret ← invoke (bind listen_fd (htons port))
  _ ← assert (not (is_minus_one ret))
  ret ← invoke (listen listen_fd 5)
  _ ← assert (not (is_minus_one ret))
  _ ← event_loop rounds fuel listen_fd (new_chat users listen_fd)
  _ ← invoke (close listen_fd)
  done 0

unfoldable pub main : (rounds fuel : ℕ) (argv : List ℕ) → (ℕ → User) → Prog ℕ
main rounds fuel argv users = if leb (argc argv) 2 then done 1 else do
  port ← arg argv 2
  listen_fd ← invoke (socket stream)
  _ ← assert (not (is_neg listen_fd))
  serve rounds fuel port users listen_fd
