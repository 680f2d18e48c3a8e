-- ===== src/ChatServer/Table.antt =====
-- The invariant of the entries of ChatServer.cpp.
use linux_server_programming.Base.{
  ℕ, ◌+◌, ◌-◌, ◌≤◌, ◌<◌, ◌≡◌, ◌≢◌, refl, ◌∙◌, subst, arith, true, false, List, [], ◌∷◌, some, ◌==◌,
  if◌then◌else◌, Bool-cases, inl, inr, ne→==, ==_refl, lt→ltb, leb, pos,
}
use linux_server_programming.Process.{done}
use linux_server_programming.Process.Files.{holds, drop_fd, holds-drop_fd, fd_limit}
use linux_server_programming.ChatServer.{
  user_limit, User, PollFd, Chat, user, set_user, slot, set_slot, new_chat,
}

-- Entry 0 is the listening socket `f`, and every entry in use has an open descriptor of its own.
pub record IsTable (f : ℕ) (l : List ℕ) (c : Chat) : Type 0 where
  pub bound : c.user_count ≤ user_limit
  pub quiet :
      ((c.fds 0).pollrdhup ≡ false) × ((c.fds 0).pollout ≡ false) × ((c.fds 0).hang_up ≡ false)
  pub number : ℕ → ℕ
  pub first : number 0 ≡ f
  pub known : (j : ℕ) → j ≤ c.user_count → (c.fds j).fd ≡ pos (number j)
  pub held : (j : ℕ) → j ≤ c.user_count → holds (number j) l ≡ true
  pub small : (j : ℕ) → j ≤ c.user_count → number j < fd_limit
  pub distinct : (j k : ℕ) → j ≤ c.user_count → k ≤ c.user_count → number j ≡ number k → j ≡ k
  -- a user that is to write has no stray pointer
  pub pointing :
      (j m : ℕ)
      → j ≤ c.user_count
      → (c.fds j).pollout ≡ true
      → (c.users (number j)).write_buf ≡ some m
      → m < fd_limit

pub slot-ok : (c : Chat) (i : ℕ) → i ≤ user_limit → slot c i ≡ done (c.fds i)
unfolding slot
slot-ok c i h = let e : leb i user_limit ≡ true = ground arith in rw e

pub set_slot-ok :
    (c : Chat) (i : ℕ) (s : PollFd)
    → i ≤ user_limit
    → set_slot c i s ≡ done (record c { fds = λ j. if j == i then s else c.fds j })
unfolding set_slot
set_slot-ok c i s h = let e : leb i user_limit ≡ true = ground arith in rw e

pub user-ok : (c : Chat) (n : ℕ) → n < fd_limit → user c (pos n) ≡ done (c.users n)
unfolding user
user-ok c n h = rw (lt→ltb n fd_limit h)

pub set_user-ok :
    (c : Chat) (n : ℕ) (u : User)
    → n < fd_limit
    → set_user c (pos n) u ≡ done (record c { users = λ j. if j == n then u else c.users j })
unfolding set_user
set_user-ok c n u h = rw (lt→ltb n fd_limit h)

-- changes that leave the descriptors alone
pub same-IsTable :
    (f : ℕ) (l : List ℕ) (c c' : Chat) (t : IsTable f l c)
    → c'.user_count ≡ c.user_count
    → ((j : ℕ) → (c'.fds j).fd ≡ (c.fds j).fd)
    → ((c'.fds 0).pollrdhup ≡ false) × ((c'.fds 0).pollout ≡ false) × ((c'.fds 0).hang_up ≡ false)
    → ((j m : ℕ)
        → j ≤ c.user_count
        → (c'.fds j).pollout ≡ true
        → (c'.users (t.number j)).write_buf ≡ some m
        → m < fd_limit)
    → IsTable f l c'
same-IsTable f l c c' t n same quiet points = record {
  bound = let b = t.bound in omega arith;
  quiet = quiet;
  number = t.number;
  first = t.first;
  known = λ j h. same j ∙ t.known j (omega arith);
  held = λ j h. t.held j (omega arith);
  small = λ j h. t.small j (omega arith);
  distinct = λ j k hj hk. t.distinct j k (omega arith) (omega arith);
  pointing = λ j m hj. points j m (omega arith);
}

-- a new entry behind the others
pub add-IsTable :
    (f n : ℕ) (l : List ℕ) (c : Chat) (s : PollFd)
    → IsTable f l c
    → c.user_count < user_limit
    → s.fd ≡ pos n
    → s.pollout ≡ false
    → holds n l ≡ false
    → n < fd_limit
    → IsTable f (n ∷ l) (record c {
      user_count = c.user_count + 1;
      fds = λ j. if j == c.user_count + 1 then s else c.fds j;
    })
add-IsTable f n l c s t room is idle new small =
    let place : ℕ → ℕ = λ j. if j == c.user_count + 1 then n else t.number j in
    let old : (j : ℕ) → j ≤ c.user_count → t.number j ≢ n =
      λ j h e. let now = t.held j h in let there = subst (λ m. holds m l ≡ true) e now in cc in
    record {
      bound = omega arith;
      quiet = rw (ne→== 0 (c.user_count + 1) (omega arith)) t.quiet;
      number = place;
      first = rw (ne→== 0 (c.user_count + 1) (omega arith)) t.first;
      known = λ j h. elim (Bool-cases (j == c.user_count + 1)) [
        | inl e ↦ rw e is
        | inr e ↦ rw e (t.known j (ground arith))
      ];
      held = λ j h. elim (Bool-cases (j == c.user_count + 1)) [
        | inl e ↦ rw (e, ==_refl n)
        | inr e ↦ let old = t.held j (ground arith) in ground arith
      ];
      small = λ j h. elim (Bool-cases (j == c.user_count + 1)) [
        | inl e ↦ rw e small
        | inr e ↦ rw e (t.small j (ground arith))
      ];
      distinct = λ j k hj hk same. ground (arith, t.distinct j k, old j, old k);
      pointing = λ j m hj. elim (Bool-cases (j == c.user_count + 1)) [
        | inl e ↦ rw (e, idle) (λ z. cc)
        | inr e ↦ rw e (t.pointing j m (ground arith))
      ];
    }

-- Entry `i` is replaced by the last, and its descriptor closed.
pub remove-IsTable :
    (f i : ℕ) (l : List ℕ) (c : Chat) (users : ℕ → User) (t : IsTable f l c)
    → 0 < i
    → i ≤ c.user_count
    → ((k : ℕ) → k ≢ t.number i → users k ≡ c.users k)
    → IsTable f (drop_fd (t.number i) l) (record c {
      users = users;
      user_count = c.user_count - 1;
      fds = λ j. if j == i then c.fds c.user_count else c.fds j;
    })
remove-IsTable f i l c users t some_i hi same_users =
    let n = c.user_count in
    let place : ℕ → ℕ = λ j. if j == i then t.number n else t.number j in
    record {
      bound = let b = t.bound in omega arith;
      quiet = rw (ne→== 0 i (omega arith)) t.quiet;
      number = place;
      first = rw (ne→== 0 i (omega arith)) t.first;
      known = λ j h. elim (Bool-cases (j == i)) [
        | inl e ↦ rw e (t.known n (omega arith))
        | inr e ↦ rw e (t.known j (omega arith))
      ];
      held = λ j h. elim (Bool-cases (j == i)) [
        | inl e ↦
            let is : j ≡ i = ground arith in
            let o : t.number n ≢ t.number i =
              λ q. let z = t.distinct n i (omega arith) hi q in omega arith in
            rw (e, holds-drop_fd (t.number n) (t.number i) l o) (t.held n (omega arith))
        | inr e ↦
            let o : t.number j ≢ t.number i =
              λ q. let z = t.distinct j i (omega arith) hi q in ground arith in
            rw (e, holds-drop_fd (t.number j) (t.number i) l o) (t.held j (omega arith))
      ];
      small = λ j h. elim (Bool-cases (j == i)) [
        | inl e ↦ rw e (t.small n (omega arith))
        | inr e ↦ rw e (t.small j (omega arith))
      ];
      distinct = λ j k hj hk same.
          ground (arith, t.distinct j k, t.distinct j n, t.distinct n k, t.distinct n n);
      pointing = λ j m hj. elim (Bool-cases (j == i)) [
        | inl e ↦
            let is : j ≡ i = ground arith in
            let o : t.number n ≢ t.number i =
              λ q. let z = t.distinct n i (omega arith) hi q in omega arith in
            rw (e, same_users (t.number n) o) (t.pointing n m (omega arith))
        | inr e ↦
            let o : t.number j ≢ t.number i =
              λ q. let z = t.distinct j i (omega arith) hi q in ground arith in
            rw (e, same_users (t.number j) o) (t.pointing j m (omega arith))
      ];
    }

pub new_chat-IsTable :
    (f : ℕ) (users : ℕ → User) → f < fd_limit → IsTable f (f ∷ []) (new_chat users (pos f))
unfolding new_chat
new_chat-IsTable f users small = record {
  bound = omega arith;
  quiet = (refl, refl, refl);
  number = λ _. f;
  first = refl;
  known = λ j h. let e : (j == 0) ≡ true = ground arith in rw e;
  held = λ j h. rw (==_refl f);
  small = λ j h. small;
  distinct = λ j k hj hk _. omega arith;
  pointing = λ j m hj out. cc;
}
