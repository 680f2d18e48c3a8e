-- ===== src/ChatServer/Delivery.antt =====
-- Whom ChatServer.cpp lets write what one user has sent.
use linux_server_programming.Base.{
  ℕ, zero, suc, ◌+◌, ◌≤◌, ◌<◌, ◌≡◌, ◌≢◌, ◌⊎◌, refl, sym, ◌∙◌, ap, subst, arith, Bool, true, false,
  List, some, ◌==◌, if◌then◌else◌, Bool-cases, inl, inr, ne→==, ==_refl, pos,
}
use linux_server_programming.Process.{done, ◌>>=◌, same_fd}
use linux_server_programming.Process.Files.{fd_limit}
use linux_server_programming.ChatServer.{user_limit, PollFd, Chat, tell, broadcast, received}
use linux_server_programming.ChatServer.Table.{IsTable, slot-ok, set_slot-ok, user-ok, set_user-ok}

-- `c'` is `c` after the entries from `j` to `n`, whose descriptors are `num`, have been told that
-- `sender` has sent something.
pub record IsTold (num : ℕ → ℕ) (n sender j : ℕ) (c c' : Chat) : Type 0 where
  pub count : c'.user_count ≡ c.user_count
  pub told :
      (m : ℕ)
      → j ≤ m
      → m ≤ n
      → num m ≢ sender
      → ((c'.fds m).pollout ≡ true)
        × ((c'.fds m).pollin ≡ false)
        × ((c'.users (num m)).write_buf ≡ some sender)
  pub kept : (m : ℕ) → m ≤ n → (m < j) ⊎ (num m ≡ sender) → c'.fds m ≡ c.fds m
  pub bufs : (p : ℕ) → (c'.users p).buf ≡ (c.users p).buf
  pub users_kept :
      (p : ℕ) → ((m : ℕ) → j ≤ m → m ≤ n → num m ≡ p → num m ≡ sender) → c'.users p ≡ c.users p

module _ (num : ℕ → ℕ) (n sender : ℕ) (bound : n ≤ user_limit)
    (small : (m : ℕ) → m ≤ n → num m < fd_limit)
    (distinct : (m k : ℕ) → m ≤ n → k ≤ n → num m ≡ num k → m ≡ k) where
  abbrev told_entry : PollFd → PollFd
  told_entry s = record s { pollin = false; pollout = true }

  abbrev after_tell : Chat → ℕ → Chat
  after_tell c j = record c {
    fds = λ k. if k == j then told_entry (c.fds j) else c.fds k;
    users =
        λ k. if k == num j then record (c.users (num j)) { write_buf = some sender } else c.users k;
  }

  tell-after_tell :
      (c : Chat) (j : ℕ)
      → j ≤ n
      → tell c j (c.fds j) (pos (num j)) (pos sender) ≡ done (after_tell c j)
  unfolding tell
  tell-after_tell c j h =
      let c1 : Chat = record c { fds = λ k. if k == j then told_entry (c.fds j) else c.fds k } in
      rw (
        set_slot-ok c j (told_entry (c.fds j)) (omega arith),
        user-ok c1 (num j) (small j h),
        set_user-ok c1 (num j) (record (c.users (num j)) { write_buf = some sender }) (small j h),
      )

  skip-IsTold :
      (j : ℕ) (c c' : Chat)
      → num j ≡ sender
      → IsTold num n sender (suc j) c c'
      → IsTold num n sender j c c'
  skip-IsTold j c c' own t = record {
    count = t.count;
    told = λ m a b o. elim (Bool-cases (m == j)) [
      | inl e ↦ let is : m ≡ j = ground arith in absurd (o (ap num is ∙ own))
      | inr e ↦ t.told m (ground arith) b o
    ];
    kept = λ m b r. elim r [ inl h ↦ t.kept m b (inl (omega arith)) | inr h ↦ t.kept m b (inr h) ];
    bufs = t.bufs;
    users_kept = λ p h. t.users_kept p (λ m a b. h m (omega arith) b);
  }

  tell-IsTold :
      (j : ℕ) (c c' : Chat)
      → j ≤ n
      → num j ≢ sender
      → IsTold num n sender (suc j) (after_tell c j) c'
      → IsTold num n sender j c c'
  tell-IsTold j c c' h other t = record {
    count = t.count;
    told = λ m a b o. elim (Bool-cases (m == j)) [
      | inl e ↦
          let is : m ≡ j = ground arith in
          let entry : c'.fds j ≡ told_entry (c.fds j) =
            t.kept j h (inl (omega arith)) ∙ rw (==_refl j) in
          let one : c'.users (num j) ≡ record (c.users (num j)) { write_buf = some sender } =
            t.users_kept (num j) (λ k a' b' q. let z = distinct k j b' h q in absurd (omega arith))
            ∙ rw (==_refl (num j)) in
          subst
            (λ k.
              ((c'.fds k).pollout ≡ true)
              × ((c'.fds k).pollin ≡ false)
              × ((c'.users (num k)).write_buf ≡ some sender))
            (sym is)
            (ap (λ s. s.pollout) entry, ap (λ s. s.pollin) entry, ap (λ u. u.write_buf) one)
      | inr e ↦ t.told m (ground arith) b o
    ];
    kept = λ m b r. elim r [
      | inl less ↦ t.kept m b (inl (omega arith)) ∙ rw (ne→== m j (omega arith))
      | inr own ↦
          let o : m ≢ j = λ q. other (sym (ap num q) ∙ own) in
          t.kept m b (inr own) ∙ rw (ne→== m j o)
    ];
    bufs = λ p. t.bufs p ∙ elim (Bool-cases (p == num j)) [
      | inl e ↦ let is : p ≡ num j = ground arith in rw (e, is)
      | inr e ↦ rw e
    ];
    users_kept = λ p same.
        let o : p ≢ num j = λ q. other (same j (omega arith) h (sym q)) in
        t.users_kept p (λ m a b. same m (omega arith) b) ∙ rw (ne→== p (num j) o);
  }

  -- the step for entry `j`, once its descriptor is known
  at_known :
      (k j : ℕ) (c c' : Chat)
      → j ≤ n
      → (c.fds j).fd ≡ pos (num j)
      → ((if num j == sender then done c else tell c j (c.fds j) (pos (num j)) (pos sender))
          >>= broadcast k (suc j) (pos sender))
        ≡ done c'
      → ((if same_fd (c.fds j).fd (pos sender)
            then done c
            else tell c j (c.fds j) (c.fds j).fd (pos sender))
          >>= broadcast k (suc j) (pos sender))
        ≡ done c'
  at_known k j c c' h known run =
      subst
        (λ z.
          ((if same_fd z (pos sender) then done c else tell c j (c.fds j) z (pos sender))
            >>= broadcast k (suc j) (pos sender))
          ≡ done c')
        (sym known) run

  broadcast-IsTold :
      (k j : ℕ) (c : Chat)
      → ((m : ℕ) → m ≤ n → (c.fds m).fd ≡ pos (num m))
      → j + k ≡ n + 1
      → (c' : Chat) × (broadcast k j (pos sender) c ≡ done c') × IsTold num n sender j c c'
  unfolding broadcast
  broadcast-IsTold zero j c known size = (
    c,
    refl,
    record {
      count = refl;
      told = λ m a b o. absurd (omega arith);
      kept = λ m b r. refl;
      bufs = λ p. refl;
      users_kept = λ p same. refl;
    },
  )
  broadcast-IsTold (suc k) j c known size =
      let h : j ≤ n = omega arith in
      elim (Bool-cases (num j == sender)) [
        | inl e ↦
            let own : num j ≡ sender = ground arith in
            let (c', run, t) = broadcast-IsTold k (suc j) c known (omega arith) in
            (c', rw (slot-ok c j (omega arith), known j h, e) run, skip-IsTold j c c' own t)
        | inr e ↦
            let other : num j ≢ sender = λ q. ground arith in
            let fds_same : (m : ℕ) → m ≤ n → ((after_tell c j).fds m).fd ≡ pos (num m) = λ m b.
              elim (Bool-cases (m == j)) [
                | inl i ↦
                    let is : m ≡ j = ground arith in
                    rw i (known j h ∙ ap (λ z. pos (num z)) (sym is))
                | inr i ↦ rw i (known m b)
              ] in
            let (c', run, t) = broadcast-IsTold k (suc j) (after_tell c j) fds_same (omega arith) in
            let go : (if num j == sender
                  then done c
                  else tell c j (c.fds j) (pos (num j)) (pos sender))
                ≡ done (after_tell c j) =
              rw e (tell-after_tell c j h) in
            (
              c',
              rw (slot-ok c j (omega arith)) (
                  at_known k j c c' h (known j h)
                    (ap (λ q. q >>= broadcast k (suc j) (pos sender)) go ∙ run)),
              tell-IsTold j c c' h other t,
            )
      ]

-- When a user has sent some bytes, every other user, and nobody else, is to write what stands in
-- that user's buffer, and is not read from until it has: its `write_buf` points to that buffer, and
-- it waits for POLLOUT in place of POLLIN. The sender's entry, the listening socket's, the other
-- entries of `users` and all buffers are as they were.
pub received-delivers :
    (f i n : ℕ) (l : List ℕ) (c : Chat) (again : Bool) (t : IsTable f l c)
    → 0 < i
    → i ≤ c.user_count
    → (c' : Chat) × (received c i (pos (t.number i)) (pos (suc n)) again ≡ done (c', false))
      × IsTold t.number c.user_count (t.number i) 1 c c'
unfolding received
received-delivers f i n l c again t some_i h =
    let (c', run, told) =
      broadcast-IsTold t.number c.user_count (t.number i) t.bound t.small t.distinct c.user_count 1
        c t.known (omega arith) in
    (c', rw (ne→== (suc n) 0 (omega arith), run), told)
