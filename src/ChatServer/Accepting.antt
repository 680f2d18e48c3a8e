-- ===== src/ChatServer/Accepting.antt =====
-- The table of ChatServer.cpp where it takes in a user or spreads what one has sent.
use linux_server_programming.Base.{
  ℕ, zero, suc, ◌+◌, ◌≤◌, ◌<◌, ◌≡◌, ◌≢◌, refl, sym, ◌∙◌, ap, subst, arith, Bool, true, false,
  Option, none, some, List, ◌==◌, if◌then◌else◌, Bool-cases, inl, inr, ne→==, ==_refl, leb, ℤ, pos,
  negsuc,
}
use linux_server_programming.Process.{accept, same_fd}
use linux_server_programming.Process.Kernel.{
  bind-Throughout, done-Throughout, sys-Throughout, if-Throughout, Throughout,
}
use linux_server_programming.Process.Files.{
  files, holds, holds_first, IsNew, opened, fd_limit, Always,
}
use linux_server_programming.ChatServer.{
  user_limit, User, PollFd, Chat, entry, admit, serve_new, tell, broadcast,
}
use linux_server_programming.ChatServer.Table.{
  IsTable, slot-ok, set_slot-ok, user-ok, set_user-ok, same-IsTable, add-IsTable,
}

-- `n` users before a round of the loop, and `m` behind it; the Boolean is `i--`.
abbrev pub Fits : ℕ → Bool → ℕ → Type 0
Fits n true m = m + 1 ≡ n
Fits n false m = m ≤ n + 1

module _ (f : ℕ) where
  abbrev pub Table : List ℕ → Chat → Type 0
  Table l c = IsTable f l c

  abbrev pub Entry : ℕ → List ℕ → Chat × Bool → Type 0
  Entry n l (c, again) = IsTable f l c × Fits n again c.user_count

  -- with at most one user more
  abbrev pub Grown : ℕ → List ℕ → Chat → Type 0
  Grown n l c = IsTable f l c × (c.user_count ≤ n + 1)

  admit-Always :
      (l : List ℕ) (c : Chat) (z : ℤ)
      → IsTable f l c
      → IsNew l z
      → Always (Grown c.user_count) (opened l z) (admit c z)
  unfolding admit Throughout
  admit-Always l c (negsuc _) t new = (t, omega arith)
  admit-Always l c (pos n) t (new, small) =
      let held = holds_first n l in
      elim (Bool-cases (leb user_limit c.user_count)) [
        | inl e ↦ rw e (held, λ _ _. (held, λ _ _. rw (==_refl n) (t, omega arith)))
        | inr e ↦
            let room : c.user_count < user_limit = ground arith in
            rw (e, user-ok c n small)
              (
                held,
                λ _ _.
                    rw
                      (set_slot-ok (record c { user_count = c.user_count + 1 }) (c.user_count + 1)
                        (entry (pos n)) (omega arith))
                      (add-IsTable f n l c (entry (pos n)) t room refl refl new small, omega arith),
              )
      ]

  -- the listening socket is open
  pub listen_held : (l : List ℕ) (c : Chat) → IsTable f l c → holds f l ≡ true
  listen_held l c t = subst (λ n. holds n l ≡ true) t.first (t.held 0 (omega arith))

  pub serve_new-Always :
      (l : List ℕ) (c : Chat) → IsTable f l c → Always (Grown c.user_count) l (serve_new (pos f) c)
  unfolding serve_new
  serve_new-Always l c t =
      sys-Throughout files (Grown c.user_count) l (accept (pos f)) _ (listen_held l c t)
        (λ r new. admit-Always l c r.ret t new)

  abbrev or_zero : Option ℕ → ℕ
  or_zero none = 0
  or_zero (some n) = n

  -- with as many users as before
  abbrev pub Kept : ℕ → List ℕ → Chat → Type 0
  Kept n l c = IsTable f l c × (c.user_count ≡ n)

  tell-Always :
      (c : Chat) (j sender : ℕ) (l : List ℕ) (t : IsTable f l c)
      → 0 < j
      → j ≤ c.user_count
      → sender < fd_limit
      → Always (Kept c.user_count) l (tell c j (c.fds j) (pos (t.number j)) (pos sender))
  unfolding tell
  tell-Always c j sender l t some_j h valid =
      let b = t.bound in
      let n = t.number j in
      let small = t.small j h in
      let s' : PollFd = record (c.fds j) { pollin = false; pollout = true } in
      let c1 : Chat = record c { fds = λ k. if k == j then s' else c.fds k } in
      let told : User = record (c.users n) { write_buf = some sender } in
      let c2 : Chat = record c1 { users = λ k. if k == n then told else c.users k } in
      let fds_same : (k : ℕ) → (c2.fds k).fd ≡ (c.fds k).fd = λ k. elim (Bool-cases (k == j)) [
        | inl e ↦ let is : k ≡ j = ground arith in rw (e, is)
        | inr e ↦ rw e
      ] in
      let points : (k m : ℕ)
          → k ≤ c.user_count
          → (c2.fds k).pollout ≡ true
          → (c2.users (t.number k)).write_buf ≡ some m
          → m < fd_limit =
        λ k m hk out. elim (Bool-cases (t.number k == n)) [
          | inl e ↦ rw e (λ at. let is : sender ≡ m = ap or_zero at in omega arith)
          | inr e ↦
              let o : k ≢ j = λ q. let z = ap t.number q in ground arith in
              let same : (c2.fds k).pollout ≡ (c.fds k).pollout = rw (ne→== k j o) in
              rw e (t.pointing k m hk (sym same ∙ out))
        ] in
      rw (set_slot-ok c j s' (omega arith), user-ok c1 n small, set_user-ok c1 n told small)
        (done-Throughout files _ l c2 (
          same-IsTable f l c c2 t refl fds_same (rw (ne→== 0 j (omega arith)) t.quiet) points,
          refl,
        ))

  pub broadcast-Always :
      (n k j sender : ℕ) (l : List ℕ) (c : Chat)
      → IsTable f l c
      → c.user_count ≡ n
      → 0 < j
      → j + k ≤ c.user_count + 1
      → sender < fd_limit
      → Always (Kept n) l (broadcast k j (pos sender) c)
  unfolding broadcast
  broadcast-Always n zero j sender l c t size some_j h valid =
      done-Throughout files (Kept n) l c (t, size)
  broadcast-Always n (suc k) j sender l c t size some_j h valid =
      let b = t.bound in
      rw (slot-ok c j (omega arith)) (
        bind-Throughout files (Kept c.user_count) (Kept n) l _ _
          (if-Throughout files _ l (same_fd (c.fds j).fd (pos sender)) _ _
            (λ _. done-Throughout files _ l c (t, refl))
            (λ _.
              subst (λ z. Always (Kept c.user_count) l (tell c j (c.fds j) z (pos sender)))
                (sym (t.known j (omega arith)))
                (tell-Always c j sender l t some_j (omega arith) valid)))
          (λ l' c' (t', same).
            broadcast-Always n k (suc j) sender l' c' t' (omega arith) (omega arith) (omega arith)
              valid))
