-- ===== src/ChatServer/Writing.antt =====
-- The table of ChatServer.cpp where it serves a user.
use linux_server_programming.Base.{
  ℕ, ◌-◌, ◌≤◌, ◌<◌, ◌≡◌, refl, sym, ◌∙◌, ap, subst, arith, true, false, ◌&&◌, Option, none, some,
  List, ◌==◌, if◌then◌else◌, Bool-cases, inl, inr, ne→==, pos,
}
use linux_server_programming.Process.{recv, same_fd}
use linux_server_programming.Process.Kernel.{done-Throughout, sys-Throughout, if-Throughout}
use linux_server_programming.Process.Files.{files, fd_limit, Always}
use linux_server_programming.ChatServer.{
  buffer_size, User, PollFd, Chat, received, serve_data, write_from, serve_write, dispatch,
}
use linux_server_programming.ChatServer.Table.{
  IsTable, set_slot-ok, user-ok, set_user-ok, same-IsTable,
}
use linux_server_programming.ChatServer.Accepting.{Entry}
use linux_server_programming.ChatServer.Leaving.{serve_leave-Always, received-Always}

module _ (f : ℕ) where
  -- a write to the user of entry `i` that leaves it without a stray pointer
  set_user-IsTable :
      (c : Chat) (i : ℕ) (l : List ℕ) (t : IsTable f l c) (u : User)
      → i ≤ c.user_count
      → ((m : ℕ) → (c.fds i).pollout ≡ true → u.write_buf ≡ some m → m < fd_limit)
      → IsTable f l (record c { users = λ j. if j == t.number i then u else c.users j })
  set_user-IsTable c i l t u h valid =
      same-IsTable f l c _ t refl (λ _. refl) t.quiet
        (λ k m hk out. elim (Bool-cases (t.number k == t.number i)) [
          | inl e ↦
              let is : k ≡ i = t.distinct k i hk h (ground arith) in
              rw e (valid m (sym (ap (λ j. (c.fds j).pollout) is) ∙ out))
          | inr e ↦ rw e (t.pointing k m hk out)
        ])

  serve_data-Always :
      (c : Chat) (i : ℕ) (l : List ℕ) (t : IsTable f l c)
      → 0 < i
      → i ≤ c.user_count
      → Always (Entry f c.user_count) l (serve_data c i (pos (t.number i)))
  unfolding serve_data
  serve_data-Always c i l t some_i h =
      let n = t.number i in
      rw (user-ok c n (t.small i h)) (
        sys-Throughout files (Entry f c.user_count) l (recv (pos n) (buffer_size - 1)) _
          (t.held i h)
          (λ r _.
            let u : User = record (c.users n) { buf = r.bytes } in
            let c1 : Chat = record c { users = λ j. if j == n then u else c.users j } in
            let t1 = set_user-IsTable c i l t u h (λ m out at. t.pointing i m h out at) in
            rw (set_user-ok c n u (t.small i h)) (
              subst (λ z. Always (Entry f c.user_count) l (received c1 i z r.ret r.try_again))
                (sym (t1.known i h) ∙ t.known i h)
                (received-Always f c1 i l t1 some_i h r.ret r.try_again))))

  module _ (c : Chat) (i : ℕ) (l : List ℕ) (t : IsTable f l c) (some_i : 0 < i)
      (h : i ≤ c.user_count) where
    write_from-Always :
        (u : User) (source : Option ℕ)
        → u.write_buf ≡ source
        → ((m : ℕ) → u.write_buf ≡ some m → m < fd_limit)
        → Always (Entry f c.user_count) l (write_from c i (c.fds i) (pos (t.number i)) u source)
    unfolding write_from
    write_from-Always u none at valid =
        done-Throughout files (Entry f c.user_count) l (c, false) (t, omega arith)
    write_from-Always u (some m) at valid =
        let b = t.bound in
        let n = t.number i in
        let u' : User = record u { write_buf = none } in
        let c1 : Chat = record c { users = λ j. if j == n then u' else c.users j } in
        let t1 = set_user-IsTable c i l t u' h (λ m out stray. cc) in
        let s' : PollFd = record (c.fds i) { pollout = false; pollin = true } in
        let c2 : Chat = record c1 { fds = λ j. if j == i then s' else c.fds j } in
        let fds_same : (k : ℕ) → (c2.fds k).fd ≡ (c1.fds k).fd = λ k. elim (Bool-cases (k == i)) [
          | inl e ↦ let is : k ≡ i = ground arith in rw (e, is)
          | inr e ↦ rw e
        ] in
        let t2 : IsTable f l c2 =
          same-IsTable f l c1 c2 t1 refl fds_same (rw (ne→== 0 i (omega arith)) t.quiet)
            (λ k m hk out. elim (Bool-cases (k == i)) [
              | inl e ↦ let idle : (c2.fds k).pollout ≡ false = rw e in λ stray. cc
              | inr e ↦
                  let same : (c2.fds k).pollout ≡ (c1.fds k).pollout = rw e in
                  t1.pointing k m hk (sym same ∙ out)
            ]) in
        rw (user-ok c m (valid m at)) (
          sys-Throughout files (Entry f c.user_count) l _ _ (t.held i h) (λ r _.
            rw (set_user-ok c n u' (t.small i h), set_slot-ok c1 i s' (omega arith))
              (done-Throughout files (Entry f c.user_count) l (c2, false) (t2, omega arith))))

    -- entry `i`, not the listening socket
    pub dispatch-Always :
        ((same_fd (pos (t.number i)) (pos f) && (c.fds i).readable) ≡ false)
        → Always (Entry f c.user_count) l (dispatch (pos f) c i (c.fds i) (pos (t.number i)))
    unfolding dispatch serve_write
    dispatch-Always old = rw old (
        if-Throughout files (Entry f c.user_count) l (c.fds i).error _ _
          (λ _.
            sys-Throughout files (Entry f c.user_count) l _ _ (t.held i h)
              (λ r _. done-Throughout files (Entry f c.user_count) l (c, false) (t, omega arith)))
          (λ _.
            if-Throughout files (Entry f c.user_count) l (c.fds i).hang_up _ _
              (λ _. serve_leave-Always f c i l t some_i h)
              (λ _.
                if-Throughout files (Entry f c.user_count) l (c.fds i).readable _ _
                  (λ _. serve_data-Always c i l t some_i h)
                  (λ _.
                    if-Throughout files (Entry f c.user_count) l (c.fds i).pollout _ _
                      (λ out. rw (user-ok c (t.number i) (t.small i h)) (
                        write_from-Always (c.users (t.number i)) _ refl
                          (λ m. t.pointing i m h out)))
                      (λ _.
                        done-Throughout files (Entry f c.user_count) l (c, false)
                          (t, omega arith))))))
