-- ===== src/ChatServer/Leaving.antt =====
-- The table of ChatServer.cpp where a user leaves.
use linux_server_programming.Base.{
  refl, ℕ, ◌-◌, ◌≤◌, ◌<◌, ◌≡◌, sym, subst, arith, Bool, false, List, ◌==◌, if◌then◌else◌, ne→==, ℤ,
  pos, negsuc,
}
use linux_server_programming.Process.{done}
use linux_server_programming.Process.Kernel.{
  bind-Throughout, done-Throughout, sys-Throughout, if-Throughout, Throughout,
}
use linux_server_programming.Process.Files.{files, drop_fd, fd_limit, Always}
use linux_server_programming.ChatServer.{
  user_limit, PollFd, Chat, copy_user, move_last, received, drop_for, leave_for, serve_leave,
}
use linux_server_programming.ChatServer.Table.{
  IsTable, slot-ok, set_slot-ok, user-ok, set_user-ok, remove-IsTable,
}
use linux_server_programming.ChatServer.Accepting.{Kept, Entry, broadcast-Always}

module _ (f : ℕ) where
  copy_user-ok :
      (c : Chat) (a b : ℕ)
      → a < fd_limit
      → b < fd_limit
      → copy_user c (pos a) (pos b)
        ≡ done (record c { users = λ j. if j == a then c.users b else c.users j })
  unfolding copy_user
  copy_user-ok c a b ha hb = rw (user-ok c b hb, set_user-ok c a (c.users b) ha)

  -- what is left when entry `i` has been removed
  abbrev without : Chat → ℕ → ℕ → ℕ → Chat
  without c i a b = record c {
    users = λ j. if j == a then c.users b else c.users j;
    user_count = c.user_count - 1;
    fds = λ j. if j == i then c.fds c.user_count else c.fds j;
  }

  without-IsTable :
      (c : Chat) (i : ℕ) (l : List ℕ) (t : IsTable f l c)
      → 0 < i
      → i ≤ c.user_count
      → IsTable f (drop_fd (t.number i) l) (without c i (t.number i) (t.number c.user_count))
  without-IsTable c i l t some_i h =
      remove-IsTable f i l c _ t some_i h (λ k o. rw (ne→== k (t.number i) o))

  move_last-ok :
      (c : Chat) (i : ℕ) (last : PollFd)
      → i ≤ user_limit
      → move_last c i last
        ≡ done (record c {
          user_count = c.user_count - 1;
          fds = λ j. if j == i then last else c.fds j;
        })
  unfolding move_last
  move_last-ok c i last h = rw (set_slot-ok c i last h)

  module _ (c : Chat) (i : ℕ) (l : List ℕ) (t : IsTable f l c) (some_i : 0 < i)
      (h : i ≤ c.user_count) where
    abbrev copied : Chat
    copied = record c {
      users = λ j. if j == t.number i then c.users (t.number c.user_count) else c.users j;
    }

    copying : copy_user c (pos (t.number i)) (pos (t.number c.user_count)) ≡ done copied
    copying =
        copy_user-ok c (t.number i) (t.number c.user_count) (t.small i h)
          (t.small c.user_count (omega arith))

    moving :
        move_last copied i (c.fds c.user_count)
        ≡ done (without c i (t.number i) (t.number c.user_count))
    moving = let b = t.bound in move_last-ok copied i (c.fds c.user_count) (omega arith)

    -- the last entry's descriptor
    last_known : (c.fds c.user_count).fd ≡ pos (t.number c.user_count)
    last_known = t.known c.user_count (omega arith)

    leave_for-Always :
        Always
          (Entry f c.user_count)
          l
          (leave_for c i (pos (t.number i)) (c.fds c.user_count) (pos (t.number c.user_count)))
    unfolding leave_for Throughout
    leave_for-Always =
        rw copying (t.held i h, λ r _. rw moving (without-IsTable c i l t some_i h, omega arith))

    pub serve_leave-Always : Always (Entry f c.user_count) l (serve_leave c i (pos (t.number i)))
    unfolding serve_leave
    serve_leave-Always =
        let b = t.bound in
        rw (slot-ok c c.user_count (omega arith)) (
          subst
            (λ z.
              Always (Entry f c.user_count) l
                (leave_for c i (pos (t.number i)) (c.fds c.user_count) z))
            (sym last_known) leave_for-Always)

    drop_for-Always :
        Always
          (Entry f c.user_count)
          (drop_fd (t.number i) l)
          (drop_for c i (pos (t.number i)) (c.fds c.user_count) (pos (t.number c.user_count)))
    unfolding drop_for Throughout
    drop_for-Always = rw (copying, moving) (without-IsTable c i l t some_i h, omega arith)

    pub received-Always :
        (ret : ℤ) (again : Bool)
        → Always (Entry f c.user_count) l (received c i (pos (t.number i)) ret again)
    unfolding received
    received-Always (negsuc _) again =
        let b = t.bound in
        if-Throughout files (Entry f c.user_count) l again _ _
          (λ _. done-Throughout files (Entry f c.user_count) l (c, false) (t, omega arith))
          (λ _. sys-Throughout files (Entry f c.user_count) l _ _ (t.held i h) (λ r _.
            rw (slot-ok c c.user_count (omega arith)) (
              subst
                (λ z.
                  Always (Entry f c.user_count) (drop_fd (t.number i) l)
                    (drop_for c i (pos (t.number i)) (c.fds c.user_count) z))
                (sym last_known) drop_for-Always)))
    received-Always (pos n) again =
        if-Throughout files (Entry f c.user_count) l (n == 0) _ _
          (λ _. done-Throughout files (Entry f c.user_count) l (c, false) (t, omega arith))
          (λ _.
            bind-Throughout files (Kept f c.user_count) (Entry f c.user_count) l _ _
              (broadcast-Always f c.user_count c.user_count 1 (t.number i) l c t refl (omega arith)
                (omega arith) (t.small i h))
              (λ l' c1 (t1, same).
                done-Throughout files (Entry f c.user_count) l' (c1, false) (t1, omega arith)))
