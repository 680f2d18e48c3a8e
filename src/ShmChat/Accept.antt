-- ===== src/ShmChat/Accept.antt =====
-- New connections of ShmChat.cpp.
use linux_server_programming.Base.{
  ℕ, ◌+◌, ◌<◌, ◌≡◌, ◌≢◌, ◌↔◌, ◌⊎◌, refl, ◌∙◌, ap, arith, ◌==◌, some, pos, [], ◌∷◌, ◌++◌, Bool-cases,
  inl, inr, Returns, ne→==, ==_refl, ok, sym, leb, false, if◌then◌else◌,
}
use linux_server_programming.ShmChat.{
  Client, close_fd, add_fd, Server, Arrival, user_limit, process_limit, perform, admit, attach,
  accept_user,
}
use linux_server_programming.ShmChat.Invariant.{
  IsServer, IsUser, user-ok, set_user-ok, set_process-ok,
}

module _ (w : Server) (wf : IsServer w) (address connfd pipefd0 pipefd1 pid : ℕ)
    (room : w.user_count < user_limit) (small : pid < process_limit)
    (new : (u : Client) → IsUser w u → u.pid ≢ pid) where
  abbrev pub newcomer : Client
  newcomer = record {
    address = address;
    connfd = connfd;
    pid = pid;
    pipefd0 = pipefd0;
    pipefd1 = pipefd1;
  }

  abbrev pub arrival : Arrival
  arrival = record {
    connfd = some connfd;
    address = address;
    pipe = some (pipefd0, pipefd1);
    pid = some pid;
  }

  abbrev pub joined : Server
  joined = record w {
    users = λ j.
        if j == w.user_count
        then newcomer
        else if j == w.user_count
        then record newcomer { pid = (w.users w.user_count).pid }
        else w.users j;
    user_count = w.user_count + 1;
    sub_process = λ q. if q == pid then pos w.user_count else w.sub_process q;
    actions = w.actions ++ close_fd connfd ∷ close_fd pipefd1 ∷ add_fd pipefd0 ∷ [];
  }

  pub accept_user-joined : accept_user w arrival ≡ ok joined
  unfolding accept_user admit attach
  accept_user-joined =
      let n = w.user_count in
      let u : Client = record newcomer { pid = (w.users n).pid } in
      let w1 : Server = record w { users = λ j. if j == n then u else w.users j } in
      let w2 = perform w1 (close_fd connfd ∷ close_fd pipefd1 ∷ add_fd pipefd0 ∷ []) in
      let w3 : Server = record w2 { users = λ j. if j == n then newcomer else w2.users j } in
      let low : leb user_limit n ≡ false = ground arith in
      rw (
        low,
        user-ok w n room,
        set_user-ok w n u room,
        set_user-ok w2 n newcomer room,
        set_process-ok w3 pid (pos n) small,
      )

  pub joined-IsServer : IsServer joined
  joined-IsServer = record {
    bound = omega arith;
    small = λ j hj. elim (Bool-cases (j == w.user_count)) [
      | inl e ↦ rw e small
      | inr e ↦ rw e (wf.small j (ground arith))
    ];
    mapped = λ j hj. elim (Bool-cases (j == w.user_count)) [
      | inl e ↦ let is : w.user_count ≡ j = ground arith in rw (e, ==_refl pid) (ap pos is)
      | inr e ↦
          let h : j < w.user_count = ground arith in
          let o =
            ne→== (w.users j).pid pid
              (new (w.users j) (record { index = j; below = h; entry = refl })) in
          rw (e, o) (wf.mapped j h)
    ];
  }

  pub joined-IsUser : (u : Client) → IsUser joined u ↔ (IsUser w u ⊎ (u ≡ newcomer))
  joined-IsUser u = (to, from)
    where
      to : IsUser joined u → IsUser w u ⊎ (u ≡ newcomer)
      to is = elim (Bool-cases (is.index == w.user_count)) [
        | inl e ↦ let at : joined.users is.index ≡ newcomer = rw e in inr (sym is.entry ∙ at)
        | inr e ↦
            let h = is.below in
            let at : joined.users is.index ≡ w.users is.index = rw e in
            inl (record { index = is.index; below = ground arith; entry = sym at ∙ is.entry })
      ]

      from : IsUser w u ⊎ (u ≡ newcomer) → IsUser joined u
      from (inl is) =
          let h = is.below in
          record {
            index = is.index;
            below = omega arith;
            entry = rw (ne→== is.index w.user_count (omega arith)) is.entry;
          }
      from (inr e) = record {
        index = w.user_count;
        below = omega arith;
        entry = rw (==_refl w.user_count) (sym e);
      }

  -- While there is room, a connection for which `socketpair` and `fork` succeed, with a child that
  -- is below `PROCESS_LIMIT` and serves no user, becomes a user. The others stay, and the mapping
  -- from children to users holds. The parent closes the connection and the child's
  -- end of the pipe, and watches its own end.
  pub accept_user-joins :
      Returns
        (λ w'.
          IsServer w'
          × (w'.user_count ≡ w.user_count + 1)
          × ((u : Client) → IsUser w' u ↔ (IsUser w u ⊎ (u ≡ newcomer)))
          × (w'.actions ≡ w.actions ++ close_fd connfd ∷ close_fd pipefd1 ∷ add_fd pipefd0 ∷ []))
        (accept_user w arrival)
  accept_user-joins = (joined, accept_user-joined, (joined-IsServer, refl, joined-IsUser, refl))
