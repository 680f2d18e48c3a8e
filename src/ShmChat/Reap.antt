-- ===== src/ShmChat/Reap.antt =====
-- `reap` of ShmChat.cpp: the end of a client's child.
use linux_server_programming.Base.{
  ℕ, ◌+◌, ◌-◌, ◌<◌, ◌≡◌, ◌≢◌, ◌↔◌, refl, sym, ◌∙◌, ap, subst, arith, ltb, ok, pos, negsuc, ◌==◌,
  if◌then◌else◌, ◌++◌, [], ◌∷◌, Bool-cases, inl, inr, Returns, ne→==, false, ==_refl,
}
use linux_server_programming.ShmChat.{
  Client, Server, close_fd, del_fd, user_limit, reap, remove_user, perform,
}
use linux_server_programming.ShmChat.Invariant.{
  IsServer, IsUser, pid_injective, user-ok, set_user-ok, process-ok, set_process-ok,
}

module _ (w : Server) (wf : IsServer w) (i : ℕ) (hi : i < w.user_count) where
  abbrev gone : Client
  gone = w.users i

  abbrev last : Client
  last = w.users (w.user_count - 1)

  -- the table without user `i`
  abbrev left : Server
  left = record w {
    users = λ j. if j == i then last else w.users j;
    user_count = w.user_count - 1;
    sub_process =
        λ q. if q == last.pid then pos i else if q == gone.pid then negsuc 0 else w.sub_process q;
    actions = w.actions ++ del_fd gone.pipefd0 ∷ close_fd gone.pipefd0 ∷ [];
  }

  reap-left : reap w gone.pid ≡ ok left
  unfolding reap remove_user
  reap-left =
      let b = wf.bound in
      let small = wf.small i hi in
      let small' = wf.small (w.user_count - 1) (omega arith) in
      let w1 : Server = record w {
        sub_process = λ q. if q == gone.pid then negsuc 0 else w.sub_process q;
      } in
      let nonempty = ne→== w.user_count 0 (omega arith) in
      let w2 : Server = record (perform w1 (del_fd gone.pipefd0 ∷ close_fd gone.pipefd0 ∷ [])) {
        user_count = w.user_count - 1;
      } in
      let w3 : Server = record w2 { users = λ j. if j == i then last else w.users j } in
      let low : ltb user_limit i ≡ false = ground arith in
      rw (
        process-ok w gone.pid small,
        set_process-ok w gone.pid (negsuc 0) small,
        wf.mapped i hi,
        low,
        user-ok w1 i (omega arith),
        nonempty,
        user-ok (perform w1 (del_fd gone.pipefd0 ∷ close_fd gone.pipefd0 ∷ [])) (w.user_count - 1)
            (omega arith),
        set_user-ok w2 i last (omega arith),
        set_process-ok w3 last.pid (pos i) small',
      )

  left-IsServer : IsServer left
  left-IsServer =
      let b = wf.bound in
      let kept : (j : ℕ)
          → j < w.user_count
          → j ≢ i
          → j ≢ w.user_count - 1
          → left.sub_process ((w.users j).pid) ≡ pos j =
        λ j hj o o'.
          rw
            (
              ne→== (w.users j).pid last.pid
                  (λ e. o' (pid_injective w j (w.user_count - 1) wf hj (omega arith) e)),
              ne→== (w.users j).pid gone.pid (λ e. o (pid_injective w j i wf hj hi e)),
            )
            (wf.mapped j hj) in
      record {
        bound = omega arith;
        small = λ j hj. elim (Bool-cases (j == i)) [
          | inl e ↦ rw e (wf.small (w.user_count - 1) (omega arith))
          | inr e ↦ rw e (wf.small j (omega arith))
        ];
        mapped = λ j hj. elim (Bool-cases (j == i)) [
          | inl e ↦ let is : i ≡ j = ground arith in rw (e, ==_refl last.pid) (ap pos is)
          | inr e ↦ rw e (kept j (omega arith) (ground arith) (omega arith))
        ];
      }

  -- the users that are left
  left-IsUser : (u : Client) → IsUser left u ↔ (IsUser w u × (u.pid ≢ gone.pid))
  left-IsUser u = (to, from)
    where
      other : (k : ℕ) → k < w.user_count → k ≢ i → w.users k ≡ u → u.pid ≢ gone.pid
      other k hk o at e = o (pid_injective w k i wf hk hi (ap (λ v. v.pid) at ∙ e))

      to : IsUser left u → IsUser w u × (u.pid ≢ gone.pid)
      to is = elim (Bool-cases (is.index == i)) [
        | inl e ↦
            let h = is.below in
            let at : last ≡ u =
              subst (λ b. (if b then last else w.users is.index) ≡ u) e is.entry in
            (
              record { index = w.user_count - 1; below = omega arith; entry = at },
              other (w.user_count - 1) (omega arith) (ground arith) at,
            )
        | inr e ↦
            let h = is.below in
            let at : w.users is.index ≡ u =
              subst (λ b. (if b then last else w.users is.index) ≡ u) e is.entry in
            (
              record { index = is.index; below = omega arith; entry = at },
              other is.index (omega arith) (ground arith) at,
            )
      ]

      from : IsUser w u × (u.pid ≢ gone.pid) → IsUser left u
      from (is, ne) =
          let h = is.below in
          let o : is.index ≢ i =
            λ e. ne (ap (λ v. v.pid) (sym is.entry) ∙ ap (λ k. (w.users k).pid) e) in
          elim (Bool-cases (is.index == w.user_count - 1)) [
            | inl e ↦
                let k : is.index ≡ w.user_count - 1 = ground arith in
                record {
                  index = i;
                  below = omega arith;
                  entry = rw (==_refl i) (ap w.users (sym k) ∙ is.entry);
                }
            | inr e ↦ record {
              index = is.index;
              below = ground arith;
              entry = rw (ne→== is.index i o) is.entry;
            }
          ]

module _ (w : Server) (u : Client) where
  -- what the end of user `u`'s child does
  abbrev pub Reaped : Server → Type 0
  Reaped w' =
      IsServer w'
      × (w'.user_count + 1 ≡ w.user_count)
      × ((v : Client) → IsUser w' v ↔ (IsUser w v × (v.pid ≢ u.pid)))
      × (w'.terminate ≡ w.terminate)
      × (w'.stop_server ≡ w.stop_server)
      × (w'.actions ≡ w.actions ++ del_fd u.pipefd0 ∷ close_fd u.pipefd0 ∷ [])

-- When the child of a user has ended, `reap` returns. It removes that user and no other, and closes
-- the parent's end of the user's pipe.
pub reap-Reaped :
    (w : Server) (u : Client) → IsServer w → IsUser w u → Returns (Reaped w u) (reap w u.pid)
reap-Reaped w u wf is =
    subst (λ v. Returns (Reaped w v) (reap w v.pid)) is.entry
      (
        left w wf is.index is.below,
        reap-left w wf is.index is.below,
        (
          left-IsServer w wf is.index is.below,
          (let h = is.below in omega arith),
          left-IsUser w wf is.index is.below,
          refl,
          refl,
          refl,
        ),
      )
