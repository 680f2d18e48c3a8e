-- ===== src/ShmChat/Shared.antt =====
-- Two children of ShmChat.cpp with one segment of the memory.
use linux_server_programming.Base.{
  ℕ, ◌+◌, ◌-◌, ◌<◌, ◌≤◌, ◌≡◌, ◌≢◌, ap, true, ◌∙◌, refl, subst, arith, false, some, List, [], ◌∷◌,
  ◌++◌, length, Returns, inl, inr,
}
use linux_server_programming.ShmChat.{
  Client, Server, user_limit, process_limit, reap, accept_user, new_server,
}
use linux_server_programming.ShmChat.ReapAll.{has_pid}
use linux_server_programming.ShmChat.Joined.{
  get_elem?, arrival_of, join_all, AllNew, pids_of, get_elem?-has_pid, join_all-AllJoined,
}
use linux_server_programming.ShmChat.Invariant.{
  IsServer, IsUser, pid_injective, new_server-IsServer,
}
use linux_server_programming.ShmChat.Reap.{reap-Reaped}
use linux_server_programming.ShmChat.Accept.{accept_user-joins}
use linux_server_programming.ShmChild.{
  buffer_size, data_read, to_client, Child, start_child, read_client, read_parent,
}
use linux_server_programming.ShmChild.Segment.{zeros, read_client-read_parent}

-- `a` reads `old` from its client and `b` reads `new` from its own before the message of `a` comes
-- to `d`: its client gets `new`.
abbrev pub Overwritten : (a b d : Child) (old new : List ℕ) → Type 0
Overwritten a b d old new =
    Returns
      (λ a'.
        Returns
          (λ b'.
            Returns
              (λ d'. d'.sent ≡ d.sent ++ to_client (new ++ zeros (buffer_size - length new)) ∷ [])
              (read_parent (record d { share_mem = b'.share_mem }) (data_read a.idx)))
          (read_client (record b { share_mem = a'.share_mem }) (data_read new)))
      (read_client a (data_read old))

overwritten :
    (a b d : Child) (old new : List ℕ)
    → a.idx < user_limit
    → b.idx ≡ a.idx
    → length old < buffer_size
    → length new < buffer_size
    → Overwritten a b d old new
overwritten a b d old new room same short short' =
    let (a', run, _) = read_client-read_parent a d old room short in
    let (b', run', (_, _, read)) =
      read_client-read_parent (record b { share_mem = a'.share_mem }) d new (omega arith) short' in
    (
      a',
      run,
      (
        b',
        run',
        subst
            (λ i.
              Returns
                (λ d'. d'.sent ≡ d.sent ++ to_client (new ++ zeros (buffer_size - length new)) ∷ [])
                (read_parent (record d { share_mem = b'.share_mem }) (data_read i)))
            same read,
      ),
    )

-- The child of user `i`, who is not the last, ends, and a new connection comes, on a server where
-- the child `a` of the last user has the last index.
reap-start_child_at :
    (w : Server) (i address connfd pipefd0 pipefd1 pid : ℕ) (a d : Child) (old new : List ℕ)
    → IsServer w
    → i + 1 < w.user_count
    → pid < process_limit
    → ((u : Client) → IsUser w u → u.pid ≢ pid)
    → a.idx + 1 ≡ w.user_count
    → length old < buffer_size
    → length new < buffer_size
    → Returns
        (λ w1.
          ((start_child w1 a.share_mem).idx ≡ a.idx)
          × Returns
              (λ w2.
                IsUser w2 (w.users (w.user_count - 1)) × (v : Client) × IsUser w2 v × (v.pid ≡ pid))
              (accept_user w1 (record {
                connfd = some connfd;
                address = address;
                pipe = some (pipefd0, pipefd1);
                pid = some pid;
              }))
          × Overwritten a (start_child w1 a.share_mem) d old new)
        (reap w ((w.users i).pid))
unfolding start_child
reap-start_child_at w i address connfd pipefd0 pipefd1 pid a d old new wf hi small other given short
      short' =
    let bound = wf.bound in
    let gone : IsUser w (w.users i) = record { index = i; below = omega arith; entry = refl } in
    let last : IsUser w (w.users (w.user_count - 1)) = record {
      index = w.user_count - 1;
      below = omega arith;
      entry = refl;
    } in
    let (w1, run1, (wf1, count, users, _, _, _)) = reap-Reaped w (w.users i) wf gone in
    let stays : IsUser w1 (w.users (w.user_count - 1)) = (users (w.users (w.user_count - 1))).1 (
      last,
      λ e.
          let is = pid_injective w (w.user_count - 1) i wf (omega arith) (omega arith) e in
          omega arith,
    ) in
    let (w2, run2, (_, _, users2, _)) =
      accept_user-joins w1 wf1 address connfd pipefd0 pipefd1 pid (omega arith) small
        (λ u is. other u ((users u).0 is).0) in
    let b : Child = record {
      idx = w1.user_count;
      share_mem = a.share_mem;
      stop_child = false;
      sent = [];
    } in
    (
      w1,
      run1,
      (
        omega arith,
        (w2, run2, ((users2 _).1 (inl stays), _, (users2 _).1 (inr refl), refl)),
        overwritten a b d old new (omega arith) (omega arith) short short',
      ),
    )

-- Clients join a new server one after another, none of them has left, and `a` is the child that was
-- started for the last of them, who is still the last of the users. Now the child of another of
-- them ends, and a new connection comes, for which `socketpair` and `fork` succeed. The last user
-- stays, and the new child is started with the index that `a` has. Where both read from their clients
-- before a third child passes on the message of `a`, that child's client gets the message of the
-- new one. The numbers of all these children are distinct and below `PROCESS_LIMIT`.
pub reap-start_child :
    (users : ℕ → Client) (us : List Client) (u : Client) (i : ℕ) (mem : ℕ → ℕ) (d : Child)
    (old new : List ℕ)
    → length us ≤ user_limit
    → AllNew (u ∷ us)
    → i + 1 < length us
    → length old < buffer_size
    → length new < buffer_size
    → Returns
        (λ r.
          let w = r.0 in
          (a : Child) × (get_elem? r.1 (length us - 1) ≡ some a)
          × (get_elem? us (length us - 1) ≡ some (w.users (w.user_count - 1)))
          × (get_elem? us i ≡ some (w.users i))
          × Returns
              (λ w1.
                ((start_child w1 mem).idx ≡ a.idx)
                × Returns
                    (λ w2.
                      IsUser w2 (w.users (w.user_count - 1))
                      × (v : Client) × IsUser w2 v
                      × (v.pid ≡ u.pid))
                    (accept_user w1 (arrival_of u))
                × Overwritten a (start_child w1 mem) d old new)
              (reap w ((w.users i).pid)))
        (join_all us mem (new_server users))
unfolding new_server
reap-start_child users us u i mem d old new room (small, first, others) hi short short' =
    let w0 = new_server users in
    let (r, run, all) =
      join_all-AllJoined us w0 mem (new_server-IsServer users) (omega arith) others
        (λ v is. let h = is.below in absurd (omega arith)) in
    let w = r.0 in
    let size : w.user_count ≡ length us = all.size ∙ (omega arith) in
    let (a, at, idx, same) = all.children (length us - 1) (omega arith) in
    let entry : (j : ℕ) → j < length us → get_elem? us j ≡ some (w.users j) = λ j h.
      let is : w0.user_count + j ≡ j = omega arith in
      all.entries j h ∙ ap (λ k. some (w.users k)) is in
    let last : length us - 1 ≡ w.user_count - 1 = omega arith in
    let differs : (v : Client) → IsUser w v → v.pid ≢ u.pid = λ v is e.
      let h = is.below in
      let there =
        get_elem?-has_pid us is.index v (entry is.index (omega arith) ∙ ap some is.entry) in
      let both : has_pid u.pid (pids_of us) ≡ true =
        subst (λ p. has_pid p (pids_of us) ≡ true) e there in
      ground arith in
    (
      r,
      run,
      (
        a,
        at,
        entry (length us - 1) (omega arith) ∙ ap (λ k. some (w.users k)) last,
        entry i (omega arith),
        subst
            (λ m.
              Returns
                (λ w1.
                  ((start_child w1 m).idx ≡ a.idx)
                  × Returns
                      (λ w2.
                        IsUser w2 (w.users (w.user_count - 1))
                        × (v : Client) × IsUser w2 v
                        × (v.pid ≡ u.pid))
                      (accept_user w1 (arrival_of u))
                  × Overwritten a (start_child w1 m) d old new)
                (reap w ((w.users i).pid)))
            same
            (reap-start_child_at w i u.address u.connfd u.pipefd0 u.pipefd1 u.pid a d old new
              all.valid (omega arith) small differs (omega arith) short short'),
      ),
    )
