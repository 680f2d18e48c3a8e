-- ===== src/ShmChat/Joined.antt =====
-- ShmChat.cpp's parent while its first clients come, with the children that it starts for them.
use linux_server_programming.Base.{
  ℕ, zero, suc, ◌+◌, ◌≤◌, ◌<◌, ◌≡◌, ◌≢◌, refl, sym, subst, ap, ◌∙◌, arith, true, false, Option,
  none, some, List, [], ◌∷◌, inl, inr, length, ne→==, ==_refl, Returns, Run, ok, ◌>>=◌,
}
use linux_server_programming.ShmChat.{
  Client, Server, Arrival, user_limit, process_limit, accept_user,
}
use linux_server_programming.ShmChat.Invariant.{IsServer, IsUser}
use linux_server_programming.ShmChat.ReapAll.{has_pid}
use linux_server_programming.ShmChat.Accept.{
  joined, accept_user-joined, joined-IsServer, joined-IsUser,
}
use linux_server_programming.ShmChild.{Child, start_child}

abbrev pub get_elem? : {A : Type 0} → List A → ℕ → Option A
get_elem? [] n = none
get_elem? (a ∷ l) zero = some a
get_elem? (a ∷ l) (suc n) = get_elem? l n

-- a connection for which `socketpair` and `fork` succeed
abbrev pub arrival_of : Client → Arrival
arrival_of u = record {
  connfd = some u.connfd;
  address = u.address;
  pipe = some (u.pipefd0, u.pipefd1);
  pid = some u.pid;
}

-- These connections come one after another. The results are the parent and the children that are
-- started, each from the table as it is at its `fork`.
unfoldable pub join_all : List Client → (share_mem : ℕ → ℕ) → Server → Run (Server × List Child)
join_all [] share_mem w = ok (w, [])
join_all (u ∷ us) share_mem w = do
  w1 ← accept_user w (arrival_of u)
  (w2, cs) ← join_all us share_mem w1
  ok (w2, start_child w share_mem ∷ cs)

abbrev pub pids_of : List Client → List ℕ
pids_of [] = []
pids_of (u ∷ us) = u.pid ∷ pids_of us

-- The children's numbers are distinct and below `PROCESS_LIMIT`.
abbrev pub AllNew : List Client → Type 0
AllNew [] = Unit
AllNew (u ∷ us) = (u.pid < process_limit) × (has_pid u.pid (pids_of us) ≡ false) × AllNew us

pub get_elem?-has_pid :
    (us : List Client) (j : ℕ) (u : Client)
    → get_elem? us j ≡ some u
    → has_pid u.pid (pids_of us) ≡ true
get_elem?-has_pid [] j u e = cc
get_elem?-has_pid (v ∷ us) zero u e =
    let at : v.pid ≡ u.pid = ap (λ o. elim o [ none ↦ 0 | some c ↦ c.pid ]) e in
    rw (at, ==_refl u.pid)
get_elem?-has_pid (v ∷ us) (suc j) u e = let rest = get_elem?-has_pid us j u e in ground arith

module _ (w : Server) (us : List Client) (share_mem : ℕ → ℕ) where
  -- User `count + j` is the client that came `j`th, and the child started for it has this index.
  pub record AllJoined (r : Server × List Child) : Type 0 where
    pub valid : IsServer r.0
    pub size : r.0.user_count ≡ w.user_count + length us
    pub kept : (j : ℕ) → j < w.user_count → r.0.users j ≡ w.users j
    pub entries : (j : ℕ) → j < length us → get_elem? us j ≡ some (r.0.users (w.user_count + j))
    pub children :
        (j : ℕ)
        → j < length us
        → (c : Child) × (get_elem? r.1 j ≡ some c)
          × (c.idx ≡ w.user_count + j)
          × (c.share_mem ≡ share_mem)

entries-cons :
    (w w1 w2 : Server) (u : Client) (us : List Client)
    → w1.user_count ≡ w.user_count + 1
    → w1.users w.user_count ≡ u
    → ((j : ℕ) → j < w1.user_count → w2.users j ≡ w1.users j)
    → ((j : ℕ) → j < length us → get_elem? us j ≡ some (w2.users (w1.user_count + j)))
    → (j : ℕ) → j < length (u ∷ us)
    → get_elem? (u ∷ us) j ≡ some (w2.users (w.user_count + j))
entries-cons w w1 w2 u us size first kept rest zero h =
    let at : w.user_count ≡ w.user_count + 0 = omega arith in
    ap some (sym first ∙ sym (kept w.user_count (omega arith)) ∙ ap w2.users at)
entries-cons w w1 w2 u us size first kept rest (suc j) h =
    let at : w1.user_count + j ≡ w.user_count + suc j = omega arith in
    rest j (omega arith) ∙ ap (λ i. some (w2.users i)) at

children-cons :
    (w w1 : Server) (us : List Client) (cs : List Child) (share_mem : ℕ → ℕ)
    → w1.user_count ≡ w.user_count + 1
    → ((j : ℕ)
        → j < length us
        → (c : Child) × (get_elem? cs j ≡ some c)
          × (c.idx ≡ w1.user_count + j)
          × (c.share_mem ≡ share_mem))
    → (j : ℕ) → j < suc (length us)
    → (c : Child) × (get_elem? (start_child w share_mem ∷ cs) j ≡ some c)
      × (c.idx ≡ w.user_count + j)
      × (c.share_mem ≡ share_mem)
unfolding start_child
children-cons w w1 us cs share_mem size rest zero h =
    (start_child w share_mem, refl, omega arith, refl)
children-cons w w1 us cs share_mem size rest (suc j) h =
    let (c, at, i, m) = rest j (omega arith) in (c, at, omega arith, m)

pub join_all-AllJoined :
    (us : List Client) (w : Server) (share_mem : ℕ → ℕ)
    → IsServer w
    → w.user_count + length us ≤ user_limit
    → AllNew us
    → ((v : Client) → IsUser w v → has_pid v.pid (pids_of us) ≡ false)
    → Returns (AllJoined w us share_mem) (join_all us share_mem w)
unfolding join_all start_child
join_all-AllJoined [] w share_mem wf room new other = (
  (w, []),
  refl,
  record {
    valid = wf;
    size = omega arith;
    kept = λ j h. refl;
    entries = λ j h. absurd (omega arith);
    children = λ j h. absurd (omega arith);
  },
)
join_all-AllJoined (u ∷ us) w share_mem wf room (small, first, new) other =
    let free : w.user_count < user_limit = omega arith in
    let differs : (v : Client) → IsUser w v → v.pid ≢ u.pid =
      λ v is e. let o = other v is in ground arith in
    let w1 = joined w wf u.address u.connfd u.pipefd0 u.pipefd1 u.pid free small differs in
    let run1 =
      accept_user-joined w wf u.address u.connfd u.pipefd0 u.pipefd1 u.pid free small differs in
    let wf1 =
      joined-IsServer w wf u.address u.connfd u.pipefd0 u.pipefd1 u.pid free small differs in
    let still : (v : Client) → IsUser w1 v → has_pid v.pid (pids_of us) ≡ false = λ v is.
      elim ((joined-IsUser w wf u.address u.connfd u.pipefd0 u.pipefd1 u.pid free small differs v).0
        is) [
          | inl old ↦ let o = other v old in ground arith
          | inr e ↦ subst (λ p. has_pid p (pids_of us) ≡ false) (sym (ap (λ c. c.pid) e)) first
        ] in
    let (r, run2, all) = join_all-AllJoined us w1 share_mem wf1 (omega arith) new still in
    let size = all.size in
    (
      (r.0, start_child w share_mem ∷ r.1),
      rw (run1, run2) refl,
      record {
        valid = all.valid;
        size = omega arith;
        kept = λ j h. all.kept j (omega arith) ∙ rw (ne→== j w.user_count (omega arith));
        entries =
            entries-cons w w1 r.0 u us (omega arith) (rw (==_refl w.user_count) refl) all.kept
              all.entries;
        children = children-cons w w1 us r.1 share_mem (omega arith) all.children;
      },
    )
