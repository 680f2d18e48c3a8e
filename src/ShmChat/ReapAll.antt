-- ===== src/ShmChat/ReapAll.antt =====
-- The loop over `waitpid` of ShmChat.cpp.
use linux_server_programming.Base.{
  ℕ, ◌+◌, ◌≡◌, ◌≢◌, ◌↔◌, refl, ◌∙◌, arith, ◌==◌, ◌||◌, Bool, true, false, List, [], ◌∷◌, ◌++◌,
  Returns, length, sym, subst, ok,
}
use linux_server_programming.ShmChat.{Client, Server, reap, reap_all}
use linux_server_programming.ShmChat.Invariant.{IsServer, IsUser}
use linux_server_programming.ShmChat.Reap.{Reaped, reap-Reaped}

abbrev pub has_pid : ℕ → List ℕ → Bool
has_pid pid [] = false
has_pid pid (p ∷ ps) = (pid == p) || has_pid pid ps

-- The children are distinct and serve users of `w`.
unfoldable pub Children : Server → List ℕ → Type 0
Children w [] = Unit
Children w (pid ∷ pids) =
    ((u : Client) × IsUser w u × (u.pid ≡ pid)) × (has_pid pid pids ≡ false) × Children w pids

module _ (w : Server) (pids : List ℕ) where
  -- what the end of those children does
  pub record ReapedAll (w' : Server) : Type 0 where
    pub valid : IsServer w'
    pub size : w'.user_count + length pids ≡ w.user_count
    pub present : (v : Client) → IsUser w' v ↔ (IsUser w v × (has_pid v.pid pids ≡ false))
    pub terminate : w'.terminate ≡ w.terminate
    pub stop_server : w'.stop_server ≡ w.stop_server

pub Children-same :
    (w w' : Server) (pids : List ℕ)
    → ((u : Client) → IsUser w u → IsUser w' u)
    → Children w pids
    → Children w' pids
unfolding Children
Children-same w w' [] f cs = cs
Children-same w w' (pid ∷ pids) f ((u, is, at), o, cs) =
    ((u, f u is, at), o, Children-same w w' pids f cs)

-- the children that have not ended yet still serve users
Children-Reaped :
    (w w' : Server) (u : Client) (pids : List ℕ)
    → Reaped w u w'
    → has_pid u.pid pids ≡ false
    → Children w pids
    → Children w' pids
unfolding Children
Children-Reaped w w' u [] done new cs = cs
Children-Reaped w w' u (pid ∷ pids) done new ((v, is, at), o, cs) =
    let (_, _, iff, _, _, _) = done in
    let o' : v.pid ≢ u.pid = λ e. ground (arith, at) in
    let new' : has_pid u.pid pids ≡ false = ground arith in
    ((v, (iff v).1 (is, o'), at), o, Children-Reaped w w' u pids done new' cs)

-- Once distinct children of users have ended, `reap_all` returns. Exactly their users are removed.
pub reap_all-ReapedAll :
    (pids : List ℕ) (w : Server)
    → IsServer w
    → Children w pids
    → Returns (ReapedAll w pids) (reap_all pids w)
unfolding reap_all Children
reap_all-ReapedAll [] w wf cs = (
  w,
  refl,
  record {
    valid = wf;
    size = omega arith;
    present = λ v. ((λ is. (is, refl)), λ (is, _). is);
    terminate = refl;
    stop_server = refl;
  },
)
reap_all-ReapedAll (pid ∷ pids) w wf ((u, is, at), o, cs) =
    let (w1, run1, done) = reap-Reaped w u wf is in
    let (wf1, n, iff, t, s, log) = done in
    let (w2, run2, all) =
      reap_all-ReapedAll pids w1 wf1
        (Children-Reaped w w1 u pids done (subst (λ p. has_pid p pids ≡ false) (sym at) o) cs) in
    let size = all.size in
    let runs : reap w pid ≡ ok w1 = subst (λ p. reap w p ≡ ok w1) at run1 in
    (
      w2,
      rw (runs) run2,
      record {
        valid = all.valid;
        size = omega arith;
        present = λ v. (
          (λ is'.
              let (is1, out) = (all.present v).0 is' in
              let (is0, ne) = (iff v).0 is1 in (is0, ground (arith, at))),
          λ (is0, out).
              let ne : v.pid ≢ u.pid = λ e. ground (arith, at) in
              (all.present v).1 ((iff v).1 (is0, ne), ground arith),
        );
        terminate = all.terminate ∙ t;
        stop_server = all.stop_server ∙ s;
      },
    )

has_pid-append : (pid : ℕ) (l m : List ℕ) → has_pid pid (l ++ m) ≡ (has_pid pid l || has_pid pid m)
has_pid-append pid [] m = refl
has_pid-append pid (p ∷ l) m = let rest = has_pid-append pid l m in ground arith

-- the first of these children
pub Children-front : (w : Server) (l m : List ℕ) → Children w (l ++ m) → Children w l
unfolding Children
Children-front w [] m cs = tt
Children-front w (pid ∷ l) m (of, new, cs) =
    let both = has_pid-append pid l m in (of, ground arith, Children-front w l m cs)

Children-kept :
    (w w' : Server) (m : List ℕ)
    → ((v : Client) → IsUser w v → has_pid v.pid m ≡ true → IsUser w' v)
    → Children w m
    → Children w' m
unfolding Children
Children-kept w w' [] f cs = tt
Children-kept w w' (pid ∷ m) f ((u, is, at), o, cs) =
    ((u, f u is (ground arith), at), o, Children-kept w w' m (λ v is' e. f v is' (ground arith)) cs)

Children-behind :
    (w w' : Server) (l m : List ℕ)
    → ((v : Client) → IsUser w v → has_pid v.pid m ≡ true → has_pid v.pid l ≡ false → IsUser w' v)
    → Children w (l ++ m)
    → Children w' m
unfolding Children
Children-behind w w' [] m f cs = Children-kept w w' m (λ v is e. f v is e refl) cs
Children-behind w w' (pid ∷ l) m f (_, new, cs) =
    Children-behind w w' l m
      (λ v is e o.
        let both = has_pid-append pid l m in
        let differs : v.pid ≢ pid = λ at.
          let there : has_pid pid m ≡ true = subst (λ p. has_pid p m ≡ true) at e in ground arith in
        f v is e (ground arith))
      cs

-- the rest of them, when no user but those of the first has gone
pub Children-rest :
    (w w' : Server) (l m : List ℕ)
    → ((v : Client) → IsUser w v → has_pid v.pid l ≡ false → IsUser w' v)
    → Children w (l ++ m)
    → Children w' m
Children-rest w w' l m f cs = Children-behind w w' l m (λ v is _ o. f v is o) cs
