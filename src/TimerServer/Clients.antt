-- ===== src/TimerServer/Clients.antt =====
-- The clients of a timer server: a descriptor and a timer for each.
-- `owner` tells for the address of a timer which client it belongs to.
use linux_server_programming.Base.{
  ℕ, ◌<◌, ◌≡◌, ◌≢◌, ◌⊎◌, sym, ◌∙◌, ap, subst, arith, true, false, Option, none, some, List, ◌∷◌,
  ◌==◌, if◌then◌else◌, Bool-cases, inl, inr, ne→==, ==_refl, pos,
}
use linux_server_programming.Memory.{Ptr}
use linux_server_programming.Process.Files.{holds, drop_fd, holds-drop_fd, fd_limit}
use linux_server_programming.Process.Epoll.{Watch, forget, holds-forget}
use linux_server_programming.TimerServer.{ClientData, Fds}

-- the numbers of the server's own descriptors
pub record Own : Type 0 where
  pub listen_fd : ℕ
  pub epoll_fd : ℕ
  pub pipe0 : ℕ
  pub pipe1 : ℕ

abbrev pub fds_of : Own → Fds
fds_of b = record {
  listen_fd = pos b.listen_fd;
  epoll_fd = pos b.epoll_fd;
  pipe0 = pos b.pipe0;
  pipe1 = pos b.pipe1;
}

abbrev pub IsOther : Own → ℕ → Type 0
IsOther b n = (n ≢ b.listen_fd) × (n ≢ b.epoll_fd) × (n ≢ b.pipe0) × (n ≢ b.pipe1)

abbrev pub AreOpen : Own → List ℕ → Type 0
AreOpen b l =
    (holds b.listen_fd l ≡ true)
    × (holds b.epoll_fd l ≡ true)
    × (holds b.pipe0 l ≡ true)
    × (holds b.pipe1 l ≡ true)

abbrev pub Owner : Type 0
Owner = Ptr → Option ℕ

-- Each timer belongs to a client, with an open descriptor, whose entry of `users` leads back to it;
-- and what is registered with epoll is the listening socket, the pipe or such a client.
pub record IsServing (owner : Owner) (b : Own) (users : ℕ → ClientData) (s : Watch) : Type 0 where
  pub own : AreOpen b s.opened_fds
  pub mine :
      (p n : ℕ)
      → owner p ≡ some n
      → (users n ≡ record { sock_fd = pos n; timer = some p })
        × (holds n s.opened_fds ≡ true)
        × (n < fd_limit)
        × IsOther b n
  pub known :
      (n : ℕ)
      → holds n s.watched ≡ true
      → (n ≡ b.listen_fd) ⊎ (n ≡ b.pipe0) ⊎ ((p : Ptr) × (owner p ≡ some n))

abbrev pub without : Ptr → Owner → Owner
without p owner = λ q. if q == p then none else owner q

abbrev pub with_timer : Ptr → ℕ → Owner → Owner
with_timer p n owner = λ q. if q == p then some n else owner q

module _ (owner : Owner) (b : Own) (users : ℕ → ClientData) (s : Watch)
    (t : IsServing owner b users s) where
  -- no two timers belong to one client
  pub same_timer : (p q n : ℕ) → owner p ≡ some n → owner q ≡ some n → p ≡ q
  same_timer p q n ep eq =
      let (up, _, _, _) = t.mine p n ep in
      let (uq, _, _, _) = t.mine q n eq in
      let same : some p ≡ some q = ap (λ u. u.timer) (sym up ∙ uq) in cc

  -- a client is closed
  pub close-IsServing :
      (p n : ℕ)
      → owner p ≡ some n
      → IsServing
          (without p owner)
          b
          users
          (record { opened_fds = drop_fd n s.opened_fds; watched = forget n (forget n s.watched) })
  close-IsServing p n e =
      let (_, _, _, (o1, o2, o3, o4)) = t.mine p n e in
      let (h1, h2, h3, h4) = t.own in
      let kept : (m : ℕ) → m ≢ n → holds m (drop_fd n s.opened_fds) ≡ holds m s.opened_fds =
        λ m. holds-drop_fd m n s.opened_fds in
      record {
        own = (
          kept b.listen_fd (λ q. o1 (sym q)) ∙ h1,
          kept b.epoll_fd (λ q. o2 (sym q)) ∙ h2,
          kept b.pipe0 (λ q. o3 (sym q)) ∙ h3,
          kept b.pipe1 (λ q. o4 (sym q)) ∙ h4,
        );
        mine = λ q m. elim (Bool-cases (q == p)) [
          | inl here ↦ rw here (λ z. cc)
          | inr there ↦ rw there (λ eq.
              let (u, held, small, other) = t.mine q m eq in
              let o : m ≢ n =
                λ same. let is = same_timer q p n (eq ∙ ap some same) e in ground arith in
              (u, kept m o ∙ held, small, other))
        ];
        known = λ m held.
            let facts : (holds m s.watched ≡ true) × ((m == n) ≡ false) =
              ground (arith, holds-forget n m (forget n s.watched), holds-forget n m s.watched) in
            elim (t.known m facts.0) [
              | inl is ↦ inl is
              | inr (inl is) ↦ inr (inl is)
              | inr (inr (q, eq)) ↦
                  let o : (q == p) ≡ false = ne→== q p (λ is.
                    let same : some m ≡ some n = sym eq ∙ ap owner is ∙ e in
                    let nm : m ≡ n = cc in ground arith) in
                  inr (inr (q, rw o eq))
            ];
      }

  -- a new client
  pub join-IsServing :
      (p n : ℕ) (users' : ℕ → ClientData)
      → owner p ≡ none
      → holds n s.opened_fds ≡ false
      → n < fd_limit
      → users' n ≡ record { sock_fd = pos n; timer = some p }
      → ((m : ℕ) → m ≢ n → users' m ≡ users m)
      → IsServing
          (with_timer p n owner)
          b
          users'
          (record { opened_fds = n ∷ s.opened_fds; watched = n ∷ s.watched })
  join-IsServing p n users' free new small at others =
      let (h1, h2, h3, h4) = t.own in
      let o : (m : ℕ) → holds m s.opened_fds ≡ true → m ≢ n =
        λ m h q. let there = subst (λ k. holds k s.opened_fds ≡ true) q h in cc in
      record {
        own = (
          rw (ne→== b.listen_fd n (o b.listen_fd h1)) h1,
          rw (ne→== b.epoll_fd n (o b.epoll_fd h2)) h2,
          rw (ne→== b.pipe0 n (o b.pipe0 h3)) h3,
          rw (ne→== b.pipe1 n (o b.pipe1 h4)) h4,
        );
        mine = λ q m. elim (Bool-cases (q == p)) [
          | inl here ↦ rw here (λ z.
              let is : n ≡ m = cc in
              let qp : q ≡ p = ground arith in
              subst
                (λ k.
                  (users' k ≡ record { sock_fd = pos k; timer = some q })
                  × (holds k (n ∷ s.opened_fds) ≡ true)
                  × (k < fd_limit)
                  × IsOther b k)
                is
                (
                  at ∙ ap (λ r. record { sock_fd = pos n; timer = some r }) (sym qp),
                  rw (==_refl n),
                  small,
                  (
                    λ e. o b.listen_fd h1 (sym e),
                    λ e. o b.epoll_fd h2 (sym e),
                    λ e. o b.pipe0 h3 (sym e),
                    λ e. o b.pipe1 h4 (sym e),
                  ),
                ))
          | inr there ↦ rw there (λ eq.
              let (u, held, below, other) = t.mine q m eq in
              (others m (o m held) ∙ u, rw (ne→== m n (o m held)) held, below, other))
        ];
        known = λ m held. elim (Bool-cases (m == n)) [
          | inl e ↦
              let is : m ≡ n = ground arith in inr (inr (p, rw (==_refl p) (ap some (sym is))))
          | inr e ↦ elim (t.known m (ground arith)) [
            | inl is ↦ inl is
            | inr (inl is) ↦ inr (inl is)
            | inr (inr (q, eq)) ↦
                let qp : (q == p) ≡ false =
                  ne→== q p (λ is. let z = sym eq ∙ ap owner is ∙ free in cc) in
                inr (inr (q, rw qp eq))
          ]
        ];
      }
