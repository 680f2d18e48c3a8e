-- ===== src/Process/Epoll.antt =====
-- A process that waits for events of descriptors it has registered with epoll.
use linux_server_programming.Base.{
  ℕ, ◌≤◌, ◌≡◌, ◌≢◌, arith, true, ◌&&◌, not, List, [], ◌∷◌, ◌==◌, if◌then◌else◌, pos,
}
use linux_server_programming.Process.{Sys, epoll_add, epoll_del, epoll_wait, close, Event, Answer}
use linux_server_programming.Process.Kernel.{Kernel}
use linux_server_programming.Process.Files.{
  holds, Allowed, Granted, GrantedBelow, GrantedBelow-Granted, fd_limit, after,
}

-- the open descriptors, and those that are registered
pub record Watch : Type 0 where
  pub opened_fds : List ℕ
  pub watched : List ℕ

abbrev pub forget : ℕ → List ℕ → List ℕ
forget n [] = []
forget n (m ∷ l) = let rest = forget n l in if n == m then rest else m ∷ rest

pub holds-forget : (n m : ℕ) (l : List ℕ) → holds m (forget n l) ≡ not (m == n) && holds m l
holds-forget n m [] = ground arith
holds-forget n m (a ∷ l) = ground (arith, holds-forget n m l)

-- No event of these is of descriptor `n`.
abbrev pub NoEvent : ℕ → List Event → Type 0
NoEvent n [] = Unit
NoEvent n (e ∷ es) = (e.fd ≢ pos n) × NoEvent n es

-- Each event is of another descriptor that is registered.
abbrev pub AreEvents : List ℕ → List Event → Type 0
AreEvents l [] = Unit
AreEvents l (e ∷ es) = (n : ℕ) × (e.fd ≡ pos n) × (holds n l ≡ true) × NoEvent n es × AreEvents l es

abbrev pub Reported : List ℕ → Sys → Answer → Type 0
Reported l (epoll_wait _) r = AreEvents l r.events
Reported l _ r = Unit

abbrev pub watching : List ℕ → Sys → List ℕ
watching l (epoll_add _ (pos n)) = n ∷ l
watching l (epoll_del _ (pos n)) = forget n l
watching l (close (pos n)) = forget n l
watching l _ = l

-- `epoll_wait` reports no descriptor twice, and only those that are registered and not closed.
abbrev pub epoll : Kernel Watch
epoll = record {
  allowed = λ s c. Allowed s.opened_fds c;
  granted = λ s c r. Granted s.opened_fds c r × Reported s.watched c r;
  after = λ s c r. record { opened_fds = after s.opened_fds c r; watched = watching s.watched c };
}

-- the same kernel, where every descriptor that it gives is below `limit`
abbrev pub epoll_below : (limit : ℕ) → Kernel Watch
epoll_below limit = record epoll {
  granted = λ s c r. GrantedBelow limit s.opened_fds c r × Reported s.watched c r;
}

pub epoll_below-epoll :
    (limit : ℕ) (s : Watch) (c : Sys) (r : Answer)
    → limit ≤ fd_limit
    → (epoll_below limit).granted s c r
    → epoll.granted s c r
epoll_below-epoll limit s c r h (g, reported) =
    (GrantedBelow-Granted limit s.opened_fds c r h g, reported)
