-- ===== src/Process/Files.antt =====
-- Which descriptors a process holds, and what it is for it to use no others.
use linux_server_programming.Base.{
  refl, ne→==, sym, ◌∙◌, ℕ, ◌≡◌, ◌≢◌, Bool, true, false, ◌||◌, List, [], ◌∷◌, ◌==◌, ◌≤◌, ◌<◌, arith,
  not, ==_refl, Bool-cases, inl, inr, if◌then◌else◌, ℤ, pos, negsuc, length,
}
use linux_server_programming.Process.{
  pipe, splice, open_shared, resize, map_shared, epoll_del, alarm, time, allocate, Sys, socket,
  bind, connect, listen, accept, close, recv, send, set_option, get_option, epoll_create,
  epoll_wait, epoll_add, set_nonblocking, socketpair, add_signal, poll, stat, open_file, read_file,
  writev, Answer, Prog, ◌>>=◌, is_neg, is_minus_one, assert,
}
use linux_server_programming.Process.Kernel.{Kernel, Throughout}

abbrev pub holds : ℕ → List ℕ → Bool
holds n [] = false
holds n (m ∷ l) = (n == m) || holds n l

pub holds_first : (n : ℕ) (l : List ℕ) → holds n (n ∷ l) ≡ true
holds_first n l = rw (==_refl n)

pub holds_second : (n m : ℕ) (l : List ℕ) → holds n (m ∷ n ∷ l) ≡ true
holds_second n m l = elim (Bool-cases (n == m)) [ inl e ↦ rw e | inr e ↦ rw (e, ==_refl n) ]

abbrev pub drop_fd : ℕ → List ℕ → List ℕ
drop_fd n [] = []
drop_fd n (m ∷ l) = if n == m then l else m ∷ drop_fd n l

pub holds-drop_fd : (a b : ℕ) (l : List ℕ) → a ≢ b → holds a (drop_fd b l) ≡ holds a l
holds-drop_fd a b [] o = refl
holds-drop_fd a b (m ∷ l) o = elim (Bool-cases (b == m)) [
  | inl e ↦ let is : b ≡ m = ground arith in rw (e, ne→== a m (λ q. o (q ∙ sym is)))
  | inr e ↦ rw (e, holds-drop_fd a b l o)
]

abbrev pub IsOpen : List ℕ → ℤ → Type 0
IsOpen l (pos n) = holds n l ≡ true
IsOpen l (negsuc _) = ⊥

abbrev pub AllOpen : List ℕ → List ℤ → Type 0
AllOpen l [] = Unit
AllOpen l (fd ∷ fds) = IsOpen l fd × AllOpen l fds

-- The descriptors of the call are open.
abbrev pub Allowed : List ℕ → Sys → Type 0
Allowed l (socket _) = Unit
Allowed l (bind fd _) = IsOpen l fd
Allowed l (connect fd _) = IsOpen l fd
Allowed l (listen fd _) = IsOpen l fd
Allowed l (accept fd) = IsOpen l fd
Allowed l (close fd) = IsOpen l fd
Allowed l (recv fd _) = IsOpen l fd
Allowed l (send fd _) = IsOpen l fd
Allowed l (set_option fd _) = IsOpen l fd
Allowed l (get_option fd _) = IsOpen l fd
Allowed l epoll_create = Unit
Allowed l (epoll_wait fd) = IsOpen l fd
Allowed l (epoll_add efd fd) = IsOpen l efd × IsOpen l fd
Allowed l (set_nonblocking fd) = IsOpen l fd
Allowed l socketpair = Unit
Allowed l (add_signal _) = Unit
Allowed l (poll fds) = AllOpen l fds
Allowed l stat = Unit
Allowed l open_file = Unit
Allowed l (read_file fd _) = IsOpen l fd
Allowed l (writev fd _) = IsOpen l fd
Allowed l (epoll_del efd fd) = IsOpen l efd × IsOpen l fd
Allowed l (alarm _) = Unit
Allowed l time = Unit
Allowed l (allocate _) = Unit
Allowed l pipe = Unit
Allowed l open_shared = Unit
Allowed l (resize fd _) = IsOpen l fd
Allowed l (map_shared fd _) = IsOpen l fd
Allowed l (splice from to _) = IsOpen l from × IsOpen l to

-- a bound on the descriptors of a process
abbrev pub fd_limit : ℕ
fd_limit = 65535

abbrev pub IsNewBelow : (limit : ℕ) → List ℕ → ℤ → Type 0
IsNewBelow limit l (pos n) = (holds n l ≡ false) × (n < limit)
IsNewBelow limit l (negsuc n) = n ≡ 0

abbrev pub IsNew : List ℕ → ℤ → Type 0
IsNew = IsNewBelow fd_limit

abbrev pub IsStatus : ℤ → Type 0
IsStatus (pos _) = Unit
IsStatus (negsuc n) = n ≡ 0

-- `recv` returns how many bytes it has read.
abbrev pub IsLength : ℤ → ℕ → Type 0
IsLength (pos n) m = n ≡ m
IsLength (negsuc _) m = Unit

-- `new` returns an address that is not in use.
abbrev pub IsFresh : (ℕ → Bool) → ℤ → Type 0
IsFresh in_use (pos p) = (p ≢ 0) × (in_use p ≡ false)
IsFresh in_use (negsuc _) = Unit

-- What the kernel promises: a new descriptor is not an open one and is below the process's limit, a
-- failure is -1, and no more is read than asked for.
abbrev pub GrantedBelow : (limit : ℕ) → List ℕ → Sys → Answer → Type 0
GrantedBelow limit l (socket _) r = IsNewBelow limit l r.ret
GrantedBelow limit l (accept _) r = IsNewBelow limit l r.ret
GrantedBelow limit l epoll_create r = IsNewBelow limit l r.ret
GrantedBelow limit l open_file r = IsNewBelow limit l r.ret
GrantedBelow limit l open_shared r = IsNewBelow limit l r.ret
GrantedBelow limit l socketpair r =
    IsStatus r.ret × (holds r.pair.0 l ≡ false) × (holds r.pair.1 l ≡ false) × (r.pair.0 ≢ r.pair.1)
GrantedBelow limit l pipe r =
    IsStatus r.ret × (holds r.pair.0 l ≡ false) × (holds r.pair.1 l ≡ false) × (r.pair.0 ≢ r.pair.1)
GrantedBelow limit l (recv _ size) r = (length r.bytes ≤ size) × IsLength r.ret (length r.bytes)
GrantedBelow limit l (allocate in_use) r = IsFresh in_use r.ret
GrantedBelow limit l _ r = Unit

abbrev pub Granted : List ℕ → Sys → Answer → Type 0
Granted = GrantedBelow fd_limit

IsNewBelow-IsNew :
    (limit : ℕ) (l : List ℕ) (z : ℤ) → limit ≤ fd_limit → IsNewBelow limit l z → IsNew l z
IsNewBelow-IsNew limit l (pos n) h (new, small) = (new, omega arith)
IsNewBelow-IsNew limit l (negsuc n) h e = e

pub GrantedBelow-Granted :
    (limit : ℕ) (l : List ℕ) (c : Sys) (r : Answer)
    → limit ≤ fd_limit
    → GrantedBelow limit l c r
    → Granted l c r
GrantedBelow-Granted limit l (socket _) r h g = IsNewBelow-IsNew limit l r.ret h g
GrantedBelow-Granted limit l (accept _) r h g = IsNewBelow-IsNew limit l r.ret h g
GrantedBelow-Granted limit l epoll_create r h g = IsNewBelow-IsNew limit l r.ret h g
GrantedBelow-Granted limit l open_file r h g = IsNewBelow-IsNew limit l r.ret h g
GrantedBelow-Granted limit l open_shared r h g = IsNewBelow-IsNew limit l r.ret h g
GrantedBelow-Granted limit l socketpair r h g = g
GrantedBelow-Granted limit l pipe r h g = g
GrantedBelow-Granted limit l (recv _ _) r h g = g
GrantedBelow-Granted limit l (allocate _) r h g = g
GrantedBelow-Granted limit l (bind _ _) r h g = tt
GrantedBelow-Granted limit l (connect _ _) r h g = tt
GrantedBelow-Granted limit l (listen _ _) r h g = tt
GrantedBelow-Granted limit l (close _) r h g = tt
GrantedBelow-Granted limit l (send _ _) r h g = tt
GrantedBelow-Granted limit l (set_option _ _) r h g = tt
GrantedBelow-Granted limit l (get_option _ _) r h g = tt
GrantedBelow-Granted limit l (epoll_wait _) r h g = tt
GrantedBelow-Granted limit l (epoll_add _ _) r h g = tt
GrantedBelow-Granted limit l (set_nonblocking _) r h g = tt
GrantedBelow-Granted limit l (add_signal _) r h g = tt
GrantedBelow-Granted limit l (poll _) r h g = tt
GrantedBelow-Granted limit l stat r h g = tt
GrantedBelow-Granted limit l (read_file _ _) r h g = tt
GrantedBelow-Granted limit l (writev _ _) r h g = tt
GrantedBelow-Granted limit l (epoll_del _ _) r h g = tt
GrantedBelow-Granted limit l (alarm _) r h g = tt
GrantedBelow-Granted limit l time r h g = tt
GrantedBelow-Granted limit l (resize _ _) r h g = tt
GrantedBelow-Granted limit l (map_shared _ _) r h g = tt
GrantedBelow-Granted limit l (splice _ _ _) r h g = tt

abbrev pub opened : List ℕ → ℤ → List ℕ
opened l (pos n) = n ∷ l
opened l (negsuc _) = l

abbrev pub paired : List ℕ → ℤ → ℕ × ℕ → List ℕ
paired l (pos _) (a, b) = a ∷ b ∷ l
paired l (negsuc _) p = l

abbrev pub after : List ℕ → Sys → Answer → List ℕ
after l (socket _) r = opened l r.ret
after l (accept _) r = opened l r.ret
after l epoll_create r = opened l r.ret
after l open_file r = opened l r.ret
after l open_shared r = opened l r.ret
after l socketpair r = paired l r.ret r.pair
after l pipe r = paired l r.ret r.pair
after l (close (pos n)) r = drop_fd n l
after l _ r = l

-- the kernel of a process whose state is its open descriptors
abbrev pub files : Kernel (List ℕ)
files = record { allowed = Allowed; granted = Granted; after = after }

abbrev pub Always : {A : Type 0} → (List ℕ → A → Type 0) → List ℕ → Prog A → Type 0
Always P l p = Throughout files P l p

-- `assert(fd >= 0)` and `assert(fd != -1)` behind a call that opens `fd`
pub assert-nonnegative :
    {A : Type 0} (P : List ℕ → A → Type 0) (l : List ℕ) (z : ℤ) (k : ℤ → Prog A)
    → IsNew l z
    → ((n : ℕ) → holds n l ≡ false → Always P (n ∷ l) (k (pos n)))
    → Always P (opened l z) (assert (not (is_neg z)) >>= λ _. k z)
unfolding Throughout
assert-nonnegative P l (pos n) k new h = h n new.0
assert-nonnegative P l (negsuc n) k new h = tt

pub assert-opened :
    {A : Type 0} (P : List ℕ → A → Type 0) (l : List ℕ) (z : ℤ) (k : ℤ → Prog A)
    → IsNew l z
    → ((n : ℕ) → holds n l ≡ false → Always P (n ∷ l) (k (pos n)))
    → Always P (opened l z) (assert (not (is_minus_one z)) >>= λ _. k z)
unfolding Throughout
assert-opened P l (pos n) k new h = h n new.0
assert-opened P l (negsuc n) k new h = rw new tt

pub assert-paired :
    {A : Type 0} (P : List ℕ → A → Type 0) (l : List ℕ) (z : ℤ) (p : ℕ × ℕ) (q : Prog A)
    → IsStatus z
    → Always P (p.0 ∷ p.1 ∷ l) q
    → Always P (paired l z p) (assert (not (is_minus_one z)) >>= λ _. q)
unfolding Throughout
assert-paired P l (pos n) p q ok h = h
assert-paired P l (negsuc n) p q ok h = rw ok tt
