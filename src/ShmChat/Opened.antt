-- ===== src/ShmChat/Opened.antt =====
-- The descriptors that the start of ShmChat.cpp leaves open.
use linux_server_programming.Base.{
  ℕ, ◌≡◌, refl, arith, not, Bool, true, false, Option, none, some, List, [], ◌∷◌, leb, ==_refl, pos,
}
use linux_server_programming.Process.{
  invoke, add_signal, set_nonblocking, Prog, done, ◌>>=◌, is_minus_one, assert, argc,
}
use linux_server_programming.Process.Kernel.{
  Throughout, bind-Throughout, done-Throughout, sys-Throughout, if-Throughout, assert-any,
  arg-Throughout,
}
use linux_server_programming.Process.Files.{
  files, holds, holds_first, holds_second, Always, assert-nonnegative, assert-opened, assert-paired,
}
use linux_server_programming.ShmChat.Start.{
  sigchld, sigterm, sigint, sigpipe, Fds, add_fd, add_sig, map_memory, map_opened, prepare,
  open_server, start,
}

-- Just these four descriptors are open.
abbrev pub Holding : List ℕ → Fds → Type 0
Holding l fds =
    (f : ℕ) × (e : ℕ) × (fds.listenfd ≡ pos f)
    × (fds.epollfd ≡ pos e)
    × (l ≡ fds.sig_pipefd.0 ∷ fds.sig_pipefd.1 ∷ e ∷ f ∷ [])

abbrev pub Started : List ℕ → Option Fds → Type 0
Started l none = l ≡ []
Started l (some fds) = Holding l fds

abbrev Same : List ℕ → List ℕ → Unit {0} → Type 0
Same l l' _ = l' ≡ l

-- steps that open nothing come before `k`
then-Always :
    {A : Type 0} (P : List ℕ → A → Type 0) (l : List ℕ) (p : Prog (Unit {0}))
    (k : Unit {0} → Prog A)
    → Always (Same l) l p
    → Always P l (k tt)
    → Always P l (p >>= k)
then-Always P l p k h next = bind-Throughout files (Same l) P l p k h (λ l' _ same. rw same next)

add_fd-Always :
    (l : List ℕ) (e n : ℕ)
    → holds e l ≡ true
    → holds n l ≡ true
    → Always (Same l) l (add_fd (pos e) (pos n))
unfolding add_fd
add_fd-Always l e n in_e in_n =
    sys-Throughout files (Same l) l _ _ (in_e, in_n)
      (λ _ _.
        sys-Throughout files (Same l) l _ _ in_n (λ _ _. done-Throughout files (Same l) l tt refl))

add_sig-Always : (l : List ℕ) (sig : ℕ) → Always (Same l) l (add_sig sig)
unfolding add_sig
add_sig-Always l sig =
    sys-Throughout files (Same l) l (add_signal sig) _ tt (λ r _. checked (is_minus_one r.ret))
  where
    checked : (b : Bool) → Always (Same l) l (assert (not b))
    checked true = unfold Throughout in tt
    checked false = done-Throughout files (Same l) l tt refl

map_memory-Always : (l : List ℕ) → Always (Same l) l map_memory
unfolding map_memory map_opened
map_memory-Always l = sys-Throughout files (Same l) l _ _ tt (λ r new.
    assert-opened (Same l) l r.ret map_opened new (λ n _.
      let held = holds_first n l in
      sys-Throughout files (Same l) (n ∷ l) _ _ held (λ a _.
        assert-any files (Same l) (n ∷ l) (not (is_minus_one a.ret)) _ (
          sys-Throughout files (Same l) (n ∷ l) _ _ held (λ b _.
            assert-any files (Same l) (n ∷ l) (not (is_minus_one b.ret)) _ (
              sys-Throughout files (Same l) (n ∷ l) _ _ held
                (λ _ _. done-Throughout files (Same l) _ tt (rw (==_refl n) refl))))))))

-- behind `socketpair`
paired-Always :
    (f e p0 p1 : ℕ)
    → Always Holding (p0 ∷ p1 ∷ e ∷ f ∷ []) (do
      _ ← invoke (set_nonblocking (pos p1))
      _ ← add_fd (pos e) (pos p0)
      _ ← add_sig sigchld
      _ ← add_sig sigterm
      _ ← add_sig sigint
      _ ← add_sig sigpipe
      _ ← map_memory
      done (record { listenfd = pos f; epollfd = pos e; sig_pipefd = (p0, p1) }))
paired-Always f e p0 p1 =
    let l = p0 ∷ p1 ∷ e ∷ f ∷ [] in
    let in_e : holds e l ≡ true = ground arith in
    sys-Throughout files Holding l _ _ (holds_second p1 p0 (e ∷ f ∷ [])) (λ _ _.
      then-Always Holding l _ _ (add_fd-Always l e p0 in_e (holds_first p0 (p1 ∷ e ∷ f ∷ []))) (
        then-Always Holding l _ _ (add_sig-Always l sigchld) (
          then-Always Holding l _ _ (add_sig-Always l sigterm) (
            then-Always Holding l _ _ (add_sig-Always l sigint) (
              then-Always Holding l _ _ (add_sig-Always l sigpipe) (
                then-Always Holding l _ _ (map_memory-Always l)
                  (done-Throughout files Holding l _ (f, e, refl, refl, refl))))))))

prepare-Always : (f e : ℕ) → Always Holding (e ∷ f ∷ []) (prepare (pos f) (pos e))
unfolding prepare
prepare-Always f e =
    let l = e ∷ f ∷ [] in
    then-Always Holding l _ _ (add_fd-Always l e f (holds_first e (f ∷ [])) (holds_second f e [])) (
      sys-Throughout files Holding l _ _ tt (λ r (status, _, _, _).
        assert-paired Holding l r.ret r.pair _ status (paired-Always f e r.pair.0 r.pair.1)))

open_server-Always : (port f : ℕ) → Always Holding (f ∷ []) (open_server port (pos f))
unfolding open_server
open_server-Always port f =
    let l = f ∷ [] in
    let held = holds_first f [] in
    sys-Throughout files Holding l _ _ held (λ a _.
      assert-any files Holding l (not (is_minus_one a.ret)) _ (
        sys-Throughout files Holding l _ _ held (λ b _.
          assert-any files Holding l (not (is_minus_one b.ret)) _ (
            sys-Throughout files Holding l _ _ tt (λ c new.
              assert-opened Holding l c.ret (prepare (pos f)) new (λ e _. prepare-Always f e))))))

-- The start of ShmChat.cpp uses only descriptors that are open, whatever the kernel answers. Where it
-- comes to the event loop, the listening socket, the epoll instance and the pipe of signals are open
-- and nothing else; where it prints its usage, nothing is.
pub start-Always : (argv : List ℕ) → Always Started [] (start argv)
unfolding start
start-Always argv =
    if-Throughout files Started [] (leb (argc argv) 2) _ _
      (λ _. done-Throughout files Started [] none refl)
      (λ few. arg-Throughout files Started [] argv 2 _ (ground arith) (λ port.
        sys-Throughout files Started [] _ _ tt (λ r new.
          assert-nonnegative Started [] r.ret (λ z. open_server port z >>= λ fds. done (some fds))
            new
            (λ f _.
              bind-Throughout files Holding Started (f ∷ []) _ _ (open_server-Always port f)
                (λ l fds holding. done-Throughout files Started l (some fds) holding)))))
