-- ===== src/EchoClient/Held.antt =====
-- The descriptors that the clients hold.
use linux_server_programming.Base.{
  ℕ, zero, suc, ◌≤◌, ◌<◌, ◌≡◌, refl, arith, true, false, List, [], ◌∷◌, ◌++◌, leb, ◌==◌,
  if◌then◌else◌, Bool-cases, inl, inr, length, ℤ, pos, negsuc, ==_refl,
}
use linux_server_programming.Process.{
  close, set_nonblocking, socketpair, invoke, Prog, done, sys, ◌>>=◌, is_neg, argc,
}
use linux_server_programming.Process.Kernel.{
  arg-Throughout, bind-Throughout, done-Throughout, sys-Throughout, if-Throughout, Throughout,
}
use linux_server_programming.Process.Files.{
  files, holds, holds_first, drop_fd, Always, assert-nonnegative, assert-paired,
}
use linux_server_programming.Line.{newline}
use linux_server_programming.Line.Gets.{IsPlain, s_gets-take}
use linux_server_programming.EchoClient.{
  buffer_size, tcp_loop, tcp_session, tcp_main, udp_loop, udp_session, udp_main, signal_loop,
  signal_session, signal_main,
}
use linux_server_programming.EchoClient.Typed.{text-typed_over}

-- lines that are typed
abbrev pub lines : List (List ℕ) → List ℕ
lines [] = []
lines (line ∷ ls) = line ++ newline ∷ lines ls

abbrev pub AreLines : (fuel : ℕ) → List (List ℕ) → Type 0
AreLines fuel [] = Unit
AreLines fuel (line ∷ ls) = IsPlain line × (length line < fuel) × AreLines fuel ls

-- The descriptors are the same afterwards.
abbrev Same : List ℕ → List ℕ → Unit {0} → Type 0
Same l l' _ = l' ≡ l

ends-Always :
    (l : List ℕ) (z : ℤ) (p : Prog (Unit {0}))
    → Always (Same l) l p
    → Always (Same l) l (elim z [ negsuc _ ↦ done tt | pos n ↦ if n == 0 then done tt else p ])
unfolding Throughout
ends-Always l (negsuc _) p h = refl
ends-Always l (pos n) p h = elim (Bool-cases (n == 0)) [ inl e ↦ rw e refl | inr e ↦ rw e h ]

tcp_loop-Always :
    (rounds fuel fd : ℕ) (ls : List (List ℕ)) (buf l : List ℕ)
    → AreLines fuel ls
    → rounds ≤ length ls
    → holds fd l ≡ true
    → Always (Same l) l (tcp_loop rounds fuel (pos fd) (lines ls) buf)
unfolding tcp_loop Throughout
tcp_loop-Always zero fuel fd ls buf l are enough held = tt
tcp_loop-Always (suc k) fuel fd [] buf l are enough held = absurd (omega arith)
tcp_loop-Always (suc k) fuel fd (line ∷ ls) buf l (p, short, are) enough held =
    rw
      (
        s_gets-take fuel buffer_size line (lines ls) p short,
        text-typed_over buffer_size line (lines ls) buf p,
      )
      (
        held,
        λ s _. (
          held,
          λ r _. ends-Always l r.ret _ (tcp_loop-Always k fuel fd ls _ l are (omega arith) held),
        ),
      )

udp_loop-Always :
    (rounds fuel fd : ℕ) (ls : List (List ℕ)) (buf l : List ℕ)
    → AreLines fuel ls
    → rounds ≤ length ls
    → holds fd l ≡ true
    → Always (Same l) l (udp_loop rounds fuel (pos fd) (lines ls) buf)
unfolding udp_loop Throughout
udp_loop-Always zero fuel fd ls buf l are enough held = tt
udp_loop-Always (suc k) fuel fd [] buf l are enough held = absurd (omega arith)
udp_loop-Always (suc k) fuel fd (line ∷ ls) buf l (p, short, are) enough held =
    rw
      (
        s_gets-take fuel buffer_size line (lines ls) p short,
        text-typed_over buffer_size line (lines ls) buf p,
      )
      (
        held,
        λ s _. (
          held,
          λ r _. elim (Bool-cases (is_neg r.ret)) [
            | inl e ↦ rw e refl
            | inr e ↦ rw e (udp_loop-Always k fuel fd ls _ l are (omega arith) held)
          ],
        ),
      )

signal_loop-Always :
    (rounds fuel fd pipe : ℕ) (ls : List (List ℕ)) (buf l : List ℕ)
    → AreLines fuel ls
    → rounds ≤ length ls
    → holds fd l ≡ true
    → holds pipe l ≡ true
    → Always (Same l) l (signal_loop rounds fuel (pos fd) (pos pipe) (lines ls) buf)
unfolding signal_loop Throughout
signal_loop-Always zero fuel fd pipe ls buf l are enough held own = tt
signal_loop-Always (suc k) fuel fd pipe [] buf l are enough held own = absurd (omega arith)
signal_loop-Always (suc k) fuel fd pipe (line ∷ ls) buf l (p, short, are) enough held own =
    rw
      (
        s_gets-take fuel buffer_size line (lines ls) p short,
        text-typed_over buffer_size line (lines ls) buf p,
      )
      (
        own,
        λ s _. (
          held,
          λ r _.
              ends-Always l r.ret _
                (signal_loop-Always k fuel fd pipe ls _ l are (omega arith) held own),
        ),
      )

-- Where a client returns 0 it holds no descriptor.
abbrev pub AllClosed : List ℕ → ℕ → Type 0
AllClosed l code = code ≡ 0 → l ≡ []

-- Where SignalClient.cpp returns 0 it holds two.
abbrev pub PairLeft : List ℕ → ℕ → Type 0
PairLeft l code = code ≡ 0 → length l ≡ 2

-- a session on a descriptor, and its end
close-Always :
    (fd : ℕ) (l : List ℕ) (p : Prog (Unit {0}))
    → Always (Same (fd ∷ l)) (fd ∷ l) p
    → l ≡ []
    → Always AllClosed (fd ∷ l) (p >>= λ _. sys (close (pos fd)) (λ _. done 0))
unfolding Throughout
close-Always fd l p h e =
    bind-Throughout files (Same (fd ∷ l)) AllClosed (fd ∷ l) p _ h
      (λ l2 _ same. rw same (rw (==_refl fd) refl, λ r _. rw (==_refl fd) (λ _. e)))

module _ (rounds fuel : ℕ) (ls : List (List ℕ)) (buf : List ℕ) (are : AreLines fuel ls)
    (enough : rounds ≤ length ls) where
  tcp_session-Always :
      (port fd : ℕ)
      → Always AllClosed (fd ∷ []) (tcp_session rounds fuel port (lines ls) buf (pos fd))
  unfolding tcp_session
  tcp_session-Always port fd =
      let held = holds_first fd [] in
      sys-Throughout files AllClosed (fd ∷ []) _ _ held (λ c _.
        if-Throughout files AllClosed (fd ∷ []) _ _ _
          (λ _. done-Throughout files AllClosed (fd ∷ []) 1 (λ e. absurd (omega arith)))
          (λ _.
            close-Always fd [] _ (tcp_loop-Always rounds fuel fd ls buf (fd ∷ []) are enough held)
              refl))

  udp_session-Always :
      (fd : ℕ) → Always AllClosed (fd ∷ []) (udp_session rounds fuel (lines ls) buf (pos fd))
  unfolding udp_session
  udp_session-Always fd =
      close-Always fd [] _
        (udp_loop-Always rounds fuel fd ls buf (fd ∷ []) are enough (holds_first fd [])) refl

  pair-Always :
      (port fd a b : ℕ)
      → holds a (fd ∷ []) ≡ false
      → holds b (fd ∷ []) ≡ false
      → Always PairLeft (a ∷ b ∷ fd ∷ []) (do
        _ ← invoke (set_nonblocking (pos b))
        _ ← signal_loop rounds fuel (pos fd) (pos b) (lines ls) buf
        _ ← invoke (close (pos fd))
        done 0)
  pair-Always port fd a b new0 new1 =
      let l = a ∷ b ∷ fd ∷ [] in
      let own : holds b l ≡ true = ground arith in
      let held : holds fd l ≡ true = ground arith in
      let left : length (drop_fd fd l) ≡ 2 = ground arith in
      sys-Throughout files PairLeft l _ _ own (λ _ _.
        bind-Throughout files (Same l) PairLeft l _ _
          (signal_loop-Always rounds fuel fd b ls buf l are enough held own)
          (λ l2 _ same. rw same (
            sys-Throughout files PairLeft l _ _ held
              (λ _ _. done-Throughout files PairLeft (drop_fd fd l) 0 (λ _. left)))))

  signal_session-Always :
      (port fd : ℕ)
      → Always PairLeft (fd ∷ []) (signal_session rounds fuel port (lines ls) buf (pos fd))
  unfolding signal_session
  signal_session-Always port fd =
      let held = holds_first fd [] in
      sys-Throughout files PairLeft (fd ∷ []) _ _ held (λ c _.
        if-Throughout files PairLeft (fd ∷ []) _ _ _
          (λ _. done-Throughout files PairLeft (fd ∷ []) 1 (λ e. absurd (omega arith)))
          (λ _. sys-Throughout files PairLeft (fd ∷ []) socketpair _ tt (λ r granted.
            let (ok, new0, new1, _) = granted in
            assert-paired PairLeft (fd ∷ []) r.ret r.pair _ ok
              (pair-Always port fd r.pair.0 r.pair.1 new0 new1))))

  -- The clients of Echoserver.cpp, started with an address and a port or with too few arguments,
  -- use only descriptors that are open, whatever the kernel answers, and have closed them all where
  -- they return 0; SignalClient.cpp still holds its pair of sockets there. This holds while each
  -- round is given one typed line without NUL that ends in a newline. The end of the input is not
  -- covered: there `buf` keeps what it held, which need not have a NUL.
  pub tcp_main-Always :
      (argv : List ℕ)
      → Always AllClosed [] (tcp_main rounds fuel argv (lines ls) buf)
        × Always AllClosed [] (udp_main rounds fuel argv (lines ls) buf)
        × Always PairLeft [] (signal_main rounds fuel argv (lines ls) buf)
  unfolding tcp_main udp_main signal_main
  tcp_main-Always argv =
      let usage : (l : List ℕ) → Always AllClosed l (done 1) =
        λ l. done-Throughout files AllClosed l 1 (λ e. absurd (omega arith)) in
      (
        if-Throughout files AllClosed [] _ _ _ (λ _. usage [])
            (λ (few : leb (argc argv) 2 ≡ false).
              arg-Throughout files AllClosed [] argv 2 _ (ground arith) (λ port.
                sys-Throughout files AllClosed [] _ _ tt (λ r new.
                  assert-nonnegative AllClosed [] r.ret
                    (tcp_session rounds fuel port (lines ls) buf) new
                    (λ fd _. tcp_session-Always port fd)))),
        if-Throughout files AllClosed [] _ _ _ (λ _. usage [])
            (λ (few : leb (argc argv) 2 ≡ false).
              arg-Throughout files AllClosed [] argv 2 _ (ground arith) (λ port.
                sys-Throughout files AllClosed [] _ _ tt (λ r new.
                  assert-nonnegative AllClosed [] r.ret (udp_session rounds fuel (lines ls) buf) new
                    (λ fd _. udp_session-Always fd)))),
        if-Throughout files PairLeft [] _ _ _
            (λ _. done-Throughout files PairLeft [] 1 (λ e. absurd (omega arith)))
            (λ (few : leb (argc argv) 2 ≡ false).
              arg-Throughout files PairLeft [] argv 2 _ (ground arith) (λ port.
                sys-Throughout files PairLeft [] _ _ tt (λ r new.
                  assert-nonnegative PairLeft [] r.ret
                    (signal_session rounds fuel port (lines ls) buf) new
                    (λ fd _. signal_session-Always port fd)))),
      )
