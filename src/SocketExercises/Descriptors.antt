-- ===== src/SocketExercises/Descriptors.antt =====
-- The descriptors of the receiver and of the connection with a timeout.
use linux_server_programming.Base.{
  ℕ, zero, suc, ◌≡◌, ◌≢◌, ◌<◌, refl, arith, true, not, inl, inr, ◌⊎◌, List, [], ◌∷◌, leb, ltb,
  ==_refl, if◌then◌else◌, length, ℤ, pos, negsuc,
}
use linux_server_programming.Process.{close, Prog, done, ◌>>=◌, invoke, is_neg, is_minus_one, argc}
use linux_server_programming.Process.Kernel.{
  Throughout, bind-Throughout, done-Throughout, sys-Throughout, if-Throughout, assert-any,
  arg-Throughout,
}
use linux_server_programming.Process.Files.{
  files, holds, holds_first, Always, IsNew, opened, assert-nonnegative,
}
use linux_server_programming.SocketExercises.{
  receive_loop, receive, receiver, receive_main, connect_within, timeout_connect, timeout_main,
}

-- No descriptor is left.
abbrev pub NoneLeft : List ℕ → ℕ → Type 0
NoneLeft l _ = l ≡ []

-- One descriptor is left, whether the connection has failed or not.
abbrev pub OneLeft : List ℕ → ℤ → Type 0
OneLeft l _ = length l ≡ 1

-- With too few arguments none was opened.
abbrev pub AtMostOne : List ℕ → ℕ → Type 0
AtMostOne l code = (l ≡ []) ⊎ (length l ≡ 1)

abbrev Same : List ℕ → List ℕ → Unit {0} → Type 0
Same l l' _ = l' ≡ l

ends-Always :
    (l : List ℕ) (p : Prog (Unit {0})) (z : ℤ)
    → Always (Same l) l p
    → Always (Same l) l (elim z [ negsuc _ ↦ done tt | pos n ↦ if ltb 0 n then p else done tt ])
ends-Always l p (negsuc _) h = done-Throughout files (Same l) l tt refl
ends-Always l p (pos n) h =
    if-Throughout files (Same l) l (ltb 0 n) _ _ (λ _. h)
      (λ _. done-Throughout files (Same l) l tt refl)

receive_loop-Always :
    (rounds fd : ℕ) (l : List ℕ)
    → holds fd l ≡ true
    → Always (Same l) l (receive_loop rounds (pos fd))
unfolding receive_loop
receive_loop-Always zero fd l held = unfold Throughout in tt
receive_loop-Always (suc k) fd l held =
    sys-Throughout files (Same l) l _ _ held
      (λ r _. ends-Always l (receive_loop k (pos fd)) r.ret (receive_loop-Always k fd l held))

-- the connection that `accept` has made, or none
accepted :
    (rounds fd : ℕ) (z : ℤ)
    → IsNew (fd ∷ []) z
    → Always (Same (fd ∷ [])) (opened (fd ∷ []) z) (
        if is_neg z then done tt else (do _ ← receive_loop rounds z; _ ← invoke (close z); done tt))
accepted rounds fd (negsuc _) new = done-Throughout files (Same (fd ∷ [])) (fd ∷ []) tt refl
accepted rounds fd (pos c) (new, _) =
    let l = c ∷ fd ∷ [] in
    let held = holds_first c (fd ∷ []) in
    bind-Throughout files (Same l) (Same (fd ∷ [])) l _ _ (receive_loop-Always rounds c l held)
      (λ l' _ same. rw same (
        sys-Throughout files (Same (fd ∷ [])) l (close (pos c)) _ held
          (λ _ _. done-Throughout files (Same (fd ∷ [])) _ tt (rw (==_refl c) refl))))

receive-Always : (rounds fd : ℕ) → Always NoneLeft (fd ∷ []) (receive rounds (pos fd))
unfolding receive
receive-Always rounds fd =
    let l = fd ∷ [] in
    let held = holds_first fd [] in
    sys-Throughout files NoneLeft l _ _ held (λ r new.
      bind-Throughout files (Same l) NoneLeft (opened l r.ret) _ _ (accepted rounds fd r.ret new)
        (λ l' _ same. rw same (
          sys-Throughout files NoneLeft l (close (pos fd)) _ held
            (λ _ _. done-Throughout files NoneLeft _ 0 (rw (==_refl fd) refl)))))

receiver-Always :
    (rounds port fd : ℕ) (argv : List ℕ)
    → 3 < argc argv
    → Always NoneLeft (fd ∷ []) (receiver rounds port argv (pos fd))
unfolding receiver
receiver-Always rounds port fd argv enough =
    let l = fd ∷ [] in
    let held = holds_first fd [] in
    arg-Throughout files NoneLeft l argv 3 _ enough (λ size.
      sys-Throughout files NoneLeft l _ _ held (λ _ _.
        sys-Throughout files NoneLeft l _ _ held (λ _ _.
          sys-Throughout files NoneLeft l _ _ held (λ _ _.
            sys-Throughout files NoneLeft l _ _ held (λ b _.
              assert-any files NoneLeft l (not (is_minus_one b.ret)) _ (
                sys-Throughout files NoneLeft l _ _ held (λ c _.
                  assert-any files NoneLeft l (not (is_minus_one c.ret)) _
                    (receive-Always rounds fd))))))))

timeout_connect-Always : (port time : ℕ) → Always OneLeft [] (timeout_connect port time)
unfolding timeout_connect connect_within
timeout_connect-Always port time = sys-Throughout files OneLeft [] _ _ tt (λ r new.
    assert-nonnegative OneLeft [] r.ret (connect_within port time) new (λ fd _.
      let l = fd ∷ [] in
      let held = holds_first fd [] in
      sys-Throughout files OneLeft l _ _ held (λ s _.
        assert-any files OneLeft l (not (is_minus_one s.ret)) _ (
          sys-Throughout files OneLeft l _ _ held (λ c _.
            if-Throughout files OneLeft l (is_minus_one c.ret) _ _
              (λ _. done-Throughout files OneLeft l (negsuc 0) refl)
              (λ _. done-Throughout files OneLeft l (pos fd) refl))))))

-- LinuxChangeTcpReceiveBuffer.cpp, started with any number of arguments but two, uses only
-- descriptors that are open, whatever the kernel answers, and has closed them all where it returns.
-- SetConnectTimeO.cpp uses only open descriptors too. Its `timeout_connect` leaves one socket open,
-- whether the connection has failed or not, and its `main` at most one.
pub receive_main-Always :
    (rounds time port : ℕ) (argv : List ℕ)
    → argc argv ≢ 3
    → Always NoneLeft [] (receive_main rounds argv)
      × Always OneLeft [] (timeout_connect port time)
      × Always AtMostOne [] (timeout_main argv)
unfolding receive_main timeout_main
receive_main-Always rounds time port argv given = (
  if-Throughout files NoneLeft [] (leb (argc argv) 2) _ _
      (λ _. done-Throughout files NoneLeft [] 1 refl)
      (λ few. arg-Throughout files NoneLeft [] argv 2 _ (ground arith) (λ p.
        sys-Throughout files NoneLeft [] _ _ tt (λ r new.
          assert-nonnegative NoneLeft [] r.ret (receiver rounds p argv) new
            (λ fd _. receiver-Always rounds p fd argv (ground arith))))),
  timeout_connect-Always port time,
  if-Throughout files AtMostOne [] (leb (argc argv) 2) _ _
      (λ _. done-Throughout files AtMostOne [] 1 (inl refl))
      (λ few. arg-Throughout files AtMostOne [] argv 2 _ (ground arith) (λ p.
        bind-Throughout files OneLeft AtMostOne [] _ _ (timeout_connect-Always p 10) (λ l z one.
          if-Throughout files AtMostOne l (is_neg z) _ _
            (λ _. done-Throughout files AtMostOne l 1 (inr one))
            (λ _. done-Throughout files AtMostOne l 0 (inr one))))),
)
