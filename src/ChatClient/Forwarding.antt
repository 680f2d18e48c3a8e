-- ===== src/ChatClient/Forwarding.antt =====
-- What ChatClient.cpp does with what is typed, and which descriptors it uses.
use linux_server_programming.Base.{
  ℕ, zero, suc, ◌≡◌, ◌≢◌, refl, sym, arith, not, true, false, List, [], ◌∷◌, ◌++◌, leb, ==_refl,
  ne→==, length, ℤ, pos, negsuc,
}
use linux_server_programming.Process.{
  close, invoke, pipe, Event, event_at, done, ◌>>=◌, is_neg, is_minus_one, assert, argc,
}
use linux_server_programming.Process.Kernel.{
  Throughout, bind-Throughout, done-Throughout, sys-Throughout, if-Throughout, arg-Throughout,
}
use linux_server_programming.Process.Files.{holds, IsNew, opened, paired, IsStatus}
use linux_server_programming.ChatClient.{show_data, pass_on, event_loop, session, main}
use linux_server_programming.ChatClient.Relaying.{
  Relay, drop, drop-length, passed, relaying, started,
}

-- What has been typed is what was sent, and behind it what is in the pipe. A client that returns 0
-- has its pipe left, one that returns 1 nothing.
pub record Forwarded (s : Relay) (code : ℕ) : Type 0 where
  pub order : s.typed ≡ s.sent ++ s.piped
  pub left : code ≡ 0 → s.fds ≡ s.ends.0 ∷ s.ends.1 ∷ 0 ∷ []
  pub nothing_left : code ≡ 1 → s.fds ≡ 0 ∷ []

-- the descriptors of a connected client
record Wired (sock r w : ℕ) : Type 0 where
  sock_own : sock ≢ 0
  read_own : (r ≢ 0) × (r ≢ sock) × (r ≢ w)
  write_own : (w ≢ 0) × (w ≢ sock)

abbrev connected : (sock r w : ℕ) (typed piped sent : List ℕ) → Relay
connected sock r w typed piped sent = record {
  fds = r ∷ w ∷ sock ∷ 0 ∷ [];
  ends = (r, w);
  typed = typed;
  piped = piped;
  sent = sent;
}

module _ (sock r w : ℕ) (wired : Wired sock r w) where
  -- the state of a connected client
  abbrev InOrder : Relay → Unit {0} → Type 0
  InOrder s _ =
      (typed piped sent : List ℕ) × (s ≡ connected sock r w typed piped sent)
      × (typed ≡ sent ++ piped)

  show_data-Throughout :
      (e : Event) (typed piped sent : List ℕ)
      → typed ≡ sent ++ piped
      → Throughout relaying InOrder (connected sock r w typed piped sent) (show_data (pos sock) e)
  unfolding show_data
  show_data-Throughout e typed piped sent order =
      let s = connected sock r w typed piped sent in
      let here : holds sock s.fds ≡ true = ground arith in
      if-Throughout relaying InOrder s e.readable _ _
        (λ _.
          sys-Throughout relaying InOrder s _ _ here
            (λ _ _. done-Throughout relaying InOrder s tt (typed, piped, sent, refl, order)))
        (λ _. done-Throughout relaying InOrder s tt (typed, piped, sent, refl, order))

  pass_on-Throughout :
      (e : Event) (typed piped sent : List ℕ)
      → typed ≡ sent ++ piped
      → Throughout relaying InOrder
          (connected sock r w typed piped sent)
          (pass_on (pos sock) (r, w) e)
  unfolding pass_on
  pass_on-Throughout e typed piped sent order =
      let s = connected sock r w typed piped sent in
      let (r0, rs, rw') = wired.read_own in
      let (w0, ws) = wired.write_own in
      let read_end : holds r s.fds ≡ true = ground arith in
      let write_end : holds w s.fds ≡ true = ground arith in
      let input : holds 0 s.fds ≡ true = ground arith in
      let here : holds sock s.fds ≡ true = ground arith in
      if-Throughout relaying InOrder s e.readable _ _
        (λ _.
          sys-Throughout relaying InOrder s _ _ (input, write_end)
            (λ a _. rw (==_refl w) (
              sys-Throughout relaying InOrder
                (connected sock r w (typed ++ a.bytes) (piped ++ a.bytes) sent) _ _ (read_end, here)
                (λ b (_, front).
                  let (rest, is) = front refl in
                  let gone : drop (length b.bytes) (piped ++ a.bytes) ≡ rest =
                    rw is (drop-length b.bytes rest) in
                  rw (ne→== r 0 r0, ==_refl r, ne→== sock w (λ q. ws (sym q)))
                    (done-Throughout relaying InOrder _ tt (
                      typed ++ a.bytes,
                      drop (length b.bytes) (piped ++ a.bytes),
                      sent ++ b.bytes,
                      refl,
                      passed typed piped sent a.bytes b.bytes rest order is gone,
                    ))))))
        (λ _. done-Throughout relaying InOrder s tt (typed, piped, sent, refl, order))

  event_loop-Throughout :
      (rounds : ℕ) (typed piped sent : List ℕ)
      → typed ≡ sent ++ piped
      → Throughout relaying InOrder
          (connected sock r w typed piped sent)
          (event_loop rounds (pos sock) (r, w))
  unfolding event_loop
  event_loop-Throughout zero typed piped sent order = unfold Throughout in tt
  event_loop-Throughout (suc k) typed piped sent order =
      let s = connected sock r w typed piped sent in
      let here : holds sock s.fds ≡ true = ground arith in
      let input : holds 0 s.fds ≡ true = ground arith in
      let stop = done-Throughout relaying InOrder s tt (typed, piped, sent, refl, order) in
      sys-Throughout relaying InOrder s _ _ (input, (here, tt))
        (λ a _.
          if-Throughout relaying InOrder s (is_neg a.ret) _ _ (λ _. stop)
            (λ _.
              if-Throughout relaying InOrder s (event_at 1 a.events).hang_up _ _ (λ _. stop)
                (λ _.
                  bind-Throughout relaying InOrder InOrder s _ _
                    (show_data-Throughout (event_at 1 a.events) typed piped sent order)
                    (λ s1 _ (t1, p1, x1, is1, order1). rw is1 (
                      bind-Throughout relaying InOrder InOrder (connected sock r w t1 p1 x1) _ _
                        (pass_on-Throughout (event_at 0 a.events) t1 p1 x1 order1)
                        (λ s2 _ (t2, p2, x2, is2, order2).
                          rw is2 (event_loop-Throughout k t2 p2 x2 order2)))))))

  -- the loop and the end of the client
  finish-Throughout :
      (rounds : ℕ)
      → Throughout relaying Forwarded
          (connected sock r w [] [] [])
          (do _ ← event_loop rounds (pos sock) (r, w); _ ← invoke (close (pos sock)); done 0)
  finish-Throughout rounds =
      let (_, rs, _) = wired.read_own in
      let (_, ws) = wired.write_own in
      bind-Throughout relaying InOrder Forwarded (connected sock r w [] [] []) _ _
        (event_loop-Throughout rounds [] [] [] refl)
        (λ s _ (t, p, x, is, order). rw is (
          let here : holds sock (r ∷ w ∷ sock ∷ 0 ∷ []) ≡ true = ground arith in
          sys-Throughout relaying Forwarded (connected sock r w t p x) _ _ here (λ _ _.
            done-Throughout relaying Forwarded _ 0 (record {
              order = order;
              left = λ _.
                  rw (ne→== sock r (λ q. rs (sym q)), ne→== sock w (λ q. ws (sym q)), ==_refl sock)
                    refl;
              nothing_left = λ e. absurd (omega arith);
            }))))

pipe_made :
    (rounds sock : ℕ) (ret : ℤ) (ends : ℕ × ℕ)
    → sock ≢ 0
    → IsStatus ret
      × (holds ends.0 (sock ∷ 0 ∷ []) ≡ false)
      × (holds ends.1 (sock ∷ 0 ∷ []) ≡ false)
      × (ends.0 ≢ ends.1)
    → Throughout relaying Forwarded
        (record (started ends) { fds = paired (sock ∷ 0 ∷ []) ret ends })
        (assert (not (is_minus_one ret)) >>= λ _. do
          _ ← event_loop rounds (pos sock) ends
          _ ← invoke (close (pos sock))
          done 0)
pipe_made rounds sock (pos _) (r, w) own (status, new_r, new_w, apart) =
    finish-Throughout sock r w
      (record {
        sock_own = own;
        read_own = ((λ e. ground arith), (λ e. ground arith), apart);
        write_own = ((λ e. ground arith), (λ e. ground arith));
      })
      rounds
pipe_made rounds sock (negsuc _) ends own (status, _, _, _) = rw status (unfold Throughout in tt)

session-Throughout :
    (rounds port sock : ℕ) (ends : ℕ × ℕ)
    → sock ≢ 0
    → Throughout relaying Forwarded
        (record (started ends) { fds = sock ∷ 0 ∷ [] })
        (session rounds port (pos sock))
unfolding session
session-Throughout rounds port sock ends own =
    let s : Relay = record (started ends) { fds = sock ∷ 0 ∷ [] } in
    let here : holds sock s.fds ≡ true = ground arith in
    sys-Throughout relaying Forwarded s _ _ here (λ c _.
      if-Throughout relaying Forwarded s (is_neg c.ret) _ _
        (λ _. sys-Throughout relaying Forwarded s _ _ here (λ _ _.
          done-Throughout relaying Forwarded _ 1 (record {
            order = refl;
            left = λ e. absurd (omega arith);
            nothing_left = λ _. rw (==_refl sock) refl;
          })))
        (λ _.
          sys-Throughout relaying Forwarded s pipe _ tt
            (λ a (granted, _). pipe_made rounds sock a.ret a.pair own granted)))

socket_made :
    (rounds port : ℕ) (z : ℤ) (ends : ℕ × ℕ)
    → IsNew (0 ∷ []) z
    → Throughout relaying Forwarded
        (record (started ends) { fds = opened (0 ∷ []) z })
        (assert (not (is_neg z)) >>= λ _. session rounds port z)
socket_made rounds port (pos sock) ends (new, _) =
    session-Throughout rounds port sock ends (λ e. ground arith)
socket_made rounds port (negsuc _) ends new = unfold Throughout in tt

-- Started in any way with its standard input open, ChatClient.cpp uses only descriptors that are
-- open, whatever the kernel answers. Where it ends, it has sent what it read from its input unchanged
-- and in order, and nothing else, but for what is still in its pipe; with 0 it has closed its socket,
-- but not its pipe, and with 1 both.
pub main-Throughout :
    (rounds : ℕ) (argv : List ℕ) (ends : ℕ × ℕ)
    → Throughout relaying Forwarded (started ends) (main rounds argv)
unfolding main
main-Throughout rounds argv ends =
    let s = started ends in
    if-Throughout relaying Forwarded s (leb (argc argv) 2) _ _
      (λ _.
        done-Throughout relaying Forwarded s 1
          (record { order = refl; left = λ e. absurd (omega arith); nothing_left = λ _. refl }))
      (λ few. arg-Throughout relaying Forwarded s argv 2 _ (ground arith) (λ port.
        sys-Throughout relaying Forwarded s _ _ tt
          (λ r (new, _). socket_made rounds port r.ret ends new)))
