-- ===== src/TimerList/Tick.antt =====
-- `tick` of LST_Timer.h.
use linux_server_programming.Base.{
  ℕ, suc, zero, ◌<◌, ◌≤◌, ◌≡◌, ◌≢◌, refl, ◌∙◌, true, false, none, List, [], ◌∷◌, ◌++◌, arith, ◌==◌,
  Bool-cases, inl, inr, ltb, leb, sym, subst, ok, Returns, ne→==, length, append_assoc, append-nil,
}
use linux_server_programming.Memory.{Ptr, null, Store, node, write, load, free}
use linux_server_programming.Memory.Chain
use linux_server_programming.Memory.Chain.{Cells, Chain, has, first, SameOutside}
use linux_server_programming.Callback.{Call, call_back}
use linux_server_programming.TimerList.{UtilTimer, TimerList, tick_loop, tick}
use linux_server_programming.TimerList.Invariant.{
  last, IsTimerList, IsSorted, NotBefore, expired, pending, call_of, calls_of, Armed,
}

-- What `tick` promises at time `cur`.
pub record Ticked (cur : ℕ) (w : TimerList) (xs : Cells UtilTimer) (w' : TimerList) : Type 0 where
  pub list : IsTimerList (pending cur xs) w'
  pub called : w'.calls ≡ w.calls ++ calls_of (expired cur xs)
  pub gone : (d : Ptr) → has d (expired cur xs) ≡ true → w'.store d ≡ none
  pub same : (d : Ptr) → has d xs ≡ false → w'.store d ≡ w.store d

-- In order, nothing behind a timer that is pending has expired.
pending_all :
    (cur : ℕ) (xs : Cells UtilTimer)
    → NotBefore (suc cur) xs
    → (pending cur xs ≡ xs) × (expired cur xs ≡ [])
pending_all cur [] h = (refl, refl)
pending_all cur ((a, u) ∷ xs) (b, h) = ground (arith, pending_all cur xs h)

NotBefore-mono : (m n : ℕ) (xs : Cells UtilTimer) → m ≤ n → NotBefore n xs → NotBefore m xs
NotBefore-mono m n [] h b = tt
NotBefore-mono m n ((a, u) ∷ xs) h (b, bs) = (omega arith, NotBefore-mono m n xs h bs)

call_back_ok :
    (v : UtilTimer) (log : List Call)
    → v.cb_func ≢ none
    → call_back v.cb_func v.user_data log ≡ ok (log ++ call_of v)
call_back_ok v log armed = ground arith

last-any : (d e : Ptr) (xs : Cells UtilTimer) → d ≡ last e xs → d ≡ last d xs
last-any d e [] h = refl
last-any d e ((a, u) ∷ xs) h = h

-- the state after the head has been called and deleted
abbrev popped : TimerList → UtilTimer → Cells UtilTimer → Store UtilTimer → TimerList
popped w u xs g = record w { head = first xs; store = g; calls = w.calls ++ call_of u }

module _ (cur : ℕ) (w : TimerList) (a : Ptr) (u : UtilTimer) (xs : Cells UtilTimer)
    (is : IsTimerList ((a, u) ∷ xs) w) where
  -- one round with an expired head
  tick_loop-expired :
      (k : ℕ)
      → u.cb_func ≢ none
      → ltb cur u.expire ≡ false
      → (g : Store UtilTimer) × (tick_loop (suc k) cur w ≡ tick_loop k cur (popped w u xs g))
        × IsTimerList xs (popped w u xs g)
        × (g a ≡ none)
        × SameOutside ((a, u) ∷ xs) w.store g
  unfolding tick_loop
  tick_loop-expired k armed now =
      let (la, ata, na, c) = is.chain in
      let (h1, run, (chain, same)) = Chain.set_prev_if-Chain w.store a null xs c in
      let own = same a na ∙ ata in
      let head_live : (w.head == null) ≡ false = rw (is.head) (ne→== a null la) in
      let at : load w.store w.head ≡ ok (node u null (first xs)) =
        subst (λ z. load w.store z ≡ ok (node u null (first xs))) (sym is.head)
          (Chain.load-ok w.store a la ata) in
      let freed : free h1 w.head ≡ ok (write h1 a none) =
        subst (λ z. free h1 z ≡ ok (write h1 a none)) (sym is.head) (Chain.free-ok h1 a la own) in
      (
        write h1 a none,
        rw (head_live, at, now, call_back_ok u w.calls armed, run, freed),
        record {
          head = refl;
          chain = Chain.frame-write h1 null xs a none chain na;
          tail = last-any w.tail a xs is.tail;
        },
        Chain.write_self h1 a none,
        λ d o. Chain.write-other h1 a d none (ground arith) ∙ same d (ground arith),
      )

  -- a round with a head that is pending ends the loop
  pub tick_loop-pending : (k : ℕ) → ltb cur u.expire ≡ true → tick_loop (suc k) cur w ≡ ok w
  unfolding tick_loop
  tick_loop-pending k later =
      let (la, ata, na, c) = is.chain in
      let head_live : (w.head == null) ≡ false = rw (is.head) (ne→== a null la) in
      let at : load w.store w.head ≡ ok (node u null (first xs)) =
        subst (λ z. load w.store z ≡ ok (node u null (first xs))) (sym is.head)
          (Chain.load-ok w.store a la ata) in
      rw (head_live, at, later)

  Ticked-pending : IsSorted ((a, u) ∷ xs) → ltb cur u.expire ≡ true → Ticked cur w ((a, u) ∷ xs) w
  Ticked-pending (b, s) later =
      let (all, nothing) =
        pending_all cur ((a, u) ∷ xs)
          (ground arith, NotBefore-mono (suc cur) u.expire xs (ground arith) b) in
      record {
        list = rw all is;
        called = rw nothing (sym (append-nil w.calls));
        gone = rw nothing (λ d m. cc);
        same = λ d o. refl;
      }

  Ticked-expired :
      (g : Store UtilTimer) (w' : TimerList)
      → ltb cur u.expire ≡ false
      → g a ≡ none
      → SameOutside ((a, u) ∷ xs) w.store g
      → Ticked cur (popped w u xs g) xs w'
      → Ticked cur w ((a, u) ∷ xs) w'
  Ticked-expired g w' now gone same t =
      let out : leb u.expire cur ≡ true = ground arith in
      let na = is.chain.2 in
      record {
        list = rw out t.list;
        called = rw out (t.called ∙ append_assoc w.calls (call_of u) (calls_of (expired cur xs)));
        gone = rw out (λ d m. elim (Bool-cases (d == a)) [
          | inl e ↦ let hit : d ≡ a = ground arith in rw hit (t.same a na ∙ gone)
          | inr e ↦ t.gone d (rw e at m)
        ]);
        same = λ d o. t.same d (ground arith) ∙ same d o;
      }

tick_loop-Ticked :
    (k cur : ℕ) (w : TimerList) (xs : Cells UtilTimer)
    → IsTimerList xs w
    → IsSorted xs
    → Armed xs
    → length xs < k
    → Returns (Ticked cur w xs) (tick_loop k cur w)
tick_loop-Ticked zero cur w xs is s armed enough = absurd (omega arith)
tick_loop-Ticked (suc k) cur w [] is s armed enough =
    unfold tick_loop in
    (
      w,
      rw (is.head),
      record { list = is; called = sym (append-nil w.calls); gone = λ d m. cc; same = λ d o. refl },
    )
tick_loop-Ticked (suc k) cur w ((a, u) ∷ xs) is (b, s) (set, armed) enough =
    elim (Bool-cases (ltb cur u.expire)) [
      | inl later ↦ (
        w,
        tick_loop-pending cur w a u xs is k later,
        Ticked-pending cur w a u xs is (b, s) later,
      )
      | inr now ↦
          let (g, step, is', gone, same) = tick_loop-expired cur w a u xs is k set now in
          let (w', run, t) =
            tick_loop-Ticked k cur (popped w u xs g) xs is' s armed (omega arith) in
          (w', step ∙ run, Ticked-expired cur w a u xs is g w' now gone same t)
    ]

-- On a list in order whose timers have a callback, `tick` with fuel above the list's length calls exactly the timers that have expired, in the list's order, and
-- deletes their nodes; the others stay, in the same order.
pub tick-pending :
    (fuel cur : ℕ) (w : TimerList) (xs : Cells UtilTimer)
    → IsTimerList xs w
    → IsSorted xs
    → Armed xs
    → length xs < fuel
    → Returns (Ticked cur w xs) (tick fuel cur w)
unfolding tick
tick-pending fuel cur w [] is s armed enough = (
  w,
  rw (is.head),
  record { list = is; called = sym (append-nil w.calls); gone = λ d m. cc; same = λ d o. refl },
)
tick-pending fuel cur w ((a, u) ∷ xs) is s armed enough =
    let head_live : (w.head == null) ≡ false = rw (is.head) (ne→== a null is.chain.0) in
    rw head_live (tick_loop-Ticked fuel cur w ((a, u) ∷ xs) is s armed enough)
