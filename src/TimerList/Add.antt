-- ===== src/TimerList/Add.antt =====
-- The public `add_timer` of LST_Timer.h.
use linux_server_programming.Base.{
  ℕ, suc, zero, ◌<◌, ◌≡◌, ◌≢◌, refl, ◌∙◌, true, false, some, [], ◌∷◌, arith, ◌==◌, Bool-cases, inl,
  inr, ltb, sym, ok, ◌>>=◌, fault, Returns, ne→==, length,
}
use linux_server_programming.Memory.{Ptr, null, Store, node, write, load, set_next}
use linux_server_programming.Memory.Chain
use linux_server_programming.Memory.Chain.{Cells, Chain, has, first, SameOutside}
use linux_server_programming.TimerList.{
  UtilTimer, TimerList, insert_loop, add_timer_behind, add_timer_to, add_timer, del_timer,
}
use linux_server_programming.TimerList.Insert.{insert_before, insert_loop-Chain}
use linux_server_programming.TimerList.Invariant.{
  last, IsTimerList, insert, NoneAfter, last-insert_before, has-last,
}

module _ (t : Ptr) (v : UtilTimer) (live : t ≢ null) (fuel : ℕ) where
  -- What `add_timer` promises besides the list.
  abbrev pub Added : TimerList → Cells UtilTimer → TimerList → Type 0
  Added w xs w' =
      IsTimerList (insert t v xs) w'
      × (w'.calls ≡ w.calls)
      × SameOutside ((t, v) ∷ xs) w.store w'.store

  add_timer_to-front :
      (w : TimerList) (a : Ptr) (u : UtilTimer) (xs : Cells UtilTimer)
      → IsTimerList ((a, u) ∷ xs) w
      → w.store t ≡ some (node v null null)
      → has t ((a, u) ∷ xs) ≡ false
      → ltb v.expire u.expire ≡ true
      → Returns (Added w ((a, u) ∷ xs)) (add_timer_to fuel w t)
  unfolding add_timer_to insert_before
  add_timer_to-front w a u xs is at out sooner =
      let (la, ata, na, c) = is.chain in
      let h1 : Store UtilTimer = write w.store t (some (node v null a)) in
      let a1 : h1 a ≡ some (node u null (first xs)) = unfold write in ground arith in
      let h2 : Store UtilTimer = write h1 a (some (node u t (first xs))) in
      let t2 : h2 t ≡ some (node v null a) = unfold write in ground arith in
      let a2 : h2 a ≡ some (node u t (first xs)) = unfold write in ground arith in
      let kept : (d : Ptr) → (d == a) ≡ false → (d == t) ≡ false → h2 d ≡ w.store d =
        unfold write in ground arith in
      let c2 : Chain h2 a xs = Chain.frame a xs c (λ d i. kept d (ground arith) (ground arith)) in
      (
        record w { head = t; store = h2 },
        rw (
          Chain.load-ok w.store t live at,
          is.head,
          Chain.load-ok w.store a la ata,
          sooner,
          Chain.set_next-ok w.store t a live at,
          Chain.set_prev-ok h1 a t la a1,
        ),
        rw sooner (
          record { head = refl; chain = (live, t2, out, (la, a2, na, c2)); tail = is.tail },
          refl,
          λ d o. kept d (ground arith) (ground arith),
        ),
      )

  add_timer_to-behind :
      (w : TimerList) (a : Ptr) (u : UtilTimer) (xs : Cells UtilTimer)
      → IsTimerList ((a, u) ∷ xs) w
      → w.store t ≡ some (node v null null)
      → has t ((a, u) ∷ xs) ≡ false
      → length xs < fuel
      → ltb v.expire u.expire ≡ false
      → Returns (Added w ((a, u) ∷ xs)) (add_timer_to fuel w t)
  unfolding add_timer_to add_timer_behind
  add_timer_to-behind w a u xs is at out enough later =
      let (la, ata, na, c) = is.chain in
      let (h, run, (chain, same)) =
        insert_loop-Chain t v live fuel w.store null a null null u xs is.chain at out enough in
      let e : insert_before t v ((a, u) ∷ xs) ≡ (a, u) ∷ insert_before t v xs =
        unfold insert_before in rw later in
      (
        record w { store = h },
        rw (Chain.load-ok w.store t live at, is.head, Chain.load-ok w.store a la ata, later, run),
        rw e (
          record {
            head = is.head;
            chain = chain;
            tail = is.tail ∙ sym (last-insert_before t v a xs);
          },
          refl,
          same,
        ),
      )

  -- `add_timer` of a live timer that is not in the list and has no neighbours returns, with fuel
  -- above the list's length. The timer is placed as `insert` says: in front of the first timer that
  -- expires later, and nowhere if there is none in a list that is not empty.
  pub add_timer-insert :
      (w : TimerList) (xs : Cells UtilTimer)
      → IsTimerList xs w
      → w.store t ≡ some (node v null null)
      → has t xs ≡ false
      → length xs < fuel
      → Returns (Added w xs) (add_timer fuel w t)
  unfolding add_timer
  add_timer-insert w [] is at out enough = (
    record w { head = t; tail = t },
    rw (ne→== t null live, is.head),
    (record { head = refl; chain = (live, at, refl, tt); tail = refl }, refl, λ d o. refl),
  )
  add_timer-insert w ((a, u) ∷ xs) is at out enough =
      let go : add_timer fuel w t ≡ add_timer_to fuel w t =
        rw (ne→== t null live, is.head, ne→== a null is.chain.0) refl in
      elim (Bool-cases (ltb v.expire u.expire)) [
        | inl sooner ↦
            let (w', run, added) = add_timer_to-front w a u xs is at out sooner in
            (w', go ∙ run, added)
        | inr later ↦
            let (w', run, added) = add_timer_to-behind w a u xs is at out (omega arith) later in
            (w', go ∙ run, added)
      ]

  pub insert_loop-lost :
      (k : ℕ) (h : Store UtilTimer) (q a r s : Ptr) (xs : Cells UtilTimer)
      → Chain h q xs
      → h t ≡ some (node v r s)
      → NoneAfter v.expire xs
      → length xs < k
      → insert_loop k h t a (first xs) ≡ ok h
  unfolding insert_loop
  insert_loop-lost zero h q a r s xs c at none_after enough = absurd (omega arith)
  insert_loop-lost (suc k) h q a r s [] c at none_after enough = refl
  insert_loop-lost (suc k) h q a r s ((b, x) ∷ xs) (lb, atb, nb, c) at (no_later, rest) enough =
      let off : ltb v.expire x.expire ≡ false = ground arith in
      rw (ne→== b null lb, Chain.load-ok h t live at, Chain.load-ok h b lb atb, off)
        (insert_loop-lost k h b b r s xs c at rest (omega arith))

  -- A live timer without neighbours that expires no sooner than any in a list that is not empty is not put into it:
  -- `add_timer`, with enough fuel, changes nothing.
  add_timer-lost :
      (w : TimerList) (a : Ptr) (u : UtilTimer) (xs : Cells UtilTimer)
      → IsTimerList ((a, u) ∷ xs) w
      → w.store t ≡ some (node v null null)
      → NoneAfter v.expire ((a, u) ∷ xs)
      → length xs < fuel
      → add_timer fuel w t ≡ ok w
  unfolding add_timer add_timer_to add_timer_behind
  add_timer-lost w a u xs is at (no_later, rest) enough =
      let (la, ata, na, c) = is.chain in
      let off : ltb v.expire u.expire ≡ false = ground arith in
      rw (
        ne→== t null live,
        is.head,
        ne→== a null la,
        Chain.load-ok w.store t live at,
        Chain.load-ok w.store a la ata,
        off,
        insert_loop-lost fuel w.store a a null null xs c at rest enough,
      )

  -- Deleting a live timer that is not in a list that is not empty, as one that was lost, goes through
  -- its `prev`, which is NULL.
  del_timer-lost :
      (w : TimerList) (a : Ptr) (u : UtilTimer) (xs : Cells UtilTimer)
      → IsTimerList ((a, u) ∷ xs) w
      → w.store t ≡ some (node v null null)
      → has t ((a, u) ∷ xs) ≡ false
      → del_timer w t ≡ fault
  unfolding del_timer
  del_timer-lost w a u xs is at out =
      let not_head : (t == w.head) ≡ false = rw (is.head) (ground arith) in
      let not_tail : (t == w.tail) ≡ false =
        rw (is.tail) (Chain.differs t (last a xs) ((a, u) ∷ xs) out (has-last a w.tail u xs)) in
      rw (ne→== t null live, not_head, not_tail, Chain.load-ok w.store t live at)
        (unfold set_next load in refl)

  -- A live timer without neighbours, which expires no sooner than any in a list that is not empty and
  -- does not hold it, is lost: `add_timer`, with enough fuel, changes nothing, and deleting the timer
  -- then goes through its `prev`, which is NULL.
  pub add_timer-loses :
      (w : TimerList) (a : Ptr) (u : UtilTimer) (xs : Cells UtilTimer)
      → IsTimerList ((a, u) ∷ xs) w
      → w.store t ≡ some (node v null null)
      → has t ((a, u) ∷ xs) ≡ false
      → NoneAfter v.expire ((a, u) ∷ xs)
      → length xs < fuel
      → (add_timer fuel w t ≡ ok w) × ((add_timer fuel w t >>= λ w'. del_timer w' t) ≡ fault)
  add_timer-loses w a u xs is at out no_later enough =
      let same = add_timer-lost w a u xs is at no_later enough in
      (same, rw same (del_timer-lost w a u xs is at out))
