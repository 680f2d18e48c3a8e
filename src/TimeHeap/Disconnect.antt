-- ===== src/TimeHeap/Disconnect.antt =====
-- `del_timer` of TimeHeap.h, and TimeHeap.cpp's use of it when a connection ends.
use linux_server_programming.Base.{
  ℕ, ◌<◌, ◌≡◌, ◌≢◌, ◌∙◌, refl, sym, subst, false, none, some, arith, ◌==◌, Bool-cases, inl, inr, ok,
  Returns, ne→==,
}
use linux_server_programming.Memory.{Ptr, null}
use linux_server_programming.TimeHeap.{
  HeapTimer, Timers, TimeHeap, write_timer, del_timer, disconnect,
}
use linux_server_programming.TimeHeap.Items.{one, count, count-pos, count-two}
use linux_server_programming.TimeHeap.Order.{parent}
use linux_server_programming.TimeHeap.Access.{
  key, load_timer-ok, write_timer_self, write_timer-other,
}
use linux_server_programming.TimeHeap.Valid.{IsValid}
use linux_server_programming.TimeHeap.Pop.{pop_timer-Popped}

abbrev pub silenced : HeapTimer → HeapTimer
silenced t = record t { cb_func = none }

module _ (w : TimeHeap) (p : Ptr) (t : HeapTimer) (own : w.store p ≡ some t) where
  abbrev store' : Timers
  store' = write_timer w.store p (some (silenced t))

  key-silenced : (q : Ptr) → key store' q ≡ key w.store q
  unfolding write_timer
  key-silenced q = elim (Bool-cases (q == p)) [
    | inl e ↦ let is : q ≡ p = ground arith in rw (key, e, is, own)
    | inr e ↦ rw (key, e)
  ]

  live-silenced : (q : Ptr) → w.store q ≢ none → store' q ≢ none
  unfolding write_timer
  live-silenced q live = elim (Bool-cases (q == p)) [ inl e ↦ rw e (λ c. cc) | inr e ↦ rw e live ]

  -- `del_timer` of a live timer only clears its callback: the timer keeps its place in the heap, which stays valid.
  pub del_timer-silences :
      IsValid w
      → p ≢ null
      → (del_timer w p ≡ ok (record w { store = store' })) × IsValid (record w { store = store' })
  unfolding del_timer
  del_timer-silences v live =
      let (t', load, own', _) = load_timer-ok w.store p live (λ e. cc (own, e)) in
      let same : t' ≡ t = cc (own, own') in
      (
        rw (ne→== p null live, load, same),
        record {
          fits = v.fits;
          room = v.room;
          live = λ i h. let (a, b) = v.live i h in (a, live-silenced (w.array i) b);
          once = v.once;
          order = λ c x y z.
              rw (key-silenced (w.array (parent c)), key-silenced (w.array c)) (v.order c x y z);
        },
      )

  -- When the connection of a timer of a valid heap that is not at the root ends, TimeHeap.cpp deletes the timer at
  -- the root, another client's, without calling it; the ended client's own timer stays in the heap
  -- with its callback cleared.
  pub disconnect-drops_root :
      (i : ℕ)
      → IsValid w
      → 0 < i
      → i < w.cur_size
      → w.array i ≡ p
      → Returns
          (λ w'.
            IsValid w'
            × (w'.store (w.array 0) ≡ none)
            × (w'.calls ≡ w.calls)
            × (count p w'.cur_size w'.array ≡ 1)
            × (w'.store p ≡ some (silenced t)))
          (disconnect w p)
  unfolding disconnect
  disconnect-drops_root i v pos hi at =
      let live : p ≢ null = subst (λ z. z ≢ null) at (v.live i hi).0 in
      let (run, v1) = del_timer-silences v live in
      let (w', run', s) = pop_timer-Popped (record w { store = store' }) v1 (omega arith) in
      let root = w.array 0 in
      let apart : (root == p) ≡ false = elim (Bool-cases (root == p)) [
        | inl e ↦
            let same : root ≡ w.array i = (let is : root ≡ p = ground arith in is) ∙ sym at in
            let twice = count-two w.cur_size w.array 0 i pos hi same in
            let o = v.once root in absurd (omega arith)
        | inr e ↦ e
      ] in
      let apart' : (p == root) ≡ false = ground arith in
      let counts = s.items p in
      let there =
        subst (λ z. 0 < count z w.cur_size w.array) at (count-pos w.cur_size w.array i hi) in
      let o = v.once p in
      let zero_one : one (root == p) ≡ 0 = rw apart refl in
      (
        w',
        rw run run',
        (
          s.valid,
          rw (s.store) (write_timer_self store' root none),
          s.calls,
          omega arith,
          rw (s.store) (
              write_timer-other store' root p none apart'
              ∙ write_timer_self w.store p (some (silenced t))),
        ),
      )
