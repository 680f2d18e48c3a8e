-- ===== src/TimeHeap/Destroy.antt =====
-- The destructor of TimeHeap.h.
use linux_server_programming.Base.{
  ℕ, zero, suc, ◌+◌, ◌<◌, ◌≤◌, ◌≡◌, ◌≢◌, refl, ◌∙◌, sym, ap, subst, ltb, ok, none, false, arith,
  ◌==◌, Returns, ne→==, Bool-cases, inl, inr,
}
use linux_server_programming.Memory.{Ptr, null}
use linux_server_programming.TimeHeap.{
  Timers, TimeHeap, write_timer, delete_timer, destroy_from, destroy,
}
use linux_server_programming.TimeHeap.Items.{count, count-two, count-pos}
use linux_server_programming.TimeHeap.Access.{
  load_timer-ok, at-ok, write_timer_self, write_timer-other,
}
use linux_server_programming.TimeHeap.Valid.{IsValid}

-- what the loop does from entry `i` on
record ClearedFrom (i n : ℕ) (a : ℕ → Ptr) (h h' : Timers) : Type 0 where
  gone : (j : ℕ) → i ≤ j → j < n → h' (a j) ≡ none
  same : (d : Ptr) → ((j : ℕ) → i ≤ j → j < n → d ≢ a j) → h' d ≡ h d

-- All timers of the heap are deleted, and no others.
pub record Cleared (w : TimeHeap) (h : Timers) : Type 0 where
  pub gone : (j : ℕ) → j < w.cur_size → h (w.array j) ≡ none
  pub same : (d : Ptr) → count d w.cur_size w.array ≡ 0 → h d ≡ w.store d

delete_timer-ok :
    (h : Timers) (p : Ptr) → p ≢ null → h p ≢ none → delete_timer h p ≡ ok (write_timer h p none)
unfolding delete_timer
delete_timer-ok h p live e =
    let (t, run, own, is) = load_timer-ok h p live e in rw (ne→== p null live, run)

module _ (n : ℕ) (a : ℕ → Ptr) (apart : (i j : ℕ) → i < n → j < n → a i ≡ a j → i ≡ j) where
  Cleared-suc :
      (i : ℕ) (h h' : Timers)
      → i < n
      → ClearedFrom (i + 1) n a (write_timer h (a i) none) h'
      → ClearedFrom i n a h h'
  Cleared-suc i h h' hi t = record {
    gone = λ j low hj. elim (Bool-cases (j == i)) [
      | inl e ↦
          let is : j ≡ i = ground arith in
          rw is (
            t.same (a i) (λ k lo hk q. let same = apart i k hi hk q in omega arith)
            ∙ write_timer_self h (a i) none)
      | inr e ↦ t.gone j (ground arith) hj
    ];
    same = λ d o.
        t.same d (λ k lo hk. o k (omega arith) hk)
        ∙ write_timer-other h (a i) d none (ne→== d (a i) (o i (omega arith) hi));
  }

  destroy_from-ClearedFrom :
      (left i : ℕ) (w : TimeHeap)
      → w.array ≡ a
      → n ≤ w.capacity
      → i + left ≡ n
      → ((j : ℕ) → i ≤ j → j < n → (a j ≢ null) × (w.store (a j) ≢ none))
      → Returns (λ w'. ClearedFrom i n a w.store w'.store) (destroy_from left i w)
  unfolding destroy_from
  destroy_from-ClearedFrom zero i w is fits sum live =
      (w, refl, record { gone = λ j low hj. absurd (omega arith); same = λ d o. refl })
  destroy_from-ClearedFrom (suc k) i w is fits sum live =
      let hi : i < n = omega arith in
      let (set, here) = live i (omega arith) hi in
      let h = write_timer w.store (a i) none in
      let (w', run, t) =
        destroy_from-ClearedFrom k (i + 1) (record w { store = h }) is fits (omega arith)
          (λ j low hj.
            let (set', there) = live j (omega arith) hj in
            let other : a j ≢ a i = λ q. let same = apart j i hj hi q in omega arith in
            (
              set',
              λ e.
                  there (
                    sym (write_timer-other w.store (a i) (a j) none (ne→== (a j) (a i) other)) ∙ e),
            )) in
      let at : w.array i ≡ a i = ap (λ f. f i) is in
      (
        w',
        rw (at-ok w i (omega arith), at, delete_timer-ok w.store (a i) set here) run,
        Cleared-suc i w.store w'.store hi t,
      )

same_index : (i j : ℕ) → ltb i j ≡ false → ltb j i ≡ false → i ≡ j
same_index i j a b = ground arith

distinct :
    (w : TimeHeap) (i j : ℕ)
    → IsValid w
    → i < w.cur_size
    → j < w.cur_size
    → w.array i ≡ w.array j
    → i ≡ j
distinct w i j v hi hj e = elim (Bool-cases (ltb i j)) [
  | inl low ↦
      let two = count-two w.cur_size w.array i j (ground arith) hj e in
      let once = v.once (w.array i) in absurd (omega arith)
  | inr not_low ↦ elim (Bool-cases (ltb j i)) [
    | inl low ↦
        let two = count-two w.cur_size w.array j i (ground arith) hi (sym e) in
        let once = v.once (w.array j) in absurd (omega arith)
    | inr not_high ↦ same_index i j not_low not_high
  ]
]

-- The destructor of a valid heap deletes each of its timers once, and nothing else.
pub destroy-Cleared : (w : TimeHeap) → IsValid w → Returns (Cleared w) (destroy w)
unfolding destroy
destroy-Cleared w v =
    let (w', run, t) =
      destroy_from-ClearedFrom w.cur_size w.array (λ i j. distinct w i j v) w.cur_size 0 w refl
        v.fits (omega arith) (λ j _ hj. v.live j hj) in
    (
      w'.store,
      rw run,
      record {
        gone = λ j hj. t.gone j (omega arith) hj;
        same = λ d o. t.same d (λ j _ hj q.
            let pos = count-pos w.cur_size w.array j hj in
            let none_of : count (w.array j) w.cur_size w.array ≡ 0 =
              subst (λ p. count p w.cur_size w.array ≡ 0) q o in
            omega arith);
      },
    )
