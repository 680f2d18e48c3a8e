-- ===== src/TimeHeap/TickLoop.antt =====
-- The loop of `tick` of TimeHeap.h.
use linux_server_programming.Base.{
  ℕ, zero, suc, ◌≤◌, ◌<◌, ◌≡◌, ◌∙◌, refl, sym, subst, false, none, List, [], ◌∷◌, ◌++◌, arith, ◌==◌,
  Bool-cases, inl, inr, ltb, ltb→lt, ok, Returns, ne→==, ==_refl, append_assoc, append-nil,
}
use linux_server_programming.Memory.{Ptr, null}
use linux_server_programming.TimeHeap.{TimeHeap, load_timer, tick_loop, tick}
use linux_server_programming.TimeHeap.Items.{one, count-find}
use linux_server_programming.TimeHeap.Access.{
  key, load_timer-ok, at-ok, write_timer_self, write_timer-other,
}
use linux_server_programming.TimeHeap.Valid.{IsValid}
use linux_server_programming.TimeHeap.Pop.{root_least, Popped, pop_timer-Popped}
use linux_server_programming.TimeHeap.Tick.{
  call_at, calls_at, calls_at-same, key-same, occurs, Each-map, Each-all, IsAscending-same, Ticked,
  call_top-ok,
}

-- One round: the root has expired, is called and popped, and then the rest.
module _ (cur : ℕ) (w w2 w' : TimeHeap) (ps : List Ptr) (v : IsValid w) (pos : 0 < w.cur_size)
    (now : key w.store (w.array 0) ≤ cur)
    (pop : Popped (record w { calls = w.calls ++ call_at w.store (w.array 0) }) w2)
    (t : Ticked cur w2 w' ps) where
  abbrev root : Ptr
  root = w.array 0

  -- the root is not popped again
  root-once : occurs root ps ≡ 0
  root-once =
      let a = pop.items root in
      let b = t.items root in
      let c = v.once root in let e : one (root == root) ≡ 1 = rw (==_refl root) refl in omega arith

  differs : (q : Ptr) → 0 < occurs q ps → (q == root) ≡ false
  differs q h = elim (Bool-cases (q == root)) [
    | inl e ↦
        let is : q ≡ root = ground arith in
        let none_left = root-once in absurd (let h' = rw is at h in omega arith)
    | inr e ↦ e
  ]

  same : (q : Ptr) → 0 < occurs q ps → w2.store q ≡ w.store q
  same q h = rw (pop.store) (write_timer-other w.store root q none (differs q h))

  later : (q : Ptr) → 0 < occurs q ps → key w.store root ≤ key w.store q
  later q h =
      let a = pop.items q in
      let b = t.items q in
      let (i, hi, is) = count-find q w.cur_size w.array (omega arith) in
      let least = root_least w v i hi in subst (λ z. key w.store root ≤ key w.store z) is least

  Ticked-cons : Ticked cur w w' (root ∷ ps)
  Ticked-cons = record {
    valid = t.valid;
    capacity = t.capacity ∙ pop.capacity;
    called =
        t.called
        ∙ rw (pop.calls, calls_at-same w2.store w.store ps same)
            (append_assoc w.calls (call_at w.store root) (calls_at w.store ps));
    ascending = (Each-all ps later, IsAscending-same w2.store w.store ps same t.ascending);
    due = (
      now,
      Each-map ps (λ q o le. let e = key-same w2.store w.store q (same q o) in omega arith) t.due,
    );
    pending = t.pending;
    items = λ q. let a = pop.items q in let b = t.items q in omega arith;
    gone = λ q h. elim (Bool-cases (q == root)) [
      | inl e ↦
          let is : q ≡ root = ground arith in
          rw is (t.kept root root-once ∙ rw (pop.store) (write_timer_self w.store root none))
      | inr e ↦ t.gone q (ground arith)
    ];
    kept = λ q h.
        t.kept q (ground arith)
        ∙ rw (pop.store) (write_timer-other w.store root q none (ground arith));
  }

Ticked-stop :
    (cur : ℕ) (w : TimeHeap)
    → IsValid w
    → ((i : ℕ) → i < w.cur_size → cur < key w.store (w.array i))
    → Ticked cur w w []
Ticked-stop cur w v pending = record {
  valid = v;
  capacity = refl;
  called = sym (append-nil w.calls);
  ascending = tt;
  due = tt;
  pending = pending;
  items = λ q. omega arith;
  gone = λ q h. absurd (omega arith);
  kept = λ q h. refl;
}

tick_loop-Ticked :
    (k cur : ℕ) (w : TimeHeap) (tmp : Ptr)
    → IsValid w
    → tmp ≡ w.array 0
    → w.cur_size < k
    → Returns (λ w'. (ps : List Ptr) × Ticked cur w w' ps) (tick_loop k cur w tmp)
unfolding tick_loop
tick_loop-Ticked zero cur w tmp v is enough = absurd (omega arith)
tick_loop-Ticked (suc k) cur w tmp v is enough = elim (Bool-cases (w.cur_size == 0)) [
  | inl none_left ↦
      let no : w.cur_size ≡ 0 = ground arith in
      (w, rw none_left, ([], Ticked-stop cur w v (λ i h. absurd (omega arith))))
  | inr busy ↦
      let pos : 0 < w.cur_size = ground arith in
      let root = w.array 0 in
      let (live, at) = v.live 0 pos in
      let (t, load, _, expiry) = load_timer-ok w.store root live at in
      let live' : (tmp == null) ≡ false = rw is (ne→== root null live) in
      let load' = subst (λ z. load_timer w.store z ≡ ok t) (sym is) load in
      elim (Bool-cases (ltb cur (key w.store root))) [
        | inl early ↦ (
          w,
          rw (busy, live', load', expiry, early),
          (
            [],
            Ticked-stop cur w v
                (λ i h. let least = root_least w v i h in let e = ltb→lt _ _ early in omega arith),
          ),
        )
        | inr late ↦
            let w1 : TimeHeap = record w { calls = w.calls ++ call_at w.store root } in
            let v1 : IsValid w1 = record {
              fits = v.fits;
              room = v.room;
              live = v.live;
              once = v.once;
              order = v.order;
            } in
            let (w2, pops, pop) = pop_timer-Popped w1 v1 pos in
            let size = pop.cur_size in
            let (w', run, (ps, ticked)) =
              tick_loop-Ticked k cur w2 (w2.array 0) pop.valid refl (omega arith) in
            (
              w',
              rw
                  (
                    busy,
                    live',
                    load',
                    expiry,
                    late,
                    call_top-ok w v pos,
                    pops,
                    at-ok w2 0 pop.valid.room,
                  )
                  run,
              (root ∷ ps, Ticked-cons cur w w2 w' ps v pos (ground arith) pop ticked),
            )
      ]
]

-- `tick` at time `cur` returns. It calls and deletes exactly the timers that expire at `cur` or
-- earlier, in ascending order of expiry, each once; a timer whose callback is NULL is deleted
-- without a call. All that stay expire later, and they stay a valid heap.
pub tick-Ticked :
    (cur : ℕ) (w : TimeHeap)
    → IsValid w
    → Returns (λ w'. (ps : List Ptr) × Ticked cur w w' ps) (tick cur w)
unfolding tick
tick-Ticked cur w v =
    rw (at-ok w 0 v.room) (tick_loop-Ticked (suc w.cur_size) cur w (w.array 0) v refl (omega arith))
