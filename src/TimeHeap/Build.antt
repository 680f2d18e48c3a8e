-- ===== src/TimeHeap/Build.antt =====
-- The constructors of TimeHeap.h.
use linux_server_programming.Base.{
  ℕ, zero, suc, ◌+◌, ◌-◌, ◌/◌, ◌≤◌, ◌<◌, ◌≡◌, ◌≢◌, ◌⊎◌, ◌∙◌, refl, sym, subst, none, some, [],
  arith, ◌==◌, if◌then◌else◌, Bool-cases, inl, inr, ltb, ltb→lt, ok, Returns,
}
use linux_server_programming.Memory.{Ptr, null}
use linux_server_programming.TimeHeap.{Timers, TimeHeap, heapify, new_heap_from}
use linux_server_programming.TimeHeap.Items.{count, SameItems, count-same}
use linux_server_programming.TimeHeap.Order.{IsHeapFrom, SinkInv}
use linux_server_programming.TimeHeap.Access.{key, AllLive, Sifted}
use linux_server_programming.TimeHeap.Down.{percolate_down-Sifted}
use linux_server_programming.TimeHeap.Valid.{IsValid, Sifted-IsValid, Sifted-record, AllLive-items}

SinkInv-start :
    (key : Ptr → ℕ) (n i : ℕ) (a : ℕ → Ptr) → IsHeapFrom key n (suc i) a → SinkInv key n i a i
SinkInv-start key n i a h = record {
  edges = λ c p q r ne. h c p q (omega arith);
  bridged = λ c p q e h0 up. absurd (omega arith);
}

-- Sifting the entries from `i - 1` down to 0 orders the whole array.
heapify-Sifted :
    (i : ℕ) (w : TimeHeap)
    → w.cur_size ≤ w.capacity
    → i ≤ w.cur_size
    → AllLive w.store w.cur_size w.array
    → IsHeapFrom (key w.store) w.cur_size i w.array
    → Returns (Sifted 0 w w.array) (heapify i w)
unfolding heapify
heapify-Sifted zero w fits inside live h = (
  w,
  refl,
  record {
    capacity = refl;
    cur_size = refl;
    store = refl;
    calls = refl;
    order = h;
    items = λ p. refl;
  },
)
heapify-Sifted (suc i) w fits inside live h =
    let (w1, run, s) =
      percolate_down-Sifted i w i fits (omega arith) (omega arith) live
        (SinkInv-start (key w.store) w.cur_size i w.array h) in
    let is = Sifted-record i w w.array w1 s in
    let w2 : TimeHeap = record w { array = w1.array } in
    let (w', run', r) =
      heapify-Sifted i w2 fits (omega arith)
        (AllLive-items w.store w.cur_size w1.array w.array live s.items) s.order in
    (
      w',
      rw run (subst (λ z. heapify i z ≡ ok w') (sym is) run'),
      record {
        capacity = r.capacity;
        cur_size = r.cur_size;
        store = r.store;
        calls = r.calls;
        order = r.order;
        items = λ p. r.items p ∙ s.items p;
      },
    )

-- The second constructor, given distinct live timers, builds a valid heap of exactly those; it
-- throws its exception just where the capacity is below the size.
pub new_heap_from-IsValid :
    (h : Timers) (init : ℕ → Ptr) (size capacity : ℕ)
    → 0 < capacity
    → AllLive h size init
    → ((p : Ptr) → count p size init ≤ 1)
    → Returns
        (λ o.
          ((o ≡ none) × (capacity < size))
          ⊎ ((w : TimeHeap) × (o ≡ some w)
              × IsValid w
              × (w.cur_size ≡ size)
              × (w.capacity ≡ capacity)
              × (w.store ≡ h)
              × SameItems size w.array init))
        (new_heap_from h init size capacity)
unfolding new_heap_from
new_heap_from-IsValid h init size capacity room live once = elim (Bool-cases (ltb capacity size)) [
  | inl over ↦ (none, rw over, inl (refl, ltb→lt _ _ over))
  | inr fits ↦
      let a = λ (i : ℕ). if ltb i size then init i else null in
      let w : TimeHeap = record {
        array = a;
        capacity = capacity;
        cur_size = size;
        store = h;
        calls = [];
      } in
      let same : (i : ℕ) → i < size → a i ≡ init i = λ i hi. ground arith in
      let alive : AllLive h size a =
        λ i hi. subst (λ p. (p ≢ null) × (h p ≢ none)) (sym (same i hi)) (live i hi) in
      let counts : (p : Ptr) → count p size a ≡ count p size init =
        λ p. count-same p size a init same in
      let once' : (p : Ptr) → count p size a ≤ 1 = λ p. rw (counts p) (once p) in
      let inside : size ≤ capacity = ground arith in
      elim (Bool-cases (size == 0)) [
        | inl zero_size ↦
            let no : size ≡ 0 = ground arith in
            (
              some w,
              rw (fits, zero_size),
              inr (
                w,
                refl,
                record {
                  fits = inside;
                  room = room;
                  live = alive;
                  once = once';
                  order = λ c p q. absurd (omega arith);
                },
                refl,
                refl,
                refl,
                counts,
              ),
            )
        | inr some_size ↦
            let pos : 0 < size = ground arith in
            let (w', run, s) =
              heapify-Sifted ((size - 1) / 2 + 1) w inside (omega arith) alive
                (λ c p q r. absurd (omega arith)) in
            (
              some w',
              rw (fits, some_size, run),
              inr (
                w',
                refl,
                Sifted-IsValid w a w' inside room alive once' s,
                s.cur_size,
                s.capacity,
                s.store,
                λ p. s.items p ∙ counts p,
              ),
            )
      ]
]
