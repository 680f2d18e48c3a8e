-- ===== src/TimeHeap/Add.antt =====
-- `add_timer` and `resize` of TimeHeap.h.
use linux_server_programming.Base.{
  ℕ, suc, ◌+◌, ◌*◌, ◌≤◌, ◌<◌, ◌≡◌, ◌≢◌, ◌∙◌, refl, sym, ap, subst, true, none, arith, ◌==◌,
  if◌then◌else◌, Bool-cases, inl, inr, ltb, leb, Returns, ne→==,
}
use linux_server_programming.Memory.{Ptr, null}
use linux_server_programming.TimeHeap.{TimeHeap, resize, rise_loop, add_timer}
use linux_server_programming.TimeHeap.Items.{
  upd, one, count, count-same, count-push, count-push_once,
}
use linux_server_programming.TimeHeap.Order.{parent, IsHeapFrom, RiseInv}
use linux_server_programming.TimeHeap.Access.{key, AllLive}
use linux_server_programming.TimeHeap.Up.{rise_loop-Sifted}
use linux_server_programming.TimeHeap.Valid.{IsValid, Sifted-IsValid}

-- the capacity after `add_timer`
abbrev pub grown : TimeHeap → ℕ
grown w = if leb w.capacity w.cur_size then 2 * w.capacity else w.capacity

-- A valid heap with the same timers and room for one more.
record Roomy (w w' : TimeHeap) : Type 0 where
  valid : IsValid w'
  more : w'.cur_size < w'.capacity
  capacity : w'.capacity ≡ grown w
  cur_size : w'.cur_size ≡ w.cur_size
  store : w'.store ≡ w.store
  calls : w'.calls ≡ w.calls
  kept : (i : ℕ) → i < w.cur_size → w'.array i ≡ w.array i

resize-Roomy : (w : TimeHeap) → IsValid w → w.capacity ≤ w.cur_size → Returns (Roomy w) (resize w)
unfolding resize
resize-Roomy w v full =
    let a = λ (i : ℕ). if ltb i w.cur_size then w.array i else null in
    let same : (i : ℕ) → i < w.cur_size → a i ≡ w.array i = λ i h. ground arith in
    let inside : leb w.cur_size w.capacity ≡ true = let f = v.fits in ground arith in
    let f = v.fits in
    let r = v.room in
    (
      record w { array = a; capacity = 2 * w.capacity },
      rw inside,
      record {
        valid = record {
          fits = omega arith;
          room = omega arith;
          live = λ i h. subst (λ p. (p ≢ null) × (w.store p ≢ none)) (sym (same i h)) (v.live i h);
          once = λ p. rw (count-same p w.cur_size a w.array same) (v.once p);
          order = λ c p q l. rw (same c q, same (parent c) (omega arith)) (v.order c p q l);
        };
        more = omega arith;
        capacity = ground arith;
        cur_size = refl;
        store = refl;
        calls = refl;
        kept = same;
      },
    )

RiseInv-start :
    (key : Ptr → ℕ) (n : ℕ) (a : ℕ → Ptr) (x : Ptr)
    → IsHeapFrom key n 0 a
    → RiseInv key (n + 1) (upd a n x) n
RiseInv-start key n a x h = record {
  edges = λ c p q ne. ground (arith, h c p);
  bridged = λ c p q e h0. absurd (omega arith);
}

-- What `add_timer` promises: the timer is one more of a valid heap, and nothing else is changed.
pub record Added (w : TimeHeap) (p : Ptr) (w' : TimeHeap) : Type 0 where
  pub valid : IsValid w'
  pub capacity : w'.capacity ≡ grown w
  pub cur_size : w'.cur_size ≡ w.cur_size + 1
  pub store : w'.store ≡ w.store
  pub calls : w'.calls ≡ w.calls
  pub items :
      (q : Ptr) → count q (w.cur_size + 1) w'.array ≡ count q w.cur_size w.array + one (p == q)

rise-Added :
    (w : TimeHeap) (p : Ptr)
    → IsValid w
    → w.cur_size < w.capacity
    → p ≢ null
    → w.store p ≢ none
    → count p w.cur_size w.array ≡ 0
    → Returns
        (Added w p)
        (rise_loop (suc w.cur_size) (record w { cur_size = w.cur_size + 1 }) p w.cur_size)
rise-Added w p v more live at new =
    let n = w.cur_size in
    let w1 : TimeHeap = record w { cur_size = n + 1 } in
    let a = upd w.array n p in
    let alive : AllLive w.store (n + 1) a = λ i hi. elim (Bool-cases (i == n)) [
      | inl e ↦ rw e (live, at)
      | inr e ↦ rw e (v.live i (ground arith))
    ] in
    let counted : (q : Ptr) → count q (n + 1) a ≡ count q n w.array + one (p == q) =
      λ q. count-push q n w.array p in
    let once : (q : Ptr) → count q (n + 1) a ≤ 1 =
      λ q. rw (counted q) (count-push_once q n w.array p new (v.once q)) in
    let (w', run, s) =
      rise_loop-Sifted (suc n) w1 p n (omega arith) (omega arith) alive
        (RiseInv-start (key w.store) n w.array p v.order) (omega arith) in
    (
      w',
      run,
      record {
        valid = Sifted-IsValid w1 a w' (omega arith) v.room alive once s;
        capacity = s.capacity ∙ ground arith;
        cur_size = s.cur_size;
        store = s.store;
        calls = s.calls;
        items = λ q. s.items q ∙ counted q;
      },
    )

Added-Roomy : (w w1 w' : TimeHeap) (p : Ptr) → Roomy w w1 → Added w1 p w' → Added w p w'
Added-Roomy w w1 w' p r s = record {
  valid = s.valid;
  capacity = s.capacity ∙ (let m = r.more in ground arith) ∙ r.capacity;
  cur_size = s.cur_size ∙ ap (λ n. n + 1) r.cur_size;
  store = s.store ∙ r.store;
  calls = s.calls ∙ r.calls;
  items = λ q.
      let same = count-same q w.cur_size w1.array w.array r.kept in
      let now : count q (w1.cur_size + 1) w'.array ≡ count q w1.cur_size w1.array + one (p == q) =
        s.items q in
      let before : count q (w.cur_size + 1) w'.array ≡ count q w.cur_size w1.array + one (p == q) =
        subst (λ n. count q (n + 1) w'.array ≡ count q n w1.array + one (p == q)) r.cur_size now in
      before ∙ ap (λ n. n + one (p == q)) same;
}

-- `add_timer` of a live timer that is not in the heap returns and adds exactly that timer to the
-- heap; a full array is first copied to one of twice the capacity.
pub add_timer-Added :
    (w : TimeHeap) (p : Ptr)
    → IsValid w
    → p ≢ null
    → w.store p ≢ none
    → count p w.cur_size w.array ≡ 0
    → Returns (Added w p) (add_timer w p)
unfolding add_timer
add_timer-Added w p v live at new = elim (Bool-cases (leb w.capacity w.cur_size)) [
  | inl full ↦
      let (w1, run, r) = resize-Roomy w v (ground arith) in
      let new1 : count p w1.cur_size w1.array ≡ 0 =
        rw (r.cur_size) (count-same p w.cur_size w1.array w.array r.kept ∙ new) in
      let (w', run', s) = rise-Added w1 p r.valid r.more live (rw (r.store) at) new1 in
      (w', rw (ne→== p null live, full, run) run', Added-Roomy w w1 w' p r s)
  | inr space ↦ rw (ne→== p null live, space) (rise-Added w p v (ground arith) live at new)
]
