-- ===== src/TimeHeap/Pop.antt =====
-- `pop_timer` of TimeHeap.h.
use linux_server_programming.Base.{
  ℕ, zero, suc, ◌+◌, ◌-◌, ◌*◌, ◌≤◌, ◌<◌, ◌≡◌, ◌≢◌, ◌∙◌, refl, false, none, arith, ◌==◌, Bool-cases,
  inl, inr, ltb, ok, Returns, ne→==,
}
use linux_server_programming.Memory.{Ptr, null}
use linux_server_programming.TimeHeap.{
  Timers, TimeHeap, write_timer, percolate_loop, percolate_down, drop_top, pop_timer,
}
use linux_server_programming.TimeHeap.Items.{upd, one, count, count-upd, count-two}
use linux_server_programming.TimeHeap.Order.{parent, IsHeapFrom, SinkInv}
use linux_server_programming.TimeHeap.Access.{key, AllLive, Sifted, load_timer-ok, at-ok, set_at-ok}
use linux_server_programming.TimeHeap.Down.{percolate_down-Sifted}
use linux_server_programming.TimeHeap.Valid.{IsValid, Sifted-IsValid}

-- The root expires first.
root_least_below :
    (key : Ptr → ℕ) (n : ℕ) (a : ℕ → Ptr) (k i : ℕ)
    → IsHeapFrom key n 0 a
    → i < k
    → i < n
    → key (a 0) ≤ key (a i)
root_least_below key n a zero i h lt hi = absurd (omega arith)
root_least_below key n a (suc k) i h lt hi = elim (Bool-cases (i == 0)) [
  | inl e ↦ let is : i ≡ 0 = ground arith in rw is (omega arith)
  | inr e ↦
      let pos : 0 < i = ground arith in
      let ih = root_least_below key n a k (parent i) h (omega arith) (omega arith) in
      let edge = h i pos hi (omega arith) in omega arith
]

pub root_least :
    (w : TimeHeap)
    → IsValid w
    → (i : ℕ) → i < w.cur_size
    → key w.store (w.array 0) ≤ key w.store (w.array i)
root_least w v i hi =
    root_least_below (key w.store) w.cur_size w.array (suc i) i v.order (omega arith) hi

-- What `pop_timer` promises: the root's timer is deleted and the others stay.
pub record Popped (w w' : TimeHeap) : Type 0 where
  pub valid : IsValid w'
  pub capacity : w'.capacity ≡ w.capacity
  pub cur_size : w'.cur_size + 1 ≡ w.cur_size
  pub store : w'.store ≡ write_timer w.store (w.array 0) none
  pub calls : w'.calls ≡ w.calls
  pub items :
      (q : Ptr) → count q w'.cur_size w'.array + one (w.array 0 == q) ≡ count q w.cur_size w.array

module _ (w : TimeHeap) (v : IsValid w) (m : ℕ) (size : w.cur_size ≡ suc m) where
  abbrev root : Ptr
  root = w.array 0

  abbrev store' : Timers
  store' = write_timer w.store root none

  -- the array that is handed to `percolate_down`
  abbrev filled : ℕ → Ptr
  filled = upd w.array 0 (w.array m)

  abbrev cut : TimeHeap
  cut = record w { cur_size = m; store = store'; array = filled }

  distinct : (i : ℕ) → 0 < i → i < w.cur_size → (w.array i == root) ≡ false
  distinct i pos hi = elim (Bool-cases (w.array i == root)) [
    | inl e ↦
        let same : root ≡ w.array i = ground arith in
        let twice = count-two w.cur_size w.array 0 i pos hi same in
        let o = v.once root in absurd (omega arith)
    | inr e ↦ e
  ]

  key-other : (p : Ptr) → (p == root) ≡ false → key store' p ≡ key w.store p
  unfolding write_timer
  key-other p e = rw (key, e)

  alive-other : (i : ℕ) → 0 < i → i < w.cur_size → (w.array i ≢ null) × (store' (w.array i) ≢ none)
  unfolding write_timer
  alive-other i pos hi = rw (distinct i pos hi) (v.live i hi)

  alive : 0 < m → AllLive store' m filled
  alive pos i hi = elim (Bool-cases (i == 0)) [
    | inl e ↦ rw e (alive-other m pos (omega arith))
    | inr e ↦ rw e (alive-other i (ground arith) (omega arith))
  ]

  sinking : 0 < m → SinkInv (key store') m 0 filled 0
  sinking pos = record {
    edges = λ c p q r ne.
        let up : 0 < parent c = omega arith in
        let old = v.order c p (omega arith) r in
        rw
          (
            ne→== (parent c) 0 ne,
            ne→== c 0 (omega arith),
            key-other (w.array (parent c)) (distinct (parent c) up (omega arith)),
            key-other (w.array c) (distinct c p (omega arith)),
          )
          old;
    bridged = λ c p q e h. absurd (omega arith);
  }

  counted : (q : Ptr) → 0 < m → count q m filled + one (root == q) ≡ count q w.cur_size w.array
  counted q pos =
      let e = count-upd q m w.array 0 (w.array m) pos in
      let step : count q (suc m) w.array ≡ one (w.array m == q) + count q m w.array =
        unfold count in refl in
      rw size (omega arith)

  once_less : (q : Ptr) → 0 < m → count q m filled ≤ 1
  once_less q pos = let c = counted q pos in let o = v.once q in omega arith

  drop_top-cut : drop_top w root ≡ percolate_down cut 0
  unfolding drop_top
  drop_top-cut =
      let (live, at) = v.live 0 (omega arith) in
      let (t, load, _, _) = load_timer-ok w.store root live at in
      let w1 : TimeHeap = record w { cur_size = w.cur_size - 1; store = store' } in
      let less : w.cur_size - 1 ≡ m = omega arith in
      let f = v.fits in
      let r = v.room in
      rw (
        load,
        less,
        at-ok (record w { cur_size = m; store = store' }) m (omega arith),
        set_at-ok (record w { cur_size = m; store = store' }) 0 (w.array m) r,
      )

  cut-Popped : 0 < m → (w' : TimeHeap) → Sifted 0 cut filled w' → Popped w w'
  cut-Popped pos w' s =
      let f = v.fits in
      record {
        valid =
            Sifted-IsValid cut filled w' (omega arith) v.room (alive pos) (λ q. once_less q pos) s;
        capacity = s.capacity;
        cur_size = rw (s.cur_size) (omega arith);
        store = s.store;
        calls = s.calls;
        items = λ q. rw (s.cur_size, s.items q) (counted q pos);
      }

  drop_top-more : 0 < m → Returns (Popped w) (drop_top w root)
  drop_top-more pos =
      let f = v.fits in
      let (w', run, s) =
        percolate_down-Sifted 0 cut 0 (omega arith) pos (omega arith) (alive pos) (sinking pos) in
      (w', drop_top-cut ∙ run, cut-Popped pos w' s)

  -- The last timer: its pointer stays in the array, outside `cur_size`.
  drop_top-last : m ≡ 0 → Returns (Popped w) (drop_top w root)
  drop_top-last none_left =
      let w' : TimeHeap = record cut { array = upd filled 0 (filled 0) } in
      let r = v.room in
      let off : ltb (0 * 2 + 1) m ≡ false = ground arith in
      let nothing : (q : Ptr) (a : ℕ → Ptr) → count q m a ≡ 0 =
        λ q a. unfold count in rw none_left refl in
      let all : (q : Ptr) → count q w.cur_size w.array ≡ one (root == q) =
        λ q. let full : w.cur_size ≡ 1 = omega arith in unfold count in rw full (omega arith) in
      let end : percolate_loop (suc m) cut (filled 0) 0 ≡ ok w' =
        unfold percolate_loop in rw (off, set_at-ok cut 0 (filled 0) r) in
      let run : percolate_down cut 0 ≡ ok w' = unfold percolate_down in rw (at-ok cut 0 r) end in
      (
        w',
        drop_top-cut ∙ run,
        record {
          valid = record {
            fits = omega arith;
            room = r;
            live = λ i h. absurd (omega arith);
            once = λ p. let e = nothing p w'.array in omega arith;
            order = λ c p q. absurd (omega arith);
          };
          capacity = refl;
          cur_size = omega arith;
          store = refl;
          calls = refl;
          items = λ q. let e = nothing q w'.array in let e' = all q in omega arith;
        },
      )

-- `pop_timer` on a heap that is not empty removes and deletes the root's timer, and no other.
pub pop_timer-Popped :
    (w : TimeHeap) → IsValid w → 0 < w.cur_size → Returns (Popped w) (pop_timer w)
unfolding pop_timer
pop_timer-Popped w v pos =
    let m = w.cur_size - 1 in
    let size : w.cur_size ≡ suc m = omega arith in
    let busy : (w.cur_size == 0) ≡ false = ne→== w.cur_size 0 (omega arith) in
    let (live, _) = v.live 0 pos in
    let start : pop_timer w ≡ drop_top w (w.array 0) =
      rw (busy, at-ok w 0 v.room, ne→== (w.array 0) null live) in
    elim (Bool-cases (m == 0)) [
      | inl e ↦ let (w', run, s) = drop_top-last w v m size (ground arith) in (w', start ∙ run, s)
      | inr e ↦ let (w', run, s) = drop_top-more w v m size (ground arith) in (w', start ∙ run, s)
    ]
