-- ===== src/TimeHeap/Valid.antt =====
-- The invariant of a timer heap.
use linux_server_programming.Base.{ℕ, ◌≤◌, ◌<◌, ◌≡◌, ◌≢◌, sym, subst, none, arith}
use linux_server_programming.Memory.{Ptr, null}
use linux_server_programming.TimeHeap.{Timers, TimeHeap}
use linux_server_programming.TimeHeap.Items.{count, SameItems, count-pos, count-find}
use linux_server_programming.TimeHeap.Order.{IsHeapFrom}
use linux_server_programming.TimeHeap.Access.{key, AllLive, Sifted}

-- The first `cur_size` entries are distinct live timers, none of which expires before its parent.
pub record IsValid (w : TimeHeap) : Type 0 where
  pub fits : w.cur_size ≤ w.capacity
  pub room : 0 < w.capacity
  pub live : AllLive w.store w.cur_size w.array
  pub once : (p : Ptr) → count p w.cur_size w.array ≤ 1
  pub order : IsHeapFrom (key w.store) w.cur_size 0 w.array

pub AllLive-items :
    (h : Timers) (n : ℕ) (a b : ℕ → Ptr) → AllLive h n b → SameItems n a b → AllLive h n a
AllLive-items h n a b live same i hi =
    let pos = count-pos n a i hi in
    let e = same (a i) in
    let (j, hj, is) = count-find (a i) n b (omega arith) in
    subst (λ p. (p ≢ null) × (h p ≢ none)) is (live j hj)

pub Sifted-record :
    (lo : ℕ) (w : TimeHeap) (v : ℕ → Ptr) (w' : TimeHeap)
    → Sifted lo w v w'
    → w' ≡ record w { array = w'.array }
Sifted-record lo w v w' s = λ i. record {
  array = w'.array;
  capacity = s.capacity i;
  cur_size = s.cur_size i;
  store = s.store i;
  calls = s.calls i;
}

-- A sift from the root of distinct live timers gives a valid heap.
pub Sifted-IsValid :
    (w : TimeHeap) (v : ℕ → Ptr) (w' : TimeHeap)
    → w.cur_size ≤ w.capacity
    → 0 < w.capacity
    → AllLive w.store w.cur_size v
    → ((p : Ptr) → count p w.cur_size v ≤ 1)
    → Sifted 0 w v w'
    → IsValid w'
Sifted-IsValid w v w' fits room live once s =
    let same : w' ≡ record w { array = w'.array } = Sifted-record 0 w v w' s in
    let valid : IsValid (record w { array = w'.array }) = record {
      fits = fits;
      room = room;
      live = AllLive-items w.store w.cur_size w'.array v live s.items;
      once = λ p. let e = s.items p in let b = once p in omega arith;
      order = s.order;
    } in
    subst IsValid (sym same) valid
