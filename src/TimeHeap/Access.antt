-- ===== src/TimeHeap/Access.antt =====
-- Reads and writes of TimeHeap.h that do not fault, and what a sift promises.
use linux_server_programming.Base.{
  ℕ, ◌<◌, ◌≡◌, ◌≢◌, refl, false, Option, none, some, arith, ◌==◌, Bool-cases, inl, inr, ok, ne→==,
  ==_refl, lt→ltb,
}
use linux_server_programming.Memory.{Ptr, null}
use linux_server_programming.TimeHeap.{
  HeapTimer, Timers, TimeHeap, write_timer, load_timer, at, set_at, expire_at,
}
use linux_server_programming.TimeHeap.Items.{upd, SameItems}
use linux_server_programming.TimeHeap.Order.{IsHeapFrom}

-- when a timer expires
abbrev pub key : Timers → Ptr → ℕ
key h p = elim (h p) [ none ↦ 0 | some t ↦ t.expire ]

-- the first `n` entries point to timers
abbrev pub AllLive : Timers → ℕ → (ℕ → Ptr) → Type 0
AllLive h n a = (i : ℕ) → i < n → (a i ≢ null) × (h (a i) ≢ none)

-- `w'` holds the timers of the array `v`, in order from `lo`, and nothing else is changed.
pub record Sifted (lo : ℕ) (w : TimeHeap) (v : ℕ → Ptr) (w' : TimeHeap) : Type 0 where
  pub capacity : w'.capacity ≡ w.capacity
  pub cur_size : w'.cur_size ≡ w.cur_size
  pub store : w'.store ≡ w.store
  pub calls : w'.calls ≡ w.calls
  pub order : IsHeapFrom (key w.store) w.cur_size lo w'.array
  pub items : SameItems w.cur_size w'.array v

pub load_timer-ok :
    (h : Timers) (p : Ptr)
    → p ≢ null
    → h p ≢ none
    → (t : HeapTimer) × (load_timer h p ≡ ok t) × (h p ≡ some t) × (t.expire ≡ key h p)
load_timer-ok h p live e = go (h p) refl
  where
    go :
        (o : Option HeapTimer)
        → h p ≡ o
        → (t : HeapTimer) × (load_timer h p ≡ ok t) × (h p ≡ some t) × (t.expire ≡ key h p)
    go none is = absurd (e is)
    go (some t) is = (t, unfold load_timer in rw (ne→== p null live, is), is, rw (is, key))

pub at-ok : (w : TimeHeap) (i : ℕ) → i < w.capacity → at w i ≡ ok (w.array i)
unfolding at
at-ok w i h = rw (lt→ltb i w.capacity h)

pub set_at-ok :
    (w : TimeHeap) (i : ℕ) (p : Ptr)
    → i < w.capacity
    → set_at w i p ≡ ok (record w { array = upd w.array i p })
unfolding set_at
set_at-ok w i p h = rw (lt→ltb i w.capacity h)

pub expire_at-ok :
    (w : TimeHeap) (i : ℕ)
    → i < w.capacity
    → w.array i ≢ null
    → w.store (w.array i) ≢ none
    → expire_at w i ≡ ok (key w.store (w.array i))
unfolding expire_at
expire_at-ok w i h live e =
    let (t, run, own, is) = load_timer-ok w.store (w.array i) live e in rw (at-ok w i h, run, is)

pub Sifted-stop :
    (lo : ℕ) (w : TimeHeap) (v : ℕ → Ptr)
    → IsHeapFrom (key w.store) w.cur_size lo v
    → Sifted lo w v (record w { array = v })
Sifted-stop lo w v h = record {
  capacity = refl;
  cur_size = refl;
  store = refl;
  calls = refl;
  order = h;
  items = λ p. refl;
}

-- Moving an entry keeps the timers alive.
pub AllLive-move :
    (h : Timers) (n : ℕ) (a : ℕ → Ptr) (hole ch : ℕ) (x : Ptr)
    → hole < n
    → ch < n
    → (ch == hole) ≡ false
    → AllLive h n (upd a hole x)
    → AllLive h n (upd (upd a hole (a ch)) ch x)
AllLive-move h n a hole ch x hn cn ne live i hi = elim (Bool-cases (i == ch)) [
  | inl e ↦ rw e (rw (==_refl hole) at (live hole hn))
  | inr e ↦ elim (Bool-cases (i == hole)) [
    | inl e' ↦ rw (e, e') (rw ne at (live ch cn))
    | inr e' ↦ rw (e, e') (rw e' at (live i hi))
  ]
]

pub write_timer-other :
    (h : Timers) (p q : Ptr) (c : Option HeapTimer) → (q == p) ≡ false → write_timer h p c q ≡ h q
unfolding write_timer
write_timer-other h p q c e = rw e

pub write_timer_self : (h : Timers) (p : Ptr) (c : Option HeapTimer) → write_timer h p c p ≡ c
unfolding write_timer
write_timer_self h p c = ground arith
