-- ===== src/TimeHeap/Tick.antt =====
-- `tick` of TimeHeap.h.
use linux_server_programming.Base.{
  ℕ, ◌+◌, ◌≤◌, ◌<◌, ◌≡◌, refl, ap, ap₂, subst₂, Option, none, some, List, [], ◌∷◌, ◌++◌, arith,
  ◌==◌, ok, append-nil,
}
use linux_server_programming.Memory.{Ptr}
use linux_server_programming.Callback.{Call, call}
use linux_server_programming.TimeHeap.{HeapTimer, Timers, TimeHeap, call_top}
use linux_server_programming.TimeHeap.Items.{one, count}
use linux_server_programming.TimeHeap.Access.{key, load_timer-ok, at-ok}
use linux_server_programming.TimeHeap.Valid.{IsValid}

-- the call that a timer makes
abbrev pub call_of : Option HeapTimer → List Call
call_of none = []
call_of (some t) = elim (t.cb_func) [ none ↦ [] | some f ↦ call f t.user_data ∷ [] ]

abbrev pub call_at : Timers → Ptr → List Call
call_at h p = call_of (h p)

abbrev pub calls_at : Timers → List Ptr → List Call
calls_at h [] = []
calls_at h (p ∷ ps) = call_at h p ++ calls_at h ps

-- how often a pointer stands in a list
abbrev pub occurs : Ptr → List Ptr → ℕ
occurs q [] = 0
occurs q (p ∷ ps) = one (p == q) + occurs q ps

abbrev pub Each : (Ptr → Type 0) → List Ptr → Type 0
Each P [] = Unit
Each P (p ∷ ps) = P p × Each P ps

-- in ascending order of expiry
abbrev pub IsAscending : Timers → List Ptr → Type 0
IsAscending h [] = Unit
IsAscending h (p ∷ ps) = Each (λ q. key h p ≤ key h q) ps × IsAscending h ps

pub Each-map :
    {P Q : Ptr → Type 0} (ps : List Ptr)
    → ((q : Ptr) → 0 < occurs q ps → P q → Q q)
    → Each P ps
    → Each Q ps
Each-map [] f e = tt
Each-map (p ∷ ps) f (x, e) = (f p (ground arith) x, Each-map ps (λ q h. f q (omega arith)) e)

pub Each-all : {P : Ptr → Type 0} (ps : List Ptr) → ((q : Ptr) → 0 < occurs q ps → P q) → Each P ps
Each-all [] f = tt
Each-all (p ∷ ps) f = (f p (ground arith), Each-all ps (λ q h. f q (omega arith)))

-- Two stores that agree at the listed timers.
module _ (g h : Timers) where
  pub key-same : (p : Ptr) → g p ≡ h p → key g p ≡ key h p
  key-same p e = rw (e, key)

  pub calls_at-same :
      (ps : List Ptr) → ((q : Ptr) → 0 < occurs q ps → g q ≡ h q) → calls_at g ps ≡ calls_at h ps
  calls_at-same [] same = refl
  calls_at-same (p ∷ ps) same =
      let e : g p ≡ h p = same p (ground arith) in
      let first : call_at g p ≡ call_at h p = ap call_of e in
      ap₂ ◌++◌ first (calls_at-same ps (λ q o. same q (omega arith)))

  pub IsAscending-same :
      (ps : List Ptr)
      → ((q : Ptr) → 0 < occurs q ps → g q ≡ h q)
      → IsAscending g ps
      → IsAscending h ps
  IsAscending-same [] same a = tt
  IsAscending-same (p ∷ ps) same (first, a) =
      let e : g p ≡ h p = same p (ground arith) in
      (
        Each-map ps (λ q o le. subst₂ ◌≤◌ (key-same p e) (key-same q (same q (omega arith))) le)
            first,
        IsAscending-same ps (λ q o. same q (omega arith)) a,
      )

-- What `tick` promises at time `cur`: it pops the timers `ps`.
pub record Ticked (cur : ℕ) (w w' : TimeHeap) (ps : List Ptr) : Type 0 where
  pub valid : IsValid w'
  pub capacity : w'.capacity ≡ w.capacity
  pub called : w'.calls ≡ w.calls ++ calls_at w.store ps
  pub ascending : IsAscending w.store ps
  pub due : Each (λ p. key w.store p ≤ cur) ps
  pub pending : (i : ℕ) → i < w'.cur_size → cur < key w'.store (w'.array i)
  pub items : (q : Ptr) → count q w'.cur_size w'.array + occurs q ps ≡ count q w.cur_size w.array
  pub gone : (q : Ptr) → 0 < occurs q ps → w'.store q ≡ none
  pub kept : (q : Ptr) → occurs q ps ≡ 0 → w'.store q ≡ w.store q

pub call_top-ok :
    (w : TimeHeap)
    → IsValid w
    → 0 < w.cur_size
    → call_top w ≡ ok (record w { calls = w.calls ++ call_at w.store (w.array 0) })
unfolding call_top
call_top-ok w v pos =
    let (live, at) = v.live 0 pos in
    let (t, load, own, _) = load_timer-ok w.store (w.array 0) live at in
    rw (at-ok w 0 v.room, load, own) (ground (arith, append-nil w.calls))
