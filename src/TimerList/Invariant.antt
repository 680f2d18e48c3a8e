-- ===== src/TimerList/Invariant.antt =====
-- The list of timers that a `sort_timer_lst` stands for.
use linux_server_programming.Base.{
  ℕ, ◌≤◌, ◌≡◌, ◌≢◌, refl, true, none, some, List, [], ◌∷◌, ◌++◌, arith, if◌then◌else◌, Bool-cases,
  inl, inr, leb, ltb,
}
use linux_server_programming.Memory.{Ptr, null}
use linux_server_programming.Memory.Chain.{Cells, Chain, has, first}
use linux_server_programming.Callback.{Call, call}
use linux_server_programming.TimerList.{UtilTimer, TimerList}
use linux_server_programming.TimerList.Insert.{insert_before}

-- the last node, or `d` where there is none
abbrev pub last : Ptr → Cells UtilTimer → Ptr
last d [] = d
last d ((a, _) ∷ xs) = last a xs

-- `tail` says nothing about an empty list: `tick` leaves it dangling there.
pub record IsTimerList (xs : Cells UtilTimer) (w : TimerList) : Type 0 where
  pub head : w.head ≡ first xs
  pub chain : Chain w.store null xs
  pub tail : w.tail ≡ last w.tail xs

-- what `add_timer` makes of a list
abbrev pub insert : Ptr → UtilTimer → Cells UtilTimer → Cells UtilTimer
insert t v [] = (t, v) ∷ []
insert t v (x ∷ xs) = insert_before t v (x ∷ xs)

-- all expire at `n` or later
abbrev pub NotBefore : ℕ → Cells UtilTimer → Type 0
NotBefore n [] = Unit
NotBefore n ((p, v) ∷ xs) = (n ≤ v.expire) × NotBefore n xs

-- none expires after `n`
abbrev pub NoneAfter : ℕ → Cells UtilTimer → Type 0
NoneAfter n [] = Unit
NoneAfter n ((p, v) ∷ xs) = (v.expire ≤ n) × NoneAfter n xs

-- in ascending order of `expire`
abbrev pub IsSorted : Cells UtilTimer → Type 0
IsSorted [] = Unit
IsSorted ((p, v) ∷ xs) = NotBefore v.expire xs × IsSorted xs

-- the timers that have expired at `cur`, and the others
abbrev pub expired : ℕ → Cells UtilTimer → Cells UtilTimer
expired cur [] = []
expired cur ((p, v) ∷ xs) = if leb v.expire cur then (p, v) ∷ expired cur xs else expired cur xs

abbrev pub pending : ℕ → Cells UtilTimer → Cells UtilTimer
pending cur [] = []
pending cur ((p, v) ∷ xs) = if leb v.expire cur then pending cur xs else (p, v) ∷ pending cur xs

abbrev pub call_of : UtilTimer → List Call
call_of v = elim (v.cb_func) [ none ↦ [] | some f ↦ call f v.user_data ∷ [] ]

abbrev pub calls_of : Cells UtilTimer → List Call
calls_of [] = []
calls_of ((p, v) ∷ xs) = call_of v ++ calls_of xs

abbrev pub Armed : Cells UtilTimer → Type 0
Armed [] = Unit
Armed ((p, v) ∷ xs) = (v.cb_func ≢ none) × Armed xs

NotBefore-insert_before :
    (n : ℕ) (t : Ptr) (v : UtilTimer) (xs : Cells UtilTimer)
    → n ≤ v.expire
    → NotBefore n xs
    → NotBefore n (insert_before t v xs)
unfolding insert_before
NotBefore-insert_before n t v [] h b = tt
NotBefore-insert_before n t v ((a, u) ∷ xs) h (b, bs) =
    ground (arith, NotBefore-insert_before n t v xs h bs)

NotBefore-mono : (m n : ℕ) (xs : Cells UtilTimer) → m ≤ n → NotBefore n xs → NotBefore m xs
NotBefore-mono m n [] h b = tt
NotBefore-mono m n ((a, u) ∷ xs) h (b, bs) = (omega arith, NotBefore-mono m n xs h bs)

IsSorted-insert_before :
    (t : Ptr) (v : UtilTimer) (xs : Cells UtilTimer) → IsSorted xs → IsSorted (insert_before t v xs)
unfolding insert_before
IsSorted-insert_before t v [] s = tt
IsSorted-insert_before t v ((a, u) ∷ xs) (b, s) = elim (Bool-cases (ltb v.expire u.expire)) [
  | inl sooner ↦
      rw sooner ((ground arith, NotBefore-mono v.expire u.expire xs (ground arith) b), (b, s))
  | inr later ↦
      rw later
        (NotBefore-insert_before u.expire t v xs (ground arith) b, IsSorted-insert_before t v xs s)
]

-- `add_timer` keeps the order.
pub IsSorted-insert :
    (t : Ptr) (v : UtilTimer) (xs : Cells UtilTimer) → IsSorted xs → IsSorted (insert t v xs)
IsSorted-insert t v [] s = (tt, tt)
IsSorted-insert t v (x ∷ xs) s = IsSorted-insert_before t v (x ∷ xs) s

-- A new timer is in the list afterwards unless all that are there expire no later.
pub insert-lost :
    (t : Ptr) (v : UtilTimer) (xs : Cells UtilTimer)
    → NoneAfter v.expire xs
    → insert_before t v xs ≡ xs
unfolding insert_before
insert-lost t v [] h = refl
insert-lost t v ((a, u) ∷ xs) (b, h) = ground (arith, insert-lost t v xs h)

pub last-insert_before :
    (t : Ptr) (v : UtilTimer) (d : Ptr) (xs : Cells UtilTimer)
    → last d (insert_before t v xs) ≡ last d xs
unfolding insert_before
last-insert_before t v d [] = refl
last-insert_before t v d ((a, u) ∷ xs) = ground (arith, last-insert_before t v a xs)

-- the last of the nodes that are there
pub has-last :
    (a d : Ptr) (u : UtilTimer) (xs : Cells UtilTimer) → has (last a xs) ((a, u) ∷ xs) ≡ true
has-last a d u [] = ground arith
has-last a d u ((b, x) ∷ xs) = ground (arith, has-last b d x xs)
