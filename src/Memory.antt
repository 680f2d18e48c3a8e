-- ===== src/Memory.antt =====
-- The store in which the timers' list nodes live: `new`, `delete`, and reads and writes through
-- pointers. An access through NULL or through a pointer to no live node is a fault.
pub mod Chain
use linux_server_programming.Base.{
  ℕ, Option, none, some, ◌==◌, if◌then◌else◌, Run, ok, fault, ◌>>=◌,
}

abbrev pub Ptr : Type 0
Ptr = ℕ

abbrev pub null : Ptr
null = 0

-- The links of a list node beside the fields `A` of the timer.
pub record Node (A : Type 0) : Type 0 where
  pub value : A
  pub prev : Ptr
  pub next : Ptr

module _ {A : Type 0} where
  abbrev pub node : A → Ptr → Ptr → Node A
  node v p q = record { value = v; prev = p; next = q }

abbrev pub Store : Type 0 → Type 0
Store A = Ptr → Option (Node A)

module _ {A : Type 0} where
  unfoldable pub write : Store A → Ptr → Option (Node A) → Store A
  write h p c a = if a == p then c else h a

  unfoldable pub load : Store A → Ptr → Run (Node A)
  load h p = if p == null then fault else elim (h p) [ none ↦ fault | some n ↦ ok n ]

  -- `p->value = v`
  unfoldable pub set_value : Store A → Ptr → A → Run (Store A)
  set_value h p v = do n ← load h p; ok (write h p (some (record n { value = v })))

  -- `p->prev = q`
  unfoldable pub set_prev : Store A → Ptr → Ptr → Run (Store A)
  set_prev h p q = do n ← load h p; ok (write h p (some (record n { prev = q })))

  -- `p->next = q`
  unfoldable pub set_next : Store A → Ptr → Ptr → Run (Store A)
  set_next h p q = do n ← load h p; ok (write h p (some (record n { next = q })))

  -- `delete p`
  unfoldable pub free : Store A → Ptr → Run (Store A)
  free h p = do _ ← load h p; ok (write h p none)

  -- `if (p) p->prev = q;`
  unfoldable pub set_prev_if : Store A → Ptr → Ptr → Run (Store A)
  set_prev_if h p q = if p == null then ok h else set_prev h p q

  -- `p->prev->next = p->next; if (p->next) p->next->prev = p->prev;`
  unfoldable pub bypass : Store A → Ptr → Run (Store A)
  bypass h p = do
    n ← load h p
    h1 ← set_next h n.prev n.next
    n1 ← load h1 p
    set_prev_if h1 n1.next n1.prev
