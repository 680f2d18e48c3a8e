-- ===== src/TimeHeap/Order.antt =====
-- The heap order, and the steps that repair it.
use linux_server_programming.Base.{ℕ, ◌-◌, ◌/◌, ◌≤◌, ◌<◌, ◌≡◌, ◌≢◌, ◌⊎◌, arith}
use linux_server_programming.Memory.{Ptr}
use linux_server_programming.TimeHeap.Items.{upd}

abbrev pub parent : ℕ → ℕ
parent c = (c - 1) / 2

module _ (key : Ptr → ℕ) (n : ℕ) where
  -- every edge whose parent is at `lo` or later is in order
  abbrev pub IsHeapFrom : ℕ → (ℕ → Ptr) → Type 0
  IsHeapFrom lo a = (c : ℕ) → 0 < c → c < n → lo ≤ parent c → key (a (parent c)) ≤ key (a c)

  -- Only the edges below `i` may be out of order, and those past `i` are in order.
  pub record SinkInv (lo : ℕ) (a : ℕ → Ptr) (i : ℕ) : Type 0 where
    pub edges :
        (c : ℕ) → 0 < c → c < n → lo ≤ parent c → parent c ≢ i → key (a (parent c)) ≤ key (a c)
    pub bridged :
        (c : ℕ)
        → 0 < c
        → c < n
        → parent c ≡ i
        → 0 < i
        → lo ≤ parent i
        → key (a (parent i)) ≤ key (a c)

  -- Only the edge above `i` may be out of order, and those past `i` are in order.
  pub record RiseInv (a : ℕ → Ptr) (i : ℕ) : Type 0 where
    pub edges : (c : ℕ) → 0 < c → c < n → c ≢ i → key (a (parent c)) ≤ key (a c)
    pub bridged : (c : ℕ) → 0 < c → c < n → parent c ≡ i → 0 < i → key (a (parent i)) ≤ key (a c)

  module _ (lo : ℕ) (a : ℕ → Ptr) (hole ch : ℕ) (x : Ptr) where
    -- The entry of the smaller child `ch` moves up into the hole, and the hole moves to `ch`.
    pub SinkInv-move :
        SinkInv lo (upd a hole x) hole
        → 0 < ch
        → ch < n
        → parent ch ≡ hole
        → lo ≤ hole
        → ((c : ℕ) → 0 < c → c < n → parent c ≡ hole → key (a ch) ≤ key (a c))
        → key (a ch) < key x
        → SinkInv lo (upd (upd a hole (a ch)) ch x) ch
    SinkInv-move s h0 hn up low least small = record {
      edges = λ c p q r ne. ground (arith, s.edges c p q r, s.bridged ch h0 hn up, least c p q);
      bridged = λ c p q e _ _. ground (arith, s.edges c p q);
    }

    -- No child is smaller: the hole can be filled.
    pub SinkInv-stop :
        SinkInv lo (upd a hole x) hole
        → ((c : ℕ) → 0 < c → c < n → parent c ≡ hole → key x ≤ key (a c))
        → IsHeapFrom lo (upd a hole x)
    SinkInv-stop s least c p q r = ground (arith, s.edges c p q r, least c p q)

  module _ (a : ℕ → Ptr) (hole : ℕ) (x : Ptr) where
    -- The parent moves down into the hole, and the hole moves to the parent.
    pub RiseInv-move :
        RiseInv (upd a hole x) hole
        → 0 < hole
        → hole < n
        → key x < key (a (parent hole))
        → RiseInv (upd (upd a hole (a (parent hole))) (parent hole) x) (parent hole)
    RiseInv-move s h0 hn small = record {
      edges = λ c p q ne. ground (arith, s.edges c p q, s.bridged c p q);
      bridged = λ c p q e h.
          ground (arith, s.edges c p q, s.edges (parent hole) h (omega arith), s.bridged c p q);
    }

    -- The parent is no larger: the hole can be filled.
    pub RiseInv-stop :
        RiseInv (upd a hole x) hole
        → (hole ≡ 0) ⊎ (key (a (parent hole)) ≤ key x)
        → IsHeapFrom 0 (upd a hole x)
    RiseInv-stop s least c p q r = ground (arith, s.edges c p q)
