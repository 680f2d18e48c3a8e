-- ===== src/ShmChild/Segment.antt =====
-- What one child of ShmChat.cpp writes to its segment, and another reads there.
use linux_server_programming.Base.{
  ℕ, zero, suc, ◌+◌, ◌-◌, ◌*◌, ◌≤◌, ◌<◌, ◌≡◌, ◌≢◌, ◌⊎◌, inl, refl, ◌∙◌, ap, ap₂, arith, ◌==◌, List,
  [], ◌∷◌, ◌++◌, length, Returns, leb, true, ok, take, take-all, if◌then◌else◌, ne→==,
}
use linux_server_programming.ShmChat.{user_limit}
use linux_server_programming.ShmChild.{
  buffer_size, data_read, to_parent, to_client, Child, clear_bytes, store_bytes, load_bytes,
  mem_size, clear, receive, load, read_client, read_parent,
}

abbrev pub zeros : ℕ → List ℕ
zeros zero = []
zeros (suc n) = 0 ∷ zeros n

pub store_bytes-outside :
    (base : ℕ) (bs : List ℕ) (mem : ℕ → ℕ) (a : ℕ)
    → (a < base) ⊎ (base + length bs ≤ a)
    → store_bytes base bs mem a ≡ mem a
unfolding store_bytes
store_bytes-outside base [] mem a h = refl
store_bytes-outside base (b ∷ bs) mem a h =
    let o : a ≢ base = omega arith in
    store_bytes-outside (base + 1) bs _ a (omega arith) ∙ rw (ne→== a base o)

load_bytes-same :
    (base n : ℕ) (m m' : ℕ → ℕ)
    → ((a : ℕ) → base ≤ a → a < base + n → m a ≡ m' a)
    → load_bytes base n m ≡ load_bytes base n m'
unfolding load_bytes
load_bytes-same base zero m m' h = refl
load_bytes-same base (suc n) m m' h =
    ap₂ (λ b bs. b ∷ bs) (h base (omega arith) (omega arith))
      (load_bytes-same (base + 1) n m m' (λ a lo hi. h a (omega arith) (omega arith)))

load_bytes-zeros :
    (base n : ℕ) (m : ℕ → ℕ)
    → ((a : ℕ) → base ≤ a → a < base + n → m a ≡ 0)
    → load_bytes base n m ≡ zeros n
unfolding load_bytes
load_bytes-zeros base zero m h = refl
load_bytes-zeros base (suc n) m h =
    ap₂ (λ b bs. b ∷ bs) (h base (omega arith) (omega arith))
      (load_bytes-zeros (base + 1) n m (λ a lo hi. h a (omega arith) (omega arith)))

load_bytes-store_bytes :
    (base n k : ℕ) (bs : List ℕ) (m : ℕ → ℕ)
    → n ≡ length bs + k
    → ((a : ℕ) → base ≤ a → a < base + n → m a ≡ 0)
    → load_bytes base n (store_bytes base bs m) ≡ bs ++ zeros k
unfolding store_bytes load_bytes
load_bytes-store_bytes base n k [] m e h =
    let is : n ≡ k = omega arith in load_bytes-zeros base n m h ∙ ap zeros is
load_bytes-store_bytes base zero k (b ∷ bs) m e h = absurd (omega arith)
load_bytes-store_bytes base (suc n) k (b ∷ bs) m e h =
    let m1 : ℕ → ℕ = λ a. if a == base then b else m a in
    let here : m1 base ≡ b = ground arith in
    let above : (a : ℕ) → base + 1 ≤ a → a < base + 1 + n → m1 a ≡ 0 =
      λ a lo hi. rw (ne→== a base (omega arith)) (h a (omega arith) (omega arith)) in
    ap₂ (λ c cs. c ∷ cs) (store_bytes-outside (base + 1) bs m1 base (inl (omega arith)) ∙ here)
      (load_bytes-store_bytes (base + 1) n k bs m1 (omega arith) above)

clear_bytes-inside :
    (base : ℕ) (m : ℕ → ℕ) (a : ℕ)
    → base ≤ a
    → a < base + buffer_size
    → clear_bytes base buffer_size m a ≡ 0
unfolding clear_bytes
clear_bytes-inside base m a lo hi = ground arith

pub clear_bytes-outside :
    (base : ℕ) (m : ℕ → ℕ) (a : ℕ)
    → (a < base) ⊎ (base + buffer_size ≤ a)
    → clear_bytes base buffer_size m a ≡ m a
unfolding clear_bytes
clear_bytes-outside base m a h = ground arith

pub clear-ok :
    (base n : ℕ) (m : ℕ → ℕ) → base + n ≤ mem_size → clear base n m ≡ ok (clear_bytes base n m)
unfolding clear
clear-ok base n m h = let low : leb (base + n) mem_size ≡ true = ground arith in rw low

pub receive-ok :
    (base size : ℕ) (bs : List ℕ) (m : ℕ → ℕ)
    → base + size ≤ mem_size
    → receive base size bs m ≡ ok (store_bytes base (take size bs) m)
unfolding receive
receive-ok base size bs m h = let low : leb (base + size) mem_size ≡ true = ground arith in rw low

pub load-ok :
    (base n : ℕ) (m : ℕ → ℕ) → base + n ≤ mem_size → load base n m ≡ ok (load_bytes base n m)
unfolding load
load-ok base n m h = let low : leb (base + n) mem_size ≡ true = ground arith in rw low

-- What a child reads from its client, `recv` returning fewer bytes than the buffer holds, it leaves
-- in its segment, followed by zeros, and no other segment changes. It tells the parent its index,
-- and a child that is then given this index, on the same memory, sends just these bytes.
pub read_client-read_parent :
    (c d : Child) (bs : List ℕ)
    → c.idx < user_limit
    → length bs < buffer_size
    → Returns
        (λ c'.
          (c'.sent ≡ c.sent ++ to_parent c.idx ∷ [])
          × ((i : ℕ)
              → i ≢ c.idx
              → load_bytes (i * buffer_size) buffer_size c'.share_mem
                ≡ load_bytes (i * buffer_size) buffer_size c.share_mem)
          × Returns
              (λ d'. d'.sent ≡ d.sent ++ to_client (bs ++ zeros (buffer_size - length bs)) ∷ [])
              (read_parent (record d { share_mem = c'.share_mem }) (data_read c.idx)))
        (read_client c (data_read bs))
unfolding read_client read_parent
read_client-read_parent c d bs room short =
    let base = c.idx * buffer_size in
    let cleared = clear_bytes base buffer_size c.share_mem in
    let mem = store_bytes base bs cleared in
    let c' : Child = record c { share_mem = mem; sent = c.sent ++ to_parent c.idx ∷ [] } in
    let own : load_bytes base buffer_size mem ≡ bs ++ zeros (buffer_size - length bs) =
      load_bytes-store_bytes base buffer_size (buffer_size - length bs) bs cleared (omega arith)
        (clear_bytes-inside base c.share_mem) in
    let apart : (i a : ℕ)
        → i ≢ c.idx
        → i * buffer_size ≤ a
        → a < i * buffer_size + buffer_size
        → (a < base) ⊎ (base + buffer_size ≤ a) =
      λ i a o lo hi. omega arith in
    let other : (i a : ℕ)
        → i ≢ c.idx
        → i * buffer_size ≤ a
        → a < i * buffer_size + buffer_size
        → mem a ≡ c.share_mem a =
      λ i a o lo hi.
        let out = apart i a o lo hi in
        store_bytes-outside base bs cleared a (omega arith)
        ∙ clear_bytes-outside base c.share_mem a out in
    let d' : Child = record d {
      share_mem = mem;
      sent = d.sent ++ to_client (load_bytes base buffer_size mem) ∷ [];
    } in
    (
      c',
      rw (
        clear-ok base buffer_size c.share_mem (omega arith),
        receive-ok base (buffer_size - 1) bs cleared (omega arith),
        take-all (buffer_size - 1) bs (omega arith),
      ),
      (
        refl,
        (λ i o. load_bytes-same (i * buffer_size) buffer_size mem c.share_mem (λ a. other i a o)),
        (
          d',
          rw (load-ok base buffer_size mem (omega arith)),
          ap (λ bytes. d.sent ++ to_client bytes ∷ []) own,
        ),
      ),
    )
