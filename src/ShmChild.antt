-- ===== src/ShmChild.antt =====
-- The child process of ShmChat.cpp, `run_child`, and the shared memory of all children.
-- A segment of the memory belongs to each index of `users`. The results of `recv` are arguments;
-- what the child sends is logged. An access outside the memory is a fault.
pub mod Segment
pub mod EventLoop
pub mod Running
mod Tests
use linux_server_programming.Base.{
  ℕ, zero, suc, ◌+◌, ◌-◌, ◌*◌, Bool, true, false, ◌&&◌, List, [], ◌∷◌, ◌++◌, take, ltb, leb, ◌==◌,
  if◌then◌else◌, Run, ok, fault, ◌>>=◌,
}
use linux_server_programming.ShmChat.{user_limit, Server}

abbrev pub buffer_size : ℕ
buffer_size = 1024

-- What `recv` gives: -1 with EAGAIN, -1 with another error, 0, or what there is to be read.
pub data Received (A : Type 0) : Type 0 where
  again failed closed : Received A
  data_read : A → Received A

pub data Sent : Type 0 where
  to_parent : (idx : ℕ) → Sent
  to_client : List ℕ → Sent

pub record Child : Type 0 where
  pub idx : ℕ
  pub share_mem : ℕ → ℕ
  pub stop_child : Bool
  pub sent : List Sent

-- the child that is forked for a new connection
unfoldable pub start_child : Server → (share_mem : ℕ → ℕ) → Child
start_child w share_mem = record {
  idx = w.user_count;
  share_mem = share_mem;
  stop_child = false;
  sent = [];
}

-- the bytes of the memory, `USER_LIMIT * BUFFER_SIZE`
abbrev pub mem_size : ℕ
mem_size = user_limit * buffer_size

-- `n` bytes from `base` on are zero
unfoldable pub clear_bytes : (base n : ℕ) → (ℕ → ℕ) → ℕ → ℕ
clear_bytes base n mem a = if leb base a && ltb a (base + n) then 0 else mem a

-- these bytes from `base` on
unfoldable pub store_bytes : (base : ℕ) → List ℕ → (ℕ → ℕ) → ℕ → ℕ
store_bytes base [] mem = mem
store_bytes base (b ∷ bs) mem = store_bytes (base + 1) bs (λ a. if a == base then b else mem a)

-- the `n` bytes from `base` on
unfoldable pub load_bytes : (base n : ℕ) → (ℕ → ℕ) → List ℕ
load_bytes base zero mem = []
load_bytes base (suc n) mem = mem base ∷ load_bytes (base + 1) n mem

-- `memset(share_mem + base, '\0', n)`
unfoldable pub clear : (base n : ℕ) → (ℕ → ℕ) → Run (ℕ → ℕ)
clear base n mem = if leb (base + n) mem_size then ok (clear_bytes base n mem) else fault

-- `recv(connfd, share_mem + base, size, 0)`, where the client has sent `bs`
unfoldable pub receive : (base size : ℕ) → List ℕ → (ℕ → ℕ) → Run (ℕ → ℕ)
receive base size bs mem =
    if leb (base + size) mem_size then ok (store_bytes base (take size bs) mem) else fault

-- what `send(connfd, share_mem + base, n, 0)` sends
unfoldable pub load : (base n : ℕ) → (ℕ → ℕ) → Run (List ℕ)
load base n mem = if leb (base + n) mem_size then ok (load_bytes base n mem) else fault

-- data of the client, with what `recv` gives for `connfd`
unfoldable pub read_client : Child → Received (List ℕ) → Run Child
read_client c r = do
  let base = c.idx * buffer_size
  cleared ← clear base buffer_size c.share_mem
  let w : Child = record c { share_mem = cleared }
  elim r [
    | again ↦ ok w
    | failed ↦ ok (record w { stop_child = true })
    | closed ↦ ok (record w { stop_child = true })
    | data_read bs ↦ do
      mem ← receive base (buffer_size - 1) bs cleared
      ok (record w { share_mem = mem; sent = c.sent ++ to_parent c.idx ∷ [] })
  ]

-- a message of the parent: the index of the client whose data goes to this child's client
unfoldable pub read_parent : Child → Received ℕ → Run Child
read_parent c again = ok c
read_parent c failed = ok (record c { stop_child = true })
read_parent c closed = ok (record c { stop_child = true })
read_parent c (data_read client) = do
  bytes ← load (client * buffer_size) buffer_size c.share_mem
  ok (record c { sent = c.sent ++ to_client bytes ∷ [] })
