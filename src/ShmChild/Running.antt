-- ===== src/ShmChild/Running.antt =====
-- What a child of ShmChat.cpp does to the shared memory, and what it tells the parent.
use linux_server_programming.Base.{
  ℕ, ◌+◌, ◌*◌, ◌≤◌, ◌<◌, ◌≡◌, ◌⊎◌, refl, ap, sym, subst, ◌∙◌, append_assoc, append-nil, if_true,
  if_false, arith, Bool, Bool-cases, true, false, List, [], ◌∷◌, ◌++◌, if◌then◌else◌, inl, inr,
  Returns, ok, ◌>>=◌, ◌-◌, take, take-bound,
}
use linux_server_programming.ShmChat.{user_limit}
use linux_server_programming.ShmChild.{
  Received, again, failed, closed, data_read, Sent, to_parent, to_client, Child, buffer_size,
  read_client, read_parent, clear_bytes, store_bytes, load_bytes,
}
use linux_server_programming.ShmChild.Segment.{
  store_bytes-outside, clear_bytes-outside, clear-ok, receive-ok, load-ok,
}
use linux_server_programming.ShmChild.EventLoop.{
  Event, from_client, from_parent, unknown, Wake, ready, terminated, failure, on_event, on_events,
  event_loop, run_child,
}

-- The parent sends indices of `users`.
abbrev pub IsFitting : Event → Type 0
IsFitting (from_client _) = Unit
IsFitting (from_parent (data_read client)) = client < user_limit
IsFitting (from_parent _) = Unit
IsFitting unknown = Unit

abbrev pub AreFitting : List Event → Type 0
AreFitting [] = Unit
AreFitting (e ∷ es) = IsFitting e × AreFitting es

abbrev pub AllFitting : List Wake → Type 0
AllFitting [] = Unit
AllFitting (ready es ∷ bs) = AreFitting es × AllFitting bs
AllFitting (terminated ∷ bs) = AllFitting bs
AllFitting (failure ∷ bs) = AllFitting bs

-- Every message to the parent is this index.
abbrev pub Tells : ℕ → List Sent → Type 0
Tells idx [] = Unit
Tells idx (to_parent i ∷ sent) = (i ≡ idx) × Tells idx sent
Tells idx (to_client _ ∷ sent) = Tells idx sent

-- `c'` has the index `i`, has changed the memory of `c` in its own segment at most, and has told the
-- parent nothing but its index.
pub record Apart (i : ℕ) (c c' : Child) : Type 0 where
  pub idx : c'.idx ≡ i
  pub memory :
      (a : ℕ)
      → (a < i * buffer_size) ⊎ (i * buffer_size + buffer_size ≤ a)
      → c'.share_mem a ≡ c.share_mem a
  pub told : (log : List Sent) × (c'.sent ≡ c.sent ++ log) × Tells i log

Tells-append : (i : ℕ) (l m : List Sent) → Tells i l → Tells i m → Tells i (l ++ m)
Tells-append i [] m t u = u
Tells-append i (to_parent j ∷ l) m (e, t) u = (e, Tells-append i l m t u)
Tells-append i (to_client _ ∷ l) m t u = Tells-append i l m t u

-- nothing is sent, and the memory stays
Apart-quiet :
    (i : ℕ) (c c' : Child)
    → c'.idx ≡ i
    → c'.share_mem ≡ c.share_mem
    → c'.sent ≡ c.sent
    → Apart i c c'
Apart-quiet i c c' at mem same = record {
  idx = at;
  memory = λ a o. ap (λ m. m a) mem;
  told = ([], same ∙ sym (append-nil c.sent), tt);
}

Apart-trans : (i : ℕ) (c c1 c2 : Child) → Apart i c c1 → Apart i c1 c2 → Apart i c c2
Apart-trans i c c1 c2 p q =
    let (l, is, t) = p.told in
    let (m, is', u) = q.told in
    record {
      idx = q.idx;
      memory = λ a o. q.memory a o ∙ p.memory a o;
      told = (l ++ m, is' ∙ ap (λ z. z ++ m) is ∙ append_assoc c.sent l m, Tells-append i l m t u);
    }

-- the segment is cleared, and nothing is read
cleared-Apart :
    (c : Child) (stop : Bool)
    → Apart c.idx c (record c {
      share_mem = clear_bytes (c.idx * buffer_size) buffer_size c.share_mem;
      stop_child = stop;
    })
cleared-Apart c stop = record {
  idx = refl;
  memory = clear_bytes-outside (c.idx * buffer_size) c.share_mem;
  told = ([], sym (append-nil c.sent), tt);
}

-- data of the client, or none
read_client-Apart_own :
    (r : Received (List ℕ)) (c : Child)
    → c.idx < user_limit
    → Returns (Apart c.idx c) (read_client c r)
unfolding read_client
read_client-Apart_own again c room = (
  record c { share_mem = clear_bytes (c.idx * buffer_size) buffer_size c.share_mem },
  rw (clear-ok (c.idx * buffer_size) buffer_size c.share_mem (omega arith)) refl,
  cleared-Apart c c.stop_child,
)
read_client-Apart_own failed c room = (
  record c {
    share_mem = clear_bytes (c.idx * buffer_size) buffer_size c.share_mem;
    stop_child = true;
  },
  rw (clear-ok (c.idx * buffer_size) buffer_size c.share_mem (omega arith)) refl,
  cleared-Apart c true,
)
read_client-Apart_own closed c room = (
  record c {
    share_mem = clear_bytes (c.idx * buffer_size) buffer_size c.share_mem;
    stop_child = true;
  },
  rw (clear-ok (c.idx * buffer_size) buffer_size c.share_mem (omega arith)) refl,
  cleared-Apart c true,
)
read_client-Apart_own (data_read bs) c room =
    let base = c.idx * buffer_size in
    let read = take (buffer_size - 1) bs in
    let short = take-bound (buffer_size - 1) bs in
    let cleared = clear_bytes base buffer_size c.share_mem in
    (
      record c { share_mem = store_bytes base read cleared; sent = c.sent ++ to_parent c.idx ∷ [] },
      rw
          (
            clear-ok base buffer_size c.share_mem (omega arith),
            receive-ok base (buffer_size - 1) bs cleared (omega arith),
          )
          refl,
      record {
        idx = refl;
        memory = λ a o.
            store_bytes-outside base read cleared a (omega arith)
            ∙ clear_bytes-outside base c.share_mem a o;
        told = (to_parent c.idx ∷ [], refl, (refl, tt));
      },
    )

module _ (i : ℕ) (room : i < user_limit) where
  read_client-Apart :
      (r : Received (List ℕ)) (c : Child) → c.idx ≡ i → Returns (Apart i c) (read_client c r)
  read_client-Apart r c at =
      subst (λ j. Returns (Apart j c) (read_client c r)) at
        (read_client-Apart_own r c (omega arith))

  read_parent-Apart :
      (r : Received ℕ) (c : Child)
      → c.idx ≡ i
      → IsFitting (from_parent r)
      → Returns (Apart i c) (read_parent c r)
  unfolding read_parent
  read_parent-Apart again c at fit = (c, refl, Apart-quiet i c c at refl refl)
  read_parent-Apart failed c at fit =
      (record c { stop_child = true }, refl, Apart-quiet i c _ at refl refl)
  read_parent-Apart closed c at fit =
      (record c { stop_child = true }, refl, Apart-quiet i c _ at refl refl)
  read_parent-Apart (data_read client) c at fit = (
    record c {
      sent = c.sent ++ to_client (load_bytes (client * buffer_size) buffer_size c.share_mem) ∷ [];
    },
    rw (load-ok (client * buffer_size) buffer_size c.share_mem (omega arith)) refl,
    record { idx = at; memory = λ a o. refl; told = (_, refl, tt) },
  )

  on_event-Apart :
      (e : Event) (c : Child) → c.idx ≡ i → IsFitting e → Returns (Apart i c) (on_event e c)
  unfolding on_event
  on_event-Apart (from_client r) c at fit = read_client-Apart r c at
  on_event-Apart (from_parent r) c at fit = read_parent-Apart r c at fit
  on_event-Apart unknown c at fit = (c, refl, Apart-quiet i c c at refl refl)

  on_events-Apart :
      (es : List Event) (c : Child)
      → c.idx ≡ i
      → AreFitting es
      → Returns (Apart i c) (on_events es c)
  unfolding on_events
  on_events-Apart [] c at fit = (c, refl, Apart-quiet i c c at refl refl)
  on_events-Apart (e ∷ es) c at (fit, rest) =
      let (c1, run1, p) = on_event-Apart e c at fit in
      let (c2, run2, q) = on_events-Apart es c1 p.idx rest in
      (c2, rw run1 run2, Apart-trans i c c1 c2 p q)

  event_loop-Apart :
      (bs : List Wake) (c : Child)
      → c.idx ≡ i
      → AllFitting bs
      → Returns (λ r. Apart i c r.1) (event_loop bs c)
  unfolding event_loop
  event_loop-Apart [] c at fit = ((c.stop_child, c), refl, Apart-quiet i c c at refl refl)
  event_loop-Apart (failure ∷ bs) c at fit = elim (Bool-cases c.stop_child) [
    | inl stop ↦ ((true, c), if_true c.stop_child _ _ stop, Apart-quiet i c c at refl refl)
    | inr go ↦ (
      (true, c),
      if_false c.stop_child (ok (true, c)) (ok (true, c)) go,
      Apart-quiet i c c at refl refl,
    )
  ]
  event_loop-Apart (terminated ∷ bs) c at fit =
      let stopped : Child = record c { stop_child = true } in
      let (r', run, p) = event_loop-Apart bs stopped at fit in
      elim (Bool-cases c.stop_child) [
        | inl stop ↦ ((true, c), if_true c.stop_child _ _ stop, Apart-quiet i c c at refl refl)
        | inr go ↦ (
          r',
          if_false c.stop_child (ok (true, c)) (event_loop bs stopped) go ∙ run,
          Apart-trans i c stopped r'.1 (Apart-quiet i c stopped at refl refl) p,
        )
      ]
  event_loop-Apart (ready es ∷ bs) c at (fit, rest) =
      let (c1, run1, p) = on_events-Apart es c at fit in
      let (r2, run2, q) = event_loop-Apart bs c1 p.idx rest in
      elim (Bool-cases c.stop_child) [
        | inl stop ↦ ((true, c), if_true c.stop_child _ _ stop, Apart-quiet i c c at refl refl)
        | inr go ↦ (
          r2,
          if_false c.stop_child (ok (true, c)) (on_events es c >>= event_loop bs) go
              ∙ ap (λ r. r >>= event_loop bs) run1
              ∙ run2,
          Apart-trans i c c1 r2.1 p q,
        )
      ]

-- However much its client sends, and while the parent sends indices of `users`, a child of
-- ShmChat.cpp, with an index of `users`, makes no access outside the shared memory, whose size is
-- `USER_LIMIT * BUFFER_SIZE`. It waits, or has closed its descriptors; it has written to no segment but its own, and has told the parent no index
-- but its own.
pub run_child-Apart :
    (connfd pipefd child_epollfd : ℕ) (bs : List Wake) (c : Child)
    → c.idx < user_limit
    → AllFitting bs
    → Returns
        (λ r. Apart c.idx c r.0 × ((r.1 ≡ []) ⊎ (r.1 ≡ connfd ∷ pipefd ∷ child_epollfd ∷ [])))
        (run_child connfd pipefd child_epollfd bs c)
unfolding run_child
run_child-Apart connfd pipefd child_epollfd bs c room fit =
    let ((ended, c'), run, p) = event_loop-Apart c.idx room bs c refl fit in
    (
      (c', if ended then connfd ∷ pipefd ∷ child_epollfd ∷ [] else []),
      rw run refl,
      (p, closings ended),
    )
  where
    closings :
        (b : Bool)
        → ((if b then connfd ∷ pipefd ∷ child_epollfd ∷ [] else []) ≡ [])
          ⊎ ((if b then connfd ∷ pipefd ∷ child_epollfd ∷ [] else [])
              ≡ connfd ∷ pipefd ∷ child_epollfd ∷ [])
    closings true = inr refl
    closings false = inl refl
