-- ===== src/TimeHeap/Down.antt =====
-- `percolate_down` of TimeHeap.h.
use linux_server_programming.Base.{
  ℕ, zero, suc, ◌+◌, ◌*◌, ◌≤◌, ◌<◌, ◌≡◌, ◌≢◌, ◌⊎◌, ◌∙◌, sym, subst, true, false, none, arith, ◌==◌,
  Bool-cases, inl, inr, ltb, ok, Returns, ne→==, ==_refl, ltb→lt,
}
use mathlib.Core.Path.{fun_ext}
use linux_server_programming.Memory.{Ptr, null}
use linux_server_programming.TimeHeap.{
  HeapTimer, TimeHeap, load_timer, expire_at, smaller_child, percolate_loop, percolate_down,
}
use linux_server_programming.TimeHeap.Items.{upd, count-move}
use linux_server_programming.TimeHeap.Order.{parent, SinkInv, SinkInv-move, SinkInv-stop}
use linux_server_programming.TimeHeap.Access.{
  key, AllLive, Sifted, load_timer-ok, at-ok, set_at-ok, expire_at-ok, Sifted-stop, AllLive-move,
}

-- what `smaller_child` picks
record Smallest (w : TimeHeap) (hole ch : ℕ) : Type 0 where
  pos : 0 < ch
  inside : ch < w.cur_size
  deeper : hole < ch
  up : parent ch ≡ hole
  least :
      (c : ℕ)
      → 0 < c
      → c < w.cur_size
      → parent c ≡ hole
      → key w.store (w.array ch) ≤ key w.store (w.array c)

least_of_two :
    (w : TimeHeap) (hole ch other : ℕ)
    → key w.store (w.array ch) ≤ key w.store (w.array other)
    → ((c : ℕ) → 0 < c → parent c ≡ hole → (c ≡ ch) ⊎ (c ≡ other))
    → (c : ℕ) → 0 < c
    → c < w.cur_size
    → parent c ≡ hole
    → key w.store (w.array ch) ≤ key w.store (w.array c)
least_of_two w hole ch other h two c p q e = elim (two c p e) [
  | inl is ↦ rw is (omega arith)
  | inr is ↦ rw is h
]

children : (hole c : ℕ) → 0 < c → parent c ≡ hole → (c ≡ hole * 2 + 1) ⊎ (c ≡ hole * 2 + 1 + 1)
children hole c p e = elim (Bool-cases (c == hole * 2 + 1)) [
  | inl is ↦ inl (ground arith)
  | inr ne ↦ inr (let no : c ≢ hole * 2 + 1 = ground arith in omega arith)
]

children_swapped :
    (hole c : ℕ) → 0 < c → parent c ≡ hole → (c ≡ hole * 2 + 1 + 1) ⊎ (c ≡ hole * 2 + 1)
children_swapped hole c p e = elim (children hole c p e) [ inl x ↦ inr x | inr x ↦ inl x ]

smaller_child-Smallest :
    (w : TimeHeap) (hole : ℕ)
    → w.cur_size ≤ w.capacity
    → ((i : ℕ) → hole < i → i < w.cur_size → (w.array i ≢ null) × (w.store (w.array i) ≢ none))
    → hole * 2 + 1 < w.cur_size
    → Returns (Smallest w hole) (smaller_child w hole)
unfolding smaller_child
smaller_child-Smallest w hole fits live inside =
    elim (Bool-cases (ltb (hole * 2 + 1 + 1) w.cur_size)) [
      | inl both ↦
          let lt = ltb→lt _ _ both in
          let l = hole * 2 + 1 in
          let (ll, el) = live l (omega arith) inside in
          let (lr, er) = live (l + 1) (omega arith) lt in
          let read_r = expire_at-ok w (l + 1) (omega arith) lr er in
          let read_l = expire_at-ok w l (omega arith) ll el in
          elim (Bool-cases (ltb (key w.store (w.array (l + 1))) (key w.store (w.array l)))) [
            | inl right ↦
                let less = ltb→lt _ _ right in
                (
                  l + 1,
                  rw (both, read_r, read_l, right),
                  record {
                    pos = omega arith;
                    inside = lt;
                    deeper = omega arith;
                    up = omega arith;
                    least = least_of_two w hole (l + 1) l (omega arith) (children_swapped hole);
                  },
                )
            | inr left ↦ (
              l,
              rw (both, read_r, read_l, left),
              record {
                pos = omega arith;
                inside = inside;
                deeper = omega arith;
                up = omega arith;
                least = least_of_two w hole l (l + 1) (ground arith) (children hole);
              },
            )
          ]
      | inr one_child ↦ (
        hole * 2 + 1,
        rw one_child,
        record {
          pos = omega arith;
          inside = inside;
          deeper = omega arith;
          up = omega arith;
          least = λ c p q e. let is : c ≡ hole * 2 + 1 = ground arith in rw is (omega arith);
        },
      )
    ]

module _ (k lo : ℕ) (w : TimeHeap) (temp : Ptr) (hole ch : ℕ) (t : HeapTimer)
    (fits : w.cur_size ≤ w.capacity) (hn : hole < w.cur_size)
    (inside : ltb (hole * 2 + 1) w.cur_size ≡ true) (pick : smaller_child w hole ≡ ok ch)
    (sm : Smallest w hole ch) (read : expire_at w ch ≡ ok (key w.store (w.array ch)))
    (load : load_timer w.store temp ≡ ok t) (is : t.expire ≡ key w.store temp) where
  percolate_loop-sinks :
      ltb (key w.store (w.array ch)) (key w.store temp) ≡ true
      → percolate_loop (suc k) w temp hole
        ≡ percolate_loop k (record w { array = upd w.array hole (w.array ch) }) temp ch
  unfolding percolate_loop
  percolate_loop-sinks less =
      let b = sm.inside in
      rw (
        inside,
        pick,
        read,
        load,
        is,
        less,
        at-ok w ch (omega arith),
        set_at-ok w hole (w.array ch) (omega arith),
      )

  percolate_loop-stops :
      ltb (key w.store (w.array ch)) (key w.store temp) ≡ false
      → percolate_loop (suc k) w temp hole ≡ ok (record w { array = upd w.array hole temp })
  unfolding percolate_loop
  percolate_loop-stops more =
      rw (inside, pick, read, load, is, more, set_at-ok w hole temp (omega arith))

-- The loop, with the hole at `hole` and `temp` to be put there.
pub percolate_loop-Sifted :
    (k lo : ℕ) (w : TimeHeap) (temp : Ptr) (hole : ℕ)
    → w.cur_size ≤ w.capacity
    → hole < w.cur_size
    → lo ≤ hole
    → AllLive w.store w.cur_size (upd w.array hole temp)
    → SinkInv (key w.store) w.cur_size lo (upd w.array hole temp) hole
    → w.cur_size < k + hole
    → Returns (Sifted lo w (upd w.array hole temp)) (percolate_loop k w temp hole)
percolate_loop-Sifted zero lo w temp hole fits hn low live s enough = absurd (omega arith)
percolate_loop-Sifted (suc k) lo w temp hole fits hn low live s enough =
    elim (Bool-cases (ltb (hole * 2 + 1) w.cur_size)) [
      | inl inside ↦
          let behind : (i : ℕ)
              → hole < i
              → i < w.cur_size
              → (w.array i ≢ null) × (w.store (w.array i) ≢ none) =
            λ i h hi. rw (ne→== i hole (omega arith)) at (live i hi) in
          let (temp_live, temp_at) = rw (==_refl hole) at (live hole hn) in
          let (t, load, own, is) = load_timer-ok w.store temp temp_live temp_at in
          let (ch, pick, sm) = smaller_child-Smallest w hole fits behind (ltb→lt _ _ inside) in
          let (ch_live, ch_at) = behind ch sm.deeper sm.inside in
          let b = sm.inside in
          let d = sm.deeper in
          let read = expire_at-ok w ch (omega arith) ch_live ch_at in
          elim (Bool-cases (ltb (key w.store (w.array ch)) (key w.store temp))) [
            | inl less ↦
                let w1 : TimeHeap = record w { array = upd w.array hole (w.array ch) } in
                let (w', run, r) =
                  percolate_loop-Sifted k lo w1 temp ch fits b (omega arith)
                    (AllLive-move w.store w.cur_size w.array hole ch temp hn b
                      (ne→== ch hole (omega arith)) live)
                    (SinkInv-move (key w.store) w.cur_size lo w.array hole ch temp s sm.pos b sm.up
                      low sm.least (ltb→lt _ _ less))
                    (omega arith) in
                (
                  w',
                  percolate_loop-sinks k lo w temp hole ch t fits hn inside pick sm read load is
                        less
                      ∙ run,
                  record {
                    capacity = r.capacity;
                    cur_size = r.cur_size;
                    store = r.store;
                    calls = r.calls;
                    order = r.order;
                    items = λ p.
                        r.items p
                        ∙ count-move p w.cur_size w.array hole ch temp hn b
                            (ne→== ch hole (omega arith));
                  },
                )
            | inr more ↦ (
              record w { array = upd w.array hole temp },
              percolate_loop-stops k lo w temp hole ch t fits hn inside pick sm read load is more,
              Sifted-stop lo w (upd w.array hole temp) (
                  SinkInv-stop (key w.store) w.cur_size lo w.array hole ch temp s
                    (λ c p q e. let l = sm.least c p q e in ground arith)),
            )
          ]
      | inr leaf ↦ (
        record w { array = upd w.array hole temp },
        unfold percolate_loop in rw (leaf, set_at-ok w hole temp (omega arith)),
        Sifted-stop lo w (upd w.array hole temp) (
            SinkInv-stop (key w.store) w.cur_size lo w.array hole hole temp s
              (λ c p q e. absurd (ground arith))),
      )
    ]

-- `percolate_down` puts the entry of a hole in order with those below it.
pub percolate_down-Sifted :
    (lo : ℕ) (w : TimeHeap) (hole : ℕ)
    → w.cur_size ≤ w.capacity
    → hole < w.cur_size
    → lo ≤ hole
    → AllLive w.store w.cur_size w.array
    → SinkInv (key w.store) w.cur_size lo w.array hole
    → Returns (Sifted lo w w.array) (percolate_down w hole)
unfolding percolate_down
percolate_down-Sifted lo w hole fits hn low live s =
    let same : upd w.array hole (w.array hole) ≡ w.array = fun_ext (λ i. ground arith) in
    let go =
      percolate_loop-Sifted (suc w.cur_size) lo w (w.array hole) hole fits hn low
        (subst (AllLive w.store w.cur_size) (sym same) live)
        (subst (λ a. SinkInv (key w.store) w.cur_size lo a hole) (sym same) s) (omega arith) in
    rw (at-ok w hole (omega arith)) (
      subst (λ v. Returns (Sifted lo w v) (percolate_loop (suc w.cur_size) w (w.array hole) hole))
        same go)
