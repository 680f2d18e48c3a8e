-- ===== src/TimeHeap/Up.antt =====
-- The loop of `add_timer` of TimeHeap.h.
use linux_server_programming.Base.{
  ℕ, zero, suc, ◌≤◌, ◌<◌, ◌≡◌, ◌∙◌, true, false, arith, ◌==◌, Bool-cases, inl, inr, ltb, leb, ok,
  Returns, ne→==, ==_refl, ltb→lt,
}
use linux_server_programming.Memory.{Ptr}
use linux_server_programming.TimeHeap.{HeapTimer, TimeHeap, load_timer, expire_at, rise_loop}
use linux_server_programming.TimeHeap.Items.{upd, count-move}
use linux_server_programming.TimeHeap.Order.{parent, RiseInv, RiseInv-move, RiseInv-stop}
use linux_server_programming.TimeHeap.Access.{
  key, AllLive, Sifted, load_timer-ok, at-ok, set_at-ok, expire_at-ok, Sifted-stop, AllLive-move,
}

module _ (k : ℕ) (w : TimeHeap) (timer : Ptr) (hole : ℕ) (t : HeapTimer)
    (fits : w.cur_size ≤ w.capacity) (hn : hole < w.cur_size) (pos : ltb 0 hole ≡ true)
    (read : expire_at w (parent hole) ≡ ok (key w.store (w.array (parent hole))))
    (load : load_timer w.store timer ≡ ok t) (is : t.expire ≡ key w.store timer) where
  rise_loop-rises :
      leb (key w.store (w.array (parent hole))) (key w.store timer) ≡ false
      → rise_loop (suc k) w timer hole
        ≡ rise_loop k
            (record w { array = upd w.array hole (w.array (parent hole)) })
            timer
            (parent hole)
  unfolding rise_loop
  rise_loop-rises less = rw (
    pos,
    read,
    load,
    is,
    less,
    at-ok w (parent hole) (omega arith),
    set_at-ok w hole (w.array (parent hole)) (omega arith),
  )

  rise_loop-stops :
      leb (key w.store (w.array (parent hole))) (key w.store timer) ≡ true
      → rise_loop (suc k) w timer hole ≡ ok (record w { array = upd w.array hole timer })
  unfolding rise_loop
  rise_loop-stops more = rw (pos, read, load, is, more, set_at-ok w hole timer (omega arith))

-- The loop, with the hole at `hole` and `timer` to be put there.
pub rise_loop-Sifted :
    (k : ℕ) (w : TimeHeap) (timer : Ptr) (hole : ℕ)
    → w.cur_size ≤ w.capacity
    → hole < w.cur_size
    → AllLive w.store w.cur_size (upd w.array hole timer)
    → RiseInv (key w.store) w.cur_size (upd w.array hole timer) hole
    → hole < k
    → Returns (Sifted 0 w (upd w.array hole timer)) (rise_loop k w timer hole)
rise_loop-Sifted zero w timer hole fits hn live s enough = absurd (omega arith)
rise_loop-Sifted (suc k) w timer hole fits hn live s enough = elim (Bool-cases (ltb 0 hole)) [
  | inl pos ↦
      let h0 = ltb→lt _ _ pos in
      let up = parent hole in
      let upn : up < w.cur_size = omega arith in
      let ne : (up == hole) ≡ false = ne→== up hole (omega arith) in
      let (timer_live, timer_at) = rw (==_refl hole) at (live hole hn) in
      let (t, load, own, is) = load_timer-ok w.store timer timer_live timer_at in
      let (up_live, up_at) = rw ne at (live up upn) in
      let read = expire_at-ok w up (omega arith) up_live up_at in
      elim (Bool-cases (leb (key w.store (w.array up)) (key w.store timer))) [
        | inl more ↦ (
          record w { array = upd w.array hole timer },
          rise_loop-stops k w timer hole t fits hn pos read load is more,
          Sifted-stop 0 w (upd w.array hole timer)
              (RiseInv-stop (key w.store) w.cur_size w.array hole timer s (inr (ground arith))),
        )
        | inr less ↦
            let w1 : TimeHeap = record w { array = upd w.array hole (w.array up) } in
            let (w', run, r) =
              rise_loop-Sifted k w1 timer up fits upn
                (AllLive-move w.store w.cur_size w.array hole up timer hn upn ne live)
                (RiseInv-move (key w.store) w.cur_size w.array hole timer s h0 hn (ground arith))
                (omega arith) in
            (
              w',
              rise_loop-rises k w timer hole t fits hn pos read load is less ∙ run,
              record {
                capacity = r.capacity;
                cur_size = r.cur_size;
                store = r.store;
                calls = r.calls;
                order = r.order;
                items = λ p. r.items p ∙ count-move p w.cur_size w.array hole up timer hn upn ne;
              },
            )
      ]
  | inr root ↦ (
    record w { array = upd w.array hole timer },
    unfold rise_loop in rw (root, set_at-ok w hole timer (omega arith)),
    Sifted-stop 0 w (upd w.array hole timer)
        (RiseInv-stop (key w.store) w.cur_size w.array hole timer s (inl (ground arith))),
  )
]
