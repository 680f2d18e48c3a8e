-- ===== src/TimeWheel/Behind.antt =====
-- The loop of `tick` behind a node that stays in the slot.
use linux_server_programming.Base.{
  ℕ, zero, suc, ◌<◌, ◌≡◌, refl, ◌∙◌, false, some, [], ◌∷◌, ◌++◌, append_assoc, append-nil, arith,
  ltb, ◌==◌, Bool-cases, inl, inr, Returns, ltb→lt, length, sym,
}
use linux_server_programming.Memory.{Ptr, node, write}
use linux_server_programming.Memory.Chain
use linux_server_programming.Memory.Chain.{Cells, Chain, SameOutside, has, first, erase}
use linux_server_programming.TimeWheel.{TwTimer, TimeWheel, slot_count, tick_loop}
use linux_server_programming.TimeWheel.Sweep.{
  sweep, call_of, fired, Armed, has-sweep, visit-later, visit-fires, Dropped, drop-second,
  tick_loop-step, Swept, count_down, sweep-later, sweep-due, fired-later, fired-due,
}

-- The loop behind a node that stays: `(a, u)` is the last node kept.
pub record Behind (q a : Ptr) (u : TwTimer) (w : TimeWheel) (xs : Cells TwTimer) (w' : TimeWheel)
    : Type 0 where
  pub swept : Swept w ((a, u) ∷ xs) xs w'
  pub chain : Chain w'.store q ((a, u) ∷ sweep xs)
  pub slots : w'.slots ≡ w.slots

-- the state after `b` has counted down
abbrev pub counted : TimeWheel → Ptr → Ptr → TwTimer → Cells TwTimer → TimeWheel
counted w a b v xs = record w {
  store = write w.store b (some (node (count_down b v xs) a (first xs)));
}

module _ (w : TimeWheel) (q b : Ptr) (v : TwTimer) (xs : Cells TwTimer)
    (c : Chain w.store q ((b, v) ∷ xs)) where
  pub Chain-counted : Chain (counted w q b v xs).store q ((b, count_down b v xs) ∷ xs)
  unfolding write
  Chain-counted =
      let (live', at', new', c') = c in
      (live', ground arith, new', Chain.frame-write w.store b xs b _ c' new')

  pub counted-store : (d : Ptr) → (d == b) ≡ false → (counted w q b v xs).store d ≡ w.store d
  unfolding write
  counted-store d o = ground arith

module _ (w w' : TimeWheel) (q a b : Ptr) (u v : TwTimer) (xs : Cells TwTimer)
    (c : Chain w.store q ((a, u) ∷ (b, v) ∷ xs)) where
  Behind-later :
      0 < v.rotation
      → Behind a b (count_down b v xs) (counted w a b v xs) xs w'
      → Behind q a u w ((b, v) ∷ xs) w'
  Behind-later more s =
      let (live, at, new, rest) = c in
      let out = has-sweep a ((b, v) ∷ xs) new in
      let e = sweep-later b v xs more in
      record {
        swept = record {
          current = s.swept.current;
          called = rw (fired-later b v xs more) s.swept.called;
          same =
              λ d o. s.swept.same d (ground arith) ∙ counted-store w a b v xs rest d (ground arith);
          gone = λ d i. rw e (λ o. s.swept.gone d (ground arith) (ground arith));
        };
        chain = (
          live,
          s.swept.same a (ground arith) ∙ counted-store w a b v xs rest a (ground arith) ∙ rw e at,
          out,
          rw e s.chain,
        );
        slots = s.slots;
      }

  Behind-due :
      (r : TimeWheel × Ptr)
      → v.rotation ≡ 0
      → Dropped (record w { calls = w.calls ++ call_of v }) b ((a, u) ∷ (b, v) ∷ xs) xs r
      → r.0.slots ≡ w.slots
      → Behind q a u r.0 xs w'
      → Behind q a u w ((b, v) ∷ xs) w'
  Behind-due r due drop kept s =
      let (live, at, new, (live', at', new', c')) = c in
      let e = sweep-due b v xs due in
      record {
        swept = record {
          current = s.swept.current ∙ drop.current;
          called =
              rw (fired-due b v xs due, s.swept.called, drop.calls)
                (append_assoc w.calls (call_of v) (fired xs));
          same = λ d o. s.swept.same d (ground arith) ∙ drop.same d o;
          gone = λ d i. rw e (λ o. elim (Bool-cases (d == b)) [
            | inl hit ↦
                let is : d ≡ b = ground arith in rw is (s.swept.same b (ground arith) ∙ drop.freed)
            | inr miss ↦ s.swept.gone d (ground arith) o
          ]);
        };
        chain = rw e s.chain;
        slots = s.slots ∙ kept;
      }

pub loop-Behind :
    (k : ℕ) (w : TimeWheel) (q a : Ptr) (u : TwTimer) (xs : Cells TwTimer)
    → Chain w.store q ((a, u) ∷ xs)
    → w.cur_slot < slot_count
    → has (w.slots w.cur_slot) xs ≡ false
    → Armed xs
    → length xs < k
    → Returns (Behind q a u w xs) (tick_loop k w (first xs))
loop-Behind zero w q a u xs c cur out armed fuel = absurd (omega arith)
loop-Behind (suc k) w q a u [] c cur out armed fuel =
    unfold tick_loop sweep fired in
    (
      w,
      refl,
      record {
        swept = record {
          current = refl;
          called = sym (append-nil w.calls);
          same = λ d o. refl;
          gone = λ d i. cc;
        };
        chain = c;
        slots = refl;
      },
    )
loop-Behind (suc k) w q a u ((b, v) ∷ xs) c cur out (armed, rest) fuel =
    let (live', at', new', c') = c.3 in
    elim (Bool-cases (ltb 0 v.rotation)) [
      | inl later ↦
          let more = ltb→lt 0 v.rotation later in
          let (w', run, s) =
            loop-Behind k (counted w a b v xs) a b (count_down b v xs) xs
              (Chain-counted w a b v xs c.3) cur (ground arith) rest (omega arith) in
          (
            w',
            tick_loop-step k w b (counted w a b v xs, first xs) live'
                  (visit-later w a b v xs c.3 more)
                ∙ run,
            Behind-later w w' q a b u v xs c more s,
          )
      | inr now ↦
          let due : v.rotation ≡ 0 = ground arith in
          let (r, fire, (drop, chain, kept)) =
            drop-second (record w { calls = w.calls ++ call_of v }) q a b u v xs c cur
              (ground arith) in
          let out' : has (r.0.slots r.0.cur_slot) xs ≡ false =
            rw (kept, drop.current) (ground arith) in
          let (w', run, s) =
            loop-Behind k r.0 q a u xs chain (rw (drop.current) cur) out' rest (omega arith) in
          (
            w',
            tick_loop-step k w b r live' (visit-fires w a b v xs c.3 due armed ∙ fire)
                ∙ rw (drop.next) run,
            Behind-due w w' q a b u v xs c r due drop kept s,
          )
    ]
