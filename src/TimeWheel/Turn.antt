-- ===== src/TimeWheel/Turn.antt =====
-- `tick` on the chain of the current slot, from its head.
use linux_server_programming.Base.{
  ℕ, zero, suc, ◌+◌, ◌%◌, ◌<◌, ◌≡◌, refl, ◌∙◌, false, [], ◌∷◌, ◌++◌, append_assoc, append-nil,
  arith, ltb, ◌==◌, if◌then◌else◌, Bool-cases, inl, inr, ok, Returns, ltb→lt, length, sym,
}
use linux_server_programming.Memory.{Ptr, null}
use linux_server_programming.Memory.Chain.{Cells, Chain, has, first}
use linux_server_programming.TimeWheel.Sweep.{
  sweep, call_of, fired, Armed, slot-ok, visit-later, visit-fires, Dropped, drop-head,
  tick_loop-step, Swept, count_down, sweep-later, sweep-due, fired-later, fired-due,
}
use linux_server_programming.TimeWheel.Behind.{
  Behind, counted, counted-store, Chain-counted, loop-Behind,
}
use linux_server_programming.TimeWheel.{TwTimer, TimeWheel, slot_count, tick_loop, tick}

-- The slot's chain `xs` has been swept.
pub record Turned (w : TimeWheel) (xs : Cells TwTimer) (w' : TimeWheel) : Type 0 where
  pub swept : Swept w xs xs w'
  pub chain : Chain w'.store null (sweep xs)
  pub slots : (j : ℕ) → w'.slots j ≡ (if j == w.cur_slot then first (sweep xs) else w.slots j)

module _ (w w' : TimeWheel) (b : Ptr) (v : TwTimer) (xs : Cells TwTimer)
    (c : Chain w.store null ((b, v) ∷ xs)) (head : w.slots w.cur_slot ≡ b) where
  Turned-later :
      0 < v.rotation
      → Behind null b (count_down b v xs) (counted w null b v xs) xs w'
      → Turned w ((b, v) ∷ xs) w'
  Turned-later more s =
      let e = sweep-later b v xs more in
      let (live, at, new, c') = c in
      record {
        swept = record {
          current = s.swept.current;
          called = rw (fired-later b v xs more) s.swept.called;
          same =
              λ d o. s.swept.same d (ground arith) ∙ counted-store w null b v xs c d (ground arith);
          gone = λ d i. rw e (λ o. s.swept.gone d (ground arith) (ground arith));
        };
        chain = rw e s.chain;
        slots = λ j. rw (s.slots, e) (ground arith);
      }

  Turned-due :
      (r : TimeWheel × Ptr)
      → v.rotation ≡ 0
      → Dropped (record w { calls = w.calls ++ call_of v }) b ((b, v) ∷ xs) xs r
      → ((j : ℕ) → r.0.slots j ≡ (if j == w.cur_slot then first xs else w.slots j))
      → Turned r.0 xs w'
      → Turned w ((b, v) ∷ xs) w'
  Turned-due r due drop kept s =
      let e = sweep-due b v xs due in
      let (live, at, new, c') = c in
      record {
        swept = record {
          current = s.swept.current ∙ drop.current;
          called =
              rw (fired-due b v xs due, s.swept.called, drop.calls)
                (append_assoc w.calls (call_of v) (fired xs));
          same = λ d o. s.swept.same d (ground arith) ∙ drop.same d o;
          gone = λ d i. rw e (λ o. elim (Bool-cases (d == b)) [
            | inl hit ↦ let is : d ≡ b = ground arith in rw is (s.swept.same b new ∙ drop.freed)
            | inr miss ↦ s.swept.gone d (ground arith) o
          ]);
        };
        chain = rw e s.chain;
        slots = λ j. rw (s.slots j, drop.current, kept j, e) (ground arith);
      }

loop-head :
    (k : ℕ) (w : TimeWheel) (xs : Cells TwTimer)
    → Chain w.store null xs
    → w.cur_slot < slot_count
    → w.slots w.cur_slot ≡ first xs
    → Armed xs
    → length xs < k
    → Returns (Turned w xs) (tick_loop k w (first xs))
loop-head zero w xs c cur head armed fuel = absurd (omega arith)
loop-head (suc k) w [] c cur head armed fuel =
    unfold tick_loop sweep fired in
    (
      w,
      refl,
      record {
        swept = record {
          current = refl;
          called = sym (append-nil w.calls);
          same = λ d o. refl;
          gone = λ d i. cc;
        };
        chain = c;
        slots = λ j. ground arith;
      },
    )
loop-head (suc k) w ((b, v) ∷ xs) c cur head (armed, rest) fuel =
    let (live, at, new, c') = c in
    elim (Bool-cases (ltb 0 v.rotation)) [
      | inl later ↦
          let more = ltb→lt 0 v.rotation later in
          let out : has (w.slots w.cur_slot) xs ≡ false = rw head new in
          let (w', run, s) =
            loop-Behind k (counted w null b v xs) null b (count_down b v xs) xs
              (Chain-counted w null b v xs c) cur out rest (omega arith) in
          (
            w',
            tick_loop-step k w b (counted w null b v xs, first xs) live
                  (visit-later w null b v xs c more)
                ∙ run,
            Turned-later w w' b v xs c head more s,
          )
      | inr now ↦
          let due : v.rotation ≡ 0 = ground arith in
          let (r, fire, (drop, chain, kept)) =
            drop-head (record w { calls = w.calls ++ call_of v }) b v xs c cur head in
          let head' : r.0.slots r.0.cur_slot ≡ first xs =
            rw (drop.current, kept w.cur_slot) (ground arith) in
          let (w', run, s) =
            loop-head k r.0 xs chain (rw (drop.current) cur) head' rest (omega arith) in
          (
            w',
            tick_loop-step k w b r live (visit-fires w null b v xs c due armed ∙ fire)
                ∙ rw (drop.next) run,
            Turned-due w w' b v xs c head r due drop kept s,
          )
    ]

-- `tick` sweeps the current slot and moves on by one slot.
pub tick-Turned :
    (fuel : ℕ) (w : TimeWheel) (xs : Cells TwTimer)
    → Chain w.store null xs
    → w.cur_slot < slot_count
    → w.slots w.cur_slot ≡ first xs
    → Armed xs
    → length xs < fuel
    → (t : TimeWheel) × Turned w xs t
      × (tick fuel w ≡ ok (record t { cur_slot = (w.cur_slot + 1) % slot_count }))
unfolding tick
tick-Turned fuel w xs c cur head armed enough =
    let (t, run, s) = loop-head fuel w xs c cur head armed enough in
    (t, s, rw (slot-ok w w.cur_slot cur, head, run, s.swept.current))
