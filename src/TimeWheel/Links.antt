-- ===== src/TimeWheel/Links.antt =====
-- `add_timer` and `del_timer` on the chain of one slot.
use linux_server_programming.Base.{
  ℕ, ◌<◌, ◌≡◌, ◌≢◌, refl, ◌∙◌, true, false, inl, inr, some, none, [], ◌∷◌, arith, ◌==◌,
  if◌then◌else◌, Bool-cases, Returns, ne→==, ==_refl,
}
use linux_server_programming.Memory.{Ptr, null, Store, Node, node, write}
use linux_server_programming.Memory.Chain
use linux_server_programming.Memory.Chain.{Cells, Chain, has, first, erase, has-erase}
use linux_server_programming.TimeWheel.{TwTimer, TimeWheel, slot_count, push_slot, del_timer}
use linux_server_programming.TimeWheel.Sweep.{slot-ok, set_slot-ok}
use linux_server_programming.TimeWheel.Invariant.{Placed}

-- Slot `i` holds `xs` now; outside `old` and `xs` the store is as it was.
pub record Relinked (w : TimeWheel) (i : ℕ) (old xs : Cells TwTimer) (w' : TimeWheel) : Type 0 where
  pub chain : Chain w'.store null xs
  pub slots : (j : ℕ) → w'.slots j ≡ (if j == i then first xs else w.slots j)
  pub current : w'.cur_slot ≡ w.cur_slot
  pub calls : w'.calls ≡ w.calls
  pub same : (a : Ptr) → has a old ≡ false → has a xs ≡ false → w'.store a ≡ w.store a

module _ (w : TimeWheel) (i : ℕ) (hi : i < slot_count) where
  pub push_slot-Relinked :
      (p : Ptr) (v : TwTimer) (xs : Cells TwTimer)
      → Chain w.store null xs
      → w.slots i ≡ first xs
      → p ≢ null
      → w.store p ≡ some (node v null null)
      → has p xs ≡ false
      → Returns (Relinked w i xs ((p, v) ∷ xs)) (push_slot w i p)
  unfolding push_slot
  push_slot-Relinked p v [] c head live at new = (
    record w { slots = λ j. if j == i then p else w.slots j },
    rw (slot-ok w i hi, head, set_slot-ok w i p hi),
    record {
      chain = (live, at, refl, tt);
      slots = λ j. refl;
      current = refl;
      calls = refl;
      same = λ a o o'. refl;
    },
  )
  push_slot-Relinked p v ((a, u) ∷ xs) (live', at', new', c) head live at new =
      let h1 : Store TwTimer = write w.store p (some (node v null a)) in
      let at1 : h1 a ≡ some (node u null (first xs)) = unfold write in ground arith in
      let h2 : Store TwTimer = write h1 a (some (node u p (first xs))) in
      let own : h2 p ≡ some (node v null a) = unfold write in ground arith in
      let own' : h2 a ≡ some (node u p (first xs)) = unfold write in ground arith in
      let kept : (b : Ptr) → (b == p) ≡ false → (b == a) ≡ false → h2 b ≡ w.store b =
        unfold write in ground arith in
      let c1 : Chain h1 a xs = Chain.frame-write w.store a xs p _ c (ground arith) in
      (
        record w { slots = λ j. if j == i then p else w.slots j; store = h2 },
        rw (
          slot-ok w i hi,
          head,
          ne→== a null live',
          Chain.set_next-ok w.store p a live at,
          Chain.set_prev-ok h1 a p live' at1,
          set_slot-ok (record w { store = h2 }) i p hi,
        ),
        record {
          chain = (live, own, new, (live', own', new', Chain.frame-write h1 a xs a _ c1 new'));
          slots = λ j. refl;
          current = refl;
          calls = refl;
          same = λ b o o'. kept b (ground arith) (ground arith);
        },
      )

  -- a timer of the slot is live and knows its slot
  find :
      (h : Store TwTimer) (q p : Ptr) (xs : Cells TwTimer)
      → Chain h q xs
      → Placed i xs
      → has p xs ≡ true
      → (n : Node TwTimer) × (h p ≡ some n) × (p ≢ null) × (n.value.time_slot ≡ i)
  find h q p [] c pl m = absurd (cc)
  find h q p ((a, v) ∷ xs) (live, at, new, c) (mine, pl) m = elim (Bool-cases (p == a)) [
    | inl e ↦ let is : p ≡ a = ground arith in rw is (node v q (first xs), at, live, mine)
    | inr e ↦ find h a p xs c pl (ground arith)
  ]

  del_timer-front :
      (a : Ptr) (u : TwTimer) (xs : Cells TwTimer)
      → Chain w.store null ((a, u) ∷ xs)
      → w.slots i ≡ a
      → u.time_slot ≡ i
      → Returns (λ w'. Relinked w i ((a, u) ∷ xs) xs w' × (w'.store a ≡ none)) (del_timer w a)
  unfolding del_timer
  del_timer-front a u xs (live, at, new, c) head mine =
      let (h1, run, (chain, same)) = Chain.set_prev_if-Chain w.store a null xs c in
      let at1 : h1 a ≡ some (node u null (first xs)) = same a new ∙ at in
      let gone : write h1 a none a ≡ none = unfold write in ground arith in
      let kept : (b : Ptr) → (b == a) ≡ false → write h1 a none b ≡ h1 b =
        unfold write in ground arith in
      (
        record w { slots = λ j. if j == i then first xs else w.slots j; store = write h1 a none },
        rw (
          ne→== a null live,
          Chain.load-ok w.store a live at,
          mine,
          slot-ok w i hi,
          head,
          ==_refl a,
          Chain.load-ok w.store a live at,
          set_slot-ok w i (first xs) hi,
          run,
          Chain.free-ok h1 a live at1,
        ),
        (
          record {
            chain = Chain.frame-write h1 null xs a none chain new;
            slots = λ j. refl;
            current = refl;
            calls = refl;
            same = λ b o o'. kept b (ground arith) ∙ same b o';
          },
          gone,
        ),
      )

  del_timer-behind :
      (p a : Ptr) (u : TwTimer) (xs : Cells TwTimer)
      → Chain w.store null ((a, u) ∷ xs)
      → w.slots i ≡ a
      → Placed i xs
      → (p == a) ≡ false
      → has p xs ≡ true
      → Returns
          (λ w'. Relinked w i ((a, u) ∷ xs) ((a, u) ∷ erase p xs) w' × (w'.store p ≡ none))
          (del_timer w p)
  unfolding del_timer
  del_timer-behind p a u xs c head pl other m =
      let (n, at, live, mine) = find w.store a p xs c.3 pl m in
      let (h1, run, (chain, same)) = Chain.bypass-Chain w.store null p a u xs c m in
      let out : has p ((a, u) ∷ erase p xs) ≡ false =
        ground (arith, Chain.not-has-erase w.store a p xs c.3) in
      let at1 : h1 p ≡ some n = same p out ∙ at in
      let gone : write h1 p none p ≡ none = unfold write in ground arith in
      let kept : (b : Ptr) → (b == p) ≡ false → write h1 p none b ≡ h1 b =
        unfold write in ground arith in
      (
        record w { store = write h1 p none },
        rw (
          ne→== p null live,
          Chain.load-ok w.store p live at,
          mine,
          slot-ok w i hi,
          head,
          other,
          run,
          Chain.free-ok h1 p live at1,
        ),
        (
          record {
            chain = Chain.frame-write h1 null ((a, u) ∷ erase p xs) p none chain out;
            slots = λ j. ground arith;
            current = refl;
            calls = refl;
            same = λ b o o'. kept b (ground (arith)) ∙ same b o';
          },
          gone,
        ),
      )

  pub del_timer-Relinked :
      (p : Ptr) (xs : Cells TwTimer)
      → Chain w.store null xs
      → w.slots i ≡ first xs
      → Placed i xs
      → has p xs ≡ true
      → Returns (λ w'. Relinked w i xs (erase p xs) w' × (w'.store p ≡ none)) (del_timer w p)
  del_timer-Relinked p [] c head pl m = absurd (cc)
  del_timer-Relinked p ((a, u) ∷ xs) c head (mine, pl) m = elim (Bool-cases (p == a)) [
    | inl e ↦ let is : p ≡ a = ground arith in rw (e, is) (del_timer-front a u xs c head mine)
    | inr e ↦ rw e (del_timer-behind p a u xs c head pl e (ground arith))
  ]
