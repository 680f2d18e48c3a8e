-- ===== src/TimerList/Insert.antt =====
-- The private `add_timer` of LST_Timer.h on a chain.
use linux_server_programming.Base.{
  ℕ, zero, suc, ◌<◌, ◌≡◌, ◌≢◌, refl, ◌∙◌, false, inl, inr, some, [], ◌∷◌, arith, ◌==◌,
  if◌then◌else◌, Bool-cases, Returns, ne→==, ltb, length,
}
use linux_server_programming.Memory.{Ptr, null, Store, node, write}
use linux_server_programming.Memory.Chain
use linux_server_programming.Memory.Chain.{Cells, Chain, has, first, SameOutside}
use linux_server_programming.TimerList.{UtilTimer, link_between, insert_loop}

-- A timer is put before the first one that expires later; if none does, it is not put anywhere.
unfoldable pub insert_before : Ptr → UtilTimer → Cells UtilTimer → Cells UtilTimer
insert_before t v [] = []
insert_before t v ((b, x) ∷ ys) =
    if ltb v.expire x.expire then (t, v) ∷ (b, x) ∷ ys else (b, x) ∷ insert_before t v ys

pub has-insert_before :
    (t : Ptr) (v : UtilTimer) (d : Ptr) (xs : Cells UtilTimer)
    → has d xs ≡ false
    → (d == t) ≡ false
    → has d (insert_before t v xs) ≡ false
unfolding insert_before
has-insert_before t v d [] o ne = refl
has-insert_before t v d ((b, x) ∷ ys) o ne = ground (arith, has-insert_before t v d ys)

has-insert_before_cons :
    (t : Ptr) (v : UtilTimer) (d b : Ptr) (x : UtilTimer) (ys : Cells UtilTimer)
    → has d ((b, x) ∷ ys) ≡ false
    → (t == d) ≡ false
    → has d ((b, x) ∷ insert_before t v ys) ≡ false
has-insert_before_cons t v d b x ys o ne = ground (arith, has-insert_before t v d ys)

module _ (t : Ptr) (v : UtilTimer) (live : t ≢ null) where
  link_between-Chain :
      (h : Store UtilTimer) (q a b r s : Ptr) (u x : UtilTimer) (ys : Cells UtilTimer)
      → Chain h q ((a, u) ∷ (b, x) ∷ ys)
      → h t ≡ some (node v r s)
      → has t ((a, u) ∷ (b, x) ∷ ys) ≡ false
      → Returns
          (λ g.
            Chain g q ((a, u) ∷ (t, v) ∷ (b, x) ∷ ys)
            × SameOutside ((t, v) ∷ (a, u) ∷ (b, x) ∷ ys) h g)
          (link_between h t a b)
  unfolding link_between
  link_between-Chain h q a b r s u x ys (la, ata, na, (lb, atb, nb, c)) at out =
      let h1 : Store UtilTimer = write h a (some (node u q t)) in
      let t1 : h1 t ≡ some (node v r s) = unfold write in ground arith in
      let h2 : Store UtilTimer = write h1 t (some (node v r b)) in
      let b2 : h2 b ≡ some (node x a (first ys)) = unfold write in ground arith in
      let h3 : Store UtilTimer = write h2 b (some (node x t (first ys))) in
      let t3 : h3 t ≡ some (node v r b) = unfold write in ground arith in
      let h4 : Store UtilTimer = write h3 t (some (node v a b)) in
      let a4 : h4 a ≡ some (node u q t) = unfold write in ground arith in
      let b4 : h4 b ≡ some (node x t (first ys)) = unfold write in ground arith in
      let t4 : h4 t ≡ some (node v a b) = unfold write in ground arith in
      let kept : (d : Ptr) → (d == a) ≡ false → (d == b) ≡ false → (d == t) ≡ false → h4 d ≡ h d =
        unfold write in ground arith in
      (
        h4,
        rw (
          Chain.set_next-ok h a t la ata,
          Chain.set_next-ok h1 t b live t1,
          Chain.set_prev-ok h2 b t lb b2,
          Chain.set_prev-ok h3 t a live t3,
        ),
        (
          (
            la,
            a4,
            ground arith,
            (
              live,
              t4,
              ground arith,
              (
                lb,
                b4,
                nb,
                Chain.frame b ys c (λ d i. kept d (ground arith) (ground arith) (ground arith)),
              ),
            ),
          ),
          λ d o. kept d (ground arith) (ground arith) (ground arith),
        ),
      )

  -- The loop behind `(a, u)`: a node that finds no later one stays outside, and nothing is written.
  pub insert_loop-Chain :
      (k : ℕ) (h : Store UtilTimer) (q a r s : Ptr) (u : UtilTimer) (xs : Cells UtilTimer)
      → Chain h q ((a, u) ∷ xs)
      → h t ≡ some (node v r s)
      → has t ((a, u) ∷ xs) ≡ false
      → length xs < k
      → Returns
          (λ g. Chain g q ((a, u) ∷ insert_before t v xs) × SameOutside ((t, v) ∷ (a, u) ∷ xs) h g)
          (insert_loop k h t a (first xs))
  unfolding insert_loop insert_before
  insert_loop-Chain zero h q a r s u xs c at out fuel = absurd (omega arith)
  insert_loop-Chain (suc k) h q a r s u [] c at out fuel = (h, refl, (c, λ d o. refl))
  insert_loop-Chain (suc k) h q a r s u ((b, x) ∷ ys) c at out fuel =
      let (la, ata, na, rest) = c in
      let (lb, atb, nb, c') = rest in
      elim (Bool-cases (ltb v.expire x.expire)) [
        | inl sooner ↦
            let (g, run, (chain, same)) = link_between-Chain h q a b r s u x ys c at out in
            (
              g,
              rw (ne→== b null lb, Chain.load-ok h t live at, Chain.load-ok h b lb atb, sooner) run,
              rw sooner (chain, same),
            )
        | inr later ↦
            let (g, run, (chain, same)) =
              insert_loop-Chain k h a b r s x ys rest at (ground arith) (omega arith) in
            let apart : (t == a) ≡ false = ground arith in
            let new : has a ((b, x) ∷ insert_before t v ys) ≡ false =
              has-insert_before_cons t v a b x ys na apart in
            (
              g,
              rw (ne→== b null lb, Chain.load-ok h t live at, Chain.load-ok h b lb atb, later) run,
              rw later
                  ((la, same a (ground arith) ∙ ata, new, chain), λ d o. same d (ground arith)),
            )
      ]
