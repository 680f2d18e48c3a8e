-- ===== src/TimerList/Destroy.antt =====
-- The destructor of LST_Timer.h.
use linux_server_programming.Base.{
  ℕ, zero, suc, ◌<◌, ◌≡◌, refl, ◌∙◌, sym, subst, none, true, [], ◌∷◌, arith, ◌==◌, length, Returns,
  ne→==, Bool-cases, inl, inr,
}
use linux_server_programming.Memory.{Ptr, null, write}
use linux_server_programming.Memory.Chain
use linux_server_programming.Memory.Chain.{Cells, Chain, has, first, SameOutside}
use linux_server_programming.TimerList.{UtilTimer, TimerList, destroy_loop, destroy}
use linux_server_programming.TimerList.Invariant.{IsTimerList}

-- what the destructor does to the nodes `xs`
pub record Freed (w : TimerList) (xs : Cells UtilTimer) (w' : TimerList) : Type 0 where
  pub gone : (d : Ptr) → has d xs ≡ true → w'.store d ≡ none
  pub same : SameOutside xs w.store w'.store

destroy_loop-Freed :
    (k : ℕ) (w : TimerList) (q : Ptr) (xs : Cells UtilTimer)
    → Chain w.store q xs
    → length xs < k
    → Returns (Freed w xs) (destroy_loop k w (first xs))
unfolding destroy_loop
destroy_loop-Freed zero w q xs c enough = absurd (omega arith)
destroy_loop-Freed (suc k) w q [] c enough =
    (w, refl, record { gone = λ d m. cc; same = λ d o. refl })
destroy_loop-Freed (suc k) w q ((a, u) ∷ xs) (live, at, new, c) enough =
    let h = write w.store a none in
    let w1 : TimerList = record w { head = first xs; store = h } in
    let (w', run, t) =
      destroy_loop-Freed k w1 a xs (Chain.frame-write w.store a xs a none c new) (omega arith) in
    (
      w',
      rw (ne→== a null live, Chain.load-ok w.store a live at, Chain.free-ok w.store a live at) run,
      record {
        gone = λ d m. elim (Bool-cases (d == a)) [
          | inl e ↦
              let is : d ≡ a = ground arith in
              rw is (t.same a new ∙ Chain.write_self w.store a none)
          | inr e ↦ t.gone d (rw e at m)
        ];
        same = λ d o. t.same d (ground arith) ∙ Chain.write-other w.store a d none (ground arith);
      },
    )

-- The destructor of a list, with fuel above its length, deletes each of its timers once, and nothing else.
pub destroy-Freed :
    (fuel : ℕ) (w : TimerList) (xs : Cells UtilTimer)
    → IsTimerList xs w
    → length xs < fuel
    → Returns (Freed w xs) (destroy fuel w)
unfolding destroy
destroy-Freed fuel w xs is enough =
    subst (λ z. Returns (Freed w xs) (destroy_loop fuel w z)) (sym is.head)
      (destroy_loop-Freed fuel w null xs is.chain enough)
