-- ===== src/IpcPrivate/Turns.antt =====
-- Who has the semaphore of IPC_Private.cpp.
use linux_server_programming.Base.{ℕ, ◌+◌, ◌≡◌, refl, ap, arith, Bool, true, false, List, [], ◌∷◌}
use linux_server_programming.IpcPrivate.{
  Stage, before, between, behind, Pair, forked, pv_down, pv_up, step_child, has_ended, step_parent,
  run,
}

abbrev pub holding : Stage → ℕ
holding between = 1
holding _ = 0

pub record TakesTurns (s : Pair) : Type 0 where
  pub one : s.value + holding s.parent + holding s.child ≡ 1
  pub kept : s.removed ≡ true → (has_ended s.parent ≡ true) × (has_ended s.child ≡ true)

step_child-TakesTurns :
    (s : Pair) (c : Stage) → s.child ≡ c → TakesTurns s → TakesTurns (step_child c s)
unfolding step_child pv_down pv_up
step_child-TakesTurns s before e t =
    let ap_e = ap holding e in let ap_h = ap has_ended e in ground (arith, t.one, t.kept)
step_child-TakesTurns s between e t =
    let ap_e = ap holding e in let ap_h = ap has_ended e in ground (arith, t.one, t.kept)
step_child-TakesTurns s behind e t = t

step_parent-TakesTurns :
    (s : Pair) (p : Stage) → s.parent ≡ p → TakesTurns s → TakesTurns (step_parent p s)
unfolding step_parent pv_down pv_up
step_parent-TakesTurns s before e t =
    let ap_e = ap holding e in let ap_h = ap has_ended e in ground (arith, t.one, t.kept)
step_parent-TakesTurns s between e t =
    let ap_e = ap holding e in let ap_h = ap has_ended e in ground (arith, t.one, t.kept)
step_parent-TakesTurns s behind e t = let ap_h = ap has_ended e in ground (arith, t.one, t.kept)

run-TakesTurns : (picks : List Bool) (s : Pair) → TakesTurns s → TakesTurns (run picks s)
unfolding run
run-TakesTurns [] s t = t
run-TakesTurns (true ∷ picks) s t =
    run-TakesTurns picks _ (step_parent-TakesTurns s s.parent refl t)
run-TakesTurns (false ∷ picks) s t = run-TakesTurns picks _ (step_child-TakesTurns s s.child refl t)

-- Under every schedule the semaphore is free, or the parent or the child has it, but only one of
-- the three; and it is deleted only when both have had their turn.
pub run-turns :
    (picks : List Bool)
    → ((run picks forked).value
          + holding (run picks forked).parent
          + holding (run picks forked).child
        ≡ 1)
      × ((run picks forked).removed ≡ true
          → (has_ended (run picks forked).parent ≡ true)
            × (has_ended (run picks forked).child ≡ true))
run-turns picks =
    let t = run-TakesTurns picks forked (record { one = refl; kept = λ e. cc }) in (t.one, t.kept)
