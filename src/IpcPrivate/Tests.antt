-- ===== src/IpcPrivate/Tests.antt =====
-- IPC_Private.cpp under a concrete schedule.
use linux_server_programming.Base.{◌+◌, ◌≡◌, true, false, [], ◌∷◌}
use linux_server_programming.IpcPrivate.{forked, run, has_ended}
use linux_server_programming.IpcPrivate.Turns.{holding, run-turns}

-- The parent has its turn while the child waits.
run-turns_example :
    ((run (true ∷ false ∷ true ∷ []) forked).value
        + holding (run (true ∷ false ∷ true ∷ []) forked).parent
        + holding (run (true ∷ false ∷ true ∷ []) forked).child
      ≡ 1)
    × ((run (true ∷ false ∷ true ∷ []) forked).removed ≡ true
        → (has_ended (run (true ∷ false ∷ true ∷ []) forked).parent ≡ true)
          × (has_ended (run (true ∷ false ∷ true ∷ []) forked).child ≡ true))
run-turns_example = run-turns (true ∷ false ∷ true ∷ [])
