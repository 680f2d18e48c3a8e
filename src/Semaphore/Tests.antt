-- ===== src/Semaphore/Tests.antt =====
-- seml.cpp under concrete schedules.
use linux_server_programming.Base.{ℕ, ◌+◌, ◌≡◌, refl, arith, ◌==◌, true, false, List, [], ◌∷◌, ◌++◌}
use linux_server_programming.Semaphore.{begin, goto, set_semvalue, semaphore_p, print, step, run}
use linux_server_programming.Semaphore.Exclusion.{halfway, doubled}
use linux_server_programming.Semaphore.Schedules.{run-alone, run-doubled}

-- Process 0, which has an argument, sets the semaphore and enters, and process 1 waits.
abbrev waiting : List ℕ
waiting = 0 ∷ 1 ∷ 0 ∷ 1 ∷ 0 ∷ 1 ∷ []

abbrev letter : ℕ → ℕ
letter i = 88 + i

run-alone_example : ◌≡◌ {A = ℕ} 0 0
run-alone_example =
    run-alone (λ i. i == 0) 0 (λ i e. ground arith) letter waiting 0 0
      (unfold run step goto set_semvalue semaphore_p print in refl)
      (unfold run step goto set_semvalue semaphore_p print in refl)

run-doubled_example :
    (((i : ℕ) → halfway ((run (λ i. i == 0) letter waiting begin).pc i) ≡ false)
      → (cs : List ℕ) × ((run (λ i. i == 0) letter waiting begin).output ≡ doubled cs))
    × ((i : ℕ)
        → halfway ((run (λ i. i == 0) letter waiting begin).pc i) ≡ true
        → (cs : List ℕ) × ((run (λ i. i == 0) letter waiting begin).output
            ≡ doubled cs ++ letter i ∷ []))
run-doubled_example = run-doubled (λ i. i == 0) 0 (λ i e. ground arith) letter waiting
