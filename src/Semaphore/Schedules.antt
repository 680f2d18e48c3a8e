-- ===== src/Semaphore/Schedules.antt =====
-- seml.cpp under every schedule.
use linux_server_programming.Base.{
  ℕ, zero, suc, ◌≡◌, refl, ap, sym, ◌∙◌, arith, Bool, true, false, List, [], ◌∷◌, ◌++◌, ◌==◌,
  Bool-cases, inl, inr,
}
use linux_server_programming.Semaphore.{
  Pc, starting, finished, outside, entered, printed, leaving, System, begin, goto, set_semvalue,
  del_semvalue, semaphore_p, semaphore_v, print, step, run, round_count,
}
use linux_server_programming.Semaphore.Exclusion.{
  inside, halfway, doubled, IsExclusive, move-IsLocked, enter-IsLocked, leave-IsLocked,
  create-IsLocked, move-IsPaired, first-IsPaired, second-IsPaired,
}

-- `starter` is the only process that may have been started with an argument.
module _ (has_arg : ℕ → Bool) (starter : ℕ) (only : (i : ℕ) → has_arg i ≡ true → i ≡ starter) where
  begin-IsExclusive : (message : ℕ → ℕ) → IsExclusive starter message begin
  begin-IsExclusive message = record {
    locked = record {
      small = omega arith;
      taken = λ i m. cc;
      alone = λ i j m n. cc;
      unset = λ m. (refl, λ i. refl);
    };
    paired = record { even = λ _. ([], refl); odd = λ i h. cc };
  }

  step-IsExclusive :
      (message : ℕ → ℕ) (i : ℕ) (p : Pc) (s : System)
      → s.pc i ≡ p
      → IsExclusive starter message s
      → IsExclusive starter message (step has_arg message i p s)
  unfolding step goto set_semvalue del_semvalue semaphore_p semaphore_v print
  step-IsExclusive message i starting s e wf = elim (Bool-cases (has_arg i)) [
    | inl given ↦
        let is : i ≡ starter = only i given in
        let first : s.pc starter ≡ starting = ap s.pc (sym is) ∙ e in
        rw (given, is)
          (record {
            locked = create-IsLocked starter s.value round_count s.pc wf.locked (rw first refl);
            paired =
                move-IsPaired message starter (outside round_count) s.pc s.output wf.paired refl
                  (rw first refl);
          })
    | inr no_arg ↦ rw no_arg (record {
      locked = move-IsLocked starter s.value i (outside round_count) s.pc wf.locked (λ m. cc) refl;
      paired =
          move-IsPaired message i (outside round_count) s.pc s.output wf.paired refl (rw e refl);
    })
  ]
  step-IsExclusive message i finished s e wf = wf
  step-IsExclusive message i (outside zero) s e wf =
      let locked = move-IsLocked starter s.value i finished s.pc wf.locked (λ m. cc) refl in
      let paired = move-IsPaired message i finished s.pc s.output wf.paired refl (rw e refl) in
      elim (Bool-cases (has_arg i)) [
        | inl first ↦ rw first (record { locked = locked; paired = paired })
        | inr other ↦ rw other (record { locked = locked; paired = paired })
      ]
  step-IsExclusive message i (outside (suc k)) s e wf = elim (Bool-cases s.removed) [
    | inl gone ↦ rw gone (record {
      locked = move-IsLocked starter s.value i finished s.pc wf.locked (λ m. cc) refl;
      paired = move-IsPaired message i finished s.pc s.output wf.paired refl (rw e refl);
    })
    | inr there ↦ elim (Bool-cases (s.value == 0)) [
      | inl busy ↦ rw (there, busy) (record { locked = wf.locked; paired = wf.paired })
      | inr free ↦
          rw (there, free)
            (record {
              locked = enter-IsLocked starter s.value i k s.pc wf.locked (ground arith);
              paired = move-IsPaired message i (entered k) s.pc s.output wf.paired refl (rw e refl);
            })
    ]
  ]
  step-IsExclusive message i (entered k) s e wf = record {
    locked = move-IsLocked starter s.value i (printed k) s.pc wf.locked (λ _. rw e refl) refl;
    paired =
        first-IsPaired message i (printed k) s.pc s.output wf.paired starter s.value wf.locked
          (rw e refl) (rw e refl) refl;
  }
  step-IsExclusive message i (printed k) s e wf = record {
    locked = move-IsLocked starter s.value i (leaving k) s.pc wf.locked (λ _. rw e refl) refl;
    paired =
        second-IsPaired message i (leaving k) s.pc s.output wf.paired starter s.value wf.locked
          (rw e refl) refl;
  }
  step-IsExclusive message i (leaving k) s e wf = elim (Bool-cases s.removed) [
    | inl gone ↦ rw gone (record {
      locked = move-IsLocked starter s.value i finished s.pc wf.locked (λ m. cc) refl;
      paired = move-IsPaired message i finished s.pc s.output wf.paired refl (rw e refl);
    })
    | inr there ↦ rw there (record {
      locked = leave-IsLocked starter s.value i k s.pc wf.locked (rw e refl);
      paired = move-IsPaired message i (outside k) s.pc s.output wf.paired refl (rw e refl);
    })
  ]

  run-IsExclusive :
      (message : ℕ → ℕ) (schedule : List ℕ) (s : System)
      → IsExclusive starter message s
      → IsExclusive starter message (run has_arg message schedule s)
  unfolding run
  run-IsExclusive message [] s wf = wf
  run-IsExclusive message (i ∷ is) s wf =
      run-IsExclusive message is _ (step-IsExclusive message i (s.pc i) s refl wf)

  -- However the processes are scheduled, at most one is between `semaphore_p` and `semaphore_v`, if no
  -- more than one of them was started with an argument.
  pub run-alone :
      (message : ℕ → ℕ) (schedule : List ℕ) (i j : ℕ)
      → inside ((run has_arg message schedule begin).pc i) ≡ true
      → inside ((run has_arg message schedule begin).pc j) ≡ true
      → i ≡ j
  run-alone message schedule =
      (run-IsExclusive message schedule begin (begin-IsExclusive message)).locked.alone

  -- If no more than one was started with an argument, then however they are scheduled, the output is
  -- pairs of one character, followed, while process `i` has printed the first of a pair and not the
  -- second, by that character.
  pub run-doubled :
      (message : ℕ → ℕ) (schedule : List ℕ)
      → (((i : ℕ) → halfway ((run has_arg message schedule begin).pc i) ≡ false)
          → (cs : List ℕ) × ((run has_arg message schedule begin).output ≡ doubled cs))
        × ((i : ℕ)
            → halfway ((run has_arg message schedule begin).pc i) ≡ true
            → (cs : List ℕ) × ((run has_arg message schedule begin).output
                ≡ doubled cs ++ message i ∷ []))
  run-doubled message schedule =
      let is = (run-IsExclusive message schedule begin (begin-IsExclusive message)).paired in
      (is.even, is.odd)
