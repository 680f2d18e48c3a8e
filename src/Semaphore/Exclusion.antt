-- ===== src/Semaphore/Exclusion.antt =====
-- Mutual exclusion in seml.cpp, and what it makes of the output.
use linux_server_programming.Base.{
  ℕ, ◌+◌, ◌-◌, ◌≤◌, ◌≡◌, ◌≢◌, refl, ap, arith, Bool, true, false, List, [], ◌∷◌, ◌++◌, ◌==◌,
  if◌then◌else◌, Bool-cases, inl, inr, ==_refl,
}
use linux_server_programming.Semaphore.{
  Pc, starting, finished, outside, entered, printed, leaving, System,
}

-- between `semaphore_p` and `semaphore_v`
abbrev pub inside : Pc → Bool
inside (entered _) = true
inside (printed _) = true
inside (leaving _) = true
inside _ = false

-- has printed its character once
abbrev pub halfway : Pc → Bool
halfway (printed _) = true
halfway _ = false

-- every character twice
abbrev pub doubled : List ℕ → List ℕ
doubled [] = []
doubled (c ∷ cs) = c ∷ c ∷ doubled cs

abbrev pub is_starting : Pc → Bool
is_starting starting = true
is_starting _ = false

-- The value and the places of the processes agree. Before process `starter` has set the value, it is 0.
pub record IsLocked (starter value : ℕ) (pc : ℕ → Pc) : Type 0 where
  pub small : value ≤ 1
  pub taken : (i : ℕ) → inside (pc i) ≡ true → value ≡ 0
  pub alone : (i j : ℕ) → inside (pc i) ≡ true → inside (pc j) ≡ true → i ≡ j
  pub unset : is_starting (pc starter) ≡ true → (value ≡ 0) × ((i : ℕ) → inside (pc i) ≡ false)

-- What has been printed is pairs of one character, but for a process that is halfway.
pub record IsPaired (message : ℕ → ℕ) (pc : ℕ → Pc) (output : List ℕ) : Type 0 where
  pub even : ((i : ℕ) → halfway (pc i) ≡ false) → (cs : List ℕ) × (output ≡ doubled cs)
  pub odd :
      (i : ℕ) → halfway (pc i) ≡ true → (cs : List ℕ) × (output ≡ doubled cs ++ message i ∷ [])

abbrev pub move : ℕ → Pc → (ℕ → Pc) → ℕ → Pc
move i p pc = λ j. if j == i then p else pc j

-- a step that does not enter
pub move-IsLocked :
    (starter v i : ℕ) (p : Pc) (pc : ℕ → Pc)
    → IsLocked starter v pc
    → (inside p ≡ true → inside (pc i) ≡ true)
    → is_starting p ≡ false
    → IsLocked starter v (move i p pc)
move-IsLocked starter v i p pc wf stays started = record {
  small = wf.small;
  taken = λ j m. ground (arith, wf.taken i, wf.taken j, stays);
  alone = λ j k m n. ground (arith, wf.alone i k, wf.alone j i, wf.alone j k, stays);
  unset = λ m. elim (Bool-cases (starter == i)) [
    | inl e ↦ let no_more : is_starting p ≡ true = ground arith in cc
    | inr e ↦
        let was : is_starting (pc starter) ≡ true = ground arith in
        let (z, none_in) = wf.unset was in (z, λ j. ground (arith, none_in i, none_in j, stays))
  ];
}

pub enter-IsLocked :
    (starter v i k : ℕ) (pc : ℕ → Pc)
    → IsLocked starter v pc
    → v ≢ 0
    → IsLocked starter (v - 1) (move i (entered k) pc)
enter-IsLocked starter v i k pc wf free =
    let low = wf.small in
    record {
      small = omega arith;
      taken = λ j m. omega arith;
      alone = λ j l m n. ground (arith, wf.taken j, wf.taken l);
      unset = λ m. elim (Bool-cases (starter == i)) [
        | inl e ↦ let no_more : is_starting (entered k) ≡ true = ground arith in cc
        | inr e ↦
            let was : is_starting (pc starter) ≡ true = ground arith in
            absurd (free (wf.unset was).0)
      ];
    }

pub leave-IsLocked :
    (starter v i k : ℕ) (pc : ℕ → Pc)
    → IsLocked starter v pc
    → inside (pc i) ≡ true
    → IsLocked starter (v + 1) (move i (outside k) pc)
leave-IsLocked starter v i k pc wf was =
    let zero_now = wf.taken i was in
    record {
      small = omega arith;
      taken = λ j m. ground (arith, wf.alone i j);
      alone = λ j l m n. ground (arith, wf.alone i j, wf.alone i l);
      unset = λ m. elim (Bool-cases (starter == i)) [
        | inl e ↦ let no_more : is_starting (outside k) ≡ true = ground arith in cc
        | inr e ↦
            let first : is_starting (pc starter) ≡ true = ground arith in
            let no_one = (wf.unset first).1 i in cc
      ];
    }

pub create-IsLocked :
    (starter v k : ℕ) (pc : ℕ → Pc)
    → IsLocked starter v pc
    → is_starting (pc starter) ≡ true
    → IsLocked starter 1 (move starter (outside k) pc)
create-IsLocked starter v k pc wf first =
    let (z, no_one) = wf.unset first in
    record {
      small = omega arith;
      taken = λ j m. ground (arith, no_one j);
      alone = λ j l m n. ground (arith, no_one j, no_one l);
      unset = λ m. let no_more : is_starting (outside k) ≡ true = rw (==_refl starter) at m in cc;
    }

halfway_inside : (p : Pc) → halfway p ≡ true → inside p ≡ true
halfway_inside (printed k) h = refl
halfway_inside starting h = cc
halfway_inside finished h = cc
halfway_inside (outside k) h = cc
halfway_inside (entered k) h = cc
halfway_inside (leaving k) h = cc

doubled-append : (cs : List ℕ) (c : ℕ) → (doubled cs ++ c ∷ []) ++ c ∷ [] ≡ doubled (cs ++ c ∷ [])
doubled-append [] c = refl
doubled-append (d ∷ cs) c = ap (λ t. d ∷ d ∷ t) (doubled-append cs c)

module _ (message : ℕ → ℕ) (i : ℕ) (p : Pc) (pc : ℕ → Pc) (output : List ℕ)
    (wf : IsPaired message pc output) where
  -- a step that prints nothing
  pub move-IsPaired :
      halfway p ≡ false → halfway (pc i) ≡ false → IsPaired message (move i p pc) output
  move-IsPaired h was = record {
    even = λ none_half. wf.even (λ j. elim (Bool-cases (j == i)) [
      | inl e ↦ let is : j ≡ i = ground arith in rw is was
      | inr e ↦ ground (arith, none_half j)
    ]);
    odd = λ j half. wf.odd j (ground arith);
  }

  only_half :
      (starter v : ℕ)
      → IsLocked starter v pc
      → inside (pc i) ≡ true
      → (j : ℕ) → j ≢ i
      → halfway (pc j) ≡ false
  only_half starter v lock was j o = elim (Bool-cases (halfway (pc j))) [
    | inl e ↦ absurd (o (lock.alone j i (halfway_inside (pc j) e) was))
    | inr e ↦ e
  ]

  pub first-IsPaired :
      (starter v : ℕ)
      → IsLocked starter v pc
      → inside (pc i) ≡ true
      → halfway (pc i) ≡ false
      → halfway p ≡ true
      → IsPaired message (move i p pc) (output ++ message i ∷ [])
  first-IsPaired starter v lock was not_yet h =
      let (cs, is) = wf.even (λ j. elim (Bool-cases (j == i)) [
        | inl e ↦ let same : j ≡ i = ground arith in rw same not_yet
        | inr e ↦ only_half starter v lock was j (ground arith)
      ]) in
      record {
        even = λ none_half. let mine = none_half i in ground (arith, mine);
        odd = λ j half. elim (Bool-cases (j == i)) [
          | inl e ↦ let same : j ≡ i = ground arith in (cs, rw (same, is))
          | inr e ↦
              let not_half = only_half starter v lock was j (ground arith) in
              ground (arith, not_half)
        ];
      }

  pub second-IsPaired :
      (starter v : ℕ)
      → IsLocked starter v pc
      → halfway (pc i) ≡ true
      → halfway p ≡ false
      → IsPaired message (move i p pc) (output ++ message i ∷ [])
  second-IsPaired starter v lock was h =
      let (cs, is) = wf.odd i was in
      record {
        even = λ _. (cs ++ message i ∷ [], rw is (doubled-append cs (message i)));
        odd = λ j half. elim (Bool-cases (j == i)) [
          | inl e ↦ ground arith
          | inr e ↦
              let not_half =
                only_half starter v lock (halfway_inside (pc i) was) j (ground arith) in
              ground (arith, not_half)
        ];
      }

pub record IsExclusive (starter : ℕ) (message : ℕ → ℕ) (s : System) : Type 0 where
  pub locked : IsLocked starter s.value s.pc
  pub paired : IsPaired message s.pc s.output
