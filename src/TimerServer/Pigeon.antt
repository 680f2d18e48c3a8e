-- ===== src/TimerServer/Pigeon.antt =====
-- How many clients a timer server can have.
use linux_server_programming.Base.{
  ℕ, zero, suc, ◌<◌, ◌≤◌, ◌≡◌, refl, arith, false, List, [], ◌∷◌, ◌==◌, Bool-cases, inl, inr,
  length,
}
use linux_server_programming.Process.Files.{holds, drop_fd}

abbrev pub AllBelow : ℕ → List ℕ → Type 0
AllBelow N [] = Unit
AllBelow N (n ∷ ns) = (n < N) × AllBelow N ns

abbrev pub AllDistinct : List ℕ → Type 0
AllDistinct [] = Unit
AllDistinct (n ∷ ns) = (holds n ns ≡ false) × AllDistinct ns

lower : (N : ℕ) (ns : List ℕ) → AllBelow (suc N) ns → holds N ns ≡ false → AllBelow N ns
lower N [] b o = tt
lower N (n ∷ ns) (h, b) o = (ground arith, lower N ns b (ground arith))

AllBelow-drop_fd :
    (N : ℕ) (ns : List ℕ) → AllBelow (suc N) ns → AllDistinct ns → AllBelow N (drop_fd N ns)
AllBelow-drop_fd N [] b d = tt
AllBelow-drop_fd N (n ∷ ns) (h, b) (new, d) = elim (Bool-cases (N == n)) [
  | inl e ↦ let is : n ≡ N = ground arith in rw e (lower N ns b (rw is at new))
  | inr e ↦ rw e (ground arith, AllBelow-drop_fd N ns b d)
]

not_holds-drop_fd : (N n : ℕ) (ns : List ℕ) → holds n ns ≡ false → holds n (drop_fd N ns) ≡ false
not_holds-drop_fd N n [] o = refl
not_holds-drop_fd N n (m ∷ ns) o = ground (arith, not_holds-drop_fd N n ns)

AllDistinct-drop_fd : (N : ℕ) (ns : List ℕ) → AllDistinct ns → AllDistinct (drop_fd N ns)
AllDistinct-drop_fd N [] d = tt
AllDistinct-drop_fd N (n ∷ ns) (new, d) = elim (Bool-cases (N == n)) [
  | inl e ↦ rw e d
  | inr e ↦ rw e (not_holds-drop_fd N n ns new, AllDistinct-drop_fd N ns d)
]

length-drop_fd : (N : ℕ) (ns : List ℕ) → length ns ≤ suc (length (drop_fd N ns))
length-drop_fd N [] = omega arith
length-drop_fd N (n ∷ ns) = ground (arith, length-drop_fd N ns)

-- at most `N` numbers below `N` are distinct
pub length-AllBelow : (N : ℕ) (ns : List ℕ) → AllBelow N ns → AllDistinct ns → length ns ≤ N
length-AllBelow zero [] b d = omega arith
length-AllBelow zero (n ∷ ns) (h, b) d = absurd (omega arith)
length-AllBelow (suc N) ns b d =
    let some_fewer = length-drop_fd N ns in
    let few =
      length-AllBelow N (drop_fd N ns) (AllBelow-drop_fd N ns b d) (AllDistinct-drop_fd N ns d) in
    omega arith
