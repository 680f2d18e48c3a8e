-- ===== src/Line/Gets.antt =====
-- What `s_gets` reads.
use linux_server_programming.Base.{take, take-all}
use linux_server_programming.Base.{
  ℕ, zero, suc, ◌-◌, ◌≤◌, ◌<◌, ◌≡◌, ◌≢◌, refl, arith, true, false, Option, some, List, [], ◌∷◌,
  ◌++◌, if◌then◌else◌, Bool-cases, inl, inr, ok, out_of_fuel, length, ne→==, ◌>>=◌, Run, ltb,
}
use linux_server_programming.Line.{newline, take_line, fgets, scan, discard, s_gets}

-- no newline and no NUL
abbrev pub IsPlain : List ℕ → Type 0
IsPlain [] = Unit
IsPlain (c ∷ l) = (c ≢ newline) × (c ≢ 0) × IsPlain l

abbrev pub drop : ℕ → List ℕ → List ℕ
drop zero l = l
drop (suc k) [] = []
drop (suc k) (c ∷ l) = drop k l

pub IsPlain-take : (k : ℕ) (l : List ℕ) → IsPlain l → IsPlain (take k l)
IsPlain-take zero l p = tt
IsPlain-take (suc k) [] p = tt
IsPlain-take (suc k) (c ∷ l) (o, z, p) = (o, z, IsPlain-take k l p)

IsPlain-drop : (k : ℕ) (l : List ℕ) → IsPlain l → IsPlain (drop k l)
IsPlain-drop zero l p = p
IsPlain-drop (suc k) [] p = tt
IsPlain-drop (suc k) (c ∷ l) (o, z, p) = IsPlain-drop k l p

length-drop : (k : ℕ) (l : List ℕ) → length (drop k l) ≤ length l
length-drop zero l = omega arith
length-drop (suc k) [] = omega arith
length-drop (suc k) (c ∷ l) = let h = length-drop k l in omega arith

discard-newline :
    (fuel : ℕ) (line rest : List ℕ)
    → IsPlain line
    → length line < fuel
    → discard fuel (line ++ newline ∷ rest) ≡ ok rest
unfolding discard
discard-newline zero line rest plain h = absurd (omega arith)
discard-newline (suc k) [] rest plain h = refl
discard-newline (suc k) (c ∷ line) rest (o, _, plain) h =
    rw (ne→== c newline o) (discard-newline k line rest plain (omega arith))

discard_end : (fuel : ℕ) (line : List ℕ) → IsPlain line → discard fuel line ≡ out_of_fuel
unfolding discard
discard_end zero line plain = refl
discard_end (suc k) [] plain = discard_end k [] tt
discard_end (suc k) (c ∷ line) (o, _, plain) = rw (ne→== c newline o) (discard_end k line plain)

pub scan-IsPlain : (st : List ℕ) → IsPlain st → scan st ≡ (st, false)
unfolding scan
scan-IsPlain [] p = refl
scan-IsPlain (c ∷ st) (o, z, p) = rw (scan-IsPlain st p, ne→== c newline o, ne→== c 0 z)

pub scan-newline : (st : List ℕ) → IsPlain st → scan (st ++ newline ∷ []) ≡ (st, true)
unfolding scan
scan-newline [] p = refl
scan-newline (c ∷ st) (o, z, p) = rw (scan-newline st p, ne→== c newline o, ne→== c 0 z)

pub take_line-short :
    (k : ℕ) (line rest : List ℕ)
    → IsPlain line
    → length line < k
    → take_line k (line ++ newline ∷ rest) ≡ (line ++ newline ∷ [], rest)
unfolding take_line
take_line-short zero line rest p h = absurd (omega arith)
take_line-short (suc k) [] rest p h = refl
take_line-short (suc k) (c ∷ line) rest (o, z, p) h =
    rw (take_line-short k line rest p (omega arith), ne→== c newline o)

pub take_line-long :
    (k : ℕ) (line rest : List ℕ)
    → IsPlain line
    → k ≤ length line
    → take_line k (line ++ rest) ≡ (take k line, drop k line ++ rest)
unfolding take_line
take_line-long zero line rest p h = refl
take_line-long (suc k) [] rest p h = absurd (omega arith)
take_line-long (suc k) (c ∷ line) rest (o, z, p) h =
    rw (take_line-long k line rest p (omega arith), ne→== c newline o)

take_line_end :
    (k : ℕ) (line : List ℕ) → IsPlain line → take_line k line ≡ (take k line, drop k line)
unfolding take_line
take_line_end zero line p = refl
take_line_end (suc k) [] p = refl
take_line_end (suc k) (c ∷ line) (o, z, p) = rw (take_line_end k line p, ne→== c newline o)

-- `s_gets` once `fgets` has returned
abbrev finish : (fuel : ℕ) → List ℕ × List ℕ → Run (Option (List ℕ) × List ℕ)
finish fuel (st, rest) = do
  let (front, found) = scan st
  rest' ← if found then ok rest else discard fuel rest
  ok (some front, rest')

finish-line :
    (fuel k : ℕ) (line rest : List ℕ)
    → IsPlain line
    → length line < fuel
    → finish fuel (take_line k (line ++ newline ∷ rest)) ≡ ok (some (take k line), rest)
finish-line fuel k line rest p h = elim (Bool-cases (ltb (length line) k)) [
  | inl e ↦
      let all = take-all k line (ground arith) in
      rw (take_line-short k line rest p (ground arith), scan-newline line p, all)
  | inr e ↦
      let few = length-drop k line in
      rw (
        take_line-long k line (newline ∷ rest) p (ground arith),
        scan-IsPlain (take k line) (IsPlain-take k line p),
        discard-newline fuel (drop k line) rest (IsPlain-drop k line p) (omega arith),
      )
]

-- From a line that ends in a newline and has no NUL, `s_gets` takes the first `n - 1` characters as
-- the string. The rest of the line and its newline are gone, and the input goes on behind them.
pub s_gets-take :
    (fuel n : ℕ) (line rest : List ℕ)
    → IsPlain line
    → length line < fuel
    → s_gets fuel n (line ++ newline ∷ rest) ≡ ok (some (take (n - 1) line), rest)
unfolding s_gets fgets
s_gets-take fuel n [] rest p h = finish-line fuel (n - 1) [] rest p h
s_gets-take fuel n (c ∷ line) rest p h = finish-line fuel (n - 1) (c ∷ line) rest p h

-- Where the input ends in a line without a newline, `s_gets` never returns.
s_gets-hangs :
    (fuel n c : ℕ) (line : List ℕ) → IsPlain (c ∷ line) → s_gets fuel n (c ∷ line) ≡ out_of_fuel
unfolding s_gets fgets
s_gets-hangs fuel n c line p = rw (
  take_line_end (n - 1) (c ∷ line) p,
  scan-IsPlain (take (n - 1) (c ∷ line)) (IsPlain-take (n - 1) (c ∷ line) p),
  discard_end fuel (drop (n - 1) (c ∷ line)) (IsPlain-drop (n - 1) (c ∷ line) p),
)
