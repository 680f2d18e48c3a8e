-- ===== src/Line.antt =====
-- `s_gets`, the same function in TcpEchoClient.cpp, UdpEchoClient.cpp and SignalClient.cpp.
-- Standard input is the list of the characters still to be read; behind it is the end of file. A
-- result stands for the characters in front of the NUL. The loops run on fuel.
pub mod Gets
mod Tests
use linux_server_programming.Base.{
  ℕ, zero, suc, ◌-◌, Bool, true, false, Option, none, some, List, [], ◌∷◌, ◌==◌, if◌then◌else◌, Run,
  ok, out_of_fuel, ◌>>=◌,
}

abbrev pub newline : ℕ
newline = 10

-- what `fgets` reads: up to `k` characters, and none behind a newline
unfoldable pub take_line : (k : ℕ) → List ℕ → List ℕ × List ℕ
take_line zero input = ([], input)
take_line (suc k) [] = ([], [])
take_line (suc k) (c ∷ input) =
    let (line, rest) = take_line k input in
    if c == newline then (c ∷ [], input) else (c ∷ line, rest)

-- `fgets(st, n, stdin)`; `none` is NULL, at the end of file.
unfoldable pub fgets : (n : ℕ) → List ℕ → Option (List ℕ × List ℕ)
fgets n [] = none
fgets n (c ∷ input) = some (take_line (n - 1) (c ∷ input))

-- `while (st[i] != '\n' && st[i] != '\0') ++i;`, and whether it stops at a newline
unfoldable pub scan : List ℕ → List ℕ × Bool
scan [] = ([], false)
scan (c ∷ st) =
    let (front, found) = scan st in
    if c == newline then ([], true) else if c == 0 then ([], false) else (c ∷ front, found)

-- `while (getchar() != '\n') continue;`, which goes on at the end of file
unfoldable pub discard : (fuel : ℕ) → List ℕ → Run (List ℕ)
discard zero input = out_of_fuel
discard (suc k) [] = discard k []
discard (suc k) (c ∷ input) =
    let onward = discard k input in if c == newline then ok input else onward

-- The string, or `none` for NULL, and the rest of the input.
unfoldable pub s_gets : (fuel n : ℕ) → List ℕ → Run (Option (List ℕ) × List ℕ)
s_gets fuel n input =
    let line = λ (st rest : List ℕ). (do
      let (front, found) = scan st
      rest' ← if found then ok rest else discard fuel rest
      ok (some front, rest')) in
    elim (fgets n input) [ none ↦ ok (none, input) | some (st, rest) ↦ line st rest ]
