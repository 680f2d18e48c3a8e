-- ===== src/ChatClient/Relaying.antt =====
-- A kernel that remembers the bytes which go through a pipe to a socket.
use linux_server_programming.Base.{
  ℕ, zero, suc, ◌≡◌, refl, sym, ap, ◌∙◌, List, [], ◌∷◌, ◌++◌, append_assoc, ◌==◌, length,
  if◌then◌else◌, ℤ, pos, negsuc,
}
use linux_server_programming.Process.{Sys, send, pipe, splice, Answer}
use linux_server_programming.Process.Kernel.{Kernel}
use linux_server_programming.Process.Files.{Allowed, Granted, after}

-- A process with a standard input, one pipe and one socket: its open descriptors, the ends of the
-- pipe, what it has read of its input, what is in the pipe, and what the socket has been given.
pub record Relay : Type 0 where
  pub fds : List ℕ
  pub ends : ℕ × ℕ
  pub typed : List ℕ
  pub piped : List ℕ
  pub sent : List ℕ

abbrev pub drop : ℕ → List ℕ → List ℕ
drop zero l = l
drop (suc n) [] = []
drop (suc n) (_ ∷ l) = drop n l

pub drop-length : (bs l : List ℕ) → drop (length bs) (bs ++ l) ≡ l
drop-length [] l = refl
drop-length (b ∷ bs) l = drop-length bs l

-- bytes leave `from`, which is the input or the pipe
abbrev taken : ℤ → List ℕ → Relay → Relay
taken (negsuc _) bs s = s
taken (pos n) bs s =
    if n == 0
    then record s { typed = s.typed ++ bs }
    else if n == s.ends.0
    then record s { piped = drop (length bs) s.piped }
    else s

-- and come to `to`, which is the pipe or the socket
abbrev given : ℤ → List ℕ → Relay → Relay
given (negsuc _) bs s = s
given (pos n) bs s =
    if n == s.ends.1 then record s { piped = s.piped ++ bs } else record s { sent = s.sent ++ bs }

abbrev moved : Sys → Answer → Relay → Relay
moved pipe r s = record s { ends = r.pair; piped = [] }
moved (splice from to _) r s = given to r.bytes (taken from r.bytes s)
moved (send fd bs) r s = given fd bs s
moved _ r s = s

-- What is read from the pipe is in front there.
abbrev IsFront : ℤ → List ℕ → Relay → Type 0
IsFront (negsuc _) bs s = Unit
IsFront (pos n) bs s = n ≡ s.ends.0 → (rest : List ℕ) × (s.piped ≡ bs ++ rest)

abbrev Piped : Relay → Sys → Answer → Type 0
Piped s (splice from _ _) r = IsFront from r.bytes s
Piped s _ r = Unit

abbrev pub relaying : Kernel Relay
relaying = record {
  allowed = λ s c. Allowed s.fds c;
  granted = λ s c r. Granted s.fds c r × Piped s c r;
  after = λ s c r. record (moved c r s) { fds = after s.fds c r };
}

-- bytes `xs` come to the pipe, and `ys` leave it
pub passed :
    (typed piped sent xs ys rest : List ℕ)
    → typed ≡ sent ++ piped
    → piped ++ xs ≡ ys ++ rest
    → drop (length ys) (piped ++ xs) ≡ rest
    → typed ++ xs ≡ (sent ++ ys) ++ drop (length ys) (piped ++ xs)
passed typed piped sent xs ys rest order is gone =
    ap (λ l. l ++ xs) order
    ∙ append_assoc sent piped xs
    ∙ ap (λ l. sent ++ l) is
    ∙ sym (append_assoc sent ys rest)
    ∙ ap (λ l. (sent ++ ys) ++ l) (sym gone)

-- the start, with the standard input open
abbrev pub started : ℕ × ℕ → Relay
started ends = record { fds = 0 ∷ []; ends = ends; typed = []; piped = []; sent = [] }
