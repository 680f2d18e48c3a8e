-- ===== src/EchoClient/Typed.antt =====
-- What the clients send of the lines that are typed.
use linux_server_programming.Base.{
  ℕ, zero, suc, ◌-◌, ◌<◌, ◌≡◌, refl, arith, false, List, [], ◌∷◌, ◌++◌, ltb, ◌==◌, if◌then◌else◌,
  Bool-cases, inl, inr, length, ne→==, ℤ, append_assoc,
}
use linux_server_programming.Process.{Sys, send, recv, Answer, done}
use linux_server_programming.Process.Exec.{calls_of, got}
use linux_server_programming.Line.{newline, take_line, fgets, scan}
use linux_server_programming.Line.Gets.{
  IsPlain, IsPlain-take, scan-IsPlain, scan-newline, take_line-short, take_line-long, s_gets-take,
}
use linux_server_programming.Base.{take, take-all}
use linux_server_programming.EchoClient.{buffer_size, over, set_zero, typed_over, text, tcp_loop}

text-over : (l r buf : List ℕ) → IsPlain l → text (over (l ++ 0 ∷ r) buf) ≡ done l
unfolding text over
text-over [] r [] p = refl
text-over [] r (_ ∷ buf) p = refl
text-over (c ∷ l) r [] (_, z, p) = rw (ne→== c 0 z, text-over l r [] p)
text-over (c ∷ l) r (_ ∷ buf) (_, z, p) = rw (ne→== c 0 z, text-over l r buf p)

text-set_zero :
    (l r buf : List ℕ) (c : ℕ)
    → IsPlain l
    → text (set_zero (length l) (over (l ++ c ∷ r) buf)) ≡ done l
unfolding text over set_zero
text-set_zero [] r [] c p = refl
text-set_zero [] r (_ ∷ buf) c p = refl
text-set_zero (b ∷ l) r [] c (_, z, p) = rw (ne→== b 0 z, text-set_zero l r [] c p)
text-set_zero (b ∷ l) r (_ ∷ buf) c (_, z, p) = rw (ne→== b 0 z, text-set_zero l r buf c p)

-- the buffer after `fgets` has returned
abbrev filled : List ℕ × List ℕ → List ℕ → List ℕ
filled (st, _) buf =
    let (front, found) = scan st in
    let buf' = over (st ++ 0 ∷ []) buf in if found then set_zero (length front) buf' else buf'

text-filled :
    (k : ℕ) (line rest buf : List ℕ)
    → IsPlain line
    → text (filled (take_line k (line ++ newline ∷ rest)) buf) ≡ done (take k line)
text-filled k line rest buf p = elim (Bool-cases (ltb (length line) k)) [
  | inl e ↦
      let all = take-all k line (ground arith) in
      rw
        (
          take_line-short k line rest p (ground arith),
          scan-newline line p,
          all,
          append_assoc line (newline ∷ []) (0 ∷ []),
        )
        (text-set_zero line (0 ∷ []) buf newline p)
  | inr e ↦
      let p' = IsPlain-take k line p in
      rw (take_line-long k line (newline ∷ rest) p (ground arith), scan-IsPlain (take k line) p')
        (text-over (take k line) [] buf p')
]

pub text-typed_over :
    (n : ℕ) (line rest buf : List ℕ)
    → IsPlain line
    → text (typed_over n (line ++ newline ∷ rest) buf) ≡ done (take (n - 1) line)
unfolding typed_over fgets
text-typed_over n [] rest buf p = text-filled (n - 1) [] rest buf p
text-typed_over n (c ∷ line) rest buf p = text-filled (n - 1) (c ∷ line) rest buf p

-- lines that are typed, each with the server's reply
abbrev pub Dialog : Type 0
Dialog = List (List ℕ × List ℕ)

abbrev pub typed : Dialog → List ℕ → List ℕ
typed [] input = input
typed ((line, _) ∷ d) input = line ++ newline ∷ typed d input

-- Lines without NUL that `s_gets` can read, and replies that are not empty.
abbrev pub IsDialog : (fuel : ℕ) → Dialog → Type 0
IsDialog fuel [] = Unit
IsDialog fuel ((line, reply) ∷ d) =
    IsPlain line × (length line < fuel) × (0 < length reply) × IsDialog fuel d

abbrev pub replies : (sent : Answer) → Dialog → List Answer → List Answer
replies sent [] rest = rest
replies sent ((_, reply) ∷ d) rest = sent ∷ got reply ∷ replies sent d rest

abbrev pub messages : ℤ → Dialog → List Sys → List Sys
messages sock [] rest = rest
messages sock ((line, _) ∷ d) rest =
    send sock (take (buffer_size - 1) line) ∷ recv sock buffer_size ∷ messages sock d rest

-- The client sends each line that is typed, cut to what its buffer holds, and waits for the reply
-- before it reads the next; it stops once the server has closed the connection. The replies that
-- stand in the buffer in between leave no trace in what is sent.
pub tcp_loop-messages :
    (rounds fuel : ℕ) (sock : ℤ) (sent : Answer) (d : Dialog) (last input buf : List ℕ)
    → IsDialog fuel d
    → IsPlain last
    → length last < fuel
    → length d < rounds
    → calls_of
        (tcp_loop rounds fuel sock (typed d (last ++ newline ∷ input)) buf)
        (replies sent d (sent ∷ got [] ∷ []))
      ≡ messages sock d (send sock (take (buffer_size - 1) last) ∷ recv sock buffer_size ∷ [])
unfolding tcp_loop calls_of
tcp_loop-messages zero fuel sock sent d last input buf h p short enough = absurd (omega arith)
tcp_loop-messages (suc k) fuel sock sent [] last input buf h p short enough =
    rw (
      s_gets-take fuel buffer_size last input p short,
      text-typed_over buffer_size last input buf p,
    )
tcp_loop-messages (suc k) fuel sock sent ((line, reply) ∷ d) last input buf (pl, sl, some_bytes, h)
      p short enough =
    let more = typed d (last ++ newline ∷ input) in
    let busy : (length reply == 0) ≡ false = ne→== (length reply) 0 (omega arith) in
    rw (
      s_gets-take fuel buffer_size line more pl sl,
      text-typed_over buffer_size line more buf pl,
      busy,
      tcp_loop-messages k fuel sock sent d last input
          (over reply (typed_over buffer_size (line ++ newline ∷ more) buf)) h p short
          (omega arith),
    )
