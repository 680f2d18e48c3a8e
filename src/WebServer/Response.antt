-- ===== src/WebServer/Response.antt =====
-- The answers of LinuxWebWritev.cpp.
use linux_server_programming.Base.{
  length-append, ℕ, zero, suc, ◌+◌, ◌-◌, ◌≤◌, ◌<◌, ◌≡◌, ◌≢◌, ◌/◌, ◌%◌, refl, ap, ◌∙◌, sym, arith,
  true, false, List, [], ◌∷◌, ◌++◌, ltb, Bool-cases, inl, inr, length, append_assoc, ne→==, ℤ, pos,
  ◌||◌,
}
use linux_server_programming.Base.{take-all}
use linux_server_programming.WebServer.{
  codes, buffer_size, digits, decimal, snprintf, print_two, print_three, status_ok, status_error,
  line_end, header_ok, header_error, padded, respond, send_file, send_error,
}
use linux_server_programming.Process.{
  stat, open_file, read_file, writev, send, close, Stat, Answer, is_neg,
}
use linux_server_programming.Process.Exec.{calls_of, answer, got, outcome, crashed}

length-digits : (fuel n : ℕ) → length (digits fuel n) ≤ fuel
unfolding digits
length-digits zero n = omega arith
length-digits (suc k) n = elim (Bool-cases (ltb n 10)) [
  | inl e ↦ rw e (omega arith)
  | inr e ↦
      let h = length-digits k (n / 10) in
      rw (e, length-append (digits k (n / 10)) ((48 + n % 10) ∷ [])) (omega arith)
]

-- Nothing is cut off.
snprintf-fits :
    (buf text : List ℕ) (offset n : ℕ)
    → offset ≡ length buf
    → length text < n
    → snprintf buf offset n text ≡ buf ++ text
unfolding snprintf
snprintf-fits buf text offset n is fits =
    rw (take-all offset buf (omega arith), take-all (n - 1) text (omega arith))

print_three-fits :
    (a b c : List ℕ)
    → length a + length b + length c < buffer_size - 1
    → print_three a b c ≡ a ++ b ++ c
unfolding print_three
print_three-fits a b c h =
    let both : length a + length b ≡ length (a ++ b) = sym (length-append a b) in
    rw (
      snprintf-fits [] a 0 (buffer_size - 1) refl (omega arith),
      snprintf-fits a b (length a) (buffer_size - 1 - length a) refl (omega arith),
      snprintf-fits (a ++ b) c (length a + length b) (buffer_size - 1 - (length a + length b)) both
          (omega arith),
      append_assoc a b c,
    )

print_two-fits : (a b : List ℕ) → length a + length b < buffer_size - 1 → print_two a b ≡ a ++ b
unfolding print_two
print_two-fits a b h = rw (
  snprintf-fits [] a 0 (buffer_size - 1) refl (omega arith),
  snprintf-fits a b (length a) (buffer_size - 1 - length a) refl (omega arith),
)

-- what the header of an answer with a file says
abbrev pub file_header : ℕ → List ℕ
file_header size =
    codes "HTTP/1.1200 OK"
    ++ line_end
    ++ codes "Content Length:"
    ++ decimal size
    ++ line_end
    ++ line_end

abbrev pub error_header : List ℕ
error_header = codes "HTTP/1.1500 Internal server error" ++ line_end ++ line_end

length-content : (size : ℕ) → length (codes "Content Length:" ++ decimal size ++ line_end) ≤ 27
length-content size =
    let short = length-digits 10 size in
    rw
      (
        length-append (codes "Content Length:") (decimal size ++ line_end),
        length-append (decimal size) line_end,
      )
      (omega arith)

header_ok-file_header : (size : ℕ) → header_ok size ≡ file_header size
unfolding header_ok
header_ok-file_header size =
    let h = length-content size in
    let first = codes "HTTP/1.1" ++ status_ok ++ line_end in
    let content = codes "Content Length:" ++ decimal size ++ line_end in
    print_three-fits first content line_end (omega arith) ∙ simp append_assoc

length-header_with :
    (d : List ℕ)
    → length d ≤ 10
    → length
        (codes "HTTP/1.1200 OK" ++ line_end ++ codes "Content Length:" ++ d ++ line_end ++ line_end)
      < buffer_size
length-header_with d short =
    rw (length-append (d ++ line_end) line_end, length-append d line_end) (omega arith)

length-file_header : (size : ℕ) → length (file_header size) < buffer_size
length-file_header size = length-header_with (decimal size) (length-digits 10 size)

header_error-error_header : header_error ≡ error_header
unfolding header_error
header_error-error_header =
    print_two-fits (codes "HTTP/1.1" ++ status_error ++ line_end) line_end (omega arith)

padded-all : (bs : List ℕ) → padded (length bs) bs ≡ bs
padded-all [] = refl
padded-all (b ∷ bs) = ap (λ t. b ∷ t) (padded-all bs)

-- what `stat` tells of a file
abbrev pub stat_answer : ℤ → Stat → Answer
stat_answer ret file = record {
  ret = ret;
  try_again = false;
  bytes = [];
  pair = (0, 0);
  events = [];
  file = file;
}

-- A file that is there, is not a directory, has a mode other than 0 and is read whole is sent behind
-- its header in one call. The header is not cut off: it fits into its buffer, with the NUL.
pub respond-file :
    (conn_fd file_fd ret : ℤ) (n mode : ℕ) (content : List ℕ)
    → mode ≢ 0
    → (calls_of (respond conn_fd) (
          stat_answer (pos n) (record { is_dir = false; mode = mode; size = length content })
          ∷ answer file_fd false [] []
          ∷ got content
          ∷ answer ret false [] []
          ∷ answer ret false [] []
          ∷ [])
        ≡ stat
          ∷ open_file
          ∷ read_file file_fd (length content)
          ∷ writev conn_fd (file_header (length content) ∷ content ∷ [])
          ∷ close conn_fd
          ∷ [])
      × (length (file_header (length content)) < buffer_size)
unfolding respond send_file calls_of
respond-file conn_fd file_fd ret n mode content readable = (
  rw (ne→== mode 0 readable, header_ok-file_header (length content), padded-all content),
  length-file_header (length content),
)

-- Where there is no file, or it is a directory, the server sends its error header and closes the
-- connection, and then it deletes a buffer that it has never allocated.
pub respond-crashes :
    (conn_fd ret status : ℤ) (file : Stat)
    → (is_neg status || file.is_dir) ≡ true
    → let answers =
        stat_answer status file ∷ answer ret false [] [] ∷ answer ret false [] [] ∷ [] in
      (calls_of (respond conn_fd) answers ≡ stat ∷ send conn_fd error_header ∷ close conn_fd ∷ [])
      × (outcome (respond conn_fd) answers ≡ crashed)
unfolding respond send_error calls_of outcome
respond-crashes conn_fd ret status file bad = elim (Bool-cases (is_neg status)) [
  | inl e ↦ (rw (e, header_error-error_header), rw e)
  | inr e ↦
      let dir : file.is_dir ≡ true = ground arith in
      (rw (e, dir, header_error-error_header), rw (e, dir))
]
