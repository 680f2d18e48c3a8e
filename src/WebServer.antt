-- ===== src/WebServer.antt =====
-- LinuxWebWritev.cpp: a server that answers one connection with a file.
-- A text is the list of its characters. `printf` is left out. `delete[]` of a pointer that was never
-- set is a fault. Sizes are those that fit into an `int`, which the header prints them as.
pub mod Response
mod Tests
use Prim.Native.Char.{code}
use Prim.Native.String.{String}
use linux_server_programming.Base.{
  ℕ, zero, suc, ◌+◌, ◌-◌, ◌/◌, ◌%◌, Bool, true, false, List, [], ◌∷◌, ◌++◌, leb, ltb, not, ◌==◌,
  ◌&&◌, length, if◌then◌else◌, ℤ, pos, negsuc,
}
use linux_server_programming.Process.{
  stream, Sys, socket, bind, listen, accept, close, send, stat, open_file, read_file, writev, Stat,
  Answer, Prog, done, fault, aborted, out_of_fuel, sys, ◌>>=◌, call, invoke, is_neg, is_minus_one,
  arg, argc,
}
use linux_server_programming.Base.{take}

abbrev pub codes : String → List ℕ
codes String.[] = []
codes (String.◌∷◌ c s) = code c ∷ codes s

-- `BUFFER_SIZE`
abbrev pub buffer_size : ℕ
buffer_size = 1024

-- `%d` of a number below 10 to the power of the fuel
unfoldable pub digits : (fuel : ℕ) → ℕ → List ℕ
digits zero n = []
digits (suc k) n =
    let front = digits k (n / 10) in if ltb n 10 then (48 + n) ∷ [] else front ++ (48 + n % 10) ∷ []

abbrev pub decimal : ℕ → List ℕ
decimal n = digits 10 n

-- `snprintf(buf + offset, n, "%s", text)`: the string in `buf` afterwards. It returns the length of
-- `text`.
unfoldable pub snprintf : (buf : List ℕ) (offset n : ℕ) (text : List ℕ) → List ℕ
snprintf buf offset n text = take offset buf ++ take (n - 1) text

-- `status_line`
abbrev pub status_ok : List ℕ
status_ok = codes "200 OK"

abbrev pub status_error : List ℕ
status_error = codes "500 Internal server error"

abbrev pub line_end : List ℕ
line_end = 13 ∷ 10 ∷ []

-- three texts printed one behind the other into `header_buf`
unfoldable pub print_three : (text1 text2 text3 : List ℕ) → List ℕ
print_three text1 text2 text3 =
    let len1 = length text1 in
    let len2 = len1 + length text2 in
    let buf1 = snprintf [] 0 (buffer_size - 1) text1 in
    let buf2 = snprintf buf1 len1 (buffer_size - 1 - len1) text2 in
    snprintf buf2 len2 (buffer_size - 1 - len2) text3

-- two texts
unfoldable pub print_two : (text1 text2 : List ℕ) → List ℕ
print_two text1 text2 =
    let len = length text1 in
    let buf1 = snprintf [] 0 (buffer_size - 1) text1 in
    snprintf buf1 len (buffer_size - 1 - len) text2

-- `header_buf` for a file of this size
unfoldable pub header_ok : (size : ℕ) → List ℕ
header_ok size =
    print_three (codes "HTTP/1.1" ++ status_ok ++ line_end)
      (codes "Content Length:" ++ decimal size ++ line_end) line_end

unfoldable pub header_error : List ℕ
header_error = print_two (codes "HTTP/1.1" ++ status_error ++ line_end) line_end

-- `file_buf` where the file has been read into it
abbrev pub padded : ℕ → List ℕ → List ℕ
padded zero bs = []
padded (suc n) [] = 0 ∷ padded n []
padded (suc n) (b ∷ bs) = b ∷ padded n bs

-- the answer where the file is valid
unfoldable pub send_file : (conn_fd : ℤ) (size : ℕ) (file_buf : List ℕ) → Prog (Unit {0})
send_file conn_fd size file_buf = do
  _ ← invoke (writev conn_fd (header_ok size ∷ padded size file_buf ∷ []))
  _ ← invoke (close conn_fd)
  done tt

-- the answer where it is not; `allocated` tells whether `file_buf` has been set.
unfoldable pub send_error : (conn_fd : ℤ) (allocated : Bool) → Prog (Unit {0})
send_error conn_fd allocated = do
  _ ← invoke (send conn_fd header_error)
  _ ← invoke (close conn_fd)
  if allocated then done tt else fault

-- a connection
unfoldable pub respond : (conn_fd : ℤ) → Prog (Unit {0})
respond conn_fd = sys stat λ r.
    let read : Prog (Unit {0}) = (do
      fd ← invoke open_file
      content ← call (read_file fd r.file.size)
      if is_neg content.ret
          then send_error conn_fd true
          else send_file conn_fd r.file.size content.bytes) in
    if is_neg r.ret
    then send_error conn_fd false
    else if r.file.is_dir
    then send_error conn_fd false
    else if not (r.file.mode == 0) && true
    then read
    else send_error conn_fd false

unfoldable pub main : (argv : List ℕ) → Prog ℕ
main argv = if leb (argc argv) 3 then done 1 else do
  port ← arg argv 2
  sock ← invoke (socket stream)
  let close_all : Prog ℕ = (do _ ← invoke (close sock); done 0)
  let accepting : Prog ℕ = (do
    conn_fd ← invoke (accept sock)
    let answered : Prog ℕ = (do _ ← respond conn_fd; close_all)
    if is_neg conn_fd then done 1 else answered)
  let listening : Prog ℕ = (do
    ret ← invoke (listen sock 5)
    if is_minus_one ret then done 1 else accepting)
  let binding : Prog ℕ = (do
    ret ← invoke (bind sock port)
    if is_minus_one ret then done 1 else listening)
  if is_minus_one sock then done 1 else binding
