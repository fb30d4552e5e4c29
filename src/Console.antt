-- ===== src/Console.antt =====
-- kernel/console.c: the input buffer of the console, from consoleintr to consoleread. `r`, `w` and `e`
-- are 32-bit counters, which wrap. What is echoed is a list of bytes. Left out: the list of processes
-- that ^P prints, the -1 of a consoleread that is killed while it waits, and consolewrite.
pub mod Line
pub mod Erase
pub mod Keys
pub mod Reading
use hai_os.Base.{
  ℕ, zero, suc, ◌+◌, ◌%◌, Bool, true, false, ◌||◌, List, [], ◌∷◌, ◌++◌, leb, ltb, not, ◌==◌,
  if◌then◌else◌, add32, sub32, update,
}

abbrev pub input_buf_size : ℕ
input_buf_size = 128

-- Control keys, and BACKSPACE.
abbrev pub ctrl_d : ℕ
ctrl_d = 4

abbrev pub ctrl_h : ℕ
ctrl_h = 8

abbrev pub newline : ℕ
newline = 10

abbrev pub ctrl_p : ℕ
ctrl_p = 16

abbrev pub ctrl_u : ℕ
ctrl_u = 21

abbrev pub delete : ℕ
delete = 127

abbrev pub backspace : ℕ
backspace = 256

pub record Cons : Type 0 where
  pub buf : ℕ → ℕ
  pub r : ℕ
  pub w : ℕ
  pub e : ℕ

unfoldable pub consputc : ℕ → List ℕ
consputc c = if c == backspace then 8 ∷ 32 ∷ 8 ∷ [] else c ∷ []

-- The loop of ^U, for at most `fuel` characters.
pub kill_line : ℕ → Cons → Cons × List ℕ
unfolding consputc
kill_line zero s = (s, [])
kill_line (suc fuel) s =
    let (s', out) = kill_line fuel (record s { e = sub32 s.e 1 }) in
    if s.e == s.w
    then (s, [])
    else if s.buf (sub32 s.e 1 % input_buf_size) == newline
    then (s, [])
    else (s', consputc backspace ++ out)

-- A character that goes into the buffer.
unfoldable pub store_char : ℕ → Cons → Cons
store_char c s =
    let e' = add32 s.e 1 in
    let buf' = update s.buf (s.e % input_buf_size) c in
    if c == newline || (c == ctrl_d || (sub32 e' s.r == input_buf_size))
    then record s { buf = buf'; e = e'; w = e' }
    else record s { buf = buf'; e = e' }

abbrev pub return_key : ℕ → ℕ
return_key c = if c == 13 then newline else c

-- The characters from `w` on are not more than the buffer has, so that its size is enough fuel.
unfoldable pub consoleintr : ℕ → Cons → Cons × List ℕ
unfolding kill_line consputc store_char
consoleintr c s =
    if c == ctrl_p
    then (s, [])
    else if c == ctrl_u
    then kill_line input_buf_size s
    else if c == ctrl_h || c == delete
    then (if s.e == s.w then (s, []) else (record s { e = sub32 s.e 1 }, consputc backspace))
    else if c == 0 || leb input_buf_size (sub32 s.e s.r)
    then (s, [])
    else (store_char (return_key c) s, consputc (return_key c))

-- consoleread from here on, with `n` bytes left to read and `i` read, as far as it comes without
-- sleeping: the bytes that it has copied out, and whether it returns; it sleeps otherwise. `dst i` is
-- whether either_copyout can write to byte `i` of the destination.
pub read_line : ℕ → ℕ → (ℕ → Bool) → Cons → Cons × List ℕ × Bool
read_line zero i dst s = (s, [], true)
read_line (suc n) i dst s =
    let c = s.buf (s.r % input_buf_size) in
    let s1 : Cons = record s { r = add32 s.r 1 } in
    let (s', xs, done) = read_line n (i + 1) dst s1 in
    if s.r == s.w
    then (s, [], false)
    else if c == ctrl_d
    then (if ltb 0 i then s else s1, [], true)
    else if not (dst i)
    then (s1, [], true)
    else if c == newline
    then (s1, c ∷ [], true)
    else (s', c ∷ xs, done)
