-- ===== src/Pipe.antt =====
-- kernel/pipe.c: the ring of PIPESIZE bytes behind a pipe, with 32-bit counters that wrap. A call
-- runs under pi->lock until it returns or sleeps; where it sleeps the pass below ends in `blocked`,
-- and the call goes on with another pass after a wakeup. A user address that copyin or copyout
-- refuses is an argument: the bytes behind it, or whether it can be written.
pub mod Fifo
pub mod Write
pub mod Read
pub mod Schedule
use hai_os.Base.{
  ℕ, zero, suc, ◌+◌, ◌%◌, Bool, true, false, not, ◌&&◌, ◌||◌, Option, none, some, List, [], ◌∷◌,
  ◌==◌, if◌then◌else◌, add32, update,
}

abbrev pub pipesize : ℕ
pipesize = 512

-- `struct pipe`
pub record Pipe : Type 0 where
  pub bytes : ℕ → ℕ
  pub nread : ℕ
  pub nwrite : ℕ
  pub readopen : Bool
  pub writeopen : Bool

-- What pipealloc sets up in a fresh page, whose bytes are arbitrary.
unfoldable pub pipe_init : (ℕ → ℕ) → Pipe
pipe_init bytes = record { bytes = bytes; nread = 0; nwrite = 0; readopen = true; writeopen = true }

-- The pipe, and whether its page is freed.
unfoldable pub pipeclose : Pipe → Bool → Pipe × Bool
pipeclose pi writable =
    let closed =
      (if writable then record pi { writeopen = false } else record pi { readopen = false }) in
    (closed, not closed.readopen && not closed.writeopen)

abbrev pub is_full : Pipe → Bool
is_full pi = pi.nwrite == add32 pi.nread pipesize

abbrev pub is_empty : Pipe → Bool
is_empty pi = pi.nread == pi.nwrite

-- `pi->data[pi->nwrite++ % PIPESIZE] = ch`
pub put : Pipe → ℕ → Pipe
put pi ch = record pi {
  bytes = update pi.bytes (pi.nwrite % pipesize) ch;
  nwrite = add32 pi.nwrite 1;
}

-- How a pass ends: with a count to return, with -1, or asleep after so many bytes.
pub data Ended : Type 0 where
  returns : ℕ → Ended
  fails : Ended
  blocked : ℕ → Ended

-- The loop of pipewrite with `left` bytes to go after `i`. `src` is the user's bytes, `none` where
-- copyin fails.
pub write_pass : ℕ → ℕ → Bool → (ℕ → Option ℕ) → Pipe → Pipe × Ended
unfolding put
write_pass zero i killed src pi = (pi, returns i)
write_pass (suc left) i killed src pi =
    if not pi.readopen || killed
    then (pi, fails)
    else if is_full pi
    then (pi, blocked i)
    else elim (src i) [
      | none ↦ (pi, returns i)
      | some ch ↦ write_pass left (i + 1) killed src (put pi ch)
    ]

unfoldable pub pipewrite : Pipe → ℕ → Bool → (ℕ → Option ℕ) → Pipe × Ended
unfolding write_pass
pipewrite pi n killed src = write_pass n 0 killed src pi

-- The copy loop of piperead with `left` bytes to go after `i`; the list is the bytes handed out.
-- `dst` says which user addresses can be written.
pub read_loop : ℕ → ℕ → (ℕ → Bool) → Pipe → Pipe × List ℕ × Ended
read_loop zero i dst pi = (pi, [], returns i)
read_loop (suc left) i dst pi = if is_empty pi then (pi, [], returns i) else elim (dst i) [
  | false ↦ (pi, [], if i == 0 then fails else returns i)
  | true ↦
      let (pi', out, e) = read_loop left (i + 1) dst (record pi { nread = add32 pi.nread 1 }) in
      (pi', pi.bytes (pi.nread % pipesize) ∷ out, e)
]

unfoldable pub piperead : Pipe → ℕ → Bool → (ℕ → Bool) → Pipe × List ℕ × Ended
unfolding read_loop
piperead pi n killed dst =
    if is_empty pi && pi.writeopen
    then (pi, [], if killed then fails else blocked 0)
    else read_loop n 0 dst pi
