-- ===== src/Pipe/Fifo.antt =====
-- A pipe is a queue of at most PIPESIZE bytes, also when its counters wrap.
use hai_os.Base.{
  ℕ, zero, suc, ◌%◌, ◌^◌, ◌≤◌, ◌<◌, ◌≡◌, refl, ap, ap₂, ◌≢◌, ◌↔◌, true, false, List, [], ◌∷◌, ◌++◌,
  arith, eq→==, ==→eq, length, add32, sub32, update, update_self, update_ne,
}
use hai_os.Pipe.{Pipe, pipesize, is_full, is_empty, put}

module _ (bytes : ℕ → ℕ) where
  -- The `n` bytes from counter `r` on.
  abbrev pub window : ℕ → ℕ → List ℕ
  window r zero = []
  window r (suc n) = bytes (r % pipesize) ∷ window (add32 r 1) n

-- The bytes written and not yet read, oldest first.
abbrev pub contents : Pipe → List ℕ
contents pi = window pi.bytes pi.nread (sub32 pi.nwrite pi.nread)

pub record IsPipe (pi : Pipe) : Type 0 where
  pub read_word : pi.nread < 2 ^ 32
  pub write_word : pi.nwrite < 2 ^ 32
  pub held : sub32 pi.nwrite pi.nread ≤ pipesize

-- Storing just behind a window extends it.
window-update :
    (n : ℕ) (bytes : ℕ → ℕ) (r ch i : ℕ)
    → r < 2 ^ 32
    → n < pipesize
    → i ≡ add32 r n % pipesize
    → window (update bytes i ch) r (suc n) ≡ window bytes r n ++ (ch ∷ [])
window-update zero bytes r ch i h lt e =
    let here : i ≡ r % pipesize = omega arith in rw (here, update_self bytes (r % pipesize) ch)
window-update (suc n) bytes r ch i h lt e =
    ap₂ ◌∷◌ (update_ne bytes i (r % pipesize) ch (omega arith))
      (window-update n bytes (add32 r 1) ch i (omega arith) (omega arith) (omega arith))

length-window : (n : ℕ) (bytes : ℕ → ℕ) (r : ℕ) → length (window bytes r n) ≡ n
length-window zero bytes r = refl
length-window (suc n) bytes r = ap suc (length-window n bytes (add32 r 1))

-- A full pipe holds PIPESIZE bytes, and an empty one none.
pub full_iff : (pi : Pipe) → IsPipe pi → (is_full pi ≡ true) ↔ (length (contents pi) ≡ pipesize)
full_iff pi v = (
  λ h. omega (arith, ==→eq _ _ h, length-window (sub32 pi.nwrite pi.nread) pi.bytes pi.nread),
  λ h. eq→== _ _ (omega (arith, length-window (sub32 pi.nwrite pi.nread) pi.bytes pi.nread)),
)

pub put-contents :
    (pi : Pipe) (ch : ℕ)
    → IsPipe pi
    → is_full pi ≡ false
    → IsPipe (put pi ch) × (contents (put pi ch) ≡ contents pi ++ (ch ∷ []))
unfolding put
put-contents pi ch v room =
    let n = sub32 pi.nwrite pi.nread in
    let ne : pi.nwrite ≢ add32 pi.nread pipesize = ground arith in
    let more : sub32 (add32 pi.nwrite 1) pi.nread ≡ suc n = omega arith in
    (
      omega arith,
      rw more (
          window-update n pi.bytes pi.nread ch (pi.nwrite % pipesize) v.read_word (omega arith)
            (omega arith)),
    )

-- Dropping the oldest byte.
abbrev pub dropped : Pipe → Pipe
dropped pi = record pi { nread = add32 pi.nread 1 }

pub dropped-contents :
    (pi : Pipe)
    → IsPipe pi
    → is_empty pi ≡ false
    → IsPipe (dropped pi) × (contents pi ≡ pi.bytes (pi.nread % pipesize) ∷ contents (dropped pi))
dropped-contents pi v some_left =
    let n = sub32 pi.nwrite (add32 pi.nread 1) in
    let ne : pi.nread ≢ pi.nwrite = ground arith in
    let one : sub32 pi.nwrite pi.nread ≡ suc n = omega arith in (omega arith, rw one refl)
