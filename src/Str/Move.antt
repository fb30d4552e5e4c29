-- ===== src/Str/Move.antt =====
-- What memset, memmove and memcmp do to memory, byte by byte.
use hai_os.Base.{
  ℕ, zero, suc, ◌+◌, ◌-◌, ◌%◌, ◌≤◌, ◌≡◌, ◌⊎◌, arith, Bool, ◌&&◌, ltb, leb, if◌then◌else◌, update,
}
use hai_os.Str.{Bytes, memset_from, memset, move_down, move_up, memmove}

-- Whether `a` lies in the block of `n` bytes from `d`.
abbrev pub in_block : ℕ → ℕ → ℕ → Bool
in_block d n a = leb d a && ltb a (d + n)

move_up_lem :
    (n : ℕ) (m : Bytes) (d s a : ℕ)
    → (d ≤ s) ⊎ (s + n ≤ d)
    → move_up m d s n a ≡ (if in_block d n a then m (s + (a - d)) else m a)
unfolding move_up
move_up_lem zero m d s a h = ground arith
move_up_lem (suc n) m d s a h = ground (arith, move_up_lem n (update m d (m s)) (d + 1) (s + 1) a)

move_down_lem :
    (n : ℕ) (m : Bytes) (d s a : ℕ)
    → s ≤ d
    → move_down m d s n a ≡ (if in_block d n a then m (s + (a - d)) else m a)
unfolding move_down
move_down_lem zero m d s a h = ground arith
move_down_lem (suc n) m d s a h =
    ground (arith, move_down_lem n (update m (d + n) (m (s + n))) d s a)

-- After memmove the destination holds what the source held before, at every overlap, and all other
-- memory is as it was.
pub memmove_lem :
    (m : Bytes) (dst src n a : ℕ)
    → memmove m dst src n a ≡ (if in_block dst n a then m (src + (a - dst)) else m a)
unfolding memmove
memmove_lem m dst src n a = ground (arith, move_up_lem n m dst src a, move_down_lem n m dst src a)

memset_from_lem :
    (n : ℕ) (m : Bytes) (dst c i a : ℕ)
    → memset_from m dst c i n a ≡ (if in_block (dst + i) n a then c % 256 else m a)
unfolding memset_from
memset_from_lem zero m dst c i a = ground arith
memset_from_lem (suc n) m dst c i a =
    ground (arith, memset_from_lem n (update m (dst + i) (c % 256)) dst c (i + 1) a)

-- memset fills the block with the low byte of `c`, and touches nothing else.
pub memset_lem :
    (m : Bytes) (dst c n a : ℕ) → memset m dst c n a ≡ (if in_block dst n a then c % 256 else m a)
unfolding memset
memset_lem m dst c n a = ground (arith, memset_from_lem n m dst c 0 a)
