-- ===== src/Str.antt =====
-- kernel/string.c over byte-addressed memory. Blocks lie within the address space, so addresses do
-- not wrap. A length is a count of bytes; a negative `int n` does what 0 does.
pub mod Move
pub mod Names
use hai_os.Base.{
  ℕ, zero, suc, ◌+◌, ◌%◌, ◌&&◌, not, Option, none, some, ltb, ◌==◌, if◌then◌else◌, update, ℤ, pos,
  sub_ℕ, List, [], ◌∷◌,
}

-- Memory, byte by byte.
abbrev pub Bytes : Type 0
Bytes = ℕ → ℕ

-- `for(i = 0; i < n; i++) cdst[i] = c`, with the rounds left; the store keeps the low byte.
memset_from : Bytes → ℕ → ℕ → ℕ → ℕ → Bytes
memset_from m dst c i zero = m
memset_from m dst c i (suc left) = memset_from (update m (dst + i) (c % 256)) dst c (i + 1) left

unfoldable pub memset : Bytes → ℕ → ℕ → ℕ → Bytes
unfolding memset_from
memset m dst c n = memset_from m dst c 0 n

unfoldable pub memcmp : Bytes → ℕ → ℕ → ℕ → ℤ
memcmp m s1 s2 zero = pos 0
memcmp m s1 s2 (suc n) =
    let rest = memcmp m (s1 + 1) (s2 + 1) n in if m s1 == m s2 then rest else sub_ℕ (m s1) (m s2)

-- `while(n-- > 0) *--d = *--s`, from the ends of the two blocks.
move_down : Bytes → ℕ → ℕ → ℕ → Bytes
move_down m d s zero = m
move_down m d s (suc n) = move_down (update m (d + n) (m (s + n))) d s n

-- `while(n-- > 0) *d++ = *s++`.
move_up : Bytes → ℕ → ℕ → ℕ → Bytes
move_up m d s zero = m
move_up m d s (suc n) = move_up (update m d (m s)) (d + 1) (s + 1) n

unfoldable pub memmove : Bytes → ℕ → ℕ → ℕ → Bytes
unfolding move_down move_up
memmove m dst src n =
    if n == 0
    then m
    else if ltb src dst && ltb dst (src + n)
    then move_down m dst src n
    else move_up m dst src n

unfoldable pub memcpy : Bytes → ℕ → ℕ → ℕ → Bytes
unfolding memmove
memcpy m dst src n = memmove m dst src n

unfoldable pub strncmp : Bytes → ℕ → ℕ → ℕ → ℤ
strncmp m p q zero = pos 0
strncmp m p q (suc n) =
    let rest = strncmp m (p + 1) (q + 1) n in
    if not (m p == 0) && (m p == m q) then rest else sub_ℕ (m p) (m q)

-- The second loop of `strncpy`: `while(n-- > 0) *s++ = 0`.
zero_fill : Bytes → ℕ → ℕ → Bytes
zero_fill m s zero = m
zero_fill m s (suc n) = zero_fill (update m s 0) (s + 1) n

unfoldable pub strncpy : Bytes → ℕ → ℕ → ℕ → Bytes
unfolding zero_fill
strncpy m s t zero = m
strncpy m s t (suc n) =
    let m' = update m s (m t) in
    let rest = strncpy m' (s + 1) (t + 1) n in if m t == 0 then zero_fill m' (s + 1) n else rest

-- `while(--n > 0 && (*s++ = *t++) != 0); *s = 0`, with `n` counted after the first decrement.
safe_copy : Bytes → ℕ → ℕ → ℕ → Bytes
safe_copy m s t zero = update m s 0
safe_copy m s t (suc n) =
    let m' = update m s (m t) in
    let rest = safe_copy m' (s + 1) (t + 1) n in if m t == 0 then update m' (s + 1) 0 else rest

unfoldable pub safestrcpy : Bytes → ℕ → ℕ → ℕ → Bytes
unfolding safe_copy
safestrcpy m s t zero = m
safestrcpy m s t (suc n) = safe_copy m s t n

-- `none`: no NUL among the first `fuel` bytes, where the source reads on.
strlen_from : ℕ → Bytes → ℕ → ℕ → Option ℕ
strlen_from zero m s n = none
strlen_from (suc fuel) m s n =
    let rest = strlen_from fuel m s (n + 1) in if m (s + n) == 0 then some n else rest

unfoldable pub strlen : ℕ → Bytes → ℕ → Option ℕ
unfolding strlen_from
strlen fuel m s = strlen_from fuel m s 0

-- The `n` bytes of memory from `p` on.
abbrev pub block : Bytes → ℕ → ℕ → List ℕ
block m p zero = []
block m p (suc n) = m p ∷ block m (p + 1) n

-- Memory with these bytes from `p` on.
abbrev pub put_bytes : Bytes → ℕ → List ℕ → Bytes
put_bytes m p [] = m
put_bytes m p (x ∷ xs) = put_bytes (update m p x) (p + 1) xs
