-- ===== src/Fs/Adler.antt =====
-- Adler-32: its sums against the standard's definition, and in pieces.
use hai_os.Base.{ℕ, ◌+◌, ◌*◌, ◌/◌, ◌%◌, ◌^◌, ◌<◌, ◌≡◌, refl, ap₂, ◌∙◌, List, [], ◌∷◌, ◌++◌, arith}
use hai_os.Fs.{mod_adler, adler_loop, adler32_update}

abbrev pub sum : List ℕ → ℕ
sum [] = 0
sum (x ∷ xs) = x + sum xs

-- The sum of `a` plus each nonempty prefix of the bytes.
abbrev pub prefix_sums : ℕ → List ℕ → ℕ
prefix_sums a [] = 0
prefix_sums a (x ∷ xs) = (a + x) + prefix_sums (a + x) xs

-- The two sums of the standard, reduced once at the end.
abbrev pub reference : List ℕ → ℕ
reference bytes = (prefix_sums 1 bytes % mod_adler) * 2 ^ 16 + (1 + sum bytes) % mod_adler

adler_loop_lem :
    (xs : List ℕ) (a b : ℕ)
    → adler_loop xs (a % mod_adler) (b % mod_adler)
      ≡ ((a + sum xs) % mod_adler, (b + prefix_sums a xs) % mod_adler)
unfolding adler_loop
adler_loop_lem [] a b = ap₂ (λ x y. (x, y)) (omega arith) (omega arith)
adler_loop_lem (x ∷ xs) a b =
    let ea : (a % mod_adler + x) % mod_adler ≡ (a + x) % mod_adler = omega arith in
    let eb : (b % mod_adler + (a % mod_adler + x) % mod_adler) % mod_adler
        ≡ (b + (a + x)) % mod_adler =
      omega arith in
    rw (eb, ea)
      (adler_loop_lem xs (a + x) (b + (a + x)) ∙ ap₂ (λ y z. (y, z)) (omega arith) (omega arith))

-- Adler-32 from 1 is the standard's sum over the bytes: one plus their sum, and the sum of its
-- running values, each modulo 65521, in the low and the high half of a word.
pub adler32_update_lem : (bytes : List ℕ) → adler32_update 1 bytes ≡ reference bytes
unfolding adler32_update
adler32_update_lem bytes = rw (adler_loop_lem bytes 1 0) (omega arith)

adler_loop-append :
    (xs ys : List ℕ) (a b : ℕ)
    → adler_loop (xs ++ ys) a b ≡ adler_loop ys (adler_loop xs a b).0 (adler_loop xs a b).1
unfolding adler_loop
adler_loop-append [] ys a b = refl
adler_loop-append (x ∷ xs) ys a b =
    adler_loop-append xs ys ((a + x) % mod_adler) ((b + (a + x) % mod_adler) % mod_adler)

adler_loop-bounds :
    (xs : List ℕ) (a b : ℕ)
    → a < 2 ^ 16
    → b < 2 ^ 16
    → ((adler_loop xs a b).0 < 2 ^ 16) × ((adler_loop xs a b).1 < 2 ^ 16)
unfolding adler_loop
adler_loop-bounds [] a b ha hb = (ha, hb)
adler_loop-bounds (x ∷ xs) a b ha hb =
    adler_loop-bounds xs ((a + x) % mod_adler) ((b + (a + x) % mod_adler) % mod_adler) (omega arith)
      (omega arith)

-- The sum over a file is the sum over its pieces, each from the sum so far: inode_checksum may go
-- block by block.
pub adler32_update-append :
    (adler : ℕ) (xs ys : List ℕ)
    → adler32_update adler (xs ++ ys) ≡ adler32_update (adler32_update adler xs) ys
unfolding adler32_update
adler32_update-append adler xs ys =
    let a = adler % 2 ^ 16 in
    let b = adler / 2 ^ 16 % 2 ^ 16 in
    let r = adler_loop xs a b in
    let h = adler_loop-bounds xs a b (omega arith) (omega arith) in
    let ea : (r.1 * 2 ^ 16 + r.0) % 2 ^ 16 ≡ r.0 = omega (arith, h.0) in
    let eb : (r.1 * 2 ^ 16 + r.0) / 2 ^ 16 % 2 ^ 16 ≡ r.1 = omega (arith, h.0, h.1) in
    rw (ea, eb, adler_loop-append xs ys a b) refl

-- The sum of a word and bytes is a word.
pub adler32_update-bounds : (adler : ℕ) (xs : List ℕ) → adler32_update adler xs < 2 ^ 32
unfolding adler32_update
adler32_update-bounds adler xs =
    let h =
      adler_loop-bounds xs (adler % 2 ^ 16) (adler / 2 ^ 16 % 2 ^ 16) (omega arith) (omega arith) in
    omega (arith, h.0, h.1)

-- The sum over no bytes.
pub adler32_update-nil : (adler : ℕ) → adler < 2 ^ 32 → adler32_update adler [] ≡ adler
unfolding adler32_update adler_loop
adler32_update-nil adler word = omega (arith, word)
