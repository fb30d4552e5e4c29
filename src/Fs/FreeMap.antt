-- ===== src/Fs/FreeMap.antt =====
-- balloc finds the lowest free block.
use hai_os.Base.{
  ℕ, zero, suc, ◌+◌, ◌-◌, ◌*◌, ◌/◌, ◌≤◌, ◌<◌, min, ◌≡◌, refl, sym, ap, subst, ◌≢◌, ◌⊎◌, inl, inr,
  true, false, Option, none, some, arith, ltb, leb, ◌==◌, ne→==, ==→eq, ltb→lt, ltb→le, Bool-cases,
  Option-cases, add32,
}
use hai_os.Fs.{
  bpb, Fs, bzero, mark, balloc_prefer, balloc_near, scan_bits, scan_blocks, taken, balloc,
}

-- The blocks from `lo` up to `hi` are in use.
abbrev pub InUse : Fs → ℕ → ℕ → Type 0
InUse fs lo hi = (i : ℕ) → lo ≤ i → i < hi → fs.bitmap i ≡ true

-- A search from `lo` up to `hi`.
abbrev Found : Fs → ℕ → ℕ → Option ℕ → Type 0
Found fs lo hi none = InUse fs lo hi
Found fs lo hi (some x) = (lo ≤ x) × (x < hi) × (fs.bitmap x ≡ false) × InUse fs lo x

scan_bits-Found : (fs : Fs) (n b : ℕ) → Found fs b (b + n) (scan_bits fs n b)
unfolding scan_bits
scan_bits-Found fs zero b = λ i lo hi. absurd (omega (arith, lo, hi))
scan_bits-Found fs (suc n) b = elim (Bool-cases (fs.bitmap b)) [
  | inl e ↦ rw e (later (scan_bits fs n (b + 1)) e (scan_bits-Found fs n (b + 1)))
  | inr e ↦ rw e (omega arith, omega arith, e, (λ i lo hi. absurd (omega (arith, lo, hi))))
]
  where
    step : (x : ℕ) → fs.bitmap b ≡ true → InUse fs (b + 1) x → InUse fs b x
    step x e used i lo hi = elim (Bool-cases (b == i)) [
      | inl q ↦ rw (sym (==→eq b i q)) e
      | inr q ↦ used i (ground arith) hi
    ]

    later :
        (o : Option ℕ)
        → fs.bitmap b ≡ true
        → Found fs (b + 1) (b + 1 + n) o
        → Found fs b (b + suc n) o
    later none e used = λ i lo hi. step (b + suc n) e (λ j l h. used j l (omega (arith, h))) i lo hi
    later (some x) e h = (omega (arith, h.0), omega (arith, h.1), h.2, step x e h.3)

abbrev chunk : Fs → ℕ → ℕ
chunk fs b = min bpb (fs.size - b)

scan_blocks-Found :
    (fs : Fs) (k b : ℕ) → fs.size ≤ b + k * bpb → Found fs b fs.size (scan_blocks fs k b)
unfolding scan_blocks
scan_blocks-Found fs zero b h = λ i lo hi. absurd (omega (arith, h, lo, hi))
scan_blocks-Found fs (suc k) b h = elim (Option-cases (scan_bits fs (chunk fs b) b)) [
  | inl e ↦
      let es : scan_blocks fs (suc k) b ≡ scan_blocks fs k (b + bpb) = rw e refl in
      subst (Found fs b fs.size) (sym es) (
        later (scan_blocks fs k (b + bpb)) (subst (Found fs b (b + chunk fs b)) e inner)
          (scan_blocks-Found fs k (b + bpb) (omega (arith, h))))
  | inr (x, e) ↦
      let es : scan_blocks fs (suc k) b ≡ some x = rw e refl in
      subst (Found fs b fs.size) (sym es) (within x (subst (Found fs b (b + chunk fs b)) e inner))
]
  where
    inner : Found fs b (b + chunk fs b) (scan_bits fs (chunk fs b) b)
    inner = scan_bits-Found fs (chunk fs b) b

    join :
        (hi : ℕ)
        → hi ≤ fs.size
        → InUse fs b (b + chunk fs b)
        → InUse fs (b + bpb) hi
        → InUse fs b hi
    join hi le used rest i l u = elim (Bool-cases (ltb i (b + bpb))) [
      | inl q ↦ used i l (omega (arith, ltb→lt i (b + bpb) q, l, u, le))
      | inr q ↦ rest i (ltb→le i (b + bpb) q) u
    ]

    later :
        (o : Option ℕ)
        → InUse fs b (b + chunk fs b)
        → Found fs (b + bpb) fs.size o
        → Found fs b fs.size o
    later none used rest = join fs.size (omega arith) used rest
    later (some x) used r = (omega (arith, r.0), r.1, r.2, join x (omega (arith, r.1)) used r.3)

    within : (x : ℕ) → Found fs b (b + chunk fs b) (some x) → Found fs b fs.size (some x)
    within x r = (r.0, omega (arith, r.0, r.1), r.2, r.3)

-- The free block `b` taken.
abbrev pub take_block : ℕ → Fs → Fs
take_block b fs = bzero b (mark b fs)

-- balloc takes the lowest free block of the disk, marks it in use and clears it, and changes
-- nothing else; it gives 0 and changes nothing exactly if no block is free.
pub balloc_lem :
    (fs : Fs)
    → (InUse fs 0 fs.size × (balloc fs ≡ (0, fs)))
      ⊎ ((b : ℕ) × (b < fs.size)
          × (fs.bitmap b ≡ false)
          × InUse fs 0 b
          × (balloc fs ≡ (b, take_block b fs)))
unfolding balloc taken
balloc_lem fs =
    let k = (fs.size + bpb - 1) / bpb in
    let f = scan_blocks-Found fs k 0 (omega arith) in
    elim (Option-cases (scan_blocks fs k 0)) [
      | inl e ↦ inl (subst (Found fs 0 fs.size) e f, rw e refl)
      | inr (x, e) ↦ let g = subst (Found fs 0 fs.size) e f in inr (x, g.1, g.2, g.3, rw e refl)
    ]

nonzero : (fs : Fs) (b : ℕ) → fs.bitmap 0 ≡ true → fs.bitmap b ≡ false → b ≢ 0
nonzero fs b h f e = let q : fs.bitmap b ≡ fs.bitmap 0 = ap fs.bitmap e in cc

balloc_nonzero :
    (fs : Fs)
    → fs.bitmap 0 ≡ true
    → (InUse fs 0 fs.size × (balloc fs ≡ (0, fs)))
      ⊎ ((b : ℕ) × (b < fs.size)
          × (b ≢ 0)
          × (fs.bitmap b ≡ false)
          × (balloc fs ≡ (b, take_block b fs)))
balloc_nonzero fs h = elim (balloc_lem fs) [
  | inl r ↦ inl r
  | inr (b, lt, free, used, e) ↦ inr (b, lt, nonzero fs b h free, free, e)
]

-- What bmap's allocation gives, where block 0 is in use: no block on a full disk, or a free one.
pub balloc_near_lem :
    (fs : Fs) (last : ℕ × ℕ)
    → fs.bitmap 0 ≡ true
    → (InUse fs 0 fs.size × (balloc_near last fs ≡ (0, fs)))
      ⊎ ((b : ℕ) × (b < fs.size)
          × (b ≢ 0)
          × (fs.bitmap b ≡ false)
          × (balloc_near last fs ≡ (b, take_block b fs)))
unfolding balloc_near balloc_prefer
balloc_near_lem fs (start, len) h = elim (Bool-cases (ltb 0 len)) [
  | inr e ↦ rw e (balloc_nonzero fs h)
  | inl e ↦ rw e (elim (Bool-cases (leb fs.size (add32 start len))) [
    | inl q ↦ rw q (balloc_nonzero fs h)
    | inr q ↦ rw q (elim (Bool-cases (fs.bitmap (add32 start len))) [
      | inl u ↦ rw u (balloc_nonzero fs h)
      | inr u ↦
          let ne = nonzero fs (add32 start len) h u in
          rw (u, ne→== (add32 start len) 0 ne) (inr (add32 start len, ground arith, ne, u, refl))
    ])
  ])
]
