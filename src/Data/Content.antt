-- ===== src/Data/Content.antt =====
-- The contents of a file, byte by byte, and bmap on the blocks that it has.
use hai_os.Base.{
  ℕ, zero, suc, ◌+◌, ◌*◌, ◌/◌, ◌%◌, ◌≤◌, ◌<◌, ◌≡◌, refl, ap, ap₂, ◌∙◌, ◌≢◌, inl, inr, false, List,
  [], ◌∷◌, ◌++◌, arith, ◌==◌, ne→==, length, get_or, All, ok, ◌>>=◌,
}
use hai_os.Str.{block}
use hai_os.Fs.{Fs, Extent, Inode}
use hai_os.Fs.Extents.{blocks}
use hai_os.Fs.Bmap.{maxfile, IsFile, bmap_lem}
use hai_os.Data.{bsize, Disk, with_extents, cleared_bytes, bmap_at}

-- Byte `i` of a file.
abbrev pub file_byte : Disk → List Extent → ℕ → ℕ
file_byte d es i = d.bytes (get_or (blocks es) (i / bsize) 0) (i % bsize)

-- The `n` bytes from `off` on.
unfoldable pub content : Disk → List Extent → ℕ → ℕ → List ℕ
content d es off zero = []
content d es off (suc n) = file_byte d es off ∷ content d es (off + 1) n

pub length-content : (d : Disk) (es : List Extent) (off n : ℕ) → length (content d es off n) ≡ n
unfolding content
length-content d es off zero = refl
length-content d es off (suc n) = ap suc (length-content d es (off + 1) n)

pub content-append :
    (d : Disk) (es : List Extent) (off n k : ℕ)
    → content d es off (n + k) ≡ content d es off n ++ content d es (off + n) k
unfolding content
content-append d es off zero k = ap₂ (content d es) (omega arith) (omega arith)
content-append d es off (suc n) k =
    let e : suc n + k ≡ suc (n + k) = omega arith in
    let e' : off + 1 + n ≡ off + suc n = omega arith in
    ap (content d es off) e
    ∙ ap (◌∷◌ (file_byte d es off)) (
        content-append d es (off + 1) n k
        ∙ ap (λ x. content d es (off + 1) n ++ content d es x k) e')

within_block :
    (d : Disk) (es : List Extent) (bn p n : ℕ)
    → p + n ≤ 1024
    → content d es (bn * 1024 + p) n ≡ block (d.bytes (get_or (blocks es) bn 0)) p n
unfolding content
within_block d es bn p zero fit = refl
within_block d es bn p (suc n) fit =
    let e : (bn * 1024 + p) / 1024 ≡ bn = omega (arith, fit) in
    let e' : (bn * 1024 + p) % 1024 ≡ p = omega (arith, fit) in
    ap₂ ◌∷◌ (ap₂ (λ b i. d.bytes (get_or (blocks es) b 0) i) e e') (
      ap (λ x. content d es x n) (omega arith)
      ∙ within_block d es bn (p + 1) n (omega (arith, fit)))

-- The part of a file in one block.
pub content-block :
    (d : Disk) (es : List Extent) (off n : ℕ)
    → off % 1024 + n ≤ 1024
    → content d es off n ≡ block (d.bytes (get_or (blocks es) (off / 1024) 0)) (off % 1024) n
content-block d es off n fit =
    ap (λ x. content d es x n) (omega arith) ∙ within_block d es (off / 1024) (off % 1024) n fit

-- A file on its disk, without the boot block in it.
pub record IsStored (fs : Fs) (es : List Extent) : Type 0 where
  pub file : IsFile fs es
  pub small : length (blocks es) ≤ maxfile
  pub nonzero : All (λ b. b ≢ 0) (blocks es)

pub All-get_or {ℓ} :
    (P : ℕ → Type ℓ) (xs : List ℕ) (i : ℕ) → All P xs → i < length xs → P (get_or xs i 0)
All-get_or P [] i h lt = absurd (omega (arith, lt))
All-get_or P (x ∷ xs) zero h lt = h.0
All-get_or P (x ∷ xs) (suc i) h lt = All-get_or P xs i h.1 (omega (arith, lt))

-- bmap on a block that the file has.
pub bmap_at_lem :
    (d : Disk) (ip : Inode) (bn : ℕ)
    → IsStored d.fs ip.d.extents
    → bn < length (blocks ip.d.extents)
    → (bmap_at d ip bn ≡ ok (get_or (blocks ip.d.extents) bn 0, d, ip))
      × ((get_or (blocks ip.d.extents) bn 0 == 0) ≡ false)
unfolding bmap_at
bmap_at_lem d ip bn h lt =
    let fs1 : Fs = record d.fs { zeroed = λ b. false } in
    let f = h.file in
    let file : IsFile fs1 ip.d.extents = record {
      words = f.words;
      boot = f.boot;
      packed = f.packed;
      within = f.within;
      marked = f.marked;
      distinct = f.distinct;
    } in
    let small = h.small in
    (
      elim (bmap_lem fs1 ip.d.extents bn file small (omega (arith, lt, small))) [
        | inl hit ↦
            ap
              (λ r. r >>= λ r. ok (
                r.0,
                record d {
                  fs = record r.1 { zeroed = d.fs.zeroed };
                  bytes = cleared_bytes r.1 d.bytes;
                },
                with_extents ip r.2,
              ))
              hit.1
        | inr miss ↦ absurd (omega (arith, lt, miss.0))
      ],
      ne→== _ 0 (All-get_or _ (blocks ip.d.extents) bn h.nonzero lt),
    )
