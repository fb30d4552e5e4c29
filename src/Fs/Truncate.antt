-- ===== src/Fs/Truncate.antt =====
-- itrunc frees the blocks of a file.
use hai_os.Base.{
  ℕ, zero, suc, ◌+◌, ◌≤◌, ◌≡◌, refl, sym, ap, ap₂, ◌∙◌, fun_ext, inl, inr, true, false, List, [],
  ◌∷◌, ◌++◌, arith, ◌==◌, if◌then◌else◌, ==→eq, Bool-cases, All, Run, ok, panic, ◌>>=◌, count,
  update,
}
use hai_os.Fs.{Extent, Inode, Fs, bfree, free_blocks, free_extents, cleared, iupdate, itrunc}
use hai_os.Fs.Extents.{range, blocks}
use hai_os.Fs.Bmap.{IsFile}

free_list : List ℕ → Fs → Run Fs
free_list [] fs = ok fs
free_list (b ∷ bs) fs = bfree b fs >>= λ fs1. free_list bs fs1

bind_assoc {ℓ} : {A : Type ℓ} (m : Run A) (f g : A → Run A) → (m >>= f) >>= g ≡ m >>= λ a. f a >>= g
bind_assoc (ok a) f g = refl
bind_assoc (panic s) f g = refl

free_list-append :
    (xs ys : List ℕ) (fs : Fs)
    → free_list (xs ++ ys) fs ≡ free_list xs fs >>= λ fs1. free_list ys fs1
unfolding free_list
free_list-append [] ys fs = refl
free_list-append (x ∷ xs) ys fs =
    ap (λ k. bfree x fs >>= k) (fun_ext (λ fs1. free_list-append xs ys fs1))
    ∙ sym (bind_assoc (bfree x fs) (free_list xs) (free_list ys))

free_blocks-free_list : (n b : ℕ) (fs : Fs) → free_blocks n b fs ≡ free_list (range b n) fs
unfolding free_blocks free_list
free_blocks-free_list zero b fs = refl
free_blocks-free_list (suc n) b fs =
    ap (λ k. bfree b fs >>= k) (fun_ext (λ fs1. free_blocks-free_list n (b + 1) fs1))

free_extents-free_list :
    (es : List Extent) (fs : Fs) → free_extents es fs ≡ free_list (blocks es) fs
unfolding free_extents free_list
free_extents-free_list [] fs = refl
free_extents-free_list (e ∷ es) fs = elim (Bool-cases (e.len == 0)) [
  | inl z ↦ rw (z, ==→eq e.len 0 z) (free_extents-free_list es fs)
  | inr z ↦ rw z (
      ap₂ (λ m k. m >>= k) (free_blocks-free_list e.len e.start fs)
        (fun_ext (λ fs1. free_extents-free_list es fs1))
      ∙ sym (free_list-append (range e.start e.len) (blocks es) fs))
]

-- `fs'` is `fs` with the blocks `bs` free.
pub record Freed (fs : Fs) (bs : List ℕ) (fs' : Fs) : Type 0 where
  pub bits : (i : ℕ) → fs'.bitmap i ≡ (if count i bs == 0 then fs.bitmap i else false)
  pub size_kept : fs'.size ≡ fs.size
  pub dinodes_kept : fs'.dinodes ≡ fs.dinodes

marked_rest :
    (fs : Fs) (b : ℕ) (bs : List ℕ)
    → count b bs ≡ 0
    → All (λ x. fs.bitmap x ≡ true) bs
    → All (λ x. update fs.bitmap b false x ≡ true) bs
marked_rest fs b [] z h = tt
marked_rest fs b (x ∷ xs) z h = (ground (arith, h.0), marked_rest fs b xs (ground arith) h.1)

free_list-Freed :
    (bs : List ℕ) (fs : Fs)
    → All (λ b. fs.bitmap b ≡ true) bs
    → ((b : ℕ) → count b bs ≤ 1)
    → (fs' : Fs) × (free_list bs fs ≡ ok fs') × Freed fs bs fs'
unfolding free_list bfree
free_list-Freed [] fs h d =
    (fs, refl, record { bits = λ i. refl; size_kept = refl; dinodes_kept = refl })
free_list-Freed (b ∷ bs) fs h d =
    let fs1 : Fs = record fs { bitmap = update fs.bitmap b false } in
    let self : (b == b) ≡ true = ground arith in
    let z : count b bs ≡ 0 = ground (arith, d b) in
    let (fs2, e, f) =
      free_list-Freed bs fs1 (marked_rest fs b bs z h.1) (λ i. ground (arith, d i)) in
    (
      fs2,
      rw (h.0) e,
      record {
        bits = λ i. f.bits i ∙ ground arith;
        size_kept = f.size_kept;
        dinodes_kept = f.dinodes_kept;
      },
    )

blocks-cleared : (es : List Extent) → blocks (cleared es) ≡ []
blocks-cleared [] = refl
blocks-cleared (e ∷ es) = elim (Bool-cases (e.len == 0)) [
  | inl z ↦ rw (z, ==→eq e.len 0 z) (blocks-cleared es)
  | inr z ↦ rw z (blocks-cleared es)
]

-- itrunc on a file does not panic: it marks the file's blocks free and no others, leaves the inode
-- with size 0, checksum 1, no block, and a cache without entries that is neither valid nor truncated,
-- and writes it to its place on the disk.
pub itrunc_lem :
    (ip : Inode) (fs : Fs)
    → IsFile fs ip.d.extents
    → (ip' : Inode) × (fs' : Fs) × (itrunc ip fs ≡ ok (ip', fs'))
      × ((i : ℕ)
          → fs'.bitmap i ≡ (if count i (blocks ip.d.extents) == 0 then fs.bitmap i else false))
      × (fs'.dinodes ≡ update fs.dinodes ip.inum ip'.d)
      × (blocks ip'.d.extents ≡ [])
      × (ip'.d.size ≡ 0)
      × (ip'.d.checksum ≡ 1)
      × (ip'.cache_valid ≡ false)
      × (ip'.cache_truncated ≡ false)
      × (ip'.nentries ≡ 0)
unfolding itrunc
itrunc_lem ip fs h =
    let (fs1, e, f) = free_list-Freed (blocks ip.d.extents) fs h.marked h.distinct in
    let ip1 : Inode = record ip {
      d = record ip.d { size = 0; checksum = 1; extents = cleared ip.d.extents };
      cache_valid = false;
      cache_truncated = false;
      nentries = 0;
    } in
    (
      ip1,
      iupdate ip1 fs1,
      rw (free_extents-free_list ip.d.extents fs, e) refl,
      f.bits,
      ap (λ g. update g ip.inum ip1.d) f.dinodes_kept,
      blocks-cleared ip.d.extents,
      refl,
      refl,
      refl,
      refl,
      refl,
    )
