-- ===== src/Data/Sum.antt =====
-- inode_checksum against the Adler-32 sum of the contents.
use hai_os.Base.{
  ℕ, zero, suc, ◌+◌, ◌-◌, ◌*◌, ◌/◌, ◌%◌, ◌^◌, ◌≤◌, ◌<◌, ◌≡◌, refl, sym, ap, ap₂, ◌∙◌, ◌⊎◌, inl, inr,
  true, false, List, arith, ◌==◌, if◌then◌else◌, ne→==, length, get_or, ok, add32,
}
use hai_os.Str.{block}
use hai_os.Fs.{Extent, Inode, adler32_update}
use hai_os.Fs.Extents.{blocks}
use hai_os.Fs.Adler.{
  reference, adler32_update_lem, adler32_update-append, adler32_update-bounds, adler32_update-nil,
}
use hai_os.Data.{Disk, is_regular, checksum_from, inode_checksum}
use hai_os.Data.Content.{content, content-append, content-block, IsStored, bmap_at_lem}

-- The sum over one block of a file and over what follows it.
sum_block :
    (d : Disk) (es : List Extent) (bn c rest adler : ℕ)
    → c ≤ 1024
    → (c ≡ 1024) ⊎ (rest ≡ 0)
    → adler32_update
        (adler32_update adler (block (d.bytes (get_or (blocks es) bn 0)) 0 c))
        (content d es ((bn + 1) * 1024) rest)
      ≡ adler32_update adler (content d es (bn * 1024) (c + rest))
unfolding content
sum_block d es bn c rest adler le full =
    let eb : bn * 1024 / 1024 ≡ bn = omega arith in
    let ep : bn * 1024 % 1024 ≡ 0 = omega arith in
    let one : content d es (bn * 1024) c ≡ block (d.bytes (get_or (blocks es) bn 0)) 0 c =
      content-block d es (bn * 1024) c (omega (arith, ep, le))
      ∙ ap₂ (λ b o. block (d.bytes (get_or (blocks es) b 0)) o c) eb ep in
    let next : content d es ((bn + 1) * 1024) rest ≡ content d es (bn * 1024 + c) rest = elim full [
      | inl e ↦ ap (λ x. content d es x rest) (omega (arith, e))
      | inr e ↦ no_content d es _ _ rest e
    ] in
    ap₂ (λ x y. adler32_update (adler32_update adler x) y) (sym one) next
    ∙ sym (
        adler32_update-append adler (content d es (bn * 1024) c)
          (content d es (bn * 1024 + c) rest))
    ∙ ap (adler32_update adler) (sym (content-append d es (bn * 1024) c rest))
  where
    no_content :
        (d : Disk) (es : List Extent) (x y n : ℕ) → n ≡ 0 → content d es x n ≡ content d es y n
    no_content d es x y n e = rw (e) refl

checksum_from_lem :
    (n : ℕ) (d : Disk) (ip : Inode) (bn adler : ℕ)
    → IsStored d.fs ip.d.extents
    → ip.d.size ≤ 1024 * length (blocks ip.d.extents)
    → bn + n ≡ (ip.d.size + 1023) / 1024
    → adler < 2 ^ 32
    → checksum_from n d ip bn adler
      ≡ ok
          (d, ip, adler32_update adler (content d ip.d.extents (bn * 1024) (ip.d.size - bn * 1024)))
unfolding checksum_from content
checksum_from_lem zero d ip bn adler h fit en word =
    let e : ip.d.size - bn * 1024 ≡ 0 = omega (arith, en) in
    rw (e) (ap (λ x. ok (d, ip, x)) (sym (adler32_update-nil adler word)))
checksum_from_lem (suc n) d ip bn adler h fit en word =
    let es = ip.d.extents in
    let b = bmap_at_lem d ip bn h (omega (arith, en, fit)) in
    let size = ip.d.size in
    let c : ℕ = if n == 0 then size - bn * 1024 else 1024 in
    let chunk : (c ≤ 1024)
        × ((c ≡ 1024) ⊎ (size - (bn + 1) * 1024 ≡ 0))
        × (c + (size - (bn + 1) * 1024) ≡ size - bn * 1024) =
      chunk_lem n bn size en in
    let a1 : ℕ = adler32_update adler (block (d.bytes (get_or (blocks es) bn 0)) 0 c) in
    let ih =
      checksum_from_lem n d ip (bn + 1) a1 h fit (omega (arith, en))
        (adler32_update-bounds adler (block (d.bytes (get_or (blocks es) bn 0)) 0 c)) in
    rw (b.0, b.1)
      (ih
        ∙ ap (λ x. ok (d, ip, x))
            (sum_block d es bn c (size - (bn + 1) * 1024) adler chunk.0 chunk.1
              ∙ ap (λ x. adler32_update adler (content d es (bn * 1024) x)) chunk.2))
  where
    chunk_lem :
        (n bn size : ℕ)
        → bn + suc n ≡ (size + 1023) / 1024
        → let c = if n == 0 then size - bn * 1024 else 1024 in
          (c ≤ 1024)
          × ((c ≡ 1024) ⊎ (size - (bn + 1) * 1024 ≡ 0))
          × (c + (size - (bn + 1) * 1024) ≡ size - bn * 1024)
    chunk_lem zero bn size e = (omega (arith, e), inr (omega (arith, e)), omega (arith, e))
    chunk_lem (suc n) bn size e =
        let more : (suc n == 0) ≡ false = ne→== (suc n) 0 (omega arith) in
        rw (more) (omega arith, inl refl, omega (arith, e))

-- The sum that inode_checksum computes over a stored file or directory is the Adler-32 sum of its
-- contents, and it changes nothing.
pub inode_checksum_lem :
    (d : Disk) (ip : Inode)
    → IsStored d.fs ip.d.extents
    → ip.d.size ≤ 1024 * length (blocks ip.d.extents)
    → is_regular ip ≡ true
    → inode_checksum d ip ≡ ok (d, ip, reference (content d ip.d.extents 0 ip.d.size))
unfolding inode_checksum
inode_checksum_lem d ip h fit reg =
    let small = h.small in
    let e : add32 ip.d.size 1023 ≡ ip.d.size + 1023 = omega (arith, fit, small) in
    let go =
      checksum_from_lem ((ip.d.size + 1023) / 1024) d ip 0 1 h fit (omega arith) (omega arith) in
    let e1 : ip.d.size - 0 * 1024 ≡ ip.d.size = omega arith in
    rw (reg, e)
      (go
        ∙ ap₂ (λ o n. ok (d, ip, adler32_update 1 (content d ip.d.extents o n))) (omega arith) e1
        ∙ ap (λ x. ok (d, ip, x)) (adler32_update_lem (content d ip.d.extents 0 ip.d.size)))
