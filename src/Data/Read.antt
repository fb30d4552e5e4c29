-- ===== src/Data/Read.antt =====
-- readi against the contents.
use hai_os.Base.{
  ℕ, zero, suc, ◌+◌, ◌-◌, ◌*◌, ◌/◌, ◌%◌, ◌^◌, ◌≤◌, ◌<◌, min, ◌≡◌, refl, sym, ap, ◌∙◌, inl, inr,
  false, not, ◌&&◌, ◌||◌, some, List, ◌++◌, arith, ltb, leb, ◌==◌, if◌then◌else◌, eq→==, ne→==,
  ==→eq, ltb→lt, ltb→le, lt→ltb, true, [], leb→le, leb→lt, Bool-cases, length, get_or, Run, ok,
  add32,
}
use hai_os.Str.{block}
use hai_os.Fs.{Extent, Inode}
use hai_os.Fs.Extents.{blocks}
use hai_os.Fs.Adler.{reference}
use hai_os.Data.{Disk, is_regular, verify_inode_checksum, read_from, whole_file, readi}
use hai_os.Data.Content.{
  content, length-content, content-append, content-block, IsStored, bmap_at_lem,
}
use hai_os.Data.Sum.{inode_checksum_lem}

-- A copy that moves what it is asked to.
abbrev pub Copies : (ℕ → ℕ → ℕ) → Type 0
Copies copy = (a m : ℕ) → copy a m ≡ m

read_from_lem :
    (fuel : ℕ) (copy : ℕ → ℕ → ℕ) (d : Disk) (ip : Inode) (dst off left : ℕ)
    → Copies copy
    → IsStored d.fs ip.d.extents
    → off + left ≤ 1024 * length (blocks ip.d.extents)
    → left ≤ fuel
    → read_from fuel copy d ip dst off left ≡ ok (d, ip, some (content d ip.d.extents off left))
unfolding read_from content
read_from_lem zero copy d ip dst off zero c h fit le = refl
read_from_lem zero copy d ip dst off (suc left) c h fit le = ground (arith, le)
read_from_lem (suc fuel) copy d ip dst off zero c h fit le = refl
read_from_lem (suc fuel) copy d ip dst off (suc left) c h fit le =
    let es = ip.d.extents in
    let m : ℕ = min (suc left) (1024 - off % 1024) in
    let b = bmap_at_lem d ip (off / 1024) h (omega (arith, fit)) in
    let moved : ltb (copy dst m) m ≡ false = rw (c dst m) (ground arith) in
    let ih =
      read_from_lem fuel copy d ip (dst + m) (off + m) (suc left - m) c h (omega (arith, fit))
        (omega (arith, le)) in
    let some_left : (suc left == 0) ≡ false = ne→== (suc left) 0 (omega arith) in
    let parts : block (d.bytes (get_or (blocks es) (off / 1024) 0)) (off % 1024) m
          ++ content d es (off + m) (suc left - m)
        ≡ content d es off (suc left) =
      ap (λ x. x ++ content d es (off + m) (suc left - m))
        (sym (content-block d es off m (omega arith)))
      ∙ sym (content-append d es off m (suc left - m))
      ∙ ap (content d es off) (whole left off) in
    rw (some_left, b.0, b.1, moved, ih) (ap (λ x. ok (d, ip, some x)) parts)
  where
    whole :
        (left off : ℕ)
        → min (suc left) (1024 - off % 1024) + (suc left - min (suc left) (1024 - off % 1024))
          ≡ suc left
    whole left off = omega arith

-- What readi adds to the count of checksum errors.
abbrev pub mismatch : Disk → Inode → ℕ
mismatch d ip =
    if is_regular ip && not (reference (content d ip.d.extents 0 ip.d.size) == ip.d.checksum)
    then 1
    else 0

verify_lem :
    (d : Disk) (ip : Inode)
    → IsStored d.fs ip.d.extents
    → ip.d.size ≤ 1024 * length (blocks ip.d.extents)
    → verify_inode_checksum d ip ≡ ok (record d { errors = d.errors + mismatch d ip }, ip)
unfolding verify_inode_checksum
verify_lem d ip h fit = elim (Bool-cases (is_regular ip)) [
  | inl reg ↦ (elim (Bool-cases (reference (content d ip.d.extents 0 ip.d.size) == ip.d.checksum)) [
    | inl same ↦ rw (inode_checksum_lem d ip h fit reg, reg, same) (more d ip 0 (omega arith))
    | inr other ↦ rw (inode_checksum_lem d ip h fit reg, reg, other) refl
  ])
  | inr plain ↦ rw (plain) (more d ip 0 (omega arith))
]
  where
    more :
        (d : Disk) (ip : Inode) (k : ℕ)
        → d.errors + k ≡ d.errors
        → let r : Run (Disk × Inode) = ok (d, ip) in r ≡ ok (record d { errors = d.errors + k }, ip)
    more d ip k e = ap (λ x. ok (record d { errors = x }, ip)) (sym e)

count_lem :
    (size off n : ℕ)
    → off ≤ size
    → (if ltb size (off + n) then size - off else n) ≡ min n (size - off)
count_lem size off n le = elim (Bool-cases (ltb size (off + n))) [
  | inl q ↦ let l = ltb→lt size (off + n) q in rw (q) (omega (arith, l))
  | inr q ↦ let l = ltb→le size (off + n) q in rw (q) (omega (arith, l))
]

whole_lem :
    (d : Disk) (es : List Extent) (size off n : ℕ)
    → whole_file size off (some (content d es off (min n (size - off)))) ≡ (off == 0 && leb size n)
whole_lem d es size off n = elim (Bool-cases (off == 0)) [
  | inl z ↦
      let e = ==→eq off 0 z in
      rw (z, length-content d es off (min n (size - off)), e)
        (elim (Bool-cases (leb size n)) [
          | inl q ↦ let l = leb→le size n q in rw (q) (eq→== _ _ (omega (arith, l)))
          | inr q ↦ let l = leb→lt size n q in rw (q) (ne→== _ _ (omega (arith, l)))
        ])
  | inr z ↦ rw (z) refl
]

-- readi of a range whose end is a 32-bit number.
pub readi_within :
    (copy : ℕ → ℕ → ℕ) (d : Disk) (ip : Inode) (dst off n : ℕ)
    → Copies copy
    → IsStored d.fs ip.d.extents
    → ip.d.size ≤ 1024 * length (blocks ip.d.extents)
    → off ≤ ip.d.size
    → off + n < 2 ^ 32
    → readi copy d ip dst off n
      ≡ ok (
        record d { errors = d.errors + (if off == 0 && leb ip.d.size n then mismatch d ip else 0) },
        ip,
        some (content d ip.d.extents off (min n (ip.d.size - off))),
      )
unfolding readi
readi_within copy d ip dst off n c h fit le word =
    let size = ip.d.size in
    let k : ℕ = min n (size - off) in
    let small = h.small in
    let e1 : add32 off n ≡ off + n = omega (arith, word) in
    let e2 : (ltb size off || ltb (off + n) off) ≡ false = ground arith in
    let e3 : (if ltb size (off + n) then size - off else n) ≡ k = count_lem size off n le in
    let go = read_from_lem k copy d ip dst off k c h (omega (arith, fit, le)) (omega arith) in
    rw (e1, e2, e3, go, whole_lem d ip.d.extents size off n)
      (elim (Bool-cases (off == 0 && leb size n)) [
        | inl w ↦ rw (w, verify_lem d ip h fit) refl
        | inr w ↦
            let same : d.errors ≡ d.errors + 0 = omega arith in
            rw (w)
              (ap (λ x. ok (record d { errors = x }, ip, some (content d ip.d.extents off k))) same)
      ])

-- Where copies succeed, readi from `off` on, at most at the end of a stored file, of `n` bytes, a
-- 32-bit number, gives the bytes of its contents from there, up to `n` and to the end, and changes
-- neither the disk nor the inode, except that a read of a whole regular file counts an error when the
-- checksum is not that of the contents. Where `off + n` does not fit in 32 bits, it gives no byte and
-- changes nothing.
pub readi_lem :
    (copy : ℕ → ℕ → ℕ) (d : Disk) (ip : Inode) (dst off n : ℕ)
    → Copies copy
    → IsStored d.fs ip.d.extents
    → ip.d.size ≤ 1024 * length (blocks ip.d.extents)
    → off ≤ ip.d.size
    → n < 2 ^ 32
    → readi copy d ip dst off n ≡ (
        if ltb (off + n) (2 ^ 32)
        then ok (
          record d {
            errors = d.errors + (if off == 0 && leb ip.d.size n then mismatch d ip else 0);
          },
          ip,
          some (content d ip.d.extents off (min n (ip.d.size - off))),
        )
        else ok (d, ip, some []))
unfolding readi
readi_lem copy d ip dst off n c h fit le word = elim (Bool-cases (ltb (off + n) (2 ^ 32))) [
  | inl q ↦ rw q (readi_within copy d ip dst off n c h fit le (ltb→lt (off + n) (2 ^ 32) q))
  | inr q ↦
      let l = ltb→le (off + n) (2 ^ 32) q in
      let small = h.small in
      let wraps : ltb (add32 off n) off ≡ true =
        lt→ltb _ _ (omega (arith, l, word, le, fit, small)) in
      let e : (ltb ip.d.size off || ltb (add32 off n) off) ≡ true = ground arith in rw (q, e) refl
]
