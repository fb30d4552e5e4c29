-- ===== src/Data/Write.antt =====
-- The loop of writei: which bytes of the file it changes.
use hai_os.Base.{
  ℕ, zero, suc, ◌+◌, ◌-◌, ◌*◌, ◌/◌, ◌%◌, ◌≤◌, ◌<◌, min, ◌≡◌, refl, sym, ap, ◌∙◌, ◌≢◌, ◌⊎◌, inl, inr,
  false, List, arith, ltb, ◌==◌, if◌then◌else◌, eq→==, ==→eq, ltb→lt, ltb→le, Bool-cases, length,
  get_or, take, drop, length-take, All, Run, ok, panic, ◌>>=◌,
}
use hai_os.Fs.{Inode}
use hai_os.Fs.FreeMap.{InUse}
use hai_os.Fs.Extents.{blocks}
use hai_os.Fs.Bmap.{maxfile, IsFile}
use hai_os.Data.{bsize, Disk, with_extents, bmap_at, with_bytes, write_from}
use hai_os.Data.Content.{IsStored}
use hai_os.Data.Read.{Copies}
use hai_os.Data.Grow.{stored_byte, Extends, Stepped, bmap_at-Stepped}
use hai_os.Data.Stores.{get_or-take, get_or-drop, length-drop, with_bytes_lem}

-- `tot` bytes of `xs` have been written at `off`.
pub record Written (d : Disk) (ip : Inode) (off : ℕ) (xs : List ℕ) (tot : ℕ) (d' : Disk)
    (ip' : Inode) : Type 0 where
  pub inode : ip' ≡ with_extents ip ip'.d.extents
  pub file : IsFile d'.fs ip'.d.extents
  pub nonzero : All (λ b. b ≢ 0) (blocks ip'.d.extents)
  pub longer : length (blocks ip.d.extents) ≤ length (blocks ip'.d.extents)
  pub inside : off + tot ≤ 1024 * length (blocks ip'.d.extents) ⊎ (tot ≡ 0)
  pub new :
      (i : ℕ) → off ≤ i → i < off + tot → stored_byte d' ip'.d.extents i ≡ get_or xs (i - off) 0
  pub old :
      (i : ℕ)
      → (i < off) ⊎ (off + tot ≤ i)
      → stored_byte d' ip'.d.extents i ≡ stored_byte d ip.d.extents i

-- What the loop may give: all bytes written; or fewer, and the disk is full; or bmap's panic.
abbrev pub WriteResult : Disk → Inode → ℕ → List ℕ → Run (Disk × Inode × ℕ) → Type 0
WriteResult d ip off xs (ok (d', ip', tot)) =
    Written d ip off xs tot d' ip'
    × (((tot ≡ length xs) × (length (blocks ip'.d.extents) ≤ maxfile))
        ⊎ ((tot < length xs) × InUse d'.fs 0 d'.fs.size))
WriteResult d ip off xs (panic s) = s ≡ "bmap: extent overflow"

none-Written :
    (d : Disk) (ip : Inode) (off : ℕ) (xs : List ℕ) (d' : Disk) (ip' : Inode)
    → Extends d ip d' ip'
    → Written d ip off xs 0 d' ip'
none-Written d ip off xs d' ip' e = record {
  inode = e.inode;
  file = e.file;
  nonzero = e.nonzero;
  longer = e.longer;
  inside = inr refl;
  new = λ i le lt. absurd (omega (arith, le, lt));
  old = λ i o. e.kept i;
}

-- One pass and then the rest.
pass-Written :
    (d : Disk) (ip : Inode) (d1 : Disk) (ip1 : Inode) (d' : Disk) (ip' : Inode) (off m : ℕ)
    (xs : List ℕ) (tot : ℕ)
    → Extends d ip d1 ip1
    → m ≤ length xs
    → off % 1024 + m ≤ 1024
    → off / 1024 < length (blocks ip1.d.extents)
    → Written
        (with_bytes d1 (get_or (blocks ip1.d.extents) (off / 1024) 0) (off % 1024) (take m xs))
        ip1
        (off + m)
        (drop m xs)
        tot
        d'
        ip'
    → Written d ip off xs (m + tot) d' ip'
pass-Written d ip d1 ip1 d' ip' off m xs tot e le fit lt w =
    let len : length (take m xs) ≡ m = omega (arith, length-take m xs, le) in
    let off' : off / 1024 * 1024 + off % 1024 ≡ off = omega arith in
    let put = λ (i : ℕ).
      with_bytes_lem d1 ip1.d.extents (off / 1024) (off % 1024) (take m xs) i e.file lt
        (omega (arith, fit, len)) in
    record {
      inode = w.inode ∙ ap (λ p. with_extents p ip'.d.extents) e.inode;
      file = w.file;
      nonzero = w.nonzero;
      longer = omega (arith, e.longer, w.longer);
      inside = elim w.inside [
        | inl a ↦ inl (omega (arith, a))
        | inr z ↦ inl (omega (arith, z, fit, lt, w.longer))
      ];
      new = λ i l r. elim (Bool-cases (ltb i (off + m))) [
        | inl q ↦
            let c = ltb→lt i (off + m) q in
            let a : i - (off / 1024 * 1024 + off % 1024) ≡ i - off = omega (arith, off') in
            w.old i (inl c)
            ∙ (put i).0 (omega (arith, l, off')) (omega (arith, c, off', len))
            ∙ get_or-take m (i - (off / 1024 * 1024 + off % 1024)) xs (omega (arith, c, off', l))
            ∙ ap (λ j. get_or xs j 0) a
        | inr q ↦
            let c = ltb→le i (off + m) q in
            let a : m + (i - (off + m)) ≡ i - off = omega (arith, c) in
            w.new i c (omega (arith, r))
            ∙ get_or-drop m (i - (off + m)) xs
            ∙ ap (λ j. get_or xs j 0) a
      ];
      old = λ i o. w.old i (later i o) ∙ (put i).1 (earlier i o) ∙ e.kept i;
    }
  where
    later : (i : ℕ) → (i < off) ⊎ (off + (m + tot) ≤ i) → (i < off + m) ⊎ (off + m + tot ≤ i)
    later i (inl l) = inl (omega (arith, l))
    later i (inr l) = inr (omega (arith, l))

    earlier :
        (i : ℕ)
        → (i < off) ⊎ (off + (m + tot) ≤ i)
        → (i < off / 1024 * 1024 + off % 1024)
          ⊎ (off / 1024 * 1024 + off % 1024 + length (take m xs) ≤ i)
    earlier i (inl l) = inl (omega (arith, l))
    earlier i (inr l) = inr (omega (arith, l, length-take m xs))

pass-WriteResult :
    (d : Disk) (ip : Inode) (d1 : Disk) (ip1 : Inode) (off m : ℕ) (xs : List ℕ)
    (r : Run (Disk × Inode × ℕ))
    → Extends d ip d1 ip1
    → m ≤ length xs
    → off % 1024 + m ≤ 1024
    → off / 1024 < length (blocks ip1.d.extents)
    → WriteResult
        (with_bytes d1 (get_or (blocks ip1.d.extents) (off / 1024) 0) (off % 1024) (take m xs))
        ip1
        (off + m)
        (drop m xs)
        r
    → WriteResult d ip off xs (r >>= λ q. ok (q.0, q.1, m + q.2))
pass-WriteResult d ip d1 ip1 off m xs (panic s) e le fit lt w = w
pass-WriteResult d ip d1 ip1 off m xs (ok (d', ip', tot)) e le fit lt w =
    let len = length-drop m xs in
    (
      pass-Written d ip d1 ip1 d' ip' off m xs tot e le fit lt w.0,
      elim w.1 [
        | inl a ↦ inl (omega (arith, a.0, len, le), a.1)
        | inr a ↦ inr (omega (arith, a.0, len, le), a.1)
      ],
    )

-- The rest of a pass of the loop, once bmap has given `r`.
after_bmap :
    (fuel : ℕ) (copy : ℕ → ℕ → ℕ) (d : Disk) (ip : Inode) (src off m : ℕ) (xs : List ℕ)
    (r : Run (ℕ × Disk × Inode))
    → Copies copy
    → Stepped d ip (off / 1024) r
    → 0 < m
    → m ≤ length xs
    → off % 1024 + m ≤ 1024
    → ((d1 : Disk) (ip1 : Inode)
        → IsStored d1.fs ip1.d.extents
        → WriteResult d1 ip1
            (off + m)
            (drop m xs)
            (write_from fuel copy d1 ip1 (src + m) (off + m) (drop m xs)))
    → WriteResult d ip off xs (
        r >>= λ r.
        (if r.0 == 0
          then ok (r.1, r.2, 0)
          else if ltb (copy src m) m
          then ok (with_bytes r.1 r.0 (off % bsize) (take (copy src m) xs), r.2, 0)
          else (write_from fuel copy
                (with_bytes r.1 r.0 (off % bsize) (take m xs))
                r.2
                (src + m)
                (off + m)
                (drop m xs)
              >>= λ q. ok (q.0, q.1, m + q.2))))
after_bmap fuel copy d ip src off m xs (panic s) c st more le fit next = st
after_bmap fuel copy d ip src off m xs (ok (b, d1, ip1)) c (e, inr full) more le fit next =
    rw (eq→== b 0 full.0) (none-Written d ip off xs d1 ip1 e, inr (omega (arith, more, le), full.1))
after_bmap fuel copy d ip src off m xs (ok (b, d1, ip1)) c (e, inl here) more le fit next =
    let moved : ltb (copy src m) m ≡ false = rw (c src m) (ground arith) in
    let eb : b ≡ get_or (blocks ip1.d.extents) (off / 1024) 0 = here.2 in
    let stored : IsStored d1.fs ip1.d.extents = record {
      file = e.file;
      small = here.1;
      nonzero = e.nonzero;
    } in
    let d2 : Disk =
      with_bytes d1 (get_or (blocks ip1.d.extents) (off / 1024) 0) (off % 1024) (take m xs) in
    rw (here.3, moved, eb)
      (pass-WriteResult d ip d1 ip1 off m xs _ e le fit here.0 (next d2 ip1 stored))

nothing_left :
    (d : Disk) (ip : Inode) (off : ℕ) (xs : List ℕ)
    → IsStored d.fs ip.d.extents
    → length xs ≡ 0
    → WriteResult d ip off xs (ok (d, ip, 0))
nothing_left d ip off xs h e = (
  none-Written d ip off xs d ip (record {
    inode = refl;
    file = h.file;
    nonzero = h.nonzero;
    longer = omega arith;
    kept = λ i. refl;
  }),
  inl (sym e, h.small),
)

-- Where copies succeed and what is written ends within the largest file, the loop of writei on a stored
-- file gives a file with the new bytes from the offset on and the old ones elsewhere, 0 in new blocks:
-- all of the bytes are written; or fewer, and then no block of the disk is free; or bmap panics for
-- want of an extent.
pub write_from-WriteResult :
    (fuel : ℕ) (copy : ℕ → ℕ → ℕ) (d : Disk) (ip : Inode) (src off : ℕ) (xs : List ℕ)
    → Copies copy
    → IsStored d.fs ip.d.extents
    → off + length xs ≤ maxfile * bsize
    → length xs ≤ fuel
    → WriteResult d ip off xs (write_from fuel copy d ip src off xs)
unfolding write_from
write_from-WriteResult zero copy d ip src off xs c h fit le =
    nothing_left d ip off xs h (omega (arith, le))
write_from-WriteResult (suc fuel) copy d ip src off xs c h fit le =
    let m : ℕ = min (length xs) (1024 - off % 1024) in
    elim (Bool-cases (length xs == 0)) [
      | inl q ↦ rw (q) (nothing_left d ip off xs h (==→eq (length xs) 0 q))
      | inr q ↦
          let n : length xs ≢ 0 = λ e. ground (arith, eq→== (length xs) 0 e, q) in
          rw (q) (
            after_bmap fuel copy d ip src off m xs (bmap_at d ip (off / 1024)) c
              (bmap_at-Stepped d ip (off / 1024) h (omega (arith, fit, n))) (omega (arith, n))
              (omega arith) (omega arith)
              (λ d1 ip1 h1.
                write_from-WriteResult fuel copy d1 ip1 (src + m) (off + m) (drop m xs) c h1
                  (omega (arith, fit, length-drop m xs)) (omega (arith, le, n, length-drop m xs))))
    ]
