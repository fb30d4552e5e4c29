-- ===== src/Data/RoundTrip.antt =====
-- A read of what writei has written.
use hai_os.Base.{
  ℕ, zero, suc, ◌+◌, ◌-◌, ◌*◌, ◌/◌, ◌%◌, ◌^◌, ◌≤◌, ◌<◌, min, ◌≡◌, refl, sym, ap, ap₂, subst, ◌∙◌,
  ◌⊎◌, inl, inr, Bool, true, false, not, ◌&&◌, ◌||◌, Option, some, List, [], ◌∷◌, arith, ltb, ◌==◌,
  if◌then◌else◌, eq→==, lt→ltb, le→ltb, ltb→le, Bool-cases, eq_of_some, length, update_self, get_or,
  Run, ok, panic, ok_injective, ◌>>=◌, add32,
}
use hai_os.Fs.{Extent, Inode, iupdate}
use hai_os.Fs.Extents.{blocks}
use hai_os.Fs.Bmap.{maxfile}
use hai_os.Fs.Adler.{reference}
use hai_os.Data.{
  bsize, t_dir, Disk, with_checksum, is_regular, sized, update_checksum, finish_write, write_from,
  writei, readi,
}
use hai_os.Data.Content.{file_byte, content, IsStored}
use hai_os.Data.Sum.{inode_checksum_lem}
use hai_os.Data.Read.{Copies, mismatch, readi_within}
use hai_os.Data.Grow.{stored_byte}
use hai_os.Data.Write.{Written, WriteResult, write_from-WriteResult}

content-bytes :
    (d d' : Disk) (es : List Extent) (off n : ℕ)
    → d.bytes ≡ d'.bytes
    → content d es off n ≡ content d' es off n
unfolding content
content-bytes d d' es off zero e = refl
content-bytes d d' es off (suc n) e =
    ap₂ ◌∷◌ (ap (λ b. b (get_or (blocks es) (off / 1024) 0) (off % 1024)) e)
      (content-bytes d d' es (off + 1) n e)

-- Contents that hold the bytes of a list.
content-list :
    (d : Disk) (es : List Extent) (off : ℕ) (xs : List ℕ)
    → off + length xs ≤ 1024 * length (blocks es)
    → ((i : ℕ) → off ≤ i → i < off + length xs → stored_byte d es i ≡ get_or xs (i - off) 0)
    → content d es off (length xs) ≡ xs
unfolding content
content-list d es off [] fit h = refl
content-list d es off (x ∷ xs) fit h =
    let inside : ltb (off / 1024) (length (blocks es)) ≡ true = lt→ltb _ _ (omega (arith, fit)) in
    let first : stored_byte d es off ≡ file_byte d es off = rw (inside) refl in
    let zero_off : off - off ≡ 0 = omega arith in
    ap₂ ◌∷◌ (sym first ∙ h off (omega arith) (omega arith) ∙ ap (λ j. get_or (x ∷ xs) j 0) zero_off)
      (content-list d es (off + 1) xs (omega (arith, fit)) (λ i l r.
        let e : i - off ≡ suc (i - (off + 1)) = omega (arith, l) in
        h i (omega (arith, l)) (omega (arith, r)) ∙ ap (λ j. get_or (x ∷ xs) j 0) e))

sized-lem :
    (ip : Inode) (off : ℕ)
    → ((sized ip off).d.extents ≡ ip.d.extents)
      × (off ≤ (sized ip off).d.size)
      × ((sized ip off).d.size ≤ ip.d.size ⊎ (sized ip off).d.size ≤ off)
unfolding sized
sized-lem ip off = elim (Bool-cases (ltb ip.d.size off)) [
  | inl q ↦ (elim (Bool-cases (ip.d.type == t_dir)) [
    | inl z ↦ rw (q, z) (refl, omega arith, inr (omega arith))
    | inr z ↦ rw (q, z) (refl, omega arith, inr (omega arith))
  ])
  | inr q ↦
      let l = ltb→le ip.d.size off q in
      (elim (Bool-cases (ip.d.type == t_dir)) [
        | inl z ↦ rw (q, z) (refl, l, inl (omega arith))
        | inr z ↦ rw (q, z) (refl, l, inl (omega arith))
      ])
]

-- update_checksum makes the checksum that of the contents.
update_checksum_lem :
    (d : Disk) (ip : Inode)
    → IsStored d.fs ip.d.extents
    → ip.d.size ≤ 1024 * length (blocks ip.d.extents)
    → (c : ℕ) × (update_checksum d ip ≡ ok (d, with_checksum ip c))
      × (mismatch d (with_checksum ip c) ≡ 0)
unfolding update_checksum
update_checksum_lem d ip h fit = elim (Bool-cases (is_regular ip)) [
  | inl reg ↦
      let c : ℕ = reference (content d ip.d.extents 0 ip.d.size) in
      (c, rw (inode_checksum_lem d ip h fit reg, reg) refl, rw (reg, eq→== c c refl) refl)
  | inr plain ↦ (ip.d.checksum, rw (plain) refl, rw (plain) refl)
]

-- What finish_write leaves: the checksum is right.
pub record Finished (d : Disk) (ip : Inode) (off : ℕ) (d' : Disk) (ip' : Inode) : Type 0 where
  pub extents : ip'.d.extents ≡ ip.d.extents
  pub size : off ≤ ip'.d.size
  pub fits : ip'.d.size ≤ 1024 * length (blocks ip.d.extents)
  pub disk : d' ≡ record d { fs = iupdate ip' d.fs }
  pub sum : mismatch d' ip' ≡ 0

finish_write_lem :
    (d : Disk) (ip : Inode) (off : ℕ)
    → IsStored d.fs ip.d.extents
    → ip.d.size ≤ 1024 * length (blocks ip.d.extents)
    → off ≤ 1024 * length (blocks ip.d.extents)
    → (d' : Disk) × (ip' : Inode) × (finish_write d ip off ≡ ok (d', ip'))
      × Finished d ip off d' ip'
unfolding finish_write
finish_write_lem d ip off h fit le =
    let s = sized-lem ip off in
    let es = (sized ip off).d.extents in
    let fit' : (sized ip off).d.size ≤ 1024 * length (blocks ip.d.extents) =
      omega (arith, s.2, fit, le) in
    let (c, e, z) =
      update_checksum_lem d (sized ip off) (subst (IsStored d.fs) (sym s.0) h)
        (subst (λ es. (sized ip off).d.size ≤ 1024 * length (blocks es)) (sym s.0) fit') in
    let ip' : Inode = with_checksum (sized ip off) c in
    (
      record d { fs = iupdate ip' d.fs },
      ip',
      rw (e) refl,
      record {
        extents = s.0;
        size = s.1;
        fits = fit';
        disk = refl;
        sum =
            ap (λ x. if is_regular ip' && not (reference x == c) then 1 else 0)
              (content-bytes (record d { fs = iupdate ip' d.fs }) d ip'.d.extents 0 ip'.d.size refl)
            ∙ z;
      },
    )

bind_some :
    (x : Run (Disk × Inode)) (d : Disk) (ip : Inode) (tot n : ℕ)
    → let r : Run (Disk × Inode × Option ℕ) = ok (d, ip, some n) in
      (x >>= λ q. ok (q.0, q.1, some tot)) ≡ r → (tot ≡ n) × (x ≡ ok (d, ip))
bind_some (panic s) d ip tot n e = absurd cc
bind_some (ok (d1, ip1)) d ip tot n e =
    let v = ok_injective {A = Disk × Inode × Option ℕ} (d1, ip1, some tot) (d, ip, some n) e in
    (eq_of_some tot n (ap (λ x. x.2) v), ap (λ x. ok (x.0, x.1)) v)

IsStored-Finished :
    (d : Disk) (ip : Inode) (off : ℕ) (d' : Disk) (ip' : Inode)
    → IsStored d.fs ip.d.extents
    → Finished d ip off d' ip'
    → IsStored d'.fs ip'.d.extents
IsStored-Finished d ip off d' ip' h f =
    let g = h.file in
    subst (λ x. IsStored x.fs ip'.d.extents) (sym f.disk)
      (subst (IsStored (iupdate ip' d.fs)) (sym f.extents) (record {
        file = record {
          words = g.words;
          boot = g.boot;
          packed = g.packed;
          within = g.within;
          marked = g.marked;
          distinct = g.distinct;
        };
        small = h.small;
        nonzero = h.nonzero;
      }))

read-Finished :
    (copy : ℕ → ℕ → ℕ) (d : Disk) (ip : Inode) (d' : Disk) (ip' : Inode) (dst off end : ℕ)
    (xs : List ℕ)
    → Copies copy
    → IsStored d.fs ip.d.extents
    → Finished d ip end d' ip'
    → off + length xs ≤ end
    → off + length xs < 2 ^ 32
    → content d ip.d.extents off (length xs) ≡ xs
    → readi copy d' ip' dst off (length xs) ≡ ok (d', ip', some xs)
read-Finished copy d ip d' ip' dst off end xs c h f le word e =
    let fits : ip'.d.size ≤ 1024 * length (blocks ip'.d.extents) =
      subst (λ es. ip'.d.size ≤ 1024 * length (blocks es)) (sym f.extents) f.fits in
    let all : min (length xs) (ip'.d.size - off) ≡ length xs = omega (arith, le, f.size) in
    let es : content d' ip'.d.extents off (min (length xs) (ip'.d.size - off)) ≡ xs =
      ap₂ (λ es n. content d' es off n) f.extents all
      ∙ content-bytes d' d ip.d.extents off (length xs) (ap (λ x. x.bytes) f.disk)
      ∙ e in
    readi_within copy d' ip' dst off (length xs) c (IsStored-Finished d ip end d' ip' h f) fits
      (omega (arith, le, f.size)) word
    ∙ ap₂ (λ k x. ok (record d' { errors = k }, ip', some x)) (no_errors _) es
  where
    no_errors : (b : Bool) → d'.errors + (if b then mismatch d' ip' else 0) ≡ d'.errors
    no_errors true = omega (arith, f.sum)
    no_errors false = omega arith

on_disk :
    (d : Disk) (ip : Inode) (d' : Disk) (ip' : Inode) (off : ℕ)
    → Finished d ip off d' ip'
    → d'.fs.dinodes ip'.inum ≡ ip'.d
on_disk d ip d' ip' off f =
    ap (λ x. x.fs.dinodes ip'.inum) f.disk ∙ update_self d.fs.dinodes ip'.inum ip'.d

-- A read gives `xs`, the checksum is right, and the inode is on the disk.
abbrev ReadsBack : (ℕ → ℕ → ℕ) → ℕ → ℕ → List ℕ → Disk → Inode → Type 0
ReadsBack copy dst off xs d ip =
    (readi copy d ip dst off (length xs) ≡ ok (d, ip, some xs))
    × (mismatch d ip ≡ 0)
    × (d.fs.dinodes ip.inum ≡ ip.d)

read_back :
    (copy : ℕ → ℕ → ℕ) (d : Disk) (ip : Inode) (dst off : ℕ) (xs : List ℕ) (d1 : Disk) (ip1 : Inode)
    (tot : ℕ) (d' : Disk) (ip' : Inode)
    → Copies copy
    → ip.d.size ≤ 1024 * length (blocks ip.d.extents)
    → off ≤ ip.d.size
    → off + length xs < 2 ^ 32
    → Written d ip off xs tot d1 ip1
    → tot ≡ length xs
    → length (blocks ip1.d.extents) ≤ maxfile
    → finish_write d1 ip1 (off + tot) ≡ ok (d', ip')
    → ReadsBack copy dst off xs d' ip'
read_back copy d ip dst off xs d1 ip1 tot d' ip' c fit le word w all small e =
    let size : ip1.d.size ≡ ip.d.size = ap (λ p. p.d.size) w.inode in
    let stored : IsStored d1.fs ip1.d.extents = record {
      file = w.file;
      small = small;
      nonzero = w.nonzero;
    } in
    let (d2, ip2, e2, f) =
      finish_write_lem d1 ip1 (off + tot) stored (omega (arith, size, fit, w.longer))
        (omega (arith, w.inside, fit, le, w.longer)) in
    let v = ok_injective {A = Disk × Inode} (d2, ip2) (d', ip') (sym e2 ∙ e) in
    let bytes =
      content-list d1 ip1.d.extents off xs (omega (arith, w.inside, all, le, fit, w.longer))
        (λ i l r. w.new i l (omega (arith, r, all))) in
    subst (λ p. ReadsBack copy dst off xs p.0 p.1) v
      (
        read-Finished copy d1 ip1 d2 ip2 dst off (off + tot) xs c stored f (omega (arith, all)) word
            bytes,
        f.sum,
        on_disk d1 ip1 d2 ip2 (off + tot) f,
      )

-- A write of all of `xs`, and the read of it.
after_write :
    (copy : ℕ → ℕ → ℕ) (d : Disk) (ip : Inode) (dst off : ℕ) (xs : List ℕ) (d' : Disk) (ip' : Inode)
    (r : Run (Disk × Inode × ℕ))
    → Copies copy
    → ip.d.size ≤ 1024 * length (blocks ip.d.extents)
    → off ≤ ip.d.size
    → off + length xs < 2 ^ 32
    → WriteResult d ip off xs r
    → (r >>= λ r. (finish_write r.0 r.1 (off + r.2) >>= λ q. ok (q.0, q.1, some r.2)))
      ≡ (let r : Run (Disk × Inode × Option ℕ) = ok (d', ip', some (length xs)) in r)
    → ReadsBack copy dst off xs d' ip'
after_write copy d ip dst off xs d' ip' (panic s) c fit le word w e = absurd cc
after_write copy d ip dst off xs d' ip' (ok (d1, ip1, tot)) c fit le word (w, alt) e =
    let b = bind_some (finish_write d1 ip1 (off + tot)) d' ip' tot (length xs) e in
    elim alt [
      | inr few ↦ absurd (omega (arith, few.0, b.0))
      | inl all ↦ read_back copy d ip dst off xs d1 ip1 tot d' ip' c fit le word w all.0 all.1 b.1
    ]

-- After a writei, with copies that succeed, to a stored file, from an offset at most at its end and
-- up to at most the largest size, that says that it has written all bytes: a readi of the same
-- range gives them back, and counts no error; if the file is regular, the checksum in the inode is
-- that of its contents; and the inode is on the disk as it is in memory.
pub readi-writei :
    (copy : ℕ → ℕ → ℕ) (d : Disk) (ip : Inode) (src dst off : ℕ) (xs : List ℕ) (d' : Disk)
    (ip' : Inode)
    → Copies copy
    → IsStored d.fs ip.d.extents
    → ip.d.size ≤ 1024 * length (blocks ip.d.extents)
    → off ≤ ip.d.size
    → off + length xs ≤ maxfile * bsize
    → writei copy d ip src off xs ≡ ok (d', ip', some (length xs))
    → (readi copy d' ip' dst off (length xs) ≡ ok (d', ip', some xs))
      × (mismatch d' ip' ≡ 0)
      × (d'.fs.dinodes ip'.inum ≡ ip'.d)
unfolding writei
readi-writei copy d ip src dst off xs d' ip' c h fit le max e =
    let e1 : add32 off (length xs) ≡ off + length xs = omega (arith, max) in
    let e2 : (ltb ip.d.size off || ltb (off + length xs) off) ≡ false = ground arith in
    let e3 : ltb (maxfile * bsize) (off + length xs) ≡ false = le→ltb _ _ max in
    let run : writei copy d ip src off xs ≡ (
        write_from (length xs) copy d ip src off xs >>= λ r.
        (finish_write r.0 r.1 (off + r.2) >>= λ q. ok (q.0, q.1, some r.2))) =
      rw (e1, e2, e3) refl in
    after_write copy d ip dst off xs d' ip' (write_from (length xs) copy d ip src off xs) c fit le
      (omega (arith, max))
      (write_from-WriteResult (length xs) copy d ip src off xs c h max (omega arith)) (sym run ∙ e)
