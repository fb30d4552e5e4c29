-- ===== src/Data/Grow.antt =====
-- bmap on an inode: the bytes of the file stay as they are, and those of new blocks are 0.
use hai_os.Base.{
  ℕ, ◌+◌, ◌-◌, ◌/◌, ◌≤◌, ◌<◌, ◌≡◌, refl, sym, ap, subst, ◌∙◌, ◌≢◌, ◌⊎◌, inl, inr, Bool, true, false,
  List, [], ◌∷◌, arith, ltb, ◌==◌, if◌then◌else◌, ne→==, ltb→lt, lt→ltb, ltb→le, Bool-cases, length,
  get_or, length-append, All, All-map, All-append, Run, ok, panic, ◌>>=◌, count,
}
use hai_os.Fs.{Fs, Extent, Inode, bmap}
use hai_os.Fs.FreeMap.{InUse}
use hai_os.Fs.Extents.{blocks, get_or-append_left, get_or-append_right}
use hai_os.Fs.Bmap.{maxfile, IsFile, Grown, Mapped, bmap_lem}
use hai_os.Data.{bsize, Disk, with_extents, cleared_bytes, bmap_at}
use hai_os.Data.Content.{file_byte, All-get_or, IsStored, bmap_at_lem}

-- Byte `i` of the blocks of a file, and 0 behind the last one.
abbrev pub stored_byte : Disk → List Extent → ℕ → ℕ
stored_byte d es i = if ltb (i / bsize) (length (blocks es)) then file_byte d es i else 0

-- The second disk and inode hold the file of the first, with the same bytes, perhaps in more blocks.
pub record Extends (d : Disk) (ip : Inode) (d' : Disk) (ip' : Inode) : Type 0 where
  pub inode : ip' ≡ with_extents ip ip'.d.extents
  pub file : IsFile d'.fs ip'.d.extents
  pub nonzero : All (λ b. b ≢ 0) (blocks ip'.d.extents)
  pub longer : length (blocks ip.d.extents) ≤ length (blocks ip'.d.extents)
  pub kept : (i : ℕ) → stored_byte d' ip'.d.extents i ≡ stored_byte d ip.d.extents i

-- What bmap may give: a block of the file; 0, where the disk is full; or the panic for too many
-- extents.
abbrev pub Stepped : Disk → Inode → ℕ → Run (ℕ × Disk × Inode) → Type 0
Stepped d ip bn (ok (b, d', ip')) =
    Extends d ip d' ip'
    × (((bn < length (blocks ip'.d.extents))
          × (length (blocks ip'.d.extents) ≤ maxfile)
          × (b ≡ get_or (blocks ip'.d.extents) bn 0)
          × ((b == 0) ≡ false))
        ⊎ ((b ≡ 0) × InUse d'.fs 0 d'.fs.size))
Stepped d ip bn (panic s) = s ≡ "bmap: extent overflow"

unmarked_count :
    (fs : Fs) (x : ℕ) (bs : List ℕ)
    → All (λ b. fs.bitmap b ≡ false) bs
    → fs.bitmap x ≡ true
    → count x bs ≡ 0
unmarked_count fs x [] h t = refl
unmarked_count fs x (b ∷ bs) h t = ground (arith, h.0, t, unmarked_count fs x bs h.1 t)

nonzero_fresh :
    (fs : Fs) (bs : List ℕ)
    → fs.bitmap 0 ≡ true
    → All (λ b. fs.bitmap b ≡ false) bs
    → All (λ b. b ≢ 0) bs
nonzero_fresh fs [] t h = tt
nonzero_fresh fs (b ∷ bs) t h = (λ e. ground (arith, t, h.0, e), nonzero_fresh fs bs t h.1)

IsFile-zeroed :
    (fs : Fs) (z : ℕ → Bool) (es : List Extent)
    → IsFile fs es
    → IsFile (record fs { zeroed = z }) es
IsFile-zeroed fs z es f = record {
  words = f.words;
  boot = f.boot;
  packed = f.packed;
  within = f.within;
  marked = f.marked;
  distinct = f.distinct;
}

Grown-kept :
    (d : Disk) (es es' : List Extent) (new : List ℕ) (fs' : Fs) (i : ℕ)
    → IsFile d.fs es
    → Grown (record d.fs { zeroed = λ b. false }) es new fs' es'
    → stored_byte
        (record d { fs = record fs' { zeroed = d.fs.zeroed }; bytes = cleared_bytes fs' d.bytes })
        es'
        i
      ≡ stored_byte d es i
Grown-kept d es es' new fs' i f g =
    let j : ℕ = i / 1024 in
    let len : length (blocks es') ≡ length (blocks es) + length new =
      ap length g.extended ∙ length-append (blocks es) new in
    elim (Bool-cases (ltb j (length (blocks es)))) [
      | inl q ↦
          let l = ltb→lt j (length (blocks es)) q in
          let x : ℕ = get_or (blocks es) j 0 in
          let ex : get_or (blocks es') j 0 ≡ x =
            ap (λ bs. get_or bs j 0) g.extended ∙ get_or-append_left (blocks es) new j 0 l in
          let marked : d.fs.bitmap x ≡ true = All-get_or _ (blocks es) j f.marked l in
          let none_new : count x new ≡ 0 =
            unmarked_count d.fs x new (All-map _ _ new (λ b p. p.0) g.fresh) marked in
          let same : fs'.zeroed x ≡ false = (g.others x none_new).1 in
          rw (lt→ltb j (length (blocks es')) (omega (arith, l, len)), q, ex, same) refl
      | inr q ↦
          let l = ltb→le j (length (blocks es)) q in
          (elim (Bool-cases (ltb j (length (blocks es')))) [
            | inl q' ↦
                let l' = ltb→lt j (length (blocks es')) q' in
                let x : ℕ = get_or new (j - length (blocks es)) 0 in
                let ex : get_or (blocks es') j 0 ≡ x =
                  ap (λ bs. get_or bs j 0) g.extended ∙ get_or-append_right (blocks es) new j 0 l in
                let clear : fs'.zeroed x ≡ true =
                  (All-get_or _ new (j - length (blocks es)) g.fresh
                    (omega (arith, l, l', len))).1 in
                rw (q', q, ex, clear) refl
            | inr q' ↦ rw (q', q) refl
          ])
    ]

grown-Stepped :
    (d : Disk) (ip : Inode) (bn : ℕ) (r : Run (ℕ × Fs × List Extent))
    → IsStored d.fs ip.d.extents
    → bn < maxfile
    → length (blocks ip.d.extents) ≤ bn
    → Mapped (record d.fs { zeroed = λ b. false }) ip.d.extents bn r
    → Stepped d ip bn (
        r >>= λ r. ok (
          r.0,
          record d { fs = record r.1 { zeroed = d.fs.zeroed }; bytes = cleared_bytes r.1 d.bytes },
          with_extents ip r.2,
        ))
grown-Stepped d ip bn (panic s) h lt le (fs', es', new, g, used, e) = e
grown-Stepped d ip bn (ok (b, fs', es')) h lt le (new, g, alt) =
    let es = ip.d.extents in
    let len : length (blocks es') ≡ length (blocks es) + length new =
      ap length g.extended ∙ length-append (blocks es) new in
    let free : All (λ b. d.fs.bitmap b ≡ false) new = All-map _ _ new (λ b p. p.0) g.fresh in
    (
      record {
        inode = refl;
        file = IsFile-zeroed fs' d.fs.zeroed es' g.file;
        nonzero =
            subst (All (λ b. b ≢ 0)) (sym g.extended)
              (All-append _ (blocks es) new h.nonzero (nonzero_fresh d.fs new h.file.boot free));
        longer = omega (arith, len);
        kept = λ i. Grown-kept d es es' new fs' i h.file g;
      },
      elim alt [
        | inl a ↦ inl (omega (arith, a.0), omega (arith, a.0, lt), a.1, ne→== b 0 a.2)
        | inr a ↦ inr a
      ],
    )

-- bmap on an inode of a stored file.
pub bmap_at-Stepped :
    (d : Disk) (ip : Inode) (bn : ℕ)
    → IsStored d.fs ip.d.extents
    → bn < maxfile
    → Stepped d ip bn (bmap_at d ip bn)
unfolding bmap_at
bmap_at-Stepped d ip bn h lt =
    let fs1 : Fs = record d.fs { zeroed = λ b. false } in
    let file = IsFile-zeroed d.fs (λ b. false) ip.d.extents h.file in
    elim (bmap_lem fs1 ip.d.extents bn file h.small lt) [
      | inl hit ↦
          let b = bmap_at_lem d ip bn h hit.0 in
          subst (Stepped d ip bn) (sym b.0) (
            record {
              inode = refl;
              file = h.file;
              nonzero = h.nonzero;
              longer = omega arith;
              kept = λ i. refl;
            },
            inl (hit.0, h.small, refl, b.1),
          )
      | inr miss ↦ grown-Stepped d ip bn (bmap fs1 ip.d.extents bn) h lt miss.0 miss.1
    ]
