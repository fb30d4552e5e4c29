-- ===== src/Fs/Bmap.antt =====
-- bmap against the list of the file's blocks: it gives the block at an index, and lengthens the
-- list where the index is beyond its end.
use hai_os.Base.{
  or_panic, ℕ, zero, suc, ◌+◌, ◌-◌, ◌^◌, ◌≤◌, ◌<◌, ◌≡◌, refl, sym, ap, ap₂, subst, ◌∙◌, ◌≢◌, ◌⊎◌,
  inl, inr, true, false, Option, none, some, List, [], ◌∷◌, ◌++◌, append-nil, append_assoc, arith,
  ltb, ◌==◌, if◌then◌else◌, ne→==, ==→eq, ltb→lt, ltb→le, Bool-cases, length, get_or, length-append,
  All, All-append, Run, ok, panic, ◌>>=◌, count, count-append, count-le-length, update_self,
  update_ne,
}
use hai_os.Fs.{Extent, Fs, last_extent, extent_append, allocate, bmap_from, bmap}
use hai_os.Fs.FreeMap.{InUse, take_block, balloc_near_lem}
use hai_os.Fs.Extents.{
  blocks, Packed, Within, find_extent-hit, find_extent-miss, get_or-append_last,
}
use hai_os.Fs.Append.{Added, AllUsed, AppendResult, extent_append_lem}

-- MAXFILE
abbrev pub maxfile : ℕ
maxfile = 1024

-- A file on its disk: its slots in use come first and lie on the disk, each of its blocks is marked
-- in use and stands once in the file, and the boot block is in use.
pub record IsFile (fs : Fs) (es : List Extent) : Type 0 where
  pub words : fs.size < 2 ^ 32
  pub boot : fs.bitmap 0 ≡ true
  pub packed : Packed es
  pub within : Within fs.size es
  pub marked : All (λ b. fs.bitmap b ≡ true) (blocks es)
  pub distinct : (b : ℕ) → count b (blocks es) ≤ 1

-- The file `es'` on `fs'` is `es` on `fs` with the blocks `new` behind it, which were free before,
-- are cleared, and are the only ones that the free map now has besides.
pub record Grown (fs : Fs) (es : List Extent) (new : List ℕ) (fs' : Fs) (es' : List Extent)
    : Type 0 where
  pub file : IsFile fs' es'
  pub extended : blocks es' ≡ blocks es ++ new
  pub slots : length es' ≡ length es
  pub sized : fs'.size ≡ fs.size
  pub fresh : All (λ b. (fs.bitmap b ≡ false) × (fs'.zeroed b ≡ true)) new
  pub kept : (b : ℕ) → fs.zeroed b ≡ true → fs'.zeroed b ≡ true
  pub others :
      (b : ℕ) → count b new ≡ 0 → (fs'.bitmap b ≡ fs.bitmap b) × (fs'.zeroed b ≡ fs.zeroed b)

marked_after :
    (fs : Fs) (b : ℕ) (bs : List ℕ)
    → All (λ x. fs.bitmap x ≡ true) bs
    → All (λ x. (take_block b fs).bitmap x ≡ true) bs
marked_after fs b [] h = tt
marked_after fs b (x ∷ xs) h = (ground (arith, h.0), marked_after fs b xs h.1)

unmarked_count :
    (fs : Fs) (b : ℕ) (bs : List ℕ)
    → All (λ x. fs.bitmap x ≡ true) bs
    → fs.bitmap b ≡ false
    → count b bs ≡ 0
unmarked_count fs b [] h f = refl
unmarked_count fs b (x ∷ xs) h f = elim (Bool-cases (x == b)) [
  | inl e ↦
      let q : fs.bitmap x ≡ fs.bitmap b = ap fs.bitmap (==→eq x b e) in
      absurd (true_false (sym h.0 ∙ q ∙ f))
  | inr e ↦ rw e (unmarked_count fs b xs h.1 f)
]
  where
    true_false : true ≡ false → ⊥
    true_false q = cc

Grown-one :
    (fs : Fs) (es es' : List Extent) (b : ℕ)
    → IsFile fs es
    → fs.bitmap b ≡ false
    → Added fs.size es b es'
    → Grown fs es (b ∷ []) (take_block b fs) es'
Grown-one fs es es' b h free a = record {
  file = record {
    words = h.words;
    boot = ground (arith, h.boot);
    packed = a.1;
    within = a.2;
    marked = rw (a.0) (
        All-append (λ x. (take_block b fs).bitmap x ≡ true) (blocks es) (b ∷ [])
          (marked_after fs b (blocks es) h.marked) (update_self fs.bitmap b true, tt));
    distinct = λ x.
        (let ca = count-append x (blocks es) (b ∷ []) in
          rw (a.0) (elim (Bool-cases (b == x)) [
            | inl e ↦
                let u = unmarked_count fs b (blocks es) h.marked free in
                let ux : count x (blocks es) ≡ 0 = rw (sym (==→eq b x e)) u in
                omega (arith, ca, ux, count-le-length x (b ∷ []))
            | inr e ↦
                let one : count x (b ∷ []) ≡ 0 = rw e refl in omega (arith, ca, h.distinct x, one)
          ]));
  };
  extended = a.0;
  slots = a.3;
  sized = refl;
  fresh = ((free, update_self fs.zeroed b true), tt);
  kept = λ x z. ground (arith, z);
  others = λ x z.
      (let ne : b ≢ x = ground arith in
        (update_ne fs.bitmap b x true ne, update_ne fs.zeroed b x true ne));
}

fresh_before :
    (fs fs1 fs2 : Fs) (es es1 : List Extent) (n1 n2 : List ℕ)
    → Grown fs es n1 fs1 es1
    → All (λ b. (fs1.bitmap b ≡ false) × (fs2.zeroed b ≡ true)) n2
    → All (λ b. (fs.bitmap b ≡ false) × (fs2.zeroed b ≡ true)) n2
fresh_before fs fs1 fs2 es es1 n1 [] g h = tt
fresh_before fs fs1 fs2 es es1 n1 (b ∷ n2) g h =
    let u = unmarked_count fs1 b (blocks es1) g.file.marked h.0.0 in
    let u1 : count b (blocks es ++ n1) ≡ 0 = rw (sym g.extended) u in
    let z : count b n1 ≡ 0 = omega (arith, u1, count-append b (blocks es) n1) in
    ((sym (g.others b z).0 ∙ h.0.0, h.0.1), fresh_before fs fs1 fs2 es es1 n1 n2 g h.1)

fresh_after :
    (fs fs1 fs2 : Fs) (n1 : List ℕ)
    → ((b : ℕ) → fs1.zeroed b ≡ true → fs2.zeroed b ≡ true)
    → All (λ b. (fs.bitmap b ≡ false) × (fs1.zeroed b ≡ true)) n1
    → All (λ b. (fs.bitmap b ≡ false) × (fs2.zeroed b ≡ true)) n1
fresh_after fs fs1 fs2 [] k h = tt
fresh_after fs fs1 fs2 (b ∷ n1) k h = ((h.0.0, k b h.0.1), fresh_after fs fs1 fs2 n1 k h.1)

Grown-trans :
    (fs fs1 fs2 : Fs) (es es1 es2 : List Extent) (n1 n2 : List ℕ)
    → Grown fs es n1 fs1 es1
    → Grown fs1 es1 n2 fs2 es2
    → Grown fs es (n1 ++ n2) fs2 es2
Grown-trans fs fs1 fs2 es es1 es2 n1 n2 g h = record {
  file = h.file;
  extended = h.extended ∙ ap (λ bs. bs ++ n2) g.extended ∙ append_assoc (blocks es) n1 n2;
  slots = h.slots ∙ g.slots;
  sized = h.sized ∙ g.sized;
  fresh =
      All-append (λ b. (fs.bitmap b ≡ false) × (fs2.zeroed b ≡ true)) n1 n2
        (fresh_after fs fs1 fs2 n1 h.kept g.fresh) (fresh_before fs fs1 fs2 es es1 n1 n2 g h.fresh);
  kept = λ b z. h.kept b (g.kept b z);
  others = λ b z.
      (let ca = count-append b n1 n2 in
        let o1 = g.others b (omega (arith, ca, z)) in
        let o2 = h.others b (omega (arith, ca, z)) in (o2.0 ∙ o1.0, o2.1 ∙ o1.1));
}

Grown-none : (fs : Fs) (es : List Extent) → IsFile fs es → Grown fs es [] fs es
Grown-none fs es h = record {
  file = h;
  extended = sym (append-nil (blocks es));
  slots = refl;
  sized = refl;
  fresh = tt;
  kept = λ b z. z;
  others = λ b z. (refl, refl);
}

-- What bmap may give for block `bn`: a block of the file, lengthened to `bn + 1` blocks; 0, where no
-- block of the disk is free any more; or the panic, where every slot is in use.
abbrev pub Mapped : Fs → List Extent → ℕ → Run (ℕ × Fs × List Extent) → Type 0
Mapped fs es bn (ok (b, fs', es')) =
    (new : List ℕ) × Grown fs es new fs' es'
    × (((length (blocks es') ≡ bn + 1) × (b ≡ get_or (blocks es') bn 0) × (b ≢ 0))
        ⊎ ((b ≡ 0) × InUse fs' 0 fs'.size))
Mapped fs es bn (panic s) =
    (fs' : Fs) × (es' : List Extent) × (new : List ℕ) × Grown fs es new fs' es'
    × AllUsed es'
    × (s ≡ "bmap: extent overflow")

Mapped-trans :
    (fs fs1 : Fs) (es es1 : List Extent) (n1 : List ℕ) (bn : ℕ) (r : Run (ℕ × Fs × List Extent))
    → Grown fs es n1 fs1 es1
    → Mapped fs1 es1 bn r
    → Mapped fs es bn r
Mapped-trans fs fs1 es es1 n1 bn (ok (b, fs', es')) g (n2, h, m) =
    (n1 ++ n2, Grown-trans fs fs1 fs' es es1 es' n1 n2 g h, m)
Mapped-trans fs fs1 es es1 n1 bn (panic s) g (fs', es', n2, h, used, e) =
    (fs', es', n1 ++ n2, Grown-trans fs fs1 fs' es es1 es' n1 n2 g h, used, e)

-- The rest of a pass of the loop, when block `b` has been allocated and `o` is what extent_append
-- gave.
appended-Mapped :
    (n bn base b : ℕ) (last : ℕ × ℕ) (fs : Fs) (es : List Extent) (o : Option (List Extent))
    → ((es1 : List Extent)
        → IsFile (take_block b fs) es1
        → length (blocks es1) ≡ base + 1
        → base + 1 ≤ bn
        → Mapped
            (take_block b fs)
            es1
            bn
            (allocate n bn (base + 1) (last_extent es1 (b, last.1)) (take_block b fs) es1))
    → IsFile fs es
    → length (blocks es) ≡ base
    → base ≤ bn
    → b ≢ 0
    → fs.bitmap b ≡ false
    → AppendResult fs.size es b o
    → Mapped fs es bn (
        or_panic "bmap: extent overflow" o >>= λ es1.
        (let rest = allocate n bn (base + 1) (last_extent es1 (b, last.1)) (take_block b fs) es1 in
          if base == bn then ok (b, take_block b fs, es1) else rest))
appended-Mapped n bn base b last fs es none ih h el le nz free r =
    (fs, es, [], Grown-none fs es h, r.0, refl)
appended-Mapped n bn base b last fs es (some es1) ih h el le nz free r =
    let g = Grown-one fs es es1 b h free r in
    let la : length (blocks es1) ≡ base + 1 =
      ap length r.0 ∙ omega (arith, length-append (blocks es) (b ∷ []), el) in
    elim (Bool-cases (base == bn)) [
      | inl q ↦ rw q (
        b ∷ [],
        g,
        inl (
          omega (arith, la, ==→eq base bn q),
          sym (
              ap₂ (λ bs i. get_or bs i 0) r.0 (sym (==→eq base bn q) ∙ sym el)
              ∙ get_or-append_last (blocks es) b 0),
          nz,
        ),
      )
      | inr q ↦ rw q (
          Mapped-trans fs (take_block b fs) es es1 (b ∷ []) bn
            (allocate n bn (base + 1) (last_extent es1 (b, last.1)) (take_block b fs) es1) g
            (ih es1 g.file la (ground arith)))
    ]

allocate-Mapped :
    (n bn base : ℕ) (last : ℕ × ℕ) (fs : Fs) (es : List Extent)
    → IsFile fs es
    → length (blocks es) ≡ base
    → base ≤ bn
    → n ≡ bn + 1 - base
    → Mapped fs es bn (allocate n bn base last fs es)
unfolding allocate
allocate-Mapped zero bn base last fs es h el le en = absurd (omega (arith, en, le))
allocate-Mapped (suc n) bn base last fs es h el le en = elim (balloc_near_lem fs last h.boot) [
  | inl (full, e) ↦ rw e ([], Grown-none fs es h, inr (refl, full))
  | inr (b, lt, nz, free, e) ↦
      rw (e, ne→== b 0 nz)
        (appended-Mapped n bn base b last fs es (extent_append es b)
          (λ es1 h1 l1 le1.
            allocate-Mapped n bn (base + 1) (last_extent es1 (b, last.1)) (take_block b fs) es1 h1
              l1 le1 (omega (arith, en)))
          h el le nz free (extent_append_lem fs.size es b h.words lt h.within h.packed))
]

-- bmap on a file, for a block number below MAXFILE: on a block that the file has, it gives that
-- block and changes nothing; beyond the end it lengthens the file by free blocks, cleared and marked
-- in use, up to the block asked for, and gives that; or it gives 0 and no block of the disk is free;
-- or it panics with "bmap: extent overflow", and then every slot of the file is in use.
pub bmap_lem :
    (fs : Fs) (es : List Extent) (bn : ℕ)
    → IsFile fs es
    → length (blocks es) ≤ maxfile
    → bn < maxfile
    → ((bn < length (blocks es)) × (bmap fs es bn ≡ ok (get_or (blocks es) bn 0, fs, es)))
      ⊎ ((length (blocks es) ≤ bn) × Mapped fs es bn (bmap fs es bn))
unfolding bmap bmap_from
bmap_lem fs es bn h small lt = elim (Bool-cases (ltb bn (length (blocks es)))) [
  | inl q ↦
      let l = ltb→lt bn (length (blocks es)) q in
      let e =
        find_extent-hit fs.size es bn 0 (0, 0) h.words h.within (omega (arith, small)) (omega arith)
          (omega (arith, l)) in
      inl
        (l, ap (bmap_from fs es bn) e ∙ ap (λ i. ok (get_or (blocks es) i 0, fs, es)) (omega arith))
  | inr q ↦
      let l = ltb→le bn (length (blocks es)) q in
      let e = find_extent-miss es bn 0 (0, 0) (omega (arith, small)) (omega (arith, l)) in
      inr (
        l,
        subst (Mapped fs es bn) (sym (ap (bmap_from fs es bn) e)) (
            allocate-Mapped (bn + 1 - (0 + length (blocks es))) bn (0 + length (blocks es))
              (last_extent es (0, 0)) fs es h (omega arith) (omega (arith, l)) refl),
      )
]
