-- ===== src/Vm/Isolation.antt =====
-- cowfault in a child after uvmcopy: parent and child no longer share the page.
use hai_os.Base.{
  ◌&&◌, ℕ, Bool, ◌+◌, ◌*◌, ◌/◌, ◌<◌, ◌≡◌, refl, ap, subst, ◌∙◌, ◌≢◌, true, false, [], ◌∷◌, arith,
  ◌==◌, eq→==, Run, ok, panic,
}
use hai_os.Kalloc.Invariant.{IsPage}
use hai_os.Vm.{maxva, pgrounddown, Pte, Root, Machine, pte_at}
use hai_os.Vm.Map.{in_pages, valid-below}
use hai_os.Vm.Memory.{IsMemory, refs}
use hai_os.Vm.Ops.{shared_flags, uvmcopy, cowfault}
use hai_os.Vm.Share.{shared, UserPages, Copied, CopyResult}
use hai_os.Vm.Cow.{Broken, CowResult, cowfault-CowResult}
use hai_os.Vm.Fork.{uvmcopy-CopyResult}
use hai_os.Vm.Enough.{free, Unmapped, uvmcopy-Succeeds}

freelist-free :
    (end : ℕ) (m : Machine) → 0 < end → IsMemory end m → 0 < free m → m.kmem.freelist ≢ 0
freelist-free end m pe ([], ys, inv) h = absurd (omega (arith, inv.counted, h))
freelist-free end m pe (x ∷ xs, ys, inv) h = omega (arith, inv.chain.0, inv.pages.0.1, pe)

-- Where a page is free, a fault on a copy-on-write page is resolved.
cowfault-Broken :
    (end : ℕ) (m : Machine) (t : Root) (addr : ℕ)
    → 0 < end
    → IsMemory end m
    → 0 < free m
    → let p = pte_at t (pgrounddown addr) in
      p.v ≡ true
      → p.flags.cow ≡ true
      → IsPage end p.pa
      → 0 < refs m p.pa
      → (m' : Machine) × (t' : Root) × (cowfault end m t addr ≡ ok (m', t', true))
        × Broken end m t (pgrounddown addr) m' t'
cowfault-Broken end m t addr pe mem some_free v cow page used =
    given (cowfault end m t addr) (cowfault-CowResult end m t addr pe mem v cow page used)
  where
    given :
        (r : Run (Machine × Root × Bool))
        → CowResult end m t (pgrounddown addr) r
        → (m' : Machine) × (t' : Root) × (r ≡ ok (m', t', true))
          × Broken end m t (pgrounddown addr) m' t'
    given (ok (m', t', true)) b = (m', t', refl, b)
    given (ok (m', t', false)) (empty, t_same, bytes, counts) =
        absurd (freelist-free end m pe mem some_free empty)
    given (panic s) b = absurd b

-- The entry of a page that both processes have after uvmcopy.
shared-fields :
    (p : Pte)
    → ((shared p).v ≡ p.v)
      × ((shared p).pa ≡ p.pa)
      × (p.flags.w ≡ true → (shared p).flags.cow ≡ true)
unfolding shared_flags
shared-fields p = (refl, refl, λ w. rw w refl)

-- The page that a resolved fault gives is not one of the pages in use before, and these keep their
-- bytes.
Broken-apart :
    (end : ℕ) (m m' : Machine) (t t' : Root) (va q : ℕ)
    → va < maxva
    → (pte_at t va).v ≡ true
    → Broken end m t va m' t'
    → IsPage end q
    → 0 < refs m q
    → ((pte_at t' va).flags.w ≡ true)
      × ((pte_at t' va).pa ≢ q)
      × ((i : ℕ) → i < 4096 → m'.bytes (q + i) ≡ m.bytes (q + i))
      × ((i : ℕ) → i < 4096 → m'.bytes ((pte_at t' va).pa + i) ≡ m.bytes ((pte_at t va).pa + i))
Broken-apart end m m' t t' va q low v b page used =
    let self : (va / 4096 == va / 4096) ≡ true = eq→== (va / 4096) (va / 4096) refl in
    let ne : b.mem ≢ q = λ e. absurd (omega (arith, used, b.unused, ap (refs m) e)) in
    rw (b.entries va low, self)
      (refl, ne, λ i hi. b.elsewhere (q + i) (ground (arith, hi, b.page.0, page.0, ne)), b.copied)

-- What a write fault at `addr` in a child leaves, after uvmcopy into it, for the address `a` of the
-- parent.
pub record Apart (m1 : Machine) (parent : Root) (addr a : ℕ) (m2 : Machine) (child : Root)
    : Type 0 where
  pub writable : (pte_at child (pgrounddown addr)).flags.w ≡ true
  pub other_page : (pte_at child (pgrounddown addr)).pa ≢ (pte_at parent a).pa
  pub parent_kept :
      (i : ℕ) → i < 4096 → m2.bytes ((pte_at parent a).pa + i) ≡ m1.bytes ((pte_at parent a).pa + i)
  pub child_same :
      (i : ℕ)
      → i < 4096
      → m2.bytes ((pte_at child (pgrounddown addr)).pa + i)
        ≡ m1.bytes ((pte_at parent (pgrounddown addr)).pa + i)

-- A page that the parent maps is shared after uvmcopy, and in use.
Copied-used :
    (end : ℕ) (m : Machine) (old new : Root) (n a : ℕ) (m1 : Machine) (old1 new1 : Root)
    → UserPages end m old 0 n
    → Copied end m old new 0 n m1 old1 new1
    → in_pages 0 n a ≡ true
    → (pte_at old a).v ≡ true
    → (pte_at old1 a ≡ shared (pte_at old a))
      × (pte_at new1 a ≡ shared (pte_at old a))
      × IsPage end (pte_at old a).pa
      × (0 < refs m1 (pte_at old a).pa)
Copied-used end m old new n a m1 old1 new1 users c inside v =
    let low = valid-below old a v in
    let (page, used, room) = users a low inside v in
    let both : (in_pages 0 n a && (pte_at old a).v) ≡ true = rw (inside, v) refl in
    (
      c.parent a low ∙ rw both refl,
      c.child a low ∙ rw both refl,
      page,
      omega (arith, c.counts (pte_at old a).pa page used, used),
    )

-- A fork, and a write fault of the child on a page that was writable in the parent, where uvmcopy's
-- conditions hold and one page more is free: both succeed. The child has a writable page there then,
-- with the bytes of the parent's page; it is none of the pages that the parent maps below its size,
-- and these keep their bytes in the fault.
pub cowfault-uvmcopy :
    (end : ℕ) (m : Machine) (old new : Root) (sz addr a : ℕ)
    → 0 < end
    → IsMemory end m
    → UserPages end m old 0 ((sz + 4095) / 4096)
    → Unmapped new 0 ((sz + 4095) / 4096)
    → 2 * ((sz + 4095) / 4096) < m.kmem.free_pages
    → in_pages 0 ((sz + 4095) / 4096) (pgrounddown addr) ≡ true
    → (pte_at old (pgrounddown addr)).v ≡ true
    → (pte_at old (pgrounddown addr)).flags.w ≡ true
    → in_pages 0 ((sz + 4095) / 4096) a ≡ true
    → (pte_at old a).v ≡ true
    → (m1 : Machine) × (old1 : Root) × (new1 : Root) × (m2 : Machine) × (new2 : Root) × (uvmcopy end
          m old new sz
        ≡ ok (m1, old1, new1, true))
      × (cowfault end m1 new1 addr ≡ ok (m2, new2, true))
      × Apart m1 old1 addr a m2 new2
cowfault-uvmcopy end m old new sz addr a pe mem users fresh h inside v w inside_a v_a =
    let n : ℕ = (sz + 4095) / 4096 in
    let va = pgrounddown addr in
    let (m1, old1, new1, e, le) =
      uvmcopy-Succeeds end m old new sz pe mem users fresh (omega (arith, h)) in
    let c : Copied end m old new 0 n m1 old1 new1 =
      subst (CopyResult end m old new 0 n) e (uvmcopy-CopyResult end m old new sz pe mem users) in
    let (p_va, c_va, page, used) = Copied-used end m old new n va m1 old1 new1 users c inside v in
    let (p_a, c_a, page_a, used_a) =
      Copied-used end m old new n a m1 old1 new1 users c inside_a v_a in
    let f = shared-fields (pte_at old va) in
    let valid : (pte_at new1 va).v ≡ true = rw c_va v in
    let (m2, new2, e2, b) =
      cowfault-Broken end m1 new1 addr pe c.memory (omega (arith, h, le)) valid (rw c_va (f.2 w))
        (rw c_va page) (rw c_va used) in
    let d =
      Broken-apart end m1 m2 new1 new2 va (pte_at old a).pa (valid-below old va v) valid b page_a
        used_a in
    (
      m1,
      old1,
      new1,
      m2,
      new2,
      e,
      e2,
      record {
        writable = d.0;
        other_page = rw p_a d.1;
        parent_kept = rw p_a d.2;
        child_same = λ i hi. d.3 i hi ∙ rw (c_va, p_va) refl;
      },
    )
