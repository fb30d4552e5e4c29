-- ===== src/Vm/Enough.antt =====
-- uvmcopy where memory is enough: two free pages for each page of the parent, one for each level of
-- tables below the root.
use hai_os.Base.{
  ℕ, zero, suc, ◌+◌, ◌-◌, ◌*◌, ◌/◌, ◌%◌, ◌^◌, ◌≤◌, ◌<◌, ◌≡◌, refl, sym, ap, subst, ◌∙◌, ◌≢◌, inl,
  inr, Bool, true, false, not, Option, none, some, [], ◌∷◌, arith, if◌then◌else◌, eq→==, ne→==,
  lt→leb, Bool-cases, Run, ok, ◌>>=◌,
}
use hai_os.Kalloc.{kalloc, kaddref}
use hai_os.Kalloc.Invariant.{IsPage, kalloc_fields}
use hai_os.Vm.{
  maxva, Flags, Mid, Leaf, Pte, Root, Machine, alloc_page, empty_leaf, empty_node, px, step_down,
  walk_leaf, walk_mid, walk_alloc, store, pte_at,
}
use hai_os.Vm.Tree.{walk_alloc-Walked}
use hai_os.Vm.Map.{in_pages, valid-below}
use hai_os.Vm.Memory.{IsMemory, refs, alloc_page_lem}
use hai_os.Vm.Refs.{RunKeeps, mappages-RunKeeps}
use hai_os.Vm.Ops.{
  mapping, map_pages, mappages, shared_flags, add_ref, after_ref, after_share, copy_one, copy_pages,
  uvmcopy,
}
use hai_os.Vm.Share.{shared, UserPages, Copied, CopyResult, add_ref_lem, copy_one-CopyResult}
use hai_os.Vm.Fork.{UserPages-tail}

abbrev pub free : Machine → ℕ
free m = m.kmem.free_pages

alloc_page-free :
    (end : ℕ) (m : Machine)
    → 0 < end
    → IsMemory end m
    → 0 < free m
    → ((alloc_page m).1 ≢ 0) × (free (alloc_page m).0 ≡ free m - 1)
unfolding alloc_page
alloc_page-free end m pe ([], ys, inv) h = absurd (omega (arith, inv.counted, h))
alloc_page-free end m pe (x ∷ xs, ys, inv) h =
    let nz : m.kmem.freelist ≢ 0 = omega (arith, inv.chain.0, inv.pages.0.1, pe) in
    let f = kalloc_fields m.kmem nz in
    let given : (kalloc m.kmem).1 ≢ 0 = omega (arith, f.0, nz) in
    rw (ne→== (kalloc m.kmem).1 0 given) (given, f.4)

-- A step down finds a table, at the cost of one page at most.
step_down-free :
    {A : Type 0} (end : ℕ) (new : ℕ → A) (m : Machine) (o : Option A)
    → 0 < end
    → IsMemory end m
    → 0 < free m
    → let r = step_down new m o in
      ((t : A) × (r.1 ≡ some t)) × IsMemory end r.0 × (free m ≤ free r.0 + 1)
unfolding step_down
step_down-free end new m (some t) pe mem h = ((t, refl), mem, omega arith)
step_down-free end new m none pe mem h =
    let a = alloc_page-free end m pe mem h in
    rw (ne→== (alloc_page m).1 0 a.0)
      ((new (alloc_page m).1, refl), (alloc_page_lem end m pe mem).0, omega (arith, a.1))

walk_leaf-found :
    (va : ℕ) (t : Root) (mid : Mid) (r : Machine × Option Leaf) (leaf : Leaf)
    → r.1 ≡ some leaf
    → ((walk_leaf va t mid r).2 ≡ true) × ((walk_leaf va t mid r).0 ≡ r.0)
unfolding walk_leaf
walk_leaf-found va t mid (m, none) leaf e = cc
walk_leaf-found va t mid (m, some l) leaf e = (refl, refl)

walk_mid-found :
    (end va : ℕ) (t : Root) (r : Machine × Option Mid) (mid : Mid)
    → 0 < end
    → r.1 ≡ some mid
    → IsMemory end r.0
    → 0 < free r.0
    → ((walk_mid va t r).2 ≡ true) × (free r.0 ≤ free (walk_mid va t r).0 + 1)
unfolding walk_mid
walk_mid-found end va t (m, none) mid pe e mem h = cc
walk_mid-found end va t (m, some x) mid pe e mem h =
    let s = step_down-free end empty_leaf m (x.child (px 1 va)) pe mem h in
    let w = walk_leaf-found va t x (step_down empty_leaf m (x.child (px 1 va))) s.0.0 s.0.1 in
    (w.0, rw (w.1) s.2)

walk_alloc-found :
    (end : ℕ) (m : Machine) (t : Root) (va : ℕ)
    → 0 < end
    → va < maxva
    → IsMemory end m
    → 2 ≤ free m
    → ((walk_alloc m t va).2 ≡ true) × (free m ≤ free (walk_alloc m t va).0 + 2)
unfolding walk_alloc
walk_alloc-found end m t va pe low mem h =
    let s = step_down-free end empty_node m (t.child (px 2 va)) pe mem (omega (arith, h)) in
    let w =
      walk_mid-found end va t (step_down empty_node m (t.child (px 2 va))) s.0.0 pe s.0.1 s.1
        (omega (arith, h, s.2)) in
    rw (lt→leb maxva va low) (w.0, omega (arith, w.1, s.2))

-- mappages of one page that is not mapped.
mappages-found :
    (end : ℕ) (m : Machine) (t : Root) (va pa : ℕ) (perm : Flags)
    → 0 < end
    → va % 4096 ≡ 0
    → va < maxva
    → IsMemory end m
    → 2 ≤ free m
    → (pte_at t va).v ≡ false
    → (m1 : Machine) × (t1 : Root) × (mappages m t va 4096 pa perm ≡ ok (m1, t1, true))
      × (free m ≤ free m1 + 2)
unfolding mappages map_pages
mappages-found end m t va pa perm pe al low mem h fresh =
    let w = walk_alloc-found end m t va pe low mem h in
    let t1 = (walk_alloc m t va).1 in
    let still : (pte_at t1 va).v ≡ false =
      ap (λ (x : Pte). x.v) ((walk_alloc-Walked m t va).0 va) ∙ fresh in
    (
      (walk_alloc m t va).0,
      store t1 va (mapping pa perm),
      rw (eq→== (va % 4096) 0 al, w.0, still) refl,
      w.1,
    )

add_ref-free : (m : Machine) (p : ℕ) → free (add_ref m p).0 ≡ free m
unfolding add_ref kaddref
add_ref-free m p = ground arith

-- None of the `n` pages from `i` on is mapped.
abbrev pub Unmapped : Root → ℕ → ℕ → Type 0
Unmapped t i n = (va : ℕ) → va < maxva → in_pages i n va ≡ true → (pte_at t va).v ≡ false

-- A run that gives 0, and costs `k` pages at most.
abbrev pub Succeeds : Machine → ℕ → Run (Machine × Root × Root × Bool) → Type 0
Succeeds m k r =
    (m' : Machine) × (old' : Root) × (new' : Root) × (r ≡ ok (m', old', new', true))
    × (free m ≤ free m' + k)

after_share-Succeeds :
    (end : ℕ) (m m1 : Machine) (old new1 : Root) (i : ℕ) (p : Pte)
    → IsMemory end m1
    → IsPage end p.pa
    → 0 < refs m1 p.pa
    → refs m1 p.pa < 2 ^ 16 - 1
    → free m ≤ free m1 + 2
    → Succeeds m 2 (after_share end old i p (m1, new1, true))
unfolding after_share after_ref
after_share-Succeeds end m m1 old new1 i p mem page used room le =
    let (m2, c, e, mem2, counts) = add_ref_lem end m1 p.pa mem page used room in
    let same : free m2 ≡ free m1 = ap (λ x. free x.0) (sym e) ∙ add_ref-free m1 p.pa in
    let old' : Root = if p.flags.w then store old i (shared p) else old in
    (m2, old', new1, rw e refl, omega (arith, same, le))

copy_one-Succeeds :
    (end : ℕ) (m : Machine) (old new : Root) (i n : ℕ)
    → 0 < end
    → i % 4096 ≡ 0
    → IsMemory end m
    → UserPages end m old i (suc n)
    → Unmapped new i (suc n)
    → 2 ≤ free m
    → Succeeds m 2 (copy_one end m old new i)
unfolding copy_one
copy_one-Succeeds end m old new i n pe al mem users fresh h = elim (Bool-cases (pte_at old i).v) [
  | inr v ↦ rw v (m, old, new, refl, omega arith)
  | inl v ↦
      let low = valid-below old i v in
      let here : in_pages i (suc n) i ≡ true = ground arith in
      let p = pte_at old i in
      let (page, used, room) = users i low here v in
      let (m1, new1, e, le) =
        mappages-found end m new i p.pa (shared_flags p.flags) pe al low mem h (fresh i low here) in
      let keeps =
        subst (RunKeeps end m) e
          (mappages-RunKeeps end m new i p.pa (shared_flags p.flags) al pe mem) in
      let same = keeps.1 p.pa page used in
      let go : not (pte_at old i).v ≡ false = rw v refl in
      rw (go, e)
        (after_share-Succeeds end m m1 old new1 i p keeps.0 page (omega (arith, same, used))
          (omega (arith, same, room)) le)
]

Unmapped-tail :
    (end : ℕ) (m m1 : Machine) (old new old1 new1 : Root) (i n : ℕ)
    → i % 4096 ≡ 0
    → Copied end m old new i 1 m1 old1 new1
    → Unmapped new i (suc n)
    → Unmapped new1 (i + 4096) n
Unmapped-tail end m m1 old new old1 new1 i n al h fresh va la inside =
    let wide : in_pages i (suc n) va ≡ true = ground (arith, inside) in
    let out : in_pages i 1 va ≡ false = ground (arith, inside) in
    let same : pte_at new1 va ≡ pte_at new va = h.child va la ∙ rw out refl in
    rw same (fresh va la wide)

copy_pages-Succeeds :
    (n end : ℕ) (m : Machine) (old new : Root) (i : ℕ)
    → 0 < end
    → i % 4096 ≡ 0
    → IsMemory end m
    → UserPages end m old i n
    → Unmapped new i n
    → 2 * n ≤ free m
    → Succeeds m (2 * n) (copy_pages n end m old new i)
unfolding copy_pages
copy_pages-Succeeds zero end m old new i pe al mem users fresh h = (m, old, new, refl, omega arith)
copy_pages-Succeeds (suc n) end m old new i pe al mem users fresh h =
    let (m1, old1, new1, e, le) =
      copy_one-Succeeds end m old new i n pe al mem users fresh (omega (arith, h)) in
    let c : Copied end m old new i 1 m1 old1 new1 =
      subst (CopyResult end m old new i 1) e
        (copy_one-CopyResult end m old new i n pe al mem users) in
    let (m2, old2, new2, e2, le2) =
      copy_pages-Succeeds n end m1 old1 new1 (i + 4096) pe (omega (arith, al)) c.memory
        (UserPages-tail end m m1 old new old1 new1 i n al c users)
        (Unmapped-tail end m m1 old new old1 new1 i n al c fresh) (omega (arith, h, le)) in
    (
      m2,
      old2,
      new2,
      ap
            (λ r. r >>= λ x.
              (let rest = copy_pages n end x.0 x.1 x.2 (i + 4096) in if x.3 then rest else ok x))
            e
          ∙ e2,
      omega (arith, le, le2),
    )

pub uvmcopy-Succeeds :
    (end : ℕ) (m : Machine) (old new : Root) (sz : ℕ)
    → 0 < end
    → IsMemory end m
    → UserPages end m old 0 ((sz + 4095) / 4096)
    → Unmapped new 0 ((sz + 4095) / 4096)
    → 2 * ((sz + 4095) / 4096) ≤ free m
    → Succeeds m (2 * ((sz + 4095) / 4096)) (uvmcopy end m old new sz)
unfolding uvmcopy
uvmcopy-Succeeds end m old new sz pe mem users fresh h =
    let e : sz + 4096 - 1 ≡ sz + 4095 = omega arith in
    rw e
      (copy_pages-Succeeds ((sz + 4095) / 4096) end m old new 0 pe (omega arith) mem users fresh h)
