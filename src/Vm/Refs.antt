-- ===== src/Vm/Refs.antt =====
-- Mapping pages allocates tables, and leaves the counts of pages in use.
use hai_os.Base.{
  ℕ, zero, suc, ◌+◌, ◌%◌, ◌<◌, ◌≡◌, refl, sym, ap, subst, ◌∙◌, ◌≢◌, inl, inr, Bool, Option, none,
  some, arith, leb, ◌==◌, eq→==, ne→==, Bool-cases, Run, ok, panic,
}
use hai_os.Kalloc.Invariant.{IsPage}
use hai_os.Vm.{
  maxva, Flags, Leaf, Mid, Root, Machine, alloc_page, empty_leaf, empty_node, px, step_down,
  walk_leaf, walk_mid, walk_alloc, store, pte_at,
}
use hai_os.Vm.Memory.{IsMemory, refs, alloc_page_lem}
use hai_os.Vm.Ops.{mapping, map_pages, mappages}

-- `m'` is sound, and every page in use in `m` has the same count.
abbrev pub KeepsRefs : ℕ → Machine → Machine → Type 0
KeepsRefs end m m' =
    IsMemory end m' × ((q : ℕ) → IsPage end q → 0 < refs m q → refs m' q ≡ refs m q)

KeepsRefs-trans :
    (end : ℕ) (m m1 m2 : Machine) → KeepsRefs end m m1 → KeepsRefs end m1 m2 → KeepsRefs end m m2
KeepsRefs-trans end m m1 m2 h k =
    (k.0, (λ q hq u. let e = h.1 q hq u in k.1 q hq (omega (arith, e, u)) ∙ e))

alloc_page-KeepsRefs :
    (end : ℕ) (m : Machine) → 0 < end → IsMemory end m → KeepsRefs end m (alloc_page m).0
alloc_page-KeepsRefs end m pe h =
    let (h', alt) = alloc_page_lem end m pe h in
    elim alt [
      | inl (z, empty, same, bytes) ↦ (h', (λ q hq u. same q hq))
      | inr (nz, page, free, counts, bytes) ↦ (
        h',
        (λ q hq u.
            (let ne : (alloc_page m).1 ≢ q = λ e. absurd (omega (arith, u, free, ap (refs m) e)) in
              counts q hq ∙ rw (ne→== (alloc_page m).1 q ne) refl)),
      )
    ]

step_down-KeepsRefs :
    {A : Type 0} (end : ℕ) (new : ℕ → A) (m : Machine) (o : Option A)
    → 0 < end
    → IsMemory end m
    → KeepsRefs end m (step_down new m o).0
unfolding step_down
step_down-KeepsRefs end new m (some t) pe h = (h, (λ q hq u. refl))
step_down-KeepsRefs end new m none pe h = elim (Bool-cases ((alloc_page m).1 == 0)) [
  | inl e ↦ rw e (alloc_page-KeepsRefs end m pe h)
  | inr e ↦ rw e (alloc_page-KeepsRefs end m pe h)
]

walk_leaf-machine :
    (va : ℕ) (t : Root) (mid : Mid) (r : Machine × Option Leaf) → (walk_leaf va t mid r).0 ≡ r.0
unfolding walk_leaf
walk_leaf-machine va t mid (m, none) = refl
walk_leaf-machine va t mid (m, some leaf) = refl

walk_mid-KeepsRefs :
    (end va : ℕ) (t : Root) (m : Machine) (r : Machine × Option Mid)
    → 0 < end
    → KeepsRefs end m r.0
    → KeepsRefs end m (walk_mid va t r).0
unfolding walk_mid
walk_mid-KeepsRefs end va t m (m1, none) pe h = h
walk_mid-KeepsRefs end va t m (m1, some mid) pe h =
    let s = step_down empty_leaf m1 (mid.child (px 1 va)) in
    subst (KeepsRefs end m) (sym (walk_leaf-machine va t mid s)) (
      KeepsRefs-trans end m m1 s.0 h
        (step_down-KeepsRefs end empty_leaf m1 (mid.child (px 1 va)) pe h.0))

pub walk_alloc-KeepsRefs :
    (end : ℕ) (m : Machine) (t : Root) (va : ℕ)
    → 0 < end
    → IsMemory end m
    → KeepsRefs end m (walk_alloc m t va).0
unfolding walk_alloc
walk_alloc-KeepsRefs end m t va pe h = elim (Bool-cases (leb maxva va)) [
  | inl e ↦ rw e (h, (λ q hq u. refl))
  | inr e ↦ rw e (
      walk_mid-KeepsRefs end va t m (step_down empty_node m (t.child (px 2 va))) pe
        (step_down-KeepsRefs end empty_node m (t.child (px 2 va)) pe h))
]

abbrev pub RunKeeps : ℕ → Machine → Run (Machine × Root × Bool) → Type 0
RunKeeps end m (ok r) = KeepsRefs end m r.0
RunKeeps end m (panic s) = Unit {0}

RunKeeps-trans :
    (end : ℕ) (m m1 : Machine) (r : Run (Machine × Root × Bool))
    → KeepsRefs end m m1
    → RunKeeps end m1 r
    → RunKeeps end m r
RunKeeps-trans end m m1 (ok r) h k = KeepsRefs-trans end m m1 r.0 h k
RunKeeps-trans end m m1 (panic s) h k = tt

map_pages-RunKeeps :
    (n end : ℕ) (m : Machine) (t : Root) (a pa : ℕ) (perm : Flags)
    → 0 < end
    → IsMemory end m
    → RunKeeps end m (map_pages n m t a pa perm)
unfolding map_pages
map_pages-RunKeeps zero end m t a pa perm pe h = (h, (λ q hq u. refl))
map_pages-RunKeeps (suc n) end m t a pa perm pe h =
    let m1 = (walk_alloc m t a).0 in
    let t1 = (walk_alloc m t a).1 in
    let w = walk_alloc-KeepsRefs end m t a pe h in
    elim (Bool-cases (walk_alloc m t a).2) [
      | inr e ↦ rw e w
      | inl e ↦ rw e (elim (Bool-cases (pte_at t1 a).v) [
        | inl v ↦ rw v tt
        | inr v ↦ rw v (
            RunKeeps-trans end m m1
              (map_pages n m1 (store t1 a (mapping pa perm)) (a + 4096) (pa + 4096) perm) w
              (map_pages-RunKeeps n end m1 (store t1 a (mapping pa perm)) (a + 4096) (pa + 4096)
                perm pe w.0))
      ])
    ]

-- mappages keeps the counts of pages in use.
pub mappages-RunKeeps :
    (end : ℕ) (m : Machine) (t : Root) (va pa : ℕ) (perm : Flags)
    → va % 4096 ≡ 0
    → 0 < end
    → IsMemory end m
    → RunKeeps end m (mappages m t va 4096 pa perm)
unfolding mappages
mappages-RunKeeps end m t va pa perm al pe h =
    rw (eq→== (va % 4096) 0 al) (map_pages-RunKeeps 1 end m t va pa perm pe h)
