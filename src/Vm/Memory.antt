-- ===== src/Vm/Memory.antt =====
-- The allocator under a machine: a page that alloc_page gives was not in use.
use hai_os.Base.{
  ℕ, ◌-◌, ◌<◌, ◌≡◌, refl, ◌∙◌, ◌≢◌, ◌⊎◌, inl, inr, Bool, false, List, [], ◌∷◌, arith, ◌==◌,
  if◌then◌else◌, eq→==, ne→==, Bool-cases, Run, ok, panic, erase,
}
use hai_os.Params.{pgsize}
use hai_os.Str.Move.{in_block, memset_lem}
use hai_os.Kalloc.{Kmem, kalloc, kfree, krefcount}
use hai_os.Kalloc.Invariant.{IsPage, Chain, Inv, Allocates, kalloc-Allocates}
use hai_os.Kalloc.Free.{Freed, kfree-Freed}
use hai_os.Vm.{Machine, alloc_page, free_page}

-- The allocator's invariant, for some lists of pages.
abbrev pub IsMemory : ℕ → Machine → Type 0
IsMemory end m = (xs : List ℕ) × (ys : List ℕ) × Inv end m.kmem xs ys

abbrev pub refs : Machine → ℕ → ℕ
refs m p = krefcount m.kmem p

abbrev pub in_page : ℕ → ℕ → Bool
in_page pa a = in_block pa 4096 a

-- What alloc_page gives: the null pointer, when no page is free, and nothing changes; or a page without references, which
-- has one then, and no byte outside it changes.
abbrev pub AllocResult : ℕ → Machine → Machine × ℕ → Type 0
AllocResult end m (m', mem) =
    IsMemory end m'
    × (((mem ≡ 0)
          × (m.kmem.freelist ≡ 0)
          × ((p : ℕ) → IsPage end p → refs m' p ≡ refs m p)
          × (m'.bytes ≡ m.bytes))
        ⊎ ((mem ≢ 0)
            × IsPage end mem
            × (refs m mem ≡ 0)
            × ((p : ℕ) → IsPage end p → refs m' p ≡ (if mem == p then 1 else refs m p))
            × ((a : ℕ) → in_page mem a ≡ false → m'.bytes a ≡ m.bytes a)))

alloc_page_from :
    (end : ℕ) (m : Machine) (xs ys : List ℕ)
    → 0 < end
    → Chain m.kmem.next m.kmem.freelist xs
    → Allocates end m.kmem xs ys (kalloc m.kmem)
    → AllocResult end m (alloc_page m)
unfolding alloc_page
alloc_page_from end m [] ys pe empty (e, inv, same) =
    rw (eq→== (kalloc m.kmem).1 0 e) (([], ys, inv), inl (refl, empty, (λ p h. same p), refl))
alloc_page_from end m (x ∷ xs) ys pe ch (e, page, zero_refs, inv, counts) =
    let nz : x ≢ 0 = omega (arith, page.1, pe) in
    rw (e, ne→== x 0 nz)
      (
        (xs, x ∷ ys, inv),
        inr (nz, page, zero_refs, counts, (λ a o. memset_lem m.bytes x 5 pgsize a ∙ rw o refl)),
      )

pub alloc_page_lem :
    (end : ℕ) (m : Machine) → 0 < end → IsMemory end m → AllocResult end m (alloc_page m)
alloc_page_lem end m pe (xs, ys, inv) =
    alloc_page_from end m xs ys pe inv.chain (kalloc-Allocates end m.kmem xs ys pe inv)

-- A page with a reference can be given up.
pub free_page_lem :
    (end : ℕ) (m : Machine) (p : ℕ)
    → IsMemory end m
    → IsPage end p
    → 0 < refs m p
    → (m' : Machine) × (free_page end m p ≡ ok m')
      × IsMemory end m'
      × (m'.bytes ≡ m.bytes)
      × ((q : ℕ) → IsPage end q → refs m' q ≡ (if p == q then refs m p - 1 else refs m q))
unfolding free_page
free_page_lem end m p (xs, ys, inv) hp h =
    given (kfree end m.kmem p) refl (kfree-Freed end m.kmem xs ys p hp h inv)
  where
    memory :
        (k : Kmem)
        → (if krefcount m.kmem p == 1 then Inv end k (p ∷ xs) (erase p ys) else Inv end k xs ys)
        → (free : List ℕ) × (held : List ℕ) × Inv end k free held
    memory k i = elim (Bool-cases (krefcount m.kmem p == 1)) [
      | inl e ↦ (p ∷ xs, erase p ys, rw e at i)
      | inr e ↦ (xs, ys, rw e at i)
    ]

    given :
        (r : Run Kmem)
        → kfree end m.kmem p ≡ r
        → Freed end m.kmem xs ys p r
        → (m' : Machine) × (free_page end m p ≡ ok m')
          × IsMemory end m'
          × (m'.bytes ≡ m.bytes)
          × ((q : ℕ) → IsPage end q → refs m' q ≡ (if p == q then refs m p - 1 else refs m q))
    given (panic s) e f = absurd f
    given (ok k) e f = (record m { kmem = k }, rw e refl, memory k f.0, refl, f.1)
