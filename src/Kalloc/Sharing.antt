-- ===== src/Kalloc/Sharing.antt =====
-- Shared pages and the figures that the allocator reports.
use hai_os.Base.{
  ℕ, ◌+◌, ◌-◌, ◌*◌, ◌/◌, ◌^◌, ◌≤◌, ◌<◌, ◌≡◌, refl, ◌∙◌, inl, inr, none, some, List, arith, ◌==◌,
  if◌then◌else◌, eq→==, ==→eq, Bool-cases, length, ok, update,
}
use native.Mathlib.Nat.{div-le_of_le-mul}
use hai_os.Params.{pgsize, phystop}
use hai_os.Kalloc.{Kmem, pa_to_idx, kfree, kaddref, krefcount, kalloc_pressure_percent}
use hai_os.Kalloc.Invariant.{IsPage, Inv, krefcount-update}
use hai_os.Kalloc.Free.{recount-Inv, kfree_shared}

kaddref_free :
    (end : ℕ) (k : Kmem) (p : ℕ) → IsPage end p → krefcount k p ≡ 0 → kaddref k p ≡ (k, none)
unfolding kaddref krefcount
kaddref_free end k p hp z = ground arith

kaddref_held :
    (end : ℕ) (k : Kmem) (p : ℕ)
    → IsPage end p
    → 0 < krefcount k p
    → krefcount k p < 2 ^ 16 - 1
    → kaddref k p ≡ (
      record k { refcnt = update k.refcnt (pa_to_idx p) (krefcount k p + 1) },
      some (krefcount k p + 1),
    )
unfolding kaddref krefcount
kaddref_held end k p hp h small = ground arith

-- kaddref refuses a page that nobody holds, and changes nothing then. On a page in use it adds one
-- to its count, if the 16-bit counter has room, and changes no other.
pub kaddref_lem :
    (end : ℕ) (k : Kmem) (xs ys : List ℕ) (p : ℕ)
    → IsPage end p
    → krefcount k p < 2 ^ 16 - 1
    → Inv end k xs ys
    → let (k', r) = kaddref k p in
      (r ≡ (if krefcount k p == 0 then none else some (krefcount k p + 1)))
      × Inv end k' xs ys
      × ((q : ℕ)
          → IsPage end q
          → krefcount k' q ≡ (
              if p == q
              then (if krefcount k p == 0 then 0 else krefcount k p + 1)
              else krefcount k q))
kaddref_lem end k xs ys p hp small v = elim (Bool-cases (krefcount k p == 0)) [
  | inl z ↦ rw (kaddref_free end k p hp (==→eq _ _ z), z) (refl, v, λ q hq. ground arith)
  | inr held ↦
      let c = krefcount k p + 1 in
      rw (kaddref_held end k p hp (ground arith) small, held)
        (
          refl,
          recount-Inv end k xs ys p c hp (ground arith) (omega arith) (omega arith) v,
          λ q hq. krefcount-update end k _ p q c refl hp hq,
        )
]

-- A reference added and dropped again leaves every count and both lists of pages as they were.
pub kfree-kaddref :
    (end : ℕ) (k : Kmem) (xs ys : List ℕ) (p : ℕ)
    → IsPage end p
    → 0 < krefcount k p
    → krefcount k p < 2 ^ 16 - 1
    → Inv end k xs ys
    → (k' : Kmem) × (kfree end (kaddref k p).0 p ≡ ok k')
      × Inv end k' xs ys
      × ((q : ℕ) → IsPage end q → krefcount k' q ≡ krefcount k q)
kfree-kaddref end k xs ys p hp h small v =
    let c = krefcount k p in
    let k1 : Kmem = record k { refcnt = update k.refcnt (pa_to_idx p) (c + 1) } in
    let k2 : Kmem = record k1 { refcnt = update k1.refcnt (pa_to_idx p) (krefcount k1 p - 1) } in
    let at_p : krefcount k1 p ≡ c + 1 =
      krefcount-update end k k1 p p (c + 1) refl hp hp ∙ rw (eq→== p p refl) in
    let v1 : Inv end k1 xs ys =
      recount-Inv end k xs ys p (c + 1) hp h (omega arith) (omega arith) v in
    (
      k2,
      rw (kaddref_held end k p hp h small) (kfree_shared end k1 p hp (omega (arith, at_p))),
      recount-Inv end k1 xs ys p (krefcount k1 p - 1) hp (omega (arith, at_p)) (omega (arith, at_p))
          (omega (arith, at_p)) v1,
      λ q hq. ground (
        arith,
        at_p,
        krefcount-update end k1 k2 p q (krefcount k1 p - 1) refl hp hq,
        krefcount-update end k k1 p q (c + 1) refl hp hq,
      ),
    )

-- A part of a whole is at most 100 percent of it.
percent-le : (a t : ℕ) → a ≤ t → a * 100 / t ≤ 100
percent-le a t h = div-le_of_le-mul t (omega arith)

-- With the allocator's totals right, the pressure is the share of the pages in use, in whole
-- percent, and at most 100: the 32-bit product does not wrap with as many pages as memory has.
pub kalloc_pressure_percent_lem :
    (end : ℕ) (k : Kmem) (xs ys : List ℕ)
    → k.total_pages ≤ phystop / pgsize
    → Inv end k xs ys
    → (kalloc_pressure_percent k ≡ length ys * 100 / (length xs + length ys))
      × (kalloc_pressure_percent k ≤ 100)
unfolding kalloc_pressure_percent
kalloc_pressure_percent_lem end k xs ys small v =
    ground (arith, v.counted, v.total, percent-le (length ys) k.total_pages)
