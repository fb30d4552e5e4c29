-- ===== src/Kalloc/Invariant.antt =====
-- The allocator's invariant, and that each call keeps it.
use hai_os.Base.{
  ℕ, ◌+◌, ◌-◌, ◌%◌, ◌^◌, ◌≤◌, ◌<◌, ◌≡◌, ap, ◌∙◌, ◌≢◌, List, [], ◌∷◌, arith, ◌==◌, if◌then◌else◌,
  length, All, count, update, update_ne,
}
use hai_os.Params.{pgsize, phystop}
use hai_os.Kalloc.{Kmem, pa_to_idx, kalloc, krefcount}

-- The free list runs from `p` through the pages `xs` to the null pointer.
abbrev pub Chain : (ℕ → ℕ) → ℕ → List ℕ → Type 0
Chain next p [] = p ≡ 0
Chain next p (x ∷ xs) = (p ≡ x) × Chain next (next x) xs

-- The pages that the allocator owns.
abbrev pub IsPage : ℕ → ℕ → Type 0
IsPage end p = (p % pgsize ≡ 0) × (end ≤ p) × (p < phystop)

-- `xs` are the free pages and `ys` the pages in use: each page stands once in one of the lists,
-- in the first if its count is 0, and the totals of `kmem` are their lengths.
pub record Inv (end : ℕ) (k : Kmem) (xs ys : List ℕ) : Type 0 where
  pub chain : Chain k.next k.freelist xs
  pub pages : All (IsPage end) xs
  pub held_pages : All (IsPage end) ys
  pub free : (p : ℕ) → IsPage end p → count p xs ≡ (if krefcount k p == 0 then 1 else 0)
  pub held : (p : ℕ) → IsPage end p → count p ys ≡ (if krefcount k p == 0 then 0 else 1)
  pub counted : k.free_pages ≡ length xs
  pub total : k.total_pages ≡ length xs + length ys
  pub total_small : k.total_pages < 2 ^ 32
  pub refs_small : (p : ℕ) → IsPage end p → krefcount k p < 2 ^ 16

-- A write to a word outside the list leaves the list.
pub Chain-update :
    (next : ℕ → ℕ) (q v p : ℕ) (xs : List ℕ)
    → count q xs ≡ 0
    → Chain next p xs
    → Chain (update next q v) p xs
Chain-update next q v p [] h c = c
Chain-update next q v p (x ∷ xs) h c =
    (c.0, rw (update_ne next q x v ne) (Chain-update next q v (next x) xs (ground arith) c.1))
  where
    ne : q ≢ x
    ne = ground arith

-- Two pages with one index are one page.
page_idx : (p q : ℕ) → p % pgsize ≡ 0 → q % pgsize ≡ 0 → pa_to_idx p ≡ pa_to_idx q → p ≡ q
unfolding pa_to_idx
page_idx p q hp hq h = omega arith

-- Setting the count of a page leaves the counts of the others.
pub krefcount-update :
    (end : ℕ) (k k' : Kmem) (p q c : ℕ)
    → k'.refcnt ≡ update k.refcnt (pa_to_idx p) c
    → IsPage end p
    → IsPage end q
    → krefcount k' q ≡ (if p == q then c else krefcount k q)
unfolding krefcount
krefcount-update end k k' p q c e hp hq =
    ground (arith, page_idx p q hp.0 hq.0, ap (λ f. f (pa_to_idx q)) e)

-- What kalloc does to the words of `kmem` when the free list is not empty.
pub kalloc_fields :
    (k : Kmem)
    → k.freelist ≢ 0
    → let (k', r) = kalloc k in
      (r ≡ k.freelist)
      × (k'.freelist ≡ k.next k.freelist)
      × (k'.next ≡ k.next)
      × (k'.refcnt ≡ update k.refcnt (pa_to_idx k.freelist) 1)
      × (k'.free_pages ≡ k.free_pages - 1)
      × (k'.total_pages ≡ k.total_pages)
      × (k'.ready ≡ k.ready)
unfolding kalloc
kalloc_fields k h = ground arith

pub kalloc_empty :
    (k : Kmem)
    → k.freelist ≡ 0
    → let (k', r) = kalloc k in
      (r ≡ 0)
      × (k'.freelist ≡ 0)
      × (k'.next ≡ k.next)
      × (k'.refcnt ≡ k.refcnt)
      × (k'.free_pages ≡ k.free_pages)
      × (k'.total_pages ≡ k.total_pages)
      × (k'.ready ≡ k.ready)
unfolding kalloc
kalloc_empty k h = ground arith

-- The answer of kalloc when `xs` are the free pages.
abbrev pub Allocates : ℕ → Kmem → List ℕ → List ℕ → Kmem × ℕ → Type 0
Allocates end k [] ys out =
    (out.1 ≡ 0) × Inv end out.0 [] ys × ((p : ℕ) → krefcount out.0 p ≡ krefcount k p)
Allocates end k (x ∷ xs) ys out =
    (out.1 ≡ x)
    × IsPage end x
    × (krefcount k x ≡ 0)
    × Inv end out.0 xs (x ∷ ys)
    × ((p : ℕ) → IsPage end p → krefcount out.0 p ≡ (if x == p then 1 else krefcount k p))

pub krefcount-eq : (k k' : Kmem) (p : ℕ) → k'.refcnt ≡ k.refcnt → krefcount k' p ≡ krefcount k p
unfolding krefcount
krefcount-eq k k' p e = ground (arith, ap (λ f. f (pa_to_idx p)) e)

-- The allocator after the page at the head of the list is taken.
pop_head-Inv :
    (end : ℕ) (k k' : Kmem) (x : ℕ) (xs ys : List ℕ)
    → k'.next ≡ k.next
    → k'.freelist ≡ k.next x
    → k'.free_pages ≡ k.free_pages - 1
    → k'.total_pages ≡ k.total_pages
    → ((p : ℕ) → IsPage end p → krefcount k' p ≡ (if x == p then 1 else krefcount k p))
    → Inv end k (x ∷ xs) ys
    → Inv end k' xs (x ∷ ys)
pop_head-Inv end k k' x xs ys en ef ep et counts v = record {
  chain = rw (en, ef) v.chain.1;
  pages = v.pages.1;
  held_pages = (v.pages.0, v.held_pages);
  free = λ p hp. ground (arith, v.free p hp, counts p hp);
  held = λ p hp. ground (arith, v.held p hp, counts p hp, v.free x v.pages.0);
  counted = omega (arith, v.counted);
  total = omega (arith, v.total);
  total_small = omega (arith, v.total_small);
  refs_small = λ p hp. ground (arith, v.refs_small p hp, counts p hp);
}

-- The head of the free list has count 0 and does not stand in the rest.
pub head_free :
    (end : ℕ) (k : Kmem) (x : ℕ) (xs ys : List ℕ)
    → Inv end k (x ∷ xs) ys
    → (krefcount k x ≡ 0) × (count x xs ≡ 0)
head_free end k x xs ys v = ground (arith, v.free x v.pages.0)

-- kalloc hands out the page at the head of the free list, which nobody held, with count 1, and
-- leaves every other count; with no free page it gives the null pointer and changes no count.
pub kalloc-Allocates :
    (end : ℕ) (k : Kmem) (xs ys : List ℕ)
    → 0 < end
    → Inv end k xs ys
    → Allocates end k xs ys (kalloc k)
kalloc-Allocates end k [] ys pe v =
    let f = kalloc_empty k v.chain in
    let same : (p : ℕ) → krefcount (kalloc k).0 p ≡ krefcount k p =
      λ p. krefcount-eq k (kalloc k).0 p f.3 in
    (
      f.0,
      record {
        chain = f.1;
        pages = tt;
        held_pages = v.held_pages;
        free = λ p hp. ground (arith, v.free p hp, same p);
        held = λ p hp. ground (arith, v.held p hp, same p);
        counted = omega (arith, f.4, v.counted);
        total = omega (arith, f.5, v.total);
        total_small = omega (arith, f.5, v.total_small);
        refs_small = λ p hp. ground (arith, v.refs_small p hp, same p);
      },
      same,
    )
kalloc-Allocates end k (x ∷ xs) ys pe v =
    let f = kalloc_fields k (omega (arith, v.chain.0, v.pages.0.1)) in
    let e = v.chain.0 in
    let counts : (p : ℕ)
        → IsPage end p
        → krefcount (kalloc k).0 p ≡ (if x == p then 1 else krefcount k p) =
      λ p hp.
        krefcount-update end k (kalloc k).0 x p 1
          (f.3 ∙ ap (λ q. update k.refcnt (pa_to_idx q) 1) e) v.pages.0 hp in
    (
      f.0 ∙ e,
      v.pages.0,
      (head_free end k x xs ys v).0,
      pop_head-Inv end k (kalloc k).0 x xs ys f.2 (f.1 ∙ ap k.next e) f.4 f.5 counts v,
      counts,
    )
