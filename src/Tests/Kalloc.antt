-- ===== src/Tests/Kalloc.antt =====
-- Examples for kernel/kalloc.c: memories of one page and of four, at the top of physical memory.
use hai_os.Base.{
  ℕ, ◌+◌, ◌-◌, ◌*◌, ◌/◌, ◌≤◌, ◌≡◌, refl, ◌⊎◌, inl, inr, ◌==◌, Bool, true, false, List, [], ◌∷◌,
  arith, if◌then◌else◌, ok, update,
}
use hai_os.Params.{pgsize, phystop}
use hai_os.Kalloc.{Kmem, pa_to_idx, kalloc, kfree, krefcount, kinit, kalloc_pressure_percent}
use hai_os.Kalloc.Invariant.{IsPage, Inv, Allocates, kalloc-Allocates}
use hai_os.Kalloc.Free.{Freed, kfree-Freed}
use hai_os.Kalloc.Init.{kinit_lem}
use hai_os.Kalloc.Sharing.{kalloc_pressure_percent_lem}

abbrev pub top_page : ℕ
top_page = 0x8FFF_F000

-- The page free, or in use with count 1.
abbrev memory : Bool → Kmem
memory free = record {
  freelist = if free then top_page else 0;
  next = λ p. 0;
  junk = λ p. 1;
  refcnt = update (λ i. 0) (top_page / pgsize) (if free then 0 else 1);
  total_pages = 1;
  free_pages = if free then 1 else 0;
  low_warned = false;
  crit_warned = false;
  oom_warned = false;
  ready = true;
}

-- Before kinit: no page on the free list.
abbrev memory_before : Kmem
memory_before = record (memory true) {
  freelist = 0;
  refcnt = λ i. 0;
  total_pages = 0;
  free_pages = 0;
  ready = false;
}

top_page-IsPage : IsPage top_page top_page
top_page-IsPage = ground arith

only_page : (p : ℕ) → IsPage top_page p → p ≡ top_page
only_page p h = omega (arith, h.0, h.1, h.2)

free_memory-Inv : Inv top_page (memory true) (top_page ∷ []) []
unfolding krefcount pa_to_idx
free_memory-Inv = record {
  chain = (refl, refl);
  pages = (top_page-IsPage, tt);
  held_pages = tt;
  free = λ p h. rw (only_page p h) refl;
  held = λ p h. rw (only_page p h) refl;
  counted = refl;
  total = refl;
  total_small = ground arith;
  refs_small = λ p h. rw (only_page p h) (ground arith);
}

used_memory-Inv : Inv top_page (memory false) [] (top_page ∷ [])
unfolding krefcount pa_to_idx
used_memory-Inv = record {
  chain = refl;
  pages = tt;
  held_pages = (top_page-IsPage, tt);
  free = λ p h. rw (only_page p h) refl;
  held = λ p h. rw (only_page p h) refl;
  counted = refl;
  total = refl;
  total_small = ground arith;
  refs_small = λ p h. rw (only_page p h) (ground arith);
}

-- Four pages: three are free, and the one at the top is in use.
abbrev pub low_page : ℕ
low_page = 0x8FFF_C000

abbrev pub middle_page : ℕ
middle_page = 0x8FFF_D000

abbrev pub high_page : ℕ
high_page = 0x8FFF_E000

abbrev pub four_pages : Kmem
four_pages = record (memory false) {
  freelist = low_page;
  next = λ p. if p == low_page then middle_page else if p == middle_page then high_page else 0;
  total_pages = 4;
  free_pages = 3;
}

one_of_four :
    (p : ℕ) → IsPage low_page p → p ≡ low_page ⊎ p ≡ middle_page ⊎ p ≡ high_page ⊎ p ≡ top_page
one_of_four p h = omega (arith, h.0, h.1, h.2)

pub four_pages-Inv :
    Inv low_page four_pages (low_page ∷ middle_page ∷ high_page ∷ []) (top_page ∷ [])
unfolding krefcount pa_to_idx
four_pages-Inv = record {
  chain = (refl, (ground arith, (ground arith, ground arith)));
  pages = (ground arith, (ground arith, (ground arith, tt)));
  held_pages = (ground arith, tt);
  free = λ p h. elim (one_of_four p h) [
    | inl e ↦ rw e refl
    | inr (inl e) ↦ rw e refl
    | inr (inr (inl e)) ↦ rw e refl
    | inr (inr (inr e)) ↦ rw e refl
  ];
  held = λ p h. elim (one_of_four p h) [
    | inl e ↦ rw e refl
    | inr (inl e) ↦ rw e refl
    | inr (inr (inl e)) ↦ rw e refl
    | inr (inr (inr e)) ↦ rw e refl
  ];
  counted = refl;
  total = refl;
  total_small = ground arith;
  refs_small = λ p h. elim (one_of_four p h) [
    | inl e ↦ rw e (ground arith)
    | inr (inl e) ↦ rw e (ground arith)
    | inr (inr (inl e)) ↦ rw e (ground arith)
    | inr (inr (inr e)) ↦ rw e (ground arith)
  ];
}

pub top_in_use : krefcount four_pages top_page ≡ 1
unfolding krefcount pa_to_idx
top_in_use = refl

kalloc-Allocates_example :
    Allocates top_page (memory true) (top_page ∷ []) [] (kalloc (memory true))
kalloc-Allocates_example =
    kalloc-Allocates top_page (memory true) (top_page ∷ []) [] (ground arith) free_memory-Inv

one_reference : krefcount (memory false) top_page ≡ 1
unfolding krefcount pa_to_idx
one_reference = refl

kfree-Freed_example :
    Freed top_page
      (memory false)
      []
      (top_page ∷ [])
      top_page
      (kfree top_page (memory false) top_page)
kfree-Freed_example =
    kfree-Freed top_page (memory false) [] (top_page ∷ []) top_page top_page-IsPage
      (omega (arith, one_reference)) used_memory-Inv

kinit_lem_example :
    (k' : Kmem) × (xs : List ℕ) × (kinit top_page memory_before ≡ ok k')
    × Inv top_page k' xs []
    × (k'.ready ≡ true)
    × (k'.total_pages ≡ (phystop - top_page) / pgsize)
kinit_lem_example = kinit_lem top_page memory_before (ground arith) refl (λ i. refl)

kalloc_pressure_percent_lem_example :
    (kalloc_pressure_percent (memory false) ≡ 1 * 100 / (0 + 1))
    × (kalloc_pressure_percent (memory false) ≤ 100)
kalloc_pressure_percent_lem_example =
    kalloc_pressure_percent_lem top_page (memory false) [] (top_page ∷ []) (ground arith)
      used_memory-Inv
