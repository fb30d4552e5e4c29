-- ===== src/Kalloc.antt =====
-- kernel/kalloc.c: the physical page allocator with reference counts. Each function is one critical
-- section under kmem.lock; kalloc's warnings, written after the release, belong to the same step.
-- Only the first word of a free page and the byte it was filled with are modelled of its content.
pub mod Invariant
pub mod Free
pub mod Init
pub mod Sharing
use hai_os.Base.{
  ℕ, zero, suc, ◌+◌, ◌-◌, ◌*◌, ◌/◌, ◌%◌, ◌^◌, Bool, true, false, ◌&&◌, ◌||◌, not, Option, none,
  some, ltb, leb, ◌==◌, if◌then◌else◌, update, add32, sub32, Run, ok, panic, ◌>>=◌,
}
use hai_os.Params.{pgsize, pgroundup, phystop, mem_low_watermark_pages, mem_crit_watermark_pages}

-- `kmem` and the table `refcnt`. Address 0 is the null pointer. `next p` is the `struct run` that
-- lies in the free page `p`, `junk p` the byte that the page was filled with.
pub record Kmem : Type 0 where
  pub freelist : ℕ
  pub next : ℕ → ℕ
  pub junk : ℕ → ℕ
  pub refcnt : ℕ → ℕ
  pub total_pages : ℕ
  pub free_pages : ℕ
  pub low_warned : Bool
  pub crit_warned : Bool
  pub oom_warned : Bool
  pub ready : Bool

unfoldable pub pa_to_idx : ℕ → ℕ
pa_to_idx pa = pa / pgsize

-- The last part of kfree: the page goes to the head of the free list.
push_free : Kmem → ℕ → Kmem
unfolding pa_to_idx
push_free k pa =
    let free = add32 k.free_pages 1 in
    record k {
      freelist = pa;
      next = update k.next pa k.freelist;
      junk = update k.junk pa 1;
      refcnt = update k.refcnt (pa_to_idx pa) 0;
      free_pages = free;
      low_warned = if ltb mem_low_watermark_pages free then false else k.low_warned;
      crit_warned = if ltb mem_crit_watermark_pages free then false else k.crit_warned;
    }

-- `end` is the first address after the kernel, set by the linker.
unfoldable pub kfree : ℕ → Kmem → ℕ → Run Kmem
unfolding pa_to_idx push_free
kfree end k pa =
    if not (pa % pgsize == 0) || (ltb pa end || leb phystop pa)
    then panic "kfree"
    else if k.ready && (k.refcnt (pa_to_idx pa) == 0)
    then panic "kfree double"
    else if ltb 1 (k.refcnt (pa_to_idx pa))
    then ok (record k { refcnt = update k.refcnt (pa_to_idx pa) (k.refcnt (pa_to_idx pa) - 1) })
    else ok (push_free k pa)

-- The one-time warnings after an allocation that gave a page.
warn_low : Kmem → Kmem
warn_low k =
    if leb k.free_pages mem_crit_watermark_pages && not k.crit_warned
    then record k { crit_warned = true }
    else if leb k.free_pages mem_low_watermark_pages && not k.low_warned
    then record k { low_warned = true }
    else k

-- The page, or the null pointer.
unfoldable pub kalloc : Kmem → Kmem × ℕ
unfolding pa_to_idx warn_low
kalloc k =
    if k.freelist == 0 then (if k.oom_warned then k else record k { oom_warned = true }, 0) else (
      warn_low (record k {
        freelist = k.next k.freelist;
        refcnt = update k.refcnt (pa_to_idx k.freelist) 1;
        free_pages = if ltb 0 k.free_pages then k.free_pages - 1 else k.free_pages;
        junk = update k.junk k.freelist 5;
      }),
      k.freelist,
    )

-- `none` is -1. The counter is a `ushort`.
unfoldable pub kaddref : Kmem → ℕ → Kmem × Option ℕ
unfolding pa_to_idx
kaddref k pa =
    if leb phystop pa
    then (k, none)
    else if k.refcnt (pa_to_idx pa) == 0
    then (k, none)
    else let c = (k.refcnt (pa_to_idx pa) + 1) % 2 ^ 16 in
      (record k { refcnt = update k.refcnt (pa_to_idx pa) c }, some c)

unfoldable pub krefcount : Kmem → ℕ → ℕ
unfolding pa_to_idx
krefcount k pa = if leb phystop pa then 0 else k.refcnt (pa_to_idx pa)

unfoldable pub kalloc_stats : Kmem → ℕ × ℕ
kalloc_stats k = (k.total_pages, k.free_pages)

unfoldable pub kalloc_pressure_percent : Kmem → ℕ
kalloc_pressure_percent k =
    if k.total_pages == 0
    then 0
    else sub32 k.total_pages k.free_pages * 100 % 2 ^ 32 / k.total_pages

-- The loop of freerange from page `p`; `fuel` bounds the rounds.
free_pages_from : ℕ → ℕ → Kmem → ℕ → ℕ → Run Kmem
free_pages_from zero end k p pa_end = ok k
free_pages_from (suc fuel) end k p pa_end =
    let rest =
      (kfree end (record k { total_pages = add32 k.total_pages 1 }) p >>= λ k'.
      free_pages_from fuel end k' (p + pgsize) pa_end) in
    if leb (p + pgsize) pa_end then rest else ok k

unfoldable pub freerange : ℕ → Kmem → ℕ → ℕ → Run Kmem
unfolding free_pages_from
freerange end k pa_start pa_end =
    free_pages_from (pa_end / pgsize + 1) end k (pgroundup pa_start) pa_end

-- `k` is the memory before: the null free list and counts of a cleared BSS.
unfoldable pub kinit : ℕ → Kmem → Run Kmem
unfolding freerange
kinit end k = do
  k' ←
      freerange end
        (record k {
          total_pages = 0;
          free_pages = 0;
          low_warned = false;
          crit_warned = false;
          oom_warned = false;
          ready = false;
        })
        end phystop
  ok (record k' { ready = true })
