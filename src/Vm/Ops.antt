-- ===== src/Vm/Ops.antt =====
-- kernel/vm.c: mapping, unmapping, growing, copying and faulting of user memory.
use hai_os.Base.{
  ℕ, zero, suc, ◌+◌, ◌-◌, ◌*◌, ◌/◌, ◌%◌, Bool, true, false, not, ◌||◌, Option, none, some, ltb, leb,
  ◌==◌, if◌then◌else◌, Run, ok, panic, ◌>>=◌,
}
use hai_os.Params.{pgsize, pgroundup}
use hai_os.Str.{memset, memmove}
use hai_os.Kalloc.{kaddref}
use hai_os.Vm.{
  pgrounddown, Flags, Pte, no_pte, Root, Machine, alloc_page, free_page, find, walk_alloc, store,
  pte_at, empty_node,
}

abbrev pub mapping : ℕ → Flags → Pte
mapping pa perm = record { v = true; pa = pa / pgsize * pgsize; flags = perm }

-- The loop of mappages over `n` more pages; `false` is -1.
unfoldable pub map_pages : ℕ → Machine → Root → ℕ → ℕ → Flags → Run (Machine × Root × Bool)
map_pages zero m t a pa perm = ok (m, t, true)
map_pages (suc n) m t a pa perm =
    let (m1, t1, found) = walk_alloc m t a in
    let rest = map_pages n m1 (store t1 a (mapping pa perm)) (a + pgsize) (pa + pgsize) perm in
    if not found
    then ok (m1, t1, false)
    else if (pte_at t1 a).v
    then panic "mappages: remap"
    else rest

-- `last` is reached after `size / PGSIZE` pages, unless walk fails at MAXVA before.
unfoldable pub mappages : Machine → Root → ℕ → ℕ → ℕ → Flags → Run (Machine × Root × Bool)
unfolding map_pages
mappages m t va size pa perm =
    if not (va % pgsize == 0)
    then panic "mappages: va not aligned"
    else if not (size % pgsize == 0)
    then panic "mappages: size not aligned"
    else if size == 0
    then panic "mappages: size"
    else map_pages (size / pgsize) m t va pa perm

-- The root of an empty table, or none without memory.
unfoldable pub uvmcreate : Machine → Machine × Option Root
unfolding alloc_page
uvmcreate m =
    let (m1, pa) = alloc_page m in if pa == 0 then (m1, none) else (m1, some (empty_node pa))

-- The body of uvmunmap for one page, at an entry that walk has found.
unfoldable pub unmap_one : ℕ → Machine → Root → ℕ → Bool → Run (Machine × Root)
unmap_one end m t a do_free =
    if not (pte_at t a).v
    then ok (m, t)
    else if do_free
    then (free_page end m (pte_at t a).pa >>= λ m1. ok (m1, store t a no_pte))
    else ok (m, store t a no_pte)

unfoldable pub unmap_pages : ℕ → ℕ → Machine → Root → ℕ → Bool → Run (Machine × Root)
unfolding unmap_one
unmap_pages zero end m t a do_free = ok (m, t)
unmap_pages (suc n) end m t a do_free =
    unmap_one end m t a do_free >>= λ r. unmap_pages n end r.0 r.1 (a + pgsize) do_free

unfoldable pub uvmunmap : ℕ → Machine → Root → ℕ → ℕ → Bool → Run (Machine × Root)
unfolding unmap_pages
uvmunmap end m t va npages do_free =
    if not (va % pgsize == 0)
    then panic "uvmunmap: not aligned"
    else unmap_pages npages end m t va do_free

-- The table and the new size.
unfoldable pub uvmdealloc : ℕ → Machine → Root → ℕ → ℕ → Run (Machine × Root × ℕ)
unfolding uvmunmap
uvmdealloc end m t oldsz newsz =
    if leb oldsz newsz
    then ok (m, t, oldsz)
    else if ltb (pgroundup newsz) (pgroundup oldsz)
    then (uvmunmap end m t (pgroundup newsz) ((pgroundup oldsz - pgroundup newsz) / pgsize) true
        >>= λ r. ok (r.0, r.1, newsz))
    else ok (m, t, newsz)

abbrev pub user_flags : Flags
user_flags = record { r = true; w = false; x = false; u = true; cow = false }

-- uvmalloc's way out after `a`: the size is 0.
unfoldable pub undo_alloc : ℕ → Machine → Root → ℕ → ℕ → Run (Machine × Root × ℕ)
unfolding uvmdealloc
undo_alloc end m t a oldsz = uvmdealloc end m t a oldsz >>= λ r. ok (r.0, r.1, 0)

-- uvmalloc after mappages.
unfoldable pub after_map :
    ℕ → ℕ → ℕ → ℕ → Machine × Root × Bool → Run (Machine × Root × ℕ) → Run (Machine × Root × ℕ)
unfolding undo_alloc
after_map end mem a oldsz (m, t, true) rest = rest
after_map end mem a oldsz (m, t, false) rest =
    free_page end m mem >>= λ m1. undo_alloc end m1 t a oldsz

-- The loop of uvmalloc over `n` more pages.
unfoldable pub grow_pages : ℕ → ℕ → Machine → Root → ℕ → ℕ → ℕ → Flags → Run (Machine × Root × ℕ)
unfolding mappages after_map
grow_pages zero end m t a oldsz newsz perm = ok (m, t, newsz)
grow_pages (suc n) end m t a oldsz newsz perm =
    let (m1, mem) = alloc_page m in
    if mem == 0
    then undo_alloc end m1 t a oldsz
    else mappages (record m1 { bytes = memset m1.bytes mem 0 pgsize }) t a pgsize mem perm >>= λ r.
        after_map end mem a oldsz r (grow_pages n end r.0 r.1 (a + pgsize) oldsz newsz perm)

-- `perm` is `PTE_R | PTE_U | xperm`.
unfoldable pub uvmalloc : ℕ → Machine → Root → ℕ → ℕ → Flags → Run (Machine × Root × ℕ)
unfolding grow_pages
uvmalloc end m t oldsz newsz perm =
    if ltb newsz oldsz
    then ok (m, t, oldsz)
    else grow_pages ((newsz + pgsize - 1 - pgroundup oldsz) / pgsize) end m t (pgroundup oldsz)
        (pgroundup oldsz) newsz perm

-- The flags that both processes get of a page: a writable page becomes copy-on-write.
unfoldable pub shared_flags : Flags → Flags
shared_flags f = if f.w then record f { w = false; cow = true } else f

-- uvmcopy's `err`, at page address `i`.
unfoldable pub undo_copy : ℕ → Machine → Root → Root → ℕ → Run (Machine × Root × Root × Bool)
unfolding uvmunmap
undo_copy end m old new i =
    uvmunmap end m new 0 (i / pgsize + 1) true >>= λ r. ok (r.0, old, r.1, false)

-- kaddref in a machine.
unfoldable pub add_ref : Machine → ℕ → Machine × Option ℕ
add_ref m pa = let (k, r) = kaddref m.kmem pa in (record m { kmem = k }, r)

-- The end of a round of uvmcopy's loop, once kaddref has answered.
unfoldable pub after_ref :
    ℕ → Root → Root → ℕ → Pte → Machine × Option ℕ → Run (Machine × Root × Root × Bool)
unfolding undo_copy shared_flags
after_ref end old new i p (m, none) = undo_copy end m old new i
after_ref end old new i p (m, some c) = ok (
  m,
  (if p.flags.w then store old i (record p { flags = shared_flags p.flags }) else old),
  new,
  true,
)

-- The round from mappages on.
unfoldable pub after_share :
    ℕ → Root → ℕ → Pte → Machine × Root × Bool → Run (Machine × Root × Root × Bool)
unfolding after_ref add_ref
after_share end old i p (m, new, false) = undo_copy end m old new i
after_share end old i p (m, new, true) = after_ref end old new i p (add_ref m p.pa)

-- The round for one page.
unfoldable pub copy_one : ℕ → Machine → Root → Root → ℕ → Run (Machine × Root × Root × Bool)
unfolding mappages after_share
copy_one end m old new i =
    if not (pte_at old i).v
    then ok (m, old, new, true)
    else mappages m new i pgsize (pte_at old i).pa (shared_flags (pte_at old i).flags)
      >>= after_share end old i (pte_at old i)

-- The loop, over `n` more pages.
unfoldable pub copy_pages : ℕ → ℕ → Machine → Root → Root → ℕ → Run (Machine × Root × Root × Bool)
unfolding copy_one
copy_pages zero end m old new i = ok (m, old, new, true)
copy_pages (suc n) end m old new i = copy_one end m old new i >>= λ r.
    (let rest = copy_pages n end r.0 r.1 r.2 (i + pgsize) in if r.3 then rest else ok r)

-- The machine, both tables, and whether the result is 0.
unfoldable pub uvmcopy : ℕ → Machine → Root → Root → ℕ → Run (Machine × Root × Root × Bool)
unfolding copy_pages
uvmcopy end m old new sz = copy_pages ((sz + pgsize - 1) / pgsize) end m old new 0

unfoldable pub uvmclear : Root → ℕ → Run Root
uvmclear t va = elim (find t va) [
  | none ↦ panic "uvmclear"
  | some p ↦ ok (store t va (record p { flags = record p.flags { u = false } }))
]

-- The rest of cowfault for the entry `p` of the page at `va`.
unfoldable pub break_cow : ℕ → Machine → Root → ℕ → Pte → Run (Machine × Root × Bool)
break_cow end m t va p =
    let (m1, mem) = alloc_page m in
    if mem == 0
    then ok (m1, t, false)
    else free_page end (record m1 { bytes = memmove m1.bytes mem p.pa pgsize }) p.pa >>= λ m2. ok (
      m2,
      store t va (record {
        v = p.v;
        pa = mem / pgsize * pgsize;
        flags = record p.flags { w = true; cow = false };
      }),
      true,
    )

unfoldable pub cowfault : ℕ → Machine → Root → ℕ → Run (Machine × Root × Bool)
unfolding break_cow
cowfault end m t addr =
    let va = pgrounddown addr in
    if not (pte_at t va).v || not (pte_at t va).flags.cow
    then ok (m, t, false)
    else break_cow end m t va (pte_at t va)

unfoldable pub ismapped : Root → ℕ → Bool
ismapped t va = (pte_at t va).v

-- vmfault's mapping of the new page `mem`.
unfoldable pub after_fault : ℕ → ℕ → Machine × Root × Bool → Run (Machine × Root × ℕ)
after_fault end mem (m, t, true) = ok (m, t, mem)
after_fault end mem (m, t, false) = free_page end m mem >>= λ m1. ok (m1, t, 0)

-- vmfault in a process of size `sz` on its own table; the address of the page, or 0.
unfoldable pub vmfault : ℕ → ℕ → Machine → Root → ℕ → Run (Machine × Root × ℕ)
unfolding mappages after_fault
vmfault end sz m t addr =
    let va = pgrounddown addr in
    let (m1, mem) = alloc_page m in
    if leb sz addr
    then ok (m, t, 0)
    else if ismapped t va
    then ok (m, t, 0)
    else if mem == 0
    then ok (m1, t, 0)
    else mappages (record m1 { bytes = memset m1.bytes mem 0 pgsize }) t va pgsize mem
        (record user_flags { w = true })
      >>= after_fault end mem
