-- ===== src/Vm.antt =====
-- kernel/vm.c: page tables and user memory. The pages of one page table are reached from one entry
-- each, so a table is a tree here: a root, tables in the middle and leaves of entries. `walk` with
-- `alloc` 0 is `find`, and with `alloc` 1 `walk_alloc`; writing through the pointer that it gives is
-- `store`. An entry is a record of its address and bits, with the word of it in Vm.Entry. `bytes` is
-- physical memory without the pages of page tables. The machine's own bits of an entry (accessed,
-- dirty) are left out, and so is the flushing of the TLB.
pub mod Entry
pub mod Tree
pub mod Ops
pub mod Map
pub mod Memory
pub mod Cow
pub mod Refs
pub mod Share
pub mod UserCopy
pub mod Fork
pub mod Enough
pub mod Isolation
use hai_os.Base.{
  ℕ, ◌+◌, ◌*◌, ◌/◌, ◌%◌, ◌^◌, Bool, true, false, not, Option, none, some, leb, ◌==◌, if◌then◌else◌,
  Run, ok, ◌>>=◌, ◌>>◌, update,
}
use hai_os.Params.{pgsize}
use hai_os.Str.{Bytes, memset}
use hai_os.Kalloc.{Kmem, kalloc, kfree}

abbrev pub pgrounddown : ℕ → ℕ
pgrounddown a = a / pgsize * pgsize

abbrev pub maxva : ℕ
maxva = 2 ^ 38

-- The permission bits of an entry.
pub record Flags : Type 0 where
  pub r : Bool
  pub w : Bool
  pub x : Bool
  pub u : Bool
  pub cow : Bool

-- `pte_t`: PTE_V, the address PTE2PA and the flags.
pub record Pte : Type 0 where
  pub v : Bool
  pub pa : ℕ
  pub flags : Flags

abbrev pub no_flags : Flags
no_flags = record { r = false; w = false; x = false; u = false; cow = false }

-- The word 0.
abbrev pub no_pte : Pte
no_pte = record { v = false; pa = 0; flags = no_flags }

-- A page of entries, and a page of pointers to tables one level down.
pub record Leaf : Type 0 where
  pub addr : ℕ
  pub pte : ℕ → Pte

pub record Node (A : Type 0) : Type 0 where
  pub addr : ℕ
  pub child : ℕ → Option A

abbrev pub Mid : Type 0
Mid = Node Leaf

abbrev pub Root : Type 0
Root = Node Mid

-- `PX(level, va)`
abbrev pub px : ℕ → ℕ → ℕ
px level va = va / 2 ^ (12 + 9 * level) % 512

-- The kernel's memory: the allocator and the bytes.
pub record Machine : Type 0 where
  pub kmem : Kmem
  pub bytes : Bytes

-- kalloc, and its filling of the page with 5.
unfoldable pub alloc_page : Machine → Machine × ℕ
alloc_page m =
    let (k, pa) = kalloc m.kmem in
    if pa == 0
    then (record m { kmem = k }, 0)
    else (record m { kmem = k; bytes = memset m.bytes pa 5 pgsize }, pa)

-- kfree; the filling with 1 of a page that is free then is in the allocator's `junk`.
unfoldable pub free_page : ℕ → Machine → ℕ → Run Machine
free_page end m pa = kfree end m.kmem pa >>= λ k. ok (record m { kmem = k })

abbrev pub empty_leaf : ℕ → Leaf
empty_leaf pa = record { addr = pa; pte = λ i. no_pte }

abbrev pub empty_node : {A : Type 0} → ℕ → Node A
empty_node pa = record { addr = pa; child = λ i. none }

abbrev pub with_child : {A : Type 0} → Node A → ℕ → A → Node A
with_child t i a = record t { child = update t.child i (some a) }

abbrev pub with_pte : Leaf → ℕ → Pte → Leaf
with_pte t i p = record t { pte = update t.pte i p }

-- A step of walk down one level: the table there, or a new one, or none without memory.
pub step_down : {A : Type 0} → (ℕ → A) → Machine → Option A → Machine × Option A
unfolding alloc_page
step_down new m (some t) = (m, some t)
step_down new m none =
    let (m1, pa) = alloc_page m in if pa == 0 then (m1, none) else (m1, some (new pa))

-- walk with `alloc` 0: the entry, or the null pointer.
unfoldable pub find_leaf : Option Leaf → ℕ → Option Pte
find_leaf none va = none
find_leaf (some t) va = some (t.pte (px 0 va))

unfoldable pub find_mid : Option Mid → ℕ → Option Pte
unfolding find_leaf
find_mid none va = none
find_mid (some t) va = find_leaf (t.child (px 1 va)) va

unfoldable pub find : Root → ℕ → Option Pte
unfolding find_mid
find t va = if leb maxva va then none else find_mid (t.child (px 2 va)) va

-- walk with `alloc` 1: the table with all levels for `va` in it, and whether it was possible. A
-- table that was added stays when the next one finds no memory.
pub walk_leaf : ℕ → Root → Mid → Machine × Option Leaf → Machine × Root × Bool
walk_leaf va root mid (m, none) = (m, with_child root (px 2 va) mid, false)
walk_leaf va root mid (m, some leaf) =
    (m, with_child root (px 2 va) (with_child mid (px 1 va) leaf), true)

pub walk_mid : ℕ → Root → Machine × Option Mid → Machine × Root × Bool
unfolding step_down walk_leaf
walk_mid va root (m, none) = (m, root, false)
walk_mid va root (m, some mid) =
    walk_leaf va root mid (step_down empty_leaf m (mid.child (px 1 va)))

unfoldable pub walk_alloc : Machine → Root → ℕ → Machine × Root × Bool
unfolding walk_mid
walk_alloc m root va =
    if leb maxva va
    then (m, root, false)
    else walk_mid va root (step_down empty_node m (root.child (px 2 va)))

-- `*pte = p` for the entry that walk found.
pub store_leaf : Mid → ℕ → Pte → Option Leaf → Mid
store_leaf t va p none = t
store_leaf t va p (some leaf) = with_child t (px 1 va) (with_pte leaf (px 0 va) p)

pub store_mid : Root → ℕ → Pte → Option Mid → Root
unfolding store_leaf
store_mid t va p none = t
store_mid t va p (some mid) = with_child t (px 2 va) (store_leaf mid va p (mid.child (px 1 va)))

unfoldable pub store : Root → ℕ → Pte → Root
unfolding store_mid
store t va p = store_mid t va p (t.child (px 2 va))

-- What walk reads, or the word 0 where there is no entry.
abbrev pub or_no_pte : Option Pte → Pte
or_no_pte none = no_pte
or_no_pte (some p) = p

unfoldable pub pte_at : Root → ℕ → Pte
unfolding find
pte_at t va = or_no_pte (find t va)

-- walkaddr; 0 where no user page is mapped.
unfoldable pub walkaddr : Root → ℕ → ℕ
unfolding pte_at
walkaddr t va =
    if leb maxva va
    then 0
    else if not (pte_at t va).v
    then 0
    else if not (pte_at t va).flags.u
    then 0
    else (pte_at t va).pa
