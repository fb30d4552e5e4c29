-- ===== src/Tests/Vm.antt =====
-- Examples for kernel/vm.c: a table that maps every address, copy-on-write, to the page at the top of
-- physical memory, which is in use, where three pages are free; and one that maps them writable.
use hai_os.Base.{ℕ, ◌<◌, ◌≡◌, refl, sym, ap, subst, true, false, ok, some, [], ◌∷◌, arith, lt→leb}
use hai_os.Kalloc.{krefcount}
use hai_os.Kalloc.Invariant.{IsPage}
use hai_os.Vm.{
  maxva, Flags, Pte, Leaf, Mid, Root, Machine, empty_node, find, find_mid, find_leaf, pte_at,
  pgrounddown,
}
use hai_os.Vm.Entry.{to_word, from_word, from_word-to_word}
use hai_os.Vm.Ops.{mappages, cowfault, uvmcopy}
use hai_os.Vm.Map.{MapResult, mappages-MapResult}
use hai_os.Vm.Memory.{IsMemory}
use hai_os.Vm.Cow.{CowResult, cowfault-CowResult}
use hai_os.Vm.Share.{UserPages}
use hai_os.Vm.Isolation.{Apart, cowfault-uvmcopy}
use hai_os.Vm.Enough.{Unmapped}
use hai_os.Vm.UserCopy.{copyinstr, user_string}
use hai_os.Vm.UserCopy.Text.{copyinstr_lem}
use hai_os.Tests.Kalloc.{
  top_page, middle_page, high_page, low_page, four_pages, four_pages-Inv, top_in_use,
}

abbrev cow_flags : Flags
cow_flags = record { r = true; w = false; x = false; u = true; cow = true }

abbrev cow_pte : Pte
cow_pte = record { v = true; pa = top_page; flags = cow_flags }

abbrev writable_pte : Pte
writable_pte = record cow_pte { flags = record cow_flags { w = true; cow = false } }

-- Every page has the entry `p`.
abbrev leaf_of : Pte → Leaf
leaf_of p = record { addr = 4096; pte = λ i. p }

abbrev mid_of : Pte → Mid
mid_of p = record { addr = 8192; child = λ i. some (leaf_of p) }

abbrev table_of : Pte → Root
table_of p = record { addr = 12288; child = λ i. some (mid_of p) }

abbrev cow_table : Root
cow_table = table_of cow_pte

abbrev writable_table : Root
writable_table = table_of writable_pte

abbrev machine : Machine
machine = record { kmem = four_pages; bytes = λ a. 0 }

machine-IsMemory : IsMemory low_page machine
machine-IsMemory = (low_page ∷ middle_page ∷ high_page ∷ [], top_page ∷ [], four_pages-Inv)

pte_at-table_of : (p : Pte) (va : ℕ) → va < maxva → pte_at (table_of p) va ≡ p
unfolding pte_at find find_mid find_leaf
pte_at-table_of p va lt = rw (lt→leb maxva va lt) refl

page : IsPage low_page top_page
page = ground arith

in_use : 0 < krefcount four_pages top_page
in_use = omega (arith, top_in_use)

table_of-UserPages : (p : Pte) → p.pa ≡ top_page → UserPages low_page machine (table_of p) 0 1
table_of-UserPages p e va lt inside v =
    rw (pte_at-table_of p va lt, e) (page, in_use, omega (arith, top_in_use))

empty_node-Unmapped : Unmapped (empty_node 16384) 0 1
unfolding pte_at find find_mid
empty_node-Unmapped va lt inside = rw (lt→leb maxva va lt) refl

cowfault-CowResult_example :
    CowResult low_page machine cow_table
      (pgrounddown 5000)
      (cowfault low_page machine cow_table 5000)
cowfault-CowResult_example =
    cowfault-CowResult low_page machine cow_table 5000 (ground arith) machine-IsMemory
      (ap (λ p. p.v) (pte_at-table_of cow_pte 4096 (ground arith)))
      (ap (λ p. p.flags.cow) (pte_at-table_of cow_pte 4096 (ground arith)))
      (subst (λ p. IsPage low_page p.pa) (sym (pte_at-table_of cow_pte 4096 (ground arith))) page)
      (subst (λ p. 0 < krefcount four_pages p.pa)
        (sym (pte_at-table_of cow_pte 4096 (ground arith))) in_use)

cowfault-uvmcopy_example :
    (m1 : Machine) × (old1 : Root) × (new1 : Root) × (m2 : Machine) × (new2 : Root) × (uvmcopy
        low_page machine writable_table
        (empty_node 16384)
        4096
      ≡ ok (m1, old1, new1, true))
    × (cowfault low_page m1 new1 50 ≡ ok (m2, new2, true))
    × Apart m1 old1 50 90 m2 new2
cowfault-uvmcopy_example =
    cowfault-uvmcopy low_page machine writable_table (empty_node 16384) 4096 50 90 (ground arith)
      machine-IsMemory (table_of-UserPages writable_pte refl) empty_node-Unmapped (ground arith)
      (ground arith) (ap (λ p. p.v) (pte_at-table_of writable_pte 0 (ground arith)))
      (ap (λ p. p.flags.w) (pte_at-table_of writable_pte 0 (ground arith))) (ground arith)
      (ap (λ p. p.v) (pte_at-table_of writable_pte 90 (ground arith)))

mappages-MapResult_example :
    MapResult
      (empty_node 16384)
      8192
      2
      top_page
      cow_flags
      (mappages machine (empty_node 16384) 8192 8192 top_page cow_flags)
mappages-MapResult_example =
    mappages-MapResult machine (empty_node 16384) 8192 2 top_page cow_flags (ground arith)
      (ground arith)

from_word-to_word_example : from_word (to_word cow_pte) ≡ cow_pte
from_word-to_word_example = from_word-to_word cow_pte (ground arith)

copyinstr_lem_example : copyinstr cow_table (λ a. 0) 5000 7 ≡ user_string 7 cow_table (λ a. 0) 5000
copyinstr_lem_example = copyinstr_lem cow_table (λ a. 0) 5000 7
