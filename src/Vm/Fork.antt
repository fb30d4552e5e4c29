-- ===== src/Vm/Fork.antt =====
-- uvmcopy: parent and child share every page, copy-on-write where it was writable, and each shared
-- page has one reference more for each time it is mapped.
use hai_os.Base.{
  ℕ, zero, suc, ◌+◌, ◌-◌, ◌/◌, ◌%◌, ◌^◌, ◌≤◌, ◌<◌, ◌≡◌, refl, sym, ap, ◌∙◌, inl, inr, Bool, true,
  false, ◌&&◌, arith, leb, ◌==◌, if◌then◌else◌, le→leb, Bool-cases, Run, ok, panic, ◌>>=◌,
}
use hai_os.Kalloc.Invariant.{IsPage}
use hai_os.Vm.{maxva, Pte, no_pte, Root, Machine, find, pte_at}
use hai_os.Vm.Tree.{same_page}
use hai_os.Vm.Map.{in_pages}
use hai_os.Vm.Memory.{IsMemory, refs}
use hai_os.Vm.Share.{shared, uses, UserPages, Copied, CopyResult, one_page, copy_one-CopyResult}
use hai_os.Vm.Ops.{copy_one, copy_pages, uvmcopy}

pte_at-high : (t : Root) (a : ℕ) → maxva ≤ a → pte_at t a ≡ no_pte
unfolding pte_at find
pte_at-high t a h = rw (le→leb maxva a h) refl

-- After a round the entries of the later pages are as before.
later_same :
    (end : ℕ) (m m1 : Machine) (old new old1 new1 : Root) (i : ℕ)
    → Copied end m old new i 1 m1 old1 new1
    → (j : ℕ) → same_page i j ≡ false
    → pte_at old1 j ≡ pte_at old j
later_same end m m1 old new old1 new1 i h j ne = elim (Bool-cases (leb maxva j)) [
  | inl e ↦
      let high : maxva ≤ j = ground (arith, e) in
      pte_at-high old1 j high ∙ sym (pte_at-high old j high)
  | inr e ↦ h.parent j (ground (arith, e)) ∙ rw (one_page i j, ne) refl
]

uses-same :
    (q n : ℕ) (t t' : Root) (i : ℕ)
    → ((j : ℕ) → i ≤ j → pte_at t' j ≡ pte_at t j)
    → uses q n t' i ≡ uses q n t i
uses-same q zero t t' i h = refl
uses-same q (suc n) t t' i h = rw (h i (omega arith)) (
    ap (◌+◌ (if (pte_at t i).v && ((pte_at t i).pa == q) then 1 else 0))
      (uses-same q n t t' (i + 4096) (λ j le. h j (omega (arith, le)))))

-- One round, and the rest.
Copied-then :
    (end : ℕ) (m m1 m2 : Machine) (old new old1 new1 old2 new2 : Root) (i n : ℕ)
    → i % 4096 ≡ 0
    → Copied end m old new i 1 m1 old1 new1
    → Copied end m1 old1 new1 (i + 4096) n m2 old2 new2
    → Copied end m old new i (suc n) m2 old2 new2
Copied-then end m m1 m2 old new old1 new1 old2 new2 i n al h k = record {
  memory = k.memory;
  child = child;
  parent = parent;
  counts = counts;
}
  where
    apart : (j : ℕ) → i + 4096 ≤ j → same_page i j ≡ false
    apart j le = ground (arith, al, le)

    child :
        (va : ℕ)
        → va < maxva
        → pte_at new2 va ≡ (
            if in_pages i (suc n) va && (pte_at old va).v
            then shared (pte_at old va)
            else pte_at new va)
    child va la = elim (Bool-cases (same_page i va)) [
      | inl e ↦
          let out : in_pages (i + 4096) n va ≡ false = ground (arith, e) in
          let inside : in_pages i (suc n) va ≡ true = ground (arith, e) in
          k.child va la ∙ rw (out, inside) (h.child va la ∙ rw (one_page i va, e) refl)
      | inr e ↦
          let shift : in_pages (i + 4096) n va ≡ in_pages i (suc n) va = ground (arith, e) in
          k.child va la
          ∙ rw
              (
                shift,
                later_same end m m1 old new old1 new1 i h va e,
                h.child va la,
                one_page i va,
                e,
              )
              refl
    ]

    parent :
        (va : ℕ)
        → va < maxva
        → pte_at old2 va ≡ (
            if in_pages i (suc n) va && (pte_at old va).v
            then shared (pte_at old va)
            else pte_at old va)
    parent va la = elim (Bool-cases (same_page i va)) [
      | inl e ↦
          let out : in_pages (i + 4096) n va ≡ false = ground (arith, e) in
          let inside : in_pages i (suc n) va ≡ true = ground (arith, e) in
          k.parent va la ∙ rw (out, inside) (h.parent va la ∙ rw (one_page i va, e) refl)
      | inr e ↦
          let shift : in_pages (i + 4096) n va ≡ in_pages i (suc n) va = ground (arith, e) in
          k.parent va la ∙ rw (shift, later_same end m m1 old new old1 new1 i h va e) refl
    ]

    counts : (q : ℕ) → IsPage end q → 0 < refs m q → refs m2 q ≡ refs m q + uses q (suc n) old i
    counts q hq u =
        let c1 = h.counts q hq u in
        let c2 = k.counts q hq (omega (arith, c1, u)) in
        let same =
          uses-same q n old old1 (i + 4096)
            (λ j le. later_same end m m1 old new old1 new1 i h j (apart j le)) in
        omega (arith, c1, c2, same)

-- The pages of the later rounds still have room in their counters.
pub UserPages-tail :
    (end : ℕ) (m m1 : Machine) (old new old1 new1 : Root) (i n : ℕ)
    → i % 4096 ≡ 0
    → Copied end m old new i 1 m1 old1 new1
    → UserPages end m old i (suc n)
    → UserPages end m1 old1 (i + 4096) n
UserPages-tail end m m1 old new old1 new1 i n al h users va la inside v =
    let ne : same_page i va ≡ false = ground (arith, inside) in
    let wide : in_pages i (suc n) va ≡ true = ground (arith, inside) in
    let same = later_same end m m1 old new old1 new1 i h va ne in
    rw same (given (pte_at old va) (users va la wide (ap (λ (x : Pte). x.v) (sym same) ∙ v)))
  where
    given :
        (p : Pte)
        → IsPage end p.pa × (0 < refs m p.pa) × (refs m p.pa + suc n < 2 ^ 16 - 1)
        → IsPage end p.pa × (0 < refs m1 p.pa) × (refs m1 p.pa + n < 2 ^ 16 - 1)
    given p (page, used, room) =
        let c = h.counts p.pa page used in
        let one : uses p.pa 1 old i ≤ 1 = ground arith in
        (page, omega (arith, c, used), omega (arith, c, one, room))

CopyResult-then :
    (end : ℕ) (m m1 : Machine) (old new old1 new1 : Root) (i n : ℕ)
    (r : Run (Machine × Root × Root × Bool))
    → i % 4096 ≡ 0
    → Copied end m old new i 1 m1 old1 new1
    → CopyResult end m1 old1 new1 (i + 4096) n r
    → CopyResult end m old new i (suc n) r
CopyResult-then end m m1 old new old1 new1 i n (panic s) al h k = tt
CopyResult-then end m m1 old new old1 new1 i n (ok (m2, old2, new2, false)) al h k = tt
CopyResult-then end m m1 old new old1 new1 i n (ok (m2, old2, new2, true)) al h k =
    Copied-then end m m1 m2 old new old1 new1 old2 new2 i n al h k

copy_pages-CopyResult :
    (n end : ℕ) (m : Machine) (old new : Root) (i : ℕ)
    → 0 < end
    → i % 4096 ≡ 0
    → IsMemory end m
    → UserPages end m old i n
    → CopyResult end m old new i n (copy_pages n end m old new i)
unfolding copy_pages
copy_pages-CopyResult zero end m old new i pe al mem users = record {
  memory = mem;
  child = λ va la. rw (nowhere va) refl;
  parent = λ va la. rw (nowhere va) refl;
  counts = λ q hq u. omega arith;
}
  where
    nowhere : (va : ℕ) → in_pages i 0 va ≡ false
    nowhere va = ground arith
copy_pages-CopyResult (suc n) end m old new i pe al mem users =
    round
      (λ m1 old1 new1 mem1 users1.
        copy_pages-CopyResult n end m1 old1 new1 (i + 4096) pe (omega (arith, al)) mem1 users1)
      (copy_one end m old new i) (copy_one-CopyResult end m old new i n pe al mem users)
  where
    round :
        ((m1 : Machine) (old1 new1 : Root)
          → IsMemory end m1
          → UserPages end m1 old1 (i + 4096) n
          → CopyResult end m1 old1 new1 (i + 4096) n (copy_pages n end m1 old1 new1 (i + 4096)))
        → (r : Run (Machine × Root × Root × Bool)) → CopyResult end m old new i 1 r
        → CopyResult end m old new i (suc n) (
            r >>= λ x.
            (let rest = copy_pages n end x.0 x.1 x.2 (i + 4096) in if x.3 then rest else ok x))
    round ih (panic s) h = tt
    round ih (ok (m1, old1, new1, false)) h = tt
    round ih (ok (m1, old1, new1, true)) h =
        CopyResult-then end m m1 old new old1 new1 i n (copy_pages n end m1 old1 new1 (i + 4096)) al
          h (ih m1 old1 new1 h.memory (UserPages-tail end m m1 old new old1 new1 i n al h users))

-- uvmcopy of a process whose pages below its size are pages of the allocator in use, with room in
-- their counters for as many references more, on a sound allocator. If the result is 0, the child maps
-- what the parent maps there and is as before elsewhere; in both, a page that was writable is
-- copy-on-write now; and the count of a page in use has grown by how often the parent maps it.
pub uvmcopy-CopyResult :
    (end : ℕ) (m : Machine) (old new : Root) (sz : ℕ)
    → 0 < end
    → IsMemory end m
    → UserPages end m old 0 ((sz + 4095) / 4096)
    → CopyResult end m old new 0 ((sz + 4095) / 4096) (uvmcopy end m old new sz)
unfolding uvmcopy
uvmcopy-CopyResult end m old new sz pe mem users =
    let e : sz + 4096 - 1 ≡ sz + 4095 = omega arith in
    rw e (copy_pages-CopyResult ((sz + 4095) / 4096) end m old new 0 pe (omega arith) mem users)
