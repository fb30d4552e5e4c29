-- ===== src/Vm/Cow.antt =====
-- cowfault gives the process a page of its own with the same bytes.
use hai_os.Base.{
  ℕ, ◌+◌, ◌-◌, ◌*◌, ◌/◌, ◌<◌, ◌≡◌, refl, ap, ◌∙◌, ◌≢◌, inl, inr, Bool, true, false, not, ◌||◌,
  Option, none, some, arith, ◌==◌, if◌then◌else◌, eq→==, ne→==, Run, ok, panic,
}
use hai_os.Params.{pgsize}
use hai_os.Str.{memmove}
use hai_os.Str.Move.{memmove_lem}
use hai_os.Kalloc.Invariant.{IsPage}
use hai_os.Vm.{pgrounddown, maxva, Pte, Root, Machine, alloc_page, find, or_no_pte, pte_at}
use hai_os.Vm.Tree.{same_page, Reached, store-pte_at}
use hai_os.Vm.Memory.{IsMemory, refs, in_page, alloc_page_lem, free_page_lem}
use hai_os.Vm.Map.{find-below}
use hai_os.Vm.Ops.{break_cow, cowfault}

-- The fault at `va` is resolved: the page has an entry for a new page with one reference, writable
-- and no longer copy-on-write, that holds the bytes of the old one, which has a reference less; no
-- other entry and no other byte outside the new page changes.
pub record Broken (end : ℕ) (m : Machine) (t : Root) (va : ℕ) (m' : Machine) (t' : Root)
    : Type 0 where
  pub mem : ℕ
  pub page : IsPage end mem
  pub unused : refs m mem ≡ 0
  pub memory : IsMemory end m'
  pub entries :
      (a : ℕ)
      → a < maxva
      → pte_at t' a ≡ (
          if same_page va a
          then record {
            v = true;
            pa = mem;
            flags = record (pte_at t va).flags { w = true; cow = false };
          }
          else pte_at t a)
  pub copied : (i : ℕ) → i < 4096 → m'.bytes (mem + i) ≡ m.bytes ((pte_at t va).pa + i)
  pub elsewhere : (a : ℕ) → in_page mem a ≡ false → m'.bytes a ≡ m.bytes a
  pub counts :
      (q : ℕ)
      → IsPage end q
      → refs m' q
        ≡ (if mem == q then 1 else if (pte_at t va).pa == q then refs m q - 1 else refs m q)

-- What cowfault gives where the page of `va` is copy-on-write.
abbrev pub CowResult : ℕ → Machine → Root → ℕ → Run (Machine × Root × Bool) → Type 0
CowResult end m t va (ok (m', t', true)) = Broken end m t va m' t'
CowResult end m t va (ok (m', t', false)) =
    (m.kmem.freelist ≡ 0)
    × (t' ≡ t)
    × (m'.bytes ≡ m.bytes)
    × ((q : ℕ) → IsPage end q → refs m' q ≡ refs m q)
CowResult end m t va (panic s) = ⊥

break_cow-CowResult :
    (end : ℕ) (m : Machine) (t : Root) (va : ℕ)
    → 0 < end
    → va < maxva
    → IsMemory end m
    → Reached t va
    → (pte_at t va).v ≡ true
    → IsPage end (pte_at t va).pa
    → 0 < refs m (pte_at t va).pa
    → CowResult end m t va (break_cow end m t va (pte_at t va))
unfolding break_cow
break_cow-CowResult end m t va pe lt mem_ok reached valid page used =
    let (mem_ok', alt) = alloc_page_lem end m pe mem_ok in
    elim alt [
      | inl (z, empty, same, bytes) ↦ rw (eq→== (alloc_page m).1 0 z) (empty, refl, bytes, same)
      | inr (nz, new, free, counts, outside) ↦
          let p = pte_at t va in
          let mem = (alloc_page m).1 in
          let m1 = (alloc_page m).0 in
          let m1' : Machine = record m1 { bytes = memmove m1.bytes mem p.pa pgsize } in
          let ne : mem ≢ p.pa = λ e. absurd (omega (arith, used, free, ap (refs m) e)) in
          let had = counts p.pa page in
          let still : 0 < refs m1' p.pa = ground (arith, had, used, ne) in
          let aligned : mem / 4096 * 4096 ≡ mem = omega (arith, new.0) in
          let (m2, e, mem_ok2, bytes2, counts2) = free_page_lem end m1' p.pa mem_ok' page still in
          rw (ne→== mem 0 nz, e)
            (record {
              mem = mem;
              page = new;
              unused = free;
              memory = mem_ok2;
              entries = λ a la.
                  store-pte_at t va a
                    (record {
                      v = p.v;
                      pa = mem / pgsize * pgsize;
                      flags = record p.flags { w = true; cow = false };
                    })
                    reached lt la
                  ∙ rw (valid, aligned) refl;
              copied = λ i hi.
                  (let inside : in_page mem (mem + i) ≡ true = ground (arith, hi) in
                    let back : p.pa + (mem + i - mem) ≡ p.pa + i = omega arith in
                    let far : in_page mem (p.pa + i) ≡ false =
                      ground (arith, hi, new.0, page.0, ne) in
                    ap (λ f. f (mem + i)) bytes2
                    ∙ memmove_lem m1.bytes mem p.pa pgsize (mem + i)
                    ∙ rw (inside, back) (outside (p.pa + i) far));
              elsewhere = λ a o.
                  ap (λ f. f a) bytes2
                  ∙ memmove_lem m1.bytes mem p.pa pgsize a
                  ∙ rw o (outside a o);
              counts = λ q hq. ground (arith, counts2 q hq, counts q hq, had, ne);
            })
    ]

pub valid-Reached : (t : Root) (va : ℕ) → (pte_at t va).v ≡ true → Reached t va
unfolding pte_at
valid-Reached t va v = given (find t va) refl v
  where
    false_true : false ≡ true → ⊥
    false_true q = cc

    given : (o : Option Pte) → find t va ≡ o → (or_no_pte o).v ≡ true → Reached t va
    given none e h = absurd (false_true h)
    given (some p) e h = (p, e)

-- cowfault at an address whose page is mapped copy-on-write, to a page of the allocator that is in
-- use, on a sound allocator: either it succeeds, and the process has a writable page of its own there
-- with the bytes that it read before, the old page has a reference less, and no other page, entry
-- or count changes; or the free list was empty, and no entry, byte or count changes. It never panics.
pub cowfault-CowResult :
    (end : ℕ) (m : Machine) (t : Root) (addr : ℕ)
    → 0 < end
    → IsMemory end m
    → let p = pte_at t (pgrounddown addr) in
      p.v ≡ true
      → p.flags.cow ≡ true
      → IsPage end p.pa
      → 0 < refs m p.pa
      → CowResult end m t (pgrounddown addr) (cowfault end m t addr)
unfolding cowfault
cowfault-CowResult end m t addr pe mem_ok valid cow page used =
    let va = pgrounddown addr in
    let r = valid-Reached t va valid in
    let go : (not (pte_at t va).v || not (pte_at t va).flags.cow) ≡ false = rw (valid, cow) refl in
    rw go (break_cow-CowResult end m t va pe (find-below t va r) mem_ok r valid page used)
