-- ===== src/Vm/Share.antt =====
-- One round of uvmcopy: parent and child share the page, copy-on-write where it was writable.
use hai_os.Base.{
  ℕ, zero, suc, ◌+◌, ◌-◌, ◌*◌, ◌/◌, ◌%◌, ◌^◌, ◌<◌, ◌≡◌, refl, sym, ap, ◌∙◌, inl, inr, Bool, true,
  false, not, ◌&&◌, some, arith, ◌==◌, if◌then◌else◌, ==→eq, Bool-cases, Run, ok, panic, ◌>>=◌,
}
use hai_os.Kalloc.Invariant.{IsPage}
use hai_os.Kalloc.{kaddref}
use hai_os.Kalloc.Sharing.{kaddref_lem}
use hai_os.Vm.{maxva, Pte, Root, Machine, store, pte_at}
use hai_os.Vm.Tree.{same_page, store-pte_at, pte_at-same_page}
use hai_os.Vm.Map.{in_pages, MapsPages, MapResult, mappages-MapResult, valid-below}
use hai_os.Vm.Memory.{IsMemory, refs}
use hai_os.Vm.Refs.{RunKeeps, mappages-RunKeeps}
use hai_os.Vm.Cow.{valid-Reached}
use hai_os.Vm.Ops.{
  mappages, uvmunmap, undo_copy, shared_flags, add_ref, after_ref, after_share, copy_one,
}

abbrev pub shared : Pte → Pte
shared p = record p { flags = shared_flags p.flags }

-- How many of the `n` pages from `i` on are mapped to the page `q`.
abbrev pub uses : ℕ → ℕ → Root → ℕ → ℕ
uses q zero t i = 0
uses q (suc n) t i =
    (if (pte_at t i).v && ((pte_at t i).pa == q) then 1 else 0) + uses q n t (i + 4096)

-- The pages that the process maps among the `n` from `i` on: of the allocator, in use, and with room
-- in their counters.
abbrev pub UserPages : ℕ → Machine → Root → ℕ → ℕ → Type 0
UserPages end m t i n =
    (va : ℕ)
    → va < maxva
    → in_pages i n va ≡ true
    → (pte_at t va).v ≡ true
    → IsPage end (pte_at t va).pa
      × (0 < refs m (pte_at t va).pa)
      × (refs m (pte_at t va).pa + n < 2 ^ 16 - 1)

pub record Copied (end : ℕ) (m : Machine) (old new : Root) (i n : ℕ) (m' : Machine)
    (old' new' : Root) : Type 0 where
  pub memory : IsMemory end m'
  pub child :
      (va : ℕ)
      → va < maxva
      → pte_at new' va
        ≡ (if in_pages i n va && (pte_at old va).v then shared (pte_at old va) else pte_at new va)
  pub parent :
      (va : ℕ)
      → va < maxva
      → pte_at old' va
        ≡ (if in_pages i n va && (pte_at old va).v then shared (pte_at old va) else pte_at old va)
  pub counts : (q : ℕ) → IsPage end q → 0 < refs m q → refs m' q ≡ refs m q + uses q n old i

abbrev pub CopyResult :
    ℕ → Machine → Root → Root → ℕ → ℕ → Run (Machine × Root × Root × Bool) → Type 0
CopyResult end m old new i n (ok (m', old', new', true)) = Copied end m old new i n m' old' new'
CopyResult end m old new i n (ok (m', old', new', false)) = Unit {0}
CopyResult end m old new i n (panic s) = Unit {0}

entry_of :
    (t : Root) (i va : ℕ)
    → i % 4096 ≡ 0
    → va < maxva
    → same_page i va ≡ true
    → pte_at t va ≡ pte_at t i
entry_of t i va al la e =
    let q = ==→eq (i / 4096) (va / 4096) e in
    sym (pte_at-same_page t i va (omega (arith, q, al, la)) la q)

pub one_page : (i va : ℕ) → in_pages i 1 va ≡ same_page i va
one_page i va = ground arith

-- A step without a page.
Copied-skip :
    (end : ℕ) (m : Machine) (old new : Root) (i : ℕ)
    → IsMemory end m
    → i % 4096 ≡ 0
    → (pte_at old i).v ≡ false
    → Copied end m old new i 1 m old new
Copied-skip end m old new i h al v = record {
  memory = h;
  child = λ va la. rw (nothing va la) refl;
  parent = λ va la. rw (nothing va la) refl;
  counts = λ q hq u. rw v (omega arith);
}
  where
    nothing : (va : ℕ) → va < maxva → (in_pages i 1 va && (pte_at old va).v) ≡ false
    nothing va la = elim (Bool-cases (same_page i va)) [
      | inr e ↦ let out : in_pages i 1 va ≡ false = ground (arith, e) in rw out refl
      | inl e ↦ let q = entry_of old i va al la e in rw (q, v) (ground arith)
    ]

shared-readonly : (p : Pte) → p.flags.w ≡ false → shared_flags p.flags ≡ p.flags
unfolding shared_flags
shared-readonly p w = rw w refl

-- The entries after one shared page.
Copied-share :
    (end : ℕ) (m m1 : Machine) (old new new' : Root) (i : ℕ) (m' : Machine)
    → i % 4096 ≡ 0
    → (pte_at old i).v ≡ true
    → (pte_at old i).pa % 4096 ≡ 0
    → MapsPages new i 1 (pte_at old i).pa (shared_flags (pte_at old i).flags) new'
    → IsMemory end m'
    → ((q : ℕ) → IsPage end q → 0 < refs m q → refs m' q ≡ refs m q + uses q 1 old i)
    → Copied end m old new i 1 m'
        (if (pte_at old i).flags.w then store old i (shared (pte_at old i)) else old)
        new'
Copied-share end m m1 old new new' i m' al v pal maps mem cnt = record {
  memory = mem;
  child = child;
  parent = parent;
  counts = cnt;
}
  where
    p : Pte
    p = pte_at old i

    low : i < maxva
    low = valid-below old i v

    child :
        (va : ℕ)
        → va < maxva
        → pte_at new' va
          ≡ (if in_pages i 1 va && (pte_at old va).v then shared (pte_at old va) else pte_at new va)
    child va la = elim (Bool-cases (same_page i va)) [
      | inr e ↦ maps.entries va la ∙ rw (one_page i va, e) refl
      | inl e ↦
          let q = entry_of old i va al la e in
          let z : ((pte_at old i).pa + (va / 4096 - i / 4096) * 4096) / 4096 * 4096
              ≡ (pte_at old i).pa =
            omega (arith, pal, ==→eq (i / 4096) (va / 4096) e) in
          maps.entries va la ∙ rw (one_page i va, e, q, v, z) refl
    ]

    chosen :
        (va : ℕ)
        → va < maxva
        → same_page i va ≡ true
        → (in_pages i 1 va && (pte_at old va).v) ≡ true
    chosen va la e = rw (one_page i va, e, entry_of old i va al la e, v) refl

    either :
        (va : ℕ)
        → va < maxva
        → (x : Pte) → x ≡ shared (pte_at old i)
        → (if same_page i va then x else pte_at old va)
          ≡ (if in_pages i 1 va && (pte_at old va).v then shared (pte_at old va) else pte_at old va)
    either va la x ex = elim (Bool-cases (same_page i va)) [
      | inr e ↦ rw (one_page i va, e) refl
      | inl e ↦ rw (chosen va la e, e, entry_of old i va al la e) ex
    ]

    unwritten :
        (va : ℕ)
        → va < maxva
        → (pte_at old i).flags.w ≡ false
        → pte_at old va
          ≡ (if in_pages i 1 va && (pte_at old va).v then shared (pte_at old va) else pte_at old va)
    unwritten va la w = elim (Bool-cases (same_page i va)) [
      | inr e ↦ rw (one_page i va, e) refl
      | inl e ↦
          rw (chosen va la e, entry_of old i va al la e, shared-readonly (pte_at old i) w) refl
    ]

    parent :
        (va : ℕ)
        → va < maxva
        → pte_at (if (pte_at old i).flags.w then store old i (shared (pte_at old i)) else old) va
          ≡ (if in_pages i 1 va && (pte_at old va).v then shared (pte_at old va) else pte_at old va)
    parent va la = elim (Bool-cases (pte_at old i).flags.w) [
      | inl w ↦
          ap (λ b. pte_at (if b then store old i (shared (pte_at old i)) else old) va) w
          ∙ store-pte_at old i va (shared (pte_at old i)) (valid-Reached old i v) low la
          ∙ either va la (shared (pte_at old i)) refl
      | inr w ↦
          ap (λ b. pte_at (if b then store old i (shared (pte_at old i)) else old) va) w
          ∙ unwritten va la w
    ]

undo-CopyResult :
    (end : ℕ) (m m1 : Machine) (old new new1 : Root) (i n : ℕ)
    → CopyResult end m old new i n (undo_copy end m1 old new1 i)
unfolding undo_copy
undo-CopyResult end m m1 old new new1 i n = given (uvmunmap end m1 new1 0 (i / 4096 + 1) true)
  where
    given :
        (r : Run (Machine × Root))
        → CopyResult end m old new i n (r >>= λ x. ok (x.0, old, x.1, false))
    given (ok x) = tt
    given (panic s) = tt

pub add_ref_lem :
    (end : ℕ) (m : Machine) (p : ℕ)
    → IsMemory end m
    → IsPage end p
    → 0 < refs m p
    → refs m p < 2 ^ 16 - 1
    → (m2 : Machine) × (c : ℕ) × (add_ref m p ≡ (m2, some c))
      × IsMemory end m2
      × ((q : ℕ) → IsPage end q → refs m2 q ≡ (if p == q then refs m p + 1 else refs m q))
unfolding add_ref
add_ref_lem end m p (xs, ys, inv) hp u small =
    let r = kaddref_lem end m.kmem xs ys p hp small inv in
    let nz : (refs m p == 0) ≡ false = ground (arith, u) in
    (
      record m { kmem = (kaddref m.kmem p).0 },
      refs m p + 1,
      ap (λ o. (record m { kmem = (kaddref m.kmem p).0 }, o)) (r.0 ∙ rw nz refl),
      (xs, ys, r.1),
      (λ q hq. r.2 q hq ∙ rw nz refl),
    )

-- One round of uvmcopy.
pub copy_one-CopyResult :
    (end : ℕ) (m : Machine) (old new : Root) (i n : ℕ)
    → 0 < end
    → i % 4096 ≡ 0
    → IsMemory end m
    → UserPages end m old i (suc n)
    → CopyResult end m old new i 1 (copy_one end m old new i)
unfolding copy_one after_share after_ref
copy_one-CopyResult end m old new i n pe al mem users = elim (Bool-cases (pte_at old i).v) [
  | inr v ↦ rw v (Copied-skip end m old new i mem al v)
  | inl v ↦
      let low = valid-below old i v in
      let here : in_pages i (suc n) i ≡ true = ground arith in
      let (page, used, room) = users i low here v in
      let go : not (pte_at old i).v ≡ false = rw v refl in
      rw go (
        mapped (mappages m new i 4096 (pte_at old i).pa (shared_flags (pte_at old i).flags)) v page
          used (omega (arith, room))
          (mappages-MapResult m new i 1 (pte_at old i).pa (shared_flags (pte_at old i).flags) al
            (omega arith))
          (mappages-RunKeeps end m new i (pte_at old i).pa (shared_flags (pte_at old i).flags) al pe
            mem))
]
  where
    mapped :
        (r : Run (Machine × Root × Bool))
        → (pte_at old i).v ≡ true
        → IsPage end (pte_at old i).pa
        → 0 < refs m (pte_at old i).pa
        → refs m (pte_at old i).pa < 2 ^ 16 - 1
        → MapResult new i 1 (pte_at old i).pa (shared_flags (pte_at old i).flags) r
        → RunKeeps end m r
        → CopyResult end m old new i 1 (r >>= after_share end old i (pte_at old i))
    mapped (panic s) v page used room maps keeps = tt
    mapped (ok (m1, new1, false)) v page used room maps keeps =
        undo-CopyResult end m m1 old new new1 i 1
    mapped (ok (m1, new1, true)) v page used room maps keeps =
        let pa = (pte_at old i).pa in
        let same = keeps.1 pa page used in
        let (m2, c, e, mem2, counts) =
          add_ref_lem end m1 pa keeps.0 page (omega (arith, same, used))
            (omega (arith, same, room)) in
        rw e (
          Copied-share end m m1 old new new1 i m2 al v page.0 maps mem2
            (λ q hq u. rw v (ground (arith, counts q hq, keeps.1 q hq u, same))))
