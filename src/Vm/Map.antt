-- ===== src/Vm/Map.antt =====
-- mappages and uvmunmap on the table as a map from pages to entries.
use hai_os.Base.{
  ℕ, zero, suc, ◌+◌, ◌-◌, ◌*◌, ◌/◌, ◌%◌, ◌<◌, ◌≡◌, refl, sym, ap, ◌∙◌, inl, inr, Bool, true, false,
  ◌&&◌, none, some, arith, ltb, leb, ◌==◌, if◌then◌else◌, eq→==, ==→eq, Bool-cases, Run, ok, panic,
}
use hai_os.Vm.{maxva, Flags, Pte, Root, Machine, find, walk_alloc, store, pte_at}
use hai_os.Vm.Tree.{same_page, Keeps, Reached, walk_alloc-Walked, store-pte_at, pte_at-same_page}
use hai_os.Vm.Ops.{mapping, map_pages, mappages}

-- The page of `va` is one of the `n` pages from `a` on.
abbrev pub in_pages : ℕ → ℕ → ℕ → Bool
in_pages a n va = leb (a / 4096) (va / 4096) && ltb (va / 4096) (a / 4096 + n)

-- `t'` maps the `n` pages from `a` on to the pages from `pa` on, which `t` did not map, and is as `t`
-- elsewhere.
pub record MapsPages (t : Root) (a n pa : ℕ) (perm : Flags) (t' : Root) : Type 0 where
  pub entries :
      (va : ℕ)
      → va < maxva
      → pte_at t' va ≡ (
          if in_pages a n va
          then mapping (pa + (va / 4096 - a / 4096) * 4096) perm
          else pte_at t va)
  pub fresh : (va : ℕ) → va < maxva → in_pages a n va ≡ true → (pte_at t va).v ≡ false
  pub below : (0 < n) → a + (n - 1) * 4096 < maxva

-- What mapping `n` pages gives: all of them; the first ones, where a table could not be allocated or
-- the address is too high; or a panic, where one of them was mapped before.
abbrev pub MapResult : Root → ℕ → ℕ → ℕ → Flags → Run (Machine × Root × Bool) → Type 0
MapResult t a n pa perm (ok (m', t', true)) = MapsPages t a n pa perm t'
MapResult t a n pa perm (ok (m', t', false)) = (k : ℕ) × (k < n) × MapsPages t a k pa perm t'
MapResult t a n pa perm (panic s) =
    (s ≡ "mappages: remap") × ((j : ℕ) × (j < n) × ((pte_at t (a + j * 4096)).v ≡ true))

MapsPages-none : (t t' : Root) (a pa : ℕ) (perm : Flags) → Keeps t t' → MapsPages t a 0 pa perm t'
MapsPages-none t t' a pa perm keeps = record {
  entries = λ va lt. rw (nowhere va) (keeps va);
  fresh = λ va lt e. absurd (ground (arith, nowhere va, e));
  below = λ z. absurd (omega (arith, z));
}
  where
    nowhere : (va : ℕ) → in_pages a 0 va ≡ false
    nowhere va = ground arith

pub find-below : (t : Root) (va : ℕ) → Reached t va → va < maxva
unfolding find
find-below t va (p, e) = elim (Bool-cases (leb maxva va)) [
  | inl q ↦ absurd (none_some (rw q at e))
  | inr q ↦ ground (arith, q)
]
  where
    none_some : none ≡ some p → ⊥
    none_some q = cc

MapsPages-suc :
    (t t1 t' : Root) (a n pa : ℕ) (perm : Flags)
    → a % 4096 ≡ 0
    → Keeps t t1
    → Reached t1 a
    → (pte_at t1 a).v ≡ false
    → MapsPages (store t1 a (mapping pa perm)) (a + 4096) n (pa + 4096) perm t'
    → MapsPages t a (suc n) pa perm t'
MapsPages-suc t t1 t' a n pa perm al keeps reached free h = record {
  entries = entries;
  fresh = fresh;
  below = λ z. elim (Bool-cases (n == 0)) [
    | inl e ↦ omega (arith, find-below t1 a reached, ==→eq n 0 e)
    | inr e ↦ let p : 0 < n = ground arith in let b = h.below p in omega (arith, b, p)
  ];
}
  where
    low : a < maxva
    low = find-below t1 a reached

    stored :
        (va : ℕ)
        → va < maxva
        → pte_at (store t1 a (mapping pa perm)) va
          ≡ (if same_page a va then mapping pa perm else pte_at t1 va)
    stored va lt = store-pte_at t1 a va (mapping pa perm) reached low lt

    entries :
        (va : ℕ)
        → va < maxva
        → pte_at t' va ≡ (
            if in_pages a (suc n) va
            then mapping (pa + (va / 4096 - a / 4096) * 4096) perm
            else pte_at t va)
    entries va lt = elim (Bool-cases (same_page a va)) [
      | inl q ↦
          let eq = ==→eq (a / 4096) (va / 4096) q in
          let out : in_pages (a + 4096) n va ≡ false = ground (arith, eq) in
          let inside : in_pages a (suc n) va ≡ true = ground (arith, eq) in
          let z : pa + (va / 4096 - a / 4096) * 4096 ≡ pa = omega (arith, eq) in
          h.entries va lt ∙ rw (out, inside, z) (stored va lt ∙ rw q refl)
      | inr q ↦ elim (Bool-cases (in_pages (a + 4096) n va)) [
        | inl i ↦
            let inside : in_pages a (suc n) va ≡ true = ground (arith, i) in
            let z : pa + 4096 + (va / 4096 - (a + 4096) / 4096) * 4096
                ≡ pa + (va / 4096 - a / 4096) * 4096 =
              ground (arith, i) in
            h.entries va lt ∙ rw (i, inside, z) refl
        | inr i ↦
            let outside : in_pages a (suc n) va ≡ false = ground (arith, i, q) in
            h.entries va lt ∙ rw (i, outside) (stored va lt ∙ rw q (keeps va))
      ]
    ]

    fresh : (va : ℕ) → va < maxva → in_pages a (suc n) va ≡ true → (pte_at t va).v ≡ false
    fresh va lt i = elim (Bool-cases (same_page a va)) [
      | inl q ↦
          ap (λ (x : Pte). x.v)
            (sym (keeps va)
              ∙ sym (pte_at-same_page t1 a va low lt (==→eq (a / 4096) (va / 4096) q)))
          ∙ free
      | inr q ↦
          let i' : in_pages (a + 4096) n va ≡ true = ground (arith, i, q) in
          let e : pte_at (store t1 a (mapping pa perm)) va ≡ pte_at t va =
            stored va lt ∙ rw q (keeps va) in
          ap (λ (x : Pte). x.v) (sym e) ∙ h.fresh va lt i'
    ]

-- An address with an entry is low enough.
pub valid-below : (t : Root) (va : ℕ) → (pte_at t va).v ≡ true → va < maxva
unfolding pte_at find
valid-below t va v = elim (Bool-cases (leb maxva va)) [
  | inl q ↦ absurd (false_true (rw q at v))
  | inr q ↦ ground (arith, q)
]
  where
    false_true : false ≡ true → ⊥
    false_true q = cc

MapResult-suc :
    (t t1 : Root) (a n pa : ℕ) (perm : Flags) (r : Run (Machine × Root × Bool))
    → a % 4096 ≡ 0
    → Keeps t t1
    → Reached t1 a
    → (pte_at t1 a).v ≡ false
    → MapResult (store t1 a (mapping pa perm)) (a + 4096) n (pa + 4096) perm r
    → MapResult t a (suc n) pa perm r
MapResult-suc t t1 a n pa perm (ok (m', t', true)) al keeps reached free h =
    MapsPages-suc t t1 t' a n pa perm al keeps reached free h
MapResult-suc t t1 a n pa perm (ok (m', t', false)) al keeps reached free (k, lt, h) =
    (suc k, omega (arith, lt), MapsPages-suc t t1 t' a k pa perm al keeps reached free h)
MapResult-suc t t1 a n pa perm (panic s) al keeps reached free (e, (j, lt, v)) = (
  e,
  (
    suc j,
    omega (arith, lt),
    (let a' = a + 4096 + j * 4096 in
        let ea : a + suc j * 4096 ≡ a' = omega arith in
        let low = valid-below (store t1 a (mapping pa perm)) a' v in
        let other : same_page a a' ≡ false = ground arith in
        let same : pte_at (store t1 a (mapping pa perm)) a' ≡ pte_at t a' =
          store-pte_at t1 a a' (mapping pa perm) reached (find-below t1 a reached) low
          ∙ rw other (keeps a') in
        rw ea (ap (λ (x : Pte). x.v) (sym same) ∙ v)),
  ),
)

map_pages-MapResult :
    (n : ℕ) (m : Machine) (t : Root) (a pa : ℕ) (perm : Flags)
    → a % 4096 ≡ 0
    → MapResult t a n pa perm (map_pages n m t a pa perm)
unfolding map_pages
map_pages-MapResult zero m t a pa perm al = MapsPages-none t t a pa perm (λ va. refl)
map_pages-MapResult (suc n) m t a pa perm al =
    let w = walk_alloc-Walked m t a in
    let m1 = (walk_alloc m t a).0 in
    let t1 = (walk_alloc m t a).1 in
    elim (Bool-cases (walk_alloc m t a).2) [
      | inr e ↦ rw e (0, omega arith, MapsPages-none t t1 a pa perm w.0)
      | inl e ↦ rw e (elim (Bool-cases (pte_at t1 a).v) [
        | inl v ↦ rw v (
          refl,
          (
            0,
            omega arith,
            (let ea : a + 0 * 4096 ≡ a = omega arith in
                rw ea (ap (λ (x : Pte). x.v) (sym (w.0 a)) ∙ v)),
          ),
        )
        | inr v ↦ rw v (
            MapResult-suc t t1 a n pa perm
              (map_pages n m1 (store t1 a (mapping pa perm)) (a + 4096) (pa + 4096) perm) al w.0
              (w.1 e) v
              (map_pages-MapResult n m1 (store t1 a (mapping pa perm)) (a + 4096) (pa + 4096) perm
                (omega (arith, al))))
      ])
    ]

-- mappages for whole pages from an aligned address: all pages are mapped as asked and no other page
-- changes, and none was mapped before; or the result is -1 and the same holds for the first pages;
-- or it panics, and one of the pages was mapped before.
pub mappages-MapResult :
    (m : Machine) (t : Root) (va n pa : ℕ) (perm : Flags)
    → va % 4096 ≡ 0
    → 0 < n
    → MapResult t va n pa perm (mappages m t va (n * 4096) pa perm)
unfolding mappages
mappages-MapResult m t va n pa perm al pos_n =
    let e1 : (n * 4096) % 4096 ≡ 0 = omega arith in
    let e2 : (n * 4096 == 0) ≡ false = ground (arith, pos_n) in
    let e3 : n * 4096 / 4096 ≡ n = omega arith in
    rw (eq→== (va % 4096) 0 al, eq→== ((n * 4096) % 4096) 0 e1, e2, e3)
      (map_pages-MapResult n m t va pa perm al)
