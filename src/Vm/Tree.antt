-- ===== src/Vm/Tree.antt =====
-- A page table as a map from pages to entries: walk with allocation leaves it, store changes it at
-- one page.
use hai_os.Base.{
  ℕ, zero, suc, ◌/◌, ◌≤◌, ◌<◌, ◌≡◌, refl, sym, ap, ◌∙◌, ◌⊎◌, inl, inr, Bool, true, false, Option,
  none, some, arith, leb, ◌==◌, if◌then◌else◌, eq→==, ==→eq, lt→leb, Bool-cases, eq_of_some,
}
use hai_os.Vm.{
  alloc_page, maxva, Leaf, Mid, Root, Pte, px, Machine, empty_leaf, empty_node, with_child,
  with_pte, step_down, find_leaf, find_mid, find, walk_leaf, walk_mid, walk_alloc, store, or_no_pte,
  pte_at,
}

abbrev pub same_page : ℕ → ℕ → Bool
same_page a b = a / 4096 == b / 4096

px-same :
    (a b : ℕ)
    → a < maxva
    → b < maxva
    → px 2 a ≡ px 2 b
    → px 1 a ≡ px 1 b
    → px 0 a ≡ px 0 b
    → a / 4096 ≡ b / 4096
px-same a b ha hb h2 h1 h0 = omega (arith, ha, hb, h2, h1, h0)

same-px : (level a b : ℕ) → level ≤ 2 → a / 4096 ≡ b / 4096 → px level a ≡ px level b
same-px zero a b h e = omega (arith, e)
same-px (suc zero) a b h e = omega (arith, e)
same-px (suc (suc zero)) a b h e = omega (arith, e)
same-px (suc (suc (suc n))) a b h e = absurd (omega (arith, h))

-- What a table of the middle level, and a leaf, say of an address.
abbrev leaf_at : Option Leaf → ℕ → Pte
leaf_at o va = or_no_pte (find_leaf o va)

abbrev mid_at : Option Mid → ℕ → Pte
mid_at o va = or_no_pte (find_mid o va)

-- What a step down gives: nothing, without a table there; the table there; or a new one.
step_down-cases :
    {A : Type 0} (new : ℕ → A) (m : Machine) (o : Option A)
    → ((step_down new m o).1 ≡ none)
      ⊎ ((t : A) × ((step_down new m o).1 ≡ some t)
          × ((o ≡ some t) ⊎ ((o ≡ none) × ((pa : ℕ) × (t ≡ new pa)))))
unfolding step_down
step_down-cases new m (some t) = inr (t, refl, inl refl)
step_down-cases new m none = elim (Bool-cases ((alloc_page m).1 == 0)) [
  | inl e ↦ inl (rw e refl)
  | inr e ↦ inr (new (alloc_page m).1, rw e refl, inr (refl, ((alloc_page m).1, refl)))
]

-- `t'` says what `t` says.
abbrev pub Keeps : Root → Root → Type 0
Keeps t t' = (va : ℕ) → pte_at t' va ≡ pte_at t va

child-Keeps :
    (t : Root) (va : ℕ) (mid : Mid)
    → ((a : ℕ) → mid_at (some mid) a ≡ mid_at (t.child (px 2 va)) a)
    → Keeps t (with_child t (px 2 va) mid)
unfolding pte_at find
child-Keeps t va mid h a = elim (Bool-cases (leb maxva a)) [
  | inl e ↦ rw e refl
  | inr e ↦ elim (Bool-cases (px 2 va == px 2 a)) [
    | inl q ↦ rw (e, q) (h a ∙ ap (λ i. mid_at (t.child i) a) (==→eq (px 2 va) (px 2 a) q))
    | inr q ↦ rw (e, q) refl
  ]
]

child-mid_at :
    (t : Mid) (va : ℕ) (leaf : Leaf)
    → ((a : ℕ) → leaf_at (some leaf) a ≡ leaf_at (t.child (px 1 va)) a)
    → (a : ℕ) → mid_at (some (with_child t (px 1 va) leaf)) a ≡ mid_at (some t) a
unfolding find_mid
child-mid_at t va leaf h a = elim (Bool-cases (px 1 va == px 1 a)) [
  | inl q ↦ rw q (h a ∙ ap (λ i. leaf_at (t.child i) a) (==→eq (px 1 va) (px 1 a) q))
  | inr q ↦ rw q refl
]

-- The entry of `va` is in the tables.
abbrev pub Reached : Root → ℕ → Type 0
Reached t va = (p : Pte) × (find t va ≡ some p)

-- What walk with allocation gives.
abbrev pub Walked : Root → ℕ → Machine × Root × Bool → Type 0
Walked t va (m', t', found) = Keeps t t' × (found ≡ true → Reached t' va)

walk_leaf-Walked :
    (t : Root) (va : ℕ) (mid : Mid) (r : Machine × Option Leaf)
    → leb maxva va ≡ false
    → ((a : ℕ) → mid_at (some mid) a ≡ mid_at (t.child (px 2 va)) a)
    → (r.1 ≡ none)
      ⊎ ((leaf : Leaf) × (r.1 ≡ some leaf)
          × ((mid.child (px 1 va) ≡ some leaf)
              ⊎ ((mid.child (px 1 va) ≡ none) × ((pa : ℕ) × (leaf ≡ empty_leaf pa)))))
    → Walked t va (walk_leaf va t mid r)
unfolding walk_leaf find find_mid find_leaf
walk_leaf-Walked t va mid (m, none) lt h c = (child-Keeps t va mid h, (λ e. cc))
walk_leaf-Walked t va mid (m, some leaf) lt h (inl e) = absurd (none_some leaf (sym e))
  where
    none_some : (l : Leaf) → none ≡ some l → ⊥
    none_some l q = cc
walk_leaf-Walked t va mid (m, some leaf) lt h (inr (leaf', e, c)) =
    let same : leaf' ≡ leaf = sym (eq_of_some leaf leaf' e) in
    let leaves = agrees leaf' c in
    (
      child-Keeps t va (with_child mid (px 1 va) leaf) (λ a.
          child-mid_at mid va leaf (λ b. ap (λ l. leaf_at (some l) b) (sym same) ∙ leaves b) a
          ∙ h a),
      (λ q. (
        leaf.pte (px 0 va),
        rw (lt, eq→== (px 2 va) (px 2 va) refl, eq→== (px 1 va) (px 1 va) refl) refl,
      )),
    )
  where
    agrees :
        (l : Leaf)
        → (mid.child (px 1 va) ≡ some l)
          ⊎ ((mid.child (px 1 va) ≡ none) × ((pa : ℕ) × (l ≡ empty_leaf pa)))
        → (b : ℕ) → leaf_at (some l) b ≡ leaf_at (mid.child (px 1 va)) b
    agrees l (inl q) b = rw q refl
    agrees l (inr (q, (pa, n))) b = rw (q, n) refl

walk_mid-Walked :
    (t : Root) (va : ℕ) (r : Machine × Option Mid)
    → leb maxva va ≡ false
    → (r.1 ≡ none)
      ⊎ ((mid : Mid) × (r.1 ≡ some mid)
          × ((t.child (px 2 va) ≡ some mid)
              ⊎ ((t.child (px 2 va) ≡ none) × ((pa : ℕ) × (mid ≡ empty_node pa)))))
    → Walked t va (walk_mid va t r)
unfolding walk_mid find_mid
walk_mid-Walked t va (m, none) lt c = ((λ a. refl), (λ e. cc))
walk_mid-Walked t va (m, some mid) lt (inl e) = absurd (some_none mid e)
  where
    some_none : (l : Mid) → some l ≡ none → ⊥
    some_none l q = cc
walk_mid-Walked t va (m, some mid) lt (inr (mid', e, c)) =
    walk_leaf-Walked t va mid (step_down empty_leaf m (mid.child (px 1 va))) lt
      (λ a. ap (λ l. mid_at (some l) a) (eq_of_some mid mid' e) ∙ agrees mid' c a)
      (step_down-cases empty_leaf m (mid.child (px 1 va)))
  where
    agrees :
        (l : Mid)
        → (t.child (px 2 va) ≡ some l)
          ⊎ ((t.child (px 2 va) ≡ none) × ((pa : ℕ) × (l ≡ empty_node pa)))
        → (b : ℕ) → mid_at (some l) b ≡ mid_at (t.child (px 2 va)) b
    agrees l (inl q) b = rw q refl
    agrees l (inr (q, (pa, n))) b = rw (q, n) refl

-- walk with allocation changes no entry, and where it succeeds the entry of the address is in the
-- tables.
pub walk_alloc-Walked : (m : Machine) (t : Root) (va : ℕ) → Walked t va (walk_alloc m t va)
unfolding walk_alloc
walk_alloc-Walked m t va = elim (Bool-cases (leb maxva va)) [
  | inl e ↦ rw e ((λ a. refl), (λ q. cc))
  | inr e ↦ rw e (
      walk_mid-Walked t va (step_down empty_node m (t.child (px 2 va))) e
        (step_down-cases empty_node m (t.child (px 2 va))))
]

-- The two tables below the root for an address.
abbrev Tables : Root → ℕ → Mid → Leaf → Type 0
Tables t va mid leaf = (t.child (px 2 va) ≡ some mid) × (mid.child (px 1 va) ≡ some leaf)

Reached-Tables :
    (t : Root) (va : ℕ) → Reached t va → (mid : Mid) × (leaf : Leaf) × Tables t va mid leaf
unfolding find
Reached-Tables t va (p, e) = elim (Bool-cases (leb maxva va)) [
  | inl q ↦ absurd (none_some (rw q at e))
  | inr q ↦ mids (t.child (px 2 va)) refl (rw q at e)
]
  where
    none_some : none ≡ some p → ⊥
    none_some q = cc

    leaves :
        (mid : Mid) (o : Option Leaf)
        → t.child (px 2 va) ≡ some mid
        → mid.child (px 1 va) ≡ o
        → find_leaf o va ≡ some p
        → (mid : Mid) × (leaf : Leaf) × Tables t va mid leaf
    leaves mid none em el h = absurd (none_some h)
    leaves mid (some leaf) em el h = (mid, leaf, (em, el))

    mids :
        (o : Option Mid)
        → t.child (px 2 va) ≡ o
        → find_mid o va ≡ some p
        → (mid : Mid) × (leaf : Leaf) × Tables t va mid leaf
    mids none em h = absurd (none_some h)
    mids (some mid) em h = leaves mid (mid.child (px 1 va)) em refl h

store-Tables :
    (t : Root) (va : ℕ) (p : Pte) (mid : Mid) (leaf : Leaf)
    → Tables t va mid leaf
    → store t va p ≡ with_child t (px 2 va) (with_child mid (px 1 va) (with_pte leaf (px 0 va) p))
unfolding store
store-Tables t va p mid leaf (em, el) = rw (em, el) refl

other_page :
    (va a level : ℕ) → level ≤ 2 → (px level va == px level a) ≡ false → same_page va a ≡ false
other_page va a level h e = elim (Bool-cases (same_page va a)) [
  | inl q ↦
      let s = same-px level va a h (==→eq (va / 4096) (a / 4096) q) in
      absurd (ground (arith, e, eq→== (px level va) (px level a) s))
  | inr q ↦ q
]

-- store changes the entry of one page and of no other.
pub store-pte_at :
    (t : Root) (va a : ℕ) (p : Pte)
    → Reached t va
    → va < maxva
    → a < maxva
    → pte_at (store t va p) a ≡ (if same_page va a then p else pte_at t a)
unfolding pte_at find find_mid find_leaf
store-pte_at t va a p r lv la =
    let (mid, leaf, (em, el)) = Reached-Tables t va r in
    let below = lt→leb maxva a la in
    rw (store-Tables t va p mid leaf (em, el), below)
      (elim (Bool-cases (px 2 va == px 2 a)) [
        | inr q2 ↦ rw (q2, other_page va a 2 (omega arith) q2) refl
        | inl q2 ↦
            let em' : t.child (px 2 a) ≡ some mid = rw (sym (==→eq (px 2 va) (px 2 a) q2)) em in
            rw (q2, em')
              (elim (Bool-cases (px 1 va == px 1 a)) [
                | inr q1 ↦ rw (q1, other_page va a 1 (omega arith) q1) refl
                | inl q1 ↦
                    let el' : mid.child (px 1 a) ≡ some leaf =
                      rw (sym (==→eq (px 1 va) (px 1 a) q1)) el in
                    rw (q1, el')
                      (elim (Bool-cases (px 0 va == px 0 a)) [
                        | inr q0 ↦ rw (q0, other_page va a 0 (omega arith) q0) refl
                        | inl q0 ↦
                            let e =
                              px-same va a lv la (==→eq (px 2 va) (px 2 a) q2)
                                (==→eq (px 1 va) (px 1 a) q1) (==→eq (px 0 va) (px 0 a) q0) in
                            rw (q0, eq→== (va / 4096) (a / 4096) e) refl
                      ])
              ])
      ])

-- An entry is for a page.
pub pte_at-same_page :
    (t : Root) (a b : ℕ) → a < maxva → b < maxva → a / 4096 ≡ b / 4096 → pte_at t a ≡ pte_at t b
unfolding pte_at find find_mid find_leaf
pte_at-same_page t a b la lb e =
    let e2 = same-px 2 a b (omega arith) e in
    let e1 = same-px 1 a b (omega arith) e in
    let e0 = same-px 0 a b (omega arith) e in
    rw (lt→leb maxva a la, lt→leb maxva b lb, e2) (mids (t.child (px 2 b)) e1 e0)
  where
    leaves :
        (o : Option Leaf) → px 0 a ≡ px 0 b → or_no_pte (find_leaf o a) ≡ or_no_pte (find_leaf o b)
    leaves none e0 = refl
    leaves (some leaf) e0 = ap leaf.pte e0

    mids :
        (o : Option Mid)
        → px 1 a ≡ px 1 b
        → px 0 a ≡ px 0 b
        → or_no_pte (find_mid o a) ≡ or_no_pte (find_mid o b)
    mids none e1 e0 = refl
    mids (some mid) e1 e0 = rw e1 (leaves (mid.child (px 1 b)) e0)
