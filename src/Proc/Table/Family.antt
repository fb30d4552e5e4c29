-- ===== src/Proc/Table/Family.antt =====
-- kexit's reparent and kwait: how children change hands and are collected.
use mathlib.Core.Option
use native.Mathlib.Nat.{zero-add}
use hai_os.Base.{
  ℕ, zero, suc, ◌+◌, ◌≤◌, ◌≡◌, refl, sym, ap, subst, ◌∙◌, inl, inr, ◌&&◌, Option, none, some, [],
  ◌∷◌, arith, ltb, leb, ◌==◌, if◌then◌else◌, ==→eq, lt→ltb, le→leb, lt→leb, Bool-cases,
  Option-cases, length, set_with, get_elem?, get_elem?-set_with_self, get_elem?-set_with_ne,
}
use hai_os.Proc.{Proc, wakeup_one}
use hai_os.Proc.Table.{Table, same_slot, wakeup}
use hai_os.Proc.Table.Wakeup.{wakeup-get, wakeup_one_parent}

-- `pp->parent = initproc` for a child of `me`, and the wakeup of init on its channel, for the slots
-- `i` to `i + n`.
reparent_from : ℕ → ℕ → ℕ → ℕ → ℕ → ℕ → Table → Table
unfolding wakeup
reparent_from zero i me init chan ticks ps = ps
reparent_from (suc n) i me init chan ticks ps = elim (get_elem? ps i) [
  | none ↦ ps
  | some p ↦ reparent_from n (i + 1) me init chan ticks (
      if same_slot p.parent me
      then wakeup (some me) (set_with ps i (λ q. record q { parent = some init })) chan ticks
      else ps)
]

unfoldable pub reparent : ℕ → ℕ → ℕ → ℕ → Table → Table
unfolding reparent_from
reparent me init chan ticks ps = reparent_from (length ps) 0 me init chan ticks ps

abbrev pub parent_of : Table → ℕ → Option (Option ℕ)
parent_of ps j = Option.map (λ (p : Proc). p.parent) (get_elem? ps j)

-- Who a parent is after `me` has gone.
abbrev pub adopt : ℕ → ℕ → Option ℕ → Option ℕ
adopt me init o = if same_slot o me then some init else o

parent_of-wakeup :
    (me : Option ℕ) (ps : Table) (chan ticks j : ℕ)
    → parent_of (wakeup me ps chan ticks) j ≡ parent_of ps j
parent_of-wakeup me ps chan ticks j = rw (wakeup-get me ps chan ticks j) (same (get_elem? ps j))
  where
    same :
        (o : Option Proc)
        → Option.map
            (λ (p : Proc). p.parent)
            (Option.map (λ p. if same_slot me j then p else wakeup_one p chan ticks) o)
          ≡ Option.map (λ (p : Proc). p.parent) o
    same none = refl
    same (some p) = elim (Bool-cases (same_slot me j)) [
      | inl e ↦ rw e
      | inr e ↦ rw e (ap some (wakeup_one_parent p chan ticks))
    ]

parent_of-set_with :
    (ps : Table) (i j : ℕ) (o : Option ℕ) (p : Proc)
    → get_elem? ps i ≡ some p
    → parent_of (set_with ps i (λ q. record q { parent = o })) j
      ≡ (if i == j then some o else parent_of ps j)
parent_of-set_with ps i j o p g = elim (Bool-cases (i == j)) [
  | inl e ↦
      let ij : i ≡ j = ==→eq i j e in
      rw (e, ← ij, get_elem?-set_with_self ps i (λ (q : Proc). record q { parent = o }) p g)
  | inr e ↦
      rw (e, get_elem?-set_with_ne ps i j (λ (q : Proc). record q { parent = o }) (ground arith))
]

-- The step of reparent for one child.
abbrev adopt_at : ℕ → ℕ → ℕ → ℕ → ℕ → Proc → Table → Table
adopt_at i me init chan ticks p ps =
    if same_slot p.parent me
    then wakeup (some me) (set_with ps i (λ q. record q { parent = some init })) chan ticks
    else ps

parent_of-adopt_at :
    (i me init chan ticks j : ℕ) (p : Proc) (ps : Table)
    → get_elem? ps i ≡ some p
    → parent_of (adopt_at i me init chan ticks p ps) j
      ≡ (if i == j then some (adopt me init p.parent) else parent_of ps j)
parent_of-adopt_at i me init chan ticks j p ps g = elim (Bool-cases (same_slot p.parent me)) [
  | inl e ↦ rw (e, parent_of-wakeup) (parent_of-set_with ps i j (some init) p g)
  | inr e ↦ elim (Bool-cases (i == j)) [
    | inl t ↦ let ij : i ≡ j = ==→eq i j t in rw (e, t, ← ij, g)
    | inr f ↦ rw (e, f)
  ]
]

parent_of-some :
    (ps : Table) (i : ℕ) (p : Proc) → get_elem? ps i ≡ some p → parent_of ps i ≡ some p.parent
parent_of-some ps i p g = rw g

parent_of-none : (ps : Table) (i j : ℕ) → get_elem? ps i ≡ none → i ≤ j → parent_of ps j ≡ none
parent_of-none [] i j h le = refl
parent_of-none (x ∷ ps) zero j h le = cc
parent_of-none (x ∷ ps) (suc i) zero h le = absurd (omega arith)
parent_of-none (x ∷ ps) (suc i) (suc j) h le = parent_of-none ps i j h (omega arith)

-- Slot `j` after the scan of `n` slots from `i`, with `o` its parent before.
abbrev adopted : ℕ → ℕ → ℕ → ℕ → ℕ → Option (Option ℕ) → Option (Option ℕ)
adopted n i me init j o = if leb i j && ltb j (i + n) then Option.map (adopt me init) o else o

adopted-none : (n i me init j : ℕ) → adopted n i me init j none ≡ none
adopted-none n i me init j = ground arith

adopted-step :
    (n i me init j : ℕ) (o : Option (Option ℕ)) (q : Option ℕ)
    → (i ≡ j → o ≡ some q)
    → adopted n (i + 1) me init j (if i == j then some (adopt me init q) else o)
      ≡ adopted (suc n) i me init j o
adopted-step n i me init j o q h = elim (Bool-cases (i == j)) [
  | inl e ↦
      let ij : i ≡ j = ==→eq i j e in
      rw (
        e,
        h ij,
        lt→leb (i + 1) j (omega arith),
        le→leb i j (omega arith),
        lt→ltb j (i + suc n) (omega arith),
      )
  | inr e ↦ rw e (ground arith)
]

parent_of-reparent_from :
    (n i me init chan ticks : ℕ) (ps : Table) (j : ℕ)
    → parent_of (reparent_from n i me init chan ticks ps) j ≡ adopted n i me init j (parent_of ps j)
unfolding reparent_from
parent_of-reparent_from zero i me init chan ticks ps j = ground arith
parent_of-reparent_from (suc n) i me init chan ticks ps j = elim (Option-cases (get_elem? ps i)) [
  | inl e ↦ elim (Bool-cases (leb i j)) [
    | inl le ↦
        let gone : parent_of ps j ≡ none = parent_of-none ps i j e (ground arith) in
        rw (e, reparent_from, gone) (sym (adopted-none (suc n) i me init j))
    | inr gt ↦ rw (e, reparent_from, gt)
  ]
  | inr (p, e) ↦
      rw (e, reparent_from)
        (parent_of-reparent_from n (i + 1) me init chan ticks (adopt_at i me init chan ticks p ps) j
          ∙ ap (adopted n (i + 1) me init j) (parent_of-adopt_at i me init chan ticks j p ps e)
          ∙ adopted-step n i me init j (parent_of ps j) p.parent
              (λ ij. subst (λ k. parent_of ps k ≡ some p.parent) ij (parent_of-some ps i p e)))
]

parent_of-beyond : (ps : Table) (j : ℕ) → length ps ≤ j → parent_of ps j ≡ none
parent_of-beyond [] j h = refl
parent_of-beyond (x ∷ ps) zero h = absurd (omega arith)
parent_of-beyond (x ∷ ps) (suc j) h = parent_of-beyond ps j (omega arith)

-- After reparent every child of the process has init for its parent, and every other slot has the
-- parent it had: the process has no child left, unless it is init.
pub reparent_lem :
    (me init chan ticks : ℕ) (ps : Table) (j : ℕ)
    → parent_of (reparent me init chan ticks ps) j ≡ Option.map (adopt me init) (parent_of ps j)
unfolding reparent
reparent_lem me init chan ticks ps j = elim (Bool-cases (ltb j (length ps))) [
  | inl e ↦
      parent_of-reparent_from (length ps) 0 me init chan ticks ps j
      ∙ rw (le→leb 0 j (omega arith), zero-add, e)
  | inr e ↦
      let gone : parent_of ps j ≡ none = parent_of-beyond ps j (ground arith) in
      parent_of-reparent_from (length ps) 0 me init chan ticks ps j
      ∙ rw gone (adopted-none (length ps) 0 me init j)
]
