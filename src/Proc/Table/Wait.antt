-- ===== src/Proc/Table/Wait.antt =====
-- kwait: one pass over the table, between taking wait_lock and giving it up or going to sleep.
use hai_os.Base.{
  ℕ, suc, ◌+◌, ◌≡◌, refl, ◌≢◌, ◌⊎◌, inl, inr, Bool, true, false, not, ◌&&◌, ◌||◌, Option, none,
  some, [], ◌∷◌, arith, if◌then◌else◌, Bool-cases, All, set_with, get_elem?,
  get_elem?-set_with_self, get_elem?-set_with_ne, ℤ, pos,
}
use hai_os.Proc.{unused, zombie, state_eq, Proc, freeproc}
use hai_os.Proc.Table.{Table, same_slot}

-- The slot and the process of the first ZOMBIE child of `me`, and `havekids`.
scan_children : ℕ → ℕ → Table → Bool → Option (ℕ × Proc) × Bool
scan_children i me [] kids = (none, kids)
scan_children i me (p ∷ ps) kids =
    let rest = scan_children (i + 1) me ps (kids || same_slot p.parent me) in
    if same_slot p.parent me && state_eq p.state zombie then (some (i, p), true) else rest

-- What the pass ends in: a pid and an exit status, -1, or sleep and another pass.
pub data WaitResult : Type 0 where
  reaped : ℕ → ℤ → WaitResult
  failed waits : WaitResult

-- `copied`: the exit status could be copied to the user's address, or the address is 0.
conclude : Table → Bool → Bool → Option (ℕ × Proc) × Bool → Table × WaitResult
conclude ps killed copied (some (i, p), kids) =
    if copied then (set_with ps i freeproc, reaped p.pid p.xstate) else (ps, failed)
conclude ps killed copied (none, kids) = (ps, if not kids || killed then failed else waits)

unfoldable pub kwait_pass : Table → ℕ → Bool → Bool → Table × WaitResult
unfolding scan_children conclude
kwait_pass ps me killed copied = conclude ps killed copied (scan_children 0 me ps false)

abbrev pub IsChild : ℕ → Proc → Type 0
IsChild me p = same_slot p.parent me ≡ true

-- What the scan found among the slots from `i` on.
abbrev Scanned : ℕ → ℕ → Table → Bool → Option (ℕ × Proc) × Bool → Type 0
Scanned i me ps kids (some (k, p), kids') =
    (j : ℕ) × (k ≡ i + j) × (get_elem? ps j ≡ some p) × IsChild me p × (p.state ≡ zombie)
Scanned i me ps kids (none, kids') =
    All (λ p. IsChild me p → p.state ≢ zombie) ps
    × (kids' ≡ false → (kids ≡ false) × All (λ p. ¬ IsChild me p) ps)
    × (kids' ≡ true
        → (kids ≡ true) ⊎ ((j : ℕ) × (p : Proc) × (get_elem? ps j ≡ some p) × IsChild me p))

Scanned-cons :
    (i me : ℕ) (p : Proc) (ps : Table) (kids : Bool) (out : Option (ℕ × Proc) × Bool)
    → (same_slot p.parent me && state_eq p.state zombie) ≡ false
    → Scanned (i + 1) me ps (kids || same_slot p.parent me) out
    → Scanned i me (p ∷ ps) kids out
Scanned-cons i me p ps kids (some (k, q), kids') e (j, ki, g, c, z) = (suc j, omega arith, g, c, z)
Scanned-cons i me p ps kids (none, kids') e (alive, nokids, some_kid) = (
  ((λ c z. ground arith), alive),
  (λ f. (ground (arith, (nokids f).0), ((λ c. ground (arith, (nokids f).0)), (nokids f).1))),
  λ t. elim (some_kid t) [
    | inl k ↦ elim (Bool-cases (same_slot p.parent me)) [
      | inl c ↦ inr (0, p, refl, c)
      | inr c ↦ inl (ground arith)
    ]
    | inr (j, q, g, c) ↦ inr (suc j, q, g, c)
  ],
)

scan_children-Scanned :
    (i me : ℕ) (ps : Table) (kids : Bool) → Scanned i me ps kids (scan_children i me ps kids)
unfolding scan_children
scan_children-Scanned i me [] kids = (tt, (λ f. (f, tt)), (λ t. inl t))
scan_children-Scanned i me (p ∷ ps) kids =
    elim (Bool-cases (same_slot p.parent me && state_eq p.state zombie)) [
      | inl e ↦ rw e (0, omega arith, refl, ground arith, ground arith)
      | inr e ↦ rw e (
          Scanned-cons i me p ps kids _ e
            (scan_children-Scanned (i + 1) me ps (kids || same_slot p.parent me)))
    ]

-- A slot for a new process.
abbrev IsFree : Proc → Type 0
IsFree q =
    (q.state ≡ unused)
    × (q.pid ≡ 0)
    × (q.parent ≡ none)
    × (q.chan ≡ 0)
    × (q.killed ≡ false)
    × (q.xstate ≡ pos 0)

freeproc-IsFree : (p : Proc) → IsFree (freeproc p)
unfolding freeproc
freeproc-IsFree p = (refl, refl, refl, refl, refl, refl)

-- What a pass of kwait may have done.
abbrev pub Waited : Table → ℕ → Bool → Bool → Table × WaitResult → Type 0
Waited ps me killed copied (qs, reaped pid status) =
    (copied ≡ true)
    × ((i : ℕ) × (p : Proc) × (q : Proc) × (get_elem? ps i ≡ some p)
        × IsChild me p
        × (p.state ≡ zombie)
        × (p.pid ≡ pid)
        × (p.xstate ≡ status)
        × (get_elem? qs i ≡ some q)
        × IsFree q
        × ((j : ℕ) → i ≢ j → get_elem? qs j ≡ get_elem? ps j))
Waited ps me killed copied (qs, waits) =
    (qs ≡ ps)
    × (killed ≡ false)
    × All (λ p. IsChild me p → p.state ≢ zombie) ps
    × ((j : ℕ) × (p : Proc) × (get_elem? ps j ≡ some p) × IsChild me p)
Waited ps me killed copied (qs, failed) =
    (qs ≡ ps)
    × ((copied ≡ false)
        ⊎ (All (λ p. IsChild me p → p.state ≢ zombie) ps
            × ((killed ≡ true) ⊎ All (λ p. ¬ IsChild me p) ps)))

conclude-Waited :
    (ps : Table) (me : ℕ) (killed copied : Bool) (out : Option (ℕ × Proc) × Bool)
    → Scanned 0 me ps false out
    → Waited ps me killed copied (conclude ps killed copied out)
unfolding conclude
conclude-Waited ps me killed true (some (k, p), kids) (j, kj, g, c, z) =
    let at : get_elem? ps k ≡ some p = let e : k ≡ j = omega arith in rw e g in
    (
      refl,
      (
        k,
        p,
        freeproc p,
        at,
        c,
        z,
        refl,
        refl,
        get_elem?-set_with_self ps k freeproc p at,
        freeproc-IsFree p,
        λ i ne. get_elem?-set_with_ne ps k i freeproc ne,
      ),
    )
conclude-Waited ps me killed false (some (k, p), kids) s = (refl, inl refl)
conclude-Waited ps me killed copied (none, false) (alive, nokids, kid) =
    (refl, inr (alive, inr (nokids refl).1))
conclude-Waited ps me true copied (none, true) (alive, nokids, kid) = (refl, inr (alive, inl refl))
conclude-Waited ps me false copied (none, true) (alive, nokids, kid) =
    (refl, refl, alive, elim (kid refl) [ inl f ↦ cc | inr k ↦ k ])

-- A pass of kwait answers the pid and the exit status of one ZOMBIE child, where the status could be
-- copied out, and leaves its slot UNUSED, with pid, parent, channel, kill mark and status zero; or it
-- sleeps, when there are children, none of them a ZOMBIE, and the caller is not killed; or it fails,
-- when the status cannot be copied out, or no child is a ZOMBIE and the caller has no children or is
-- killed. It changes the table only in the first case, and there only that slot.
pub kwait_pass-Waited :
    (ps : Table) (me : ℕ) (killed copied : Bool)
    → Waited ps me killed copied (kwait_pass ps me killed copied)
unfolding kwait_pass
kwait_pass-Waited ps me killed copied =
    conclude-Waited ps me killed copied _ (scan_children-Scanned 0 me ps false)
