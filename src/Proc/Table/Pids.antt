-- ===== src/Proc/Table/Pids.antt =====
-- Process ids: allocproc hands each id out once, so an id names at most one process.
use native.Mathlib.Decide.{ℕ_discrete}
use hai_os.Base.{
  ℕ, ◌+◌, ◌≤◌, ◌<◌, ◌≡◌, refl, sym, ap, subst, ◌∙◌, ◌≢◌, ◌⊎◌, inl, inr, Bool, true, false, Option,
  none, some, arith, eq→==, ne→==, Option-cases, eq_of_some, All, All-map, set_with, get_elem?,
  get_elem?-set_with_self, get_elem?-set_with_ne,
}
use hai_os.Proc.{State, unused, used, state_eq, Proc, claim, freeproc, kill_one}
use hai_os.Proc.Table.{
  Table, find_slot, has_pid, kkill, allocproc, claim_slot, find_slot_lem, find_slot_first,
}

-- No id has been used that is `nextpid` or above, a free slot has id 0, and no other id stands
-- twice.
pub record PidsUnique (ps : Table) (nextpid : ℕ) : Type 0 where
  pub started : 0 < nextpid
  pub used_below : (i : ℕ) (p : Proc) → get_elem? ps i ≡ some p → p.pid < nextpid
  pub free_zero : (i : ℕ) (p : Proc) → get_elem? ps i ≡ some p → p.state ≡ unused → p.pid ≡ 0
  pub distinct :
      (i j : ℕ) (p q : Proc)
      → i ≢ j
      → get_elem? ps i ≡ some p
      → get_elem? ps j ≡ some q
      → p.pid ≡ q.pid
      → p.pid ≡ 0

-- What a slot holds after one slot was changed.
get_elem?-set_with :
    (ps : Table) (i j : ℕ) (f : Proc → Proc) (p q : Proc)
    → get_elem? ps i ≡ some p
    → get_elem? (set_with ps i f) j ≡ some q
    → ((i ≡ j) × (q ≡ f p)) ⊎ ((i ≢ j) × (get_elem? ps j ≡ some q))
get_elem?-set_with ps i j f p q g h = elim (ℕ_discrete i j) [
  | yes e ↦ inl (
    e,
    eq_of_some q (f p) (
        sym h
        ∙ subst (λ k. get_elem? (set_with ps i f) k ≡ some (f p)) e
            (get_elem?-set_with_self ps i f p g)),
  )
  | no ne ↦ inr (ne, sym (get_elem?-set_with_ne ps i j f ne) ∙ h)
]

-- A slot may take the fresh id, or give its id up.
set_with-PidsUnique :
    (ps : Table) (nextpid n i : ℕ) (f : Proc → Proc) (p : Proc)
    → nextpid ≤ n
    → get_elem? ps i ≡ some p
    → ((f p).pid ≡ 0) ⊎ (((f p).pid ≡ nextpid) × (nextpid < n) × ((f p).state ≢ unused))
    → PidsUnique ps nextpid
    → PidsUnique (set_with ps i f) n
set_with-PidsUnique ps nextpid n i f p le g new v = record {
  started = omega (arith, v.started);
  used_below = λ j q h. elim (get_elem?-set_with ps i j f p q g h) [
    | inl (e, x) ↦ rw x (omega (arith, v.started))
    | inr (ne, k) ↦ omega (arith, v.used_below j q k)
  ];
  free_zero = λ j q h s. elim (get_elem?-set_with ps i j f p q g h) [
    | inl (e, x) ↦ ground (arith, ap (λ (r : Proc). r.pid) x, ap (λ (r : Proc). r.state) x)
    | inr (ne, k) ↦ v.free_zero j q k s
  ];
  distinct = λ j k q r ne gj gk e. elim (get_elem?-set_with ps i j f p q g gj) [
    | inl (ij, x) ↦ elim (get_elem?-set_with ps i k f p r g gk) [
      | inl (ik, y) ↦ absurd (ne (sym ij ∙ ik))
      | inr (nk, y) ↦ omega (arith, ap (λ (r : Proc). r.pid) x, v.used_below k r y)
    ]
    | inr (nj, x) ↦ elim (get_elem?-set_with ps i k f p r g gk) [
      | inl (ik, y) ↦ omega (arith, ap (λ (r : Proc). r.pid) y, v.used_below j q x)
      | inr (nk, y) ↦ v.distinct j k q r ne x y e
    ]
  ];
}

claim_fields :
    (p : Proc) (pid ticks : ℕ)
    → let q = claim p pid ticks in
      (q.pid ≡ pid) × (q.state ≡ used) × (q.killed ≡ p.killed) × ((freeproc q).pid ≡ 0)
unfolding claim freeproc
claim_fields p pid ticks = (refl, refl, refl, refl)

freeproc-state : (p : Proc) → (freeproc p).state ≡ unused
unfolding freeproc
freeproc-state p = refl

not_unused : (p : Proc) → p.state ≡ used → p.state ≢ unused
not_unused p h e = ground arith

-- What allocproc did: no slot is free and nothing changed; or a slot that was free holds a process
-- in state USED under the id `nextpid`; or memory ran out, an id is spent, and the slot is free again
-- with id 0. No other slot changes.
abbrev pub Allocated : Table → ℕ → ℕ → Bool → Table × ℕ × Option ℕ → Type 0
Allocated ps nextpid ticks memory (qs, n, some i) =
    (p : Proc) × (get_elem? ps i ≡ some p)
    × (p.state ≡ unused)
    × (get_elem? qs i ≡ some (claim p nextpid ticks))
    × (n ≡ nextpid + 1)
    × (memory ≡ true)
    × ((claim p nextpid ticks).pid ≡ nextpid)
    × ((claim p nextpid ticks).state ≡ used)
    × ((j : ℕ) → i ≢ j → get_elem? qs j ≡ get_elem? ps j)
Allocated ps nextpid ticks memory (qs, n, none) =
    ((memory ≡ false)
      × (n ≡ nextpid + 1)
      × ((i : ℕ) × (p : Proc) × (q : Proc) × (get_elem? ps i ≡ some p)
          × (p.state ≡ unused)
          × (get_elem? qs i ≡ some q)
          × (q.state ≡ unused)
          × (q.pid ≡ 0)
          × ((j : ℕ) → i ≢ j → get_elem? qs j ≡ get_elem? ps j)))
    ⊎ ((qs ≡ ps) × (n ≡ nextpid) × All (λ p. p.state ≢ unused) ps)

state_eq-unused : (s : State) → state_eq s unused ≡ true → s ≡ unused
state_eq-unused s h = ground arith

state_ne-unused : (s : State) → state_eq s unused ≡ false → s ≢ unused
state_ne-unused s h e = ground arith

allocproc_at :
    (ps : Table) (nextpid ticks i : ℕ) (memory : Bool) (p : Proc)
    → get_elem? ps i ≡ some p
    → p.state ≡ unused
    → PidsUnique ps nextpid
    → let out = claim_slot ps nextpid ticks i memory in
      PidsUnique out.0 out.1 × Allocated ps nextpid ticks memory out
unfolding claim_slot
allocproc_at ps nextpid ticks i true p g s v = (
  set_with-PidsUnique ps nextpid (nextpid + 1) i _ p (omega arith) g
      (inr (refl_pid.0, omega arith, not_unused (claim p nextpid ticks) refl_pid.1)) v,
  (
    p,
    g,
    s,
    get_elem?-set_with_self ps i _ p g,
    refl,
    refl,
    refl_pid.0,
    refl_pid.1,
    λ j ne. get_elem?-set_with_ne ps i j (λ p. claim p nextpid ticks) ne,
  ),
)
  where
    refl_pid : ((claim p nextpid ticks).pid ≡ nextpid) × ((claim p nextpid ticks).state ≡ used)
    refl_pid = ((claim_fields p nextpid ticks).0, (claim_fields p nextpid ticks).1)
allocproc_at ps nextpid ticks i false p g s v = (
  set_with-PidsUnique ps nextpid (nextpid + 1) i (λ p. freeproc (claim p nextpid ticks)) p
      (omega arith) g (inl ((claim_fields p nextpid ticks).3)) v,
  inl (
    refl,
    refl,
    (
      i,
      p,
      freeproc (claim p nextpid ticks),
      g,
      s,
      get_elem?-set_with_self ps i (λ p. freeproc (claim p nextpid ticks)) p g,
      freeproc-state (claim p nextpid ticks),
      (claim_fields p nextpid ticks).3,
      λ j ne. get_elem?-set_with_ne ps i j (λ p. freeproc (claim p nextpid ticks)) ne,
    ),
  ),
)

-- allocproc keeps the ids unique. It claims a free slot under the id `nextpid`, in state USED; or
-- memory runs out, and the free slot that it had claimed is UNUSED with id 0 again; no other slot
-- changes and `nextpid` grows by one. With no free slot it changes nothing.
pub allocproc-Allocated :
    (ps : Table) (nextpid ticks : ℕ) (memory : Bool)
    → PidsUnique ps nextpid
    → let out = allocproc ps nextpid ticks memory in
      PidsUnique out.0 out.1 × Allocated ps nextpid ticks memory out
unfolding allocproc
allocproc-Allocated ps nextpid ticks memory v =
    elim (Option-cases (find_slot (λ p. state_eq p.state unused) ps)) [
      | inl e ↦
          rw (e, allocproc)
            (
              v,
              inr (
                refl,
                refl,
                All-map _ _ ps (λ p h. state_ne-unused p.state h)
                    (rw e at (find_slot_lem (λ (p : Proc). state_eq p.state unused) ps)),
              ),
            )
      | inr (i, e) ↦
          let (p, g, t, before) =
            rw e at (find_slot_lem (λ (p : Proc). state_eq p.state unused) ps) in
          rw (e, allocproc)
            (allocproc_at ps nextpid ticks i memory p g (state_eq-unused p.state t) v)
    ]

kill_one_fields :
    (p : Proc)
    → p.state ≡ unused
    → let q = kill_one p in (q.killed ≡ true) × (q.state ≡ unused) × (q.pid ≡ p.pid)
unfolding kill_one
kill_one_fields p s = ground arith

kkill_first :
    (ps : Table) (pid i : ℕ) (p : Proc)
    → get_elem? ps i ≡ some p
    → p.pid ≡ pid
    → ((j : ℕ) (q : Proc) → j < i → get_elem? ps j ≡ some q → q.pid ≢ pid)
    → kkill ps pid ≡ (set_with ps i kill_one, true)
unfolding kkill
kkill_first ps pid i p g e before = rw (
  find_slot_first (has_pid pid) ps i p g (eq→== _ _ e) (λ j q lt h. ne→== _ _ (before j q lt h)),
  kkill,
)

allocproc_first :
    (ps : Table) (nextpid ticks i : ℕ) (p : Proc)
    → get_elem? ps i ≡ some p
    → p.state ≡ unused
    → ((j : ℕ) (q : Proc) → j < i → get_elem? ps j ≡ some q → q.state ≢ unused)
    → allocproc ps nextpid ticks true
      ≡ (set_with ps i (λ p. claim p nextpid ticks), nextpid + 1, some i)
unfolding allocproc claim_slot
allocproc_first ps nextpid ticks i p g e before = rw (
  find_slot_first (λ p. state_eq p.state unused) ps i p g (rw e)
      (λ j q lt h. state_eq_ne q.state (before j q lt h)),
  allocproc,
)
  where
    state_eq_ne : (s : State) → s ≢ unused → state_eq s unused ≡ false
    state_eq_ne s h = ground arith

-- kkill with pid 0 hits a free slot, since free slots have pid 0: it answers success, and if the
-- first free slot comes before every other process with pid 0, the next process that allocproc
-- puts there is killed from birth.
pub kkill_zero :
    (ps : Table) (i : ℕ) (p : Proc) (nextpid ticks : ℕ)
    → get_elem? ps i ≡ some p
    → p.state ≡ unused
    → p.pid ≡ 0
    → ((j : ℕ) (q : Proc) → j < i → get_elem? ps j ≡ some q → (q.pid ≢ 0) × (q.state ≢ unused))
    → let (qs, done) = kkill ps 0 in
      let (rs, n, slot) = allocproc qs nextpid ticks true in
      (done ≡ true)
      × (slot ≡ some i)
      × ((q : Proc) → get_elem? rs i ≡ some q → (q.killed ≡ true) × (q.state ≡ used))
kkill_zero ps i p nextpid ticks g s z before =
    let qs = set_with ps i kill_one in
    let k = kill_one_fields p s in
    let g' : get_elem? qs i ≡ some (kill_one p) = get_elem?-set_with_self ps i kill_one p g in
    let c = claim_fields (kill_one p) nextpid ticks in
    let made = get_elem?-set_with_self qs i (λ p. claim p nextpid ticks) (kill_one p) g' in
    rw
      (
        kkill_first ps 0 i p g z (λ j q lt h. (before j q lt h).0),
        allocproc_first qs nextpid ticks i (kill_one p) g' k.1 (λ j q lt h.
            (before j q lt (sym (get_elem?-set_with_ne ps i j kill_one (omega arith)) ∙ h)).1),
      )
      (
        refl,
        refl,
        λ q h.
            let same : q ≡ claim (kill_one p) nextpid ticks = eq_of_some _ _ (sym h ∙ made) in
            rw same (c.2 ∙ k.0, c.1),
      )
