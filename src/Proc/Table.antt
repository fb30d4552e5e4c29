-- ===== src/Proc/Table.antt =====
-- The functions of kernel/proc.c that scan the process table `proc[NPROC]`, here a list of slots.
pub mod Pids
pub mod Wakeup
pub mod Family
pub mod Wait
pub mod Fork
use mathlib.Core.Option
use hai_os.Base.{
  ℕ, zero, suc, ◌+◌, ◌-◌, ◌<◌, ◌≡◌, refl, sym, ap, subst, ◌∙◌, ◌≢◌, inl, inr, Bool, true, false,
  Option, none, some, List, [], ◌∷◌, arith, ltb, ◌==◌, if◌then◌else◌, Bool-cases, Option-cases,
  eq_of_some, All, set_with, get_elem?, get_elem?-set_with_self, get_elem?-set_with_ne, ℤ, pos,
  negsuc,
}
use hai_os.Proc.{
  State, unused, zombie, state_eq, Proc, pri_max, claim, freeproc, kill_one, set_priority_one,
  wakeup_one, become_zombie,
}

abbrev pub Table : Type 0
Table = List Proc

-- `for(p = proc; p < &proc[NPROC]; p++) if(test(p))`: the slot where the scan stops.
unfoldable pub find_slot : (Proc → Bool) → Table → Option ℕ
find_slot test [] = none
find_slot test (p ∷ ps) = if test p then some 0 else Option.map suc (find_slot test ps)

-- A pid is a natural number here; no slot has a negative one, so for those the scans find nothing.
abbrev pub has_pid : ℕ → Proc → Bool
has_pid pid p = p.pid == pid

-- `false` is -1.
unfoldable pub kkill : Table → ℕ → Table × Bool
kkill ps pid = elim (find_slot (has_pid pid) ps) [
  | none ↦ (ps, false)
  | some i ↦ (set_with ps i kill_one, true)
]

set_in_range : Table → ℕ → ℕ → ℕ → Table × Bool
set_in_range ps pid prio ticks = elim (find_slot (has_pid pid) ps) [
  | none ↦ (ps, false)
  | some i ↦ (set_with ps i (λ p. set_priority_one p prio ticks), true)
]

unfoldable pub setpriority : Table → ℕ → ℤ → ℕ → Table × Bool
unfolding set_in_range
setpriority ps pid (negsuc n) ticks = (ps, false)
setpriority ps pid (pos prio) ticks =
    if ltb pri_max prio then (ps, false) else set_in_range ps pid prio ticks

-- `none` is -1.
unfoldable pub getpriority : Table → ℕ → Option ℕ
unfolding find_slot
getpriority ps pid = elim (find_slot (has_pid pid) ps) [
  | none ↦ none
  | some i ↦ Option.map (λ (p : Proc). p.priority) (get_elem? ps i)
]

-- allocproc from its label `found`, for slot `i`. `memory` says whether the trapframe and the page
-- table could be allocated; if not, the slot is freed and its pid is spent.
claim_slot : Table → ℕ → ℕ → ℕ → Bool → Table × ℕ × Option ℕ
claim_slot ps nextpid ticks i true =
    (set_with ps i (λ p. claim p nextpid ticks), nextpid + 1, some i)
claim_slot ps nextpid ticks i false =
    (set_with ps i (λ p. freeproc (claim p nextpid ticks)), nextpid + 1, none)

-- allocproc: the table, `nextpid`, and the slot or the null pointer.
unfoldable pub allocproc : Table → ℕ → ℕ → Bool → Table × ℕ × Option ℕ
unfolding claim_slot
allocproc ps nextpid ticks memory = elim (find_slot (λ p. state_eq p.state unused) ps) [
  | none ↦ (ps, nextpid, none)
  | some i ↦ claim_slot ps nextpid ticks i memory
]

abbrev pub same_slot : Option ℕ → ℕ → Bool
same_slot none i = false
same_slot (some j) i = j == i

-- wakeup called by the process in slot `me`, or by none; `i` is the slot of the first element.
pub wakeup_from : ℕ → Option ℕ → Table → ℕ → ℕ → Table
unfolding wakeup_one
wakeup_from i me [] chan ticks = []
wakeup_from i me (p ∷ ps) chan ticks =
    (if same_slot me i then p else wakeup_one p chan ticks) ∷ wakeup_from (i + 1) me ps chan ticks

unfoldable pub wakeup : Option ℕ → Table → ℕ → ℕ → Table
unfolding wakeup_from
wakeup me ps chan ticks = wakeup_from 0 me ps chan ticks

-- Where the first slot that passes stands, and that the slots before do not pass.
abbrev pub Finds : (Proc → Bool) → Table → Option ℕ → Type 0
Finds test ps none = All (λ p. test p ≡ false) ps
Finds test ps (some i) =
    (p : Proc) × (get_elem? ps i ≡ some p)
    × (test p ≡ true)
    × ((j : ℕ) (q : Proc) → j < i → get_elem? ps j ≡ some q → test q ≡ false)

find_slot_cons :
    (test : Proc → Bool) (p : Proc) (ps : Table) (r : Option ℕ)
    → test p ≡ false
    → Finds test ps r
    → Finds test (p ∷ ps) (Option.map suc r)
find_slot_cons test p ps none e h = (e, h)
find_slot_cons test p ps (some i) e (q, g, t, before) = (q, g, t, earlier)
  where
    earlier : (j : ℕ) (r : Proc) → j < suc i → get_elem? (p ∷ ps) j ≡ some r → test r ≡ false
    earlier zero r lt g = subst (λ x. test x ≡ false) (eq_of_some _ _ g) e
    earlier (suc j) r lt g = before j r (omega arith) g

pub find_slot_lem : (test : Proc → Bool) (ps : Table) → Finds test ps (find_slot test ps)
unfolding find_slot
find_slot_lem test [] = tt
find_slot_lem test (p ∷ ps) = elim (Bool-cases (test p)) [
  | inl e ↦ rw e (p, refl, e, λ j q h g. absurd (omega arith))
  | inr e ↦ rw e (find_slot_cons test p ps (find_slot test ps) e (find_slot_lem test ps))
]

-- A slot that passes, with none before it, is where the scan stops.
pub find_slot_first :
    (test : Proc → Bool) (ps : Table) (i : ℕ) (p : Proc)
    → get_elem? ps i ≡ some p
    → test p ≡ true
    → ((j : ℕ) (q : Proc) → j < i → get_elem? ps j ≡ some q → test q ≡ false)
    → find_slot test ps ≡ some i
unfolding find_slot
find_slot_first test [] i p g t before = cc
find_slot_first test (x ∷ ps) zero p g t before =
    rw (subst (λ y. test y ≡ true) (sym (eq_of_some _ _ g)) t)
find_slot_first test (x ∷ ps) (suc i) p g t before = rw (
  before 0 x (omega arith) refl,
  find_slot_first test ps i p g t (λ j q lt. before (suc j) q (omega arith)),
)

-- What a call does that changes the first slot that passes a test: that slot is changed, every
-- other is left; or no slot passes and the table is left.
abbrev pub Updates : (Proc → Bool) → (Proc → Proc) → Table → Table × Bool → Type 0
Updates test f ps (qs, false) = (qs ≡ ps) × All (λ p. test p ≡ false) ps
Updates test f ps (qs, true) =
    (i : ℕ) × (p : Proc) × (get_elem? ps i ≡ some p)
    × (test p ≡ true)
    × ((j : ℕ) (q : Proc) → j < i → get_elem? ps j ≡ some q → test q ≡ false)
    × (get_elem? qs i ≡ some (f p))
    × ((j : ℕ) → i ≢ j → get_elem? qs j ≡ get_elem? ps j)

set_with-Updates :
    (test : Proc → Bool) (f : Proc → Proc) (ps : Table) (i : ℕ)
    → Finds test ps (some i)
    → Updates test f ps (set_with ps i f, true)
set_with-Updates test f ps i (p, g, t, before) = (
  i,
  p,
  g,
  t,
  before,
  get_elem?-set_with_self ps i f p g,
  λ j ne. get_elem?-set_with_ne ps i j f ne,
)

-- kkill marks the first process with the pid as killed, making it RUNNABLE if it sleeps, and leaves
-- all other slots; it fails, and changes nothing, exactly when no slot has the pid.
pub kkill-Updates : (ps : Table) (pid : ℕ) → Updates (has_pid pid) kill_one ps (kkill ps pid)
unfolding kkill
kkill-Updates ps pid = elim (Option-cases (find_slot (has_pid pid) ps)) [
  | inl e ↦ rw (e, kkill) (refl, rw e at (find_slot_lem (has_pid pid) ps))
  | inr (i, e) ↦
      rw (e, kkill)
        (set_with-Updates (has_pid pid) kill_one ps i (rw e at (find_slot_lem (has_pid pid) ps)))
]

-- The process that setpriority changes, for an argument in range.
abbrev pub SetsPriority : Table → ℕ → ℤ → ℕ → Table × Bool → Type 0
SetsPriority ps pid (negsuc n) ticks out = out ≡ (ps, false)
SetsPriority ps pid (pos prio) ticks out =
    if ltb pri_max prio
    then out ≡ (ps, false)
    else Updates (has_pid pid) (λ p. set_priority_one p prio ticks) ps out

set_in_range-Updates :
    (ps : Table) (pid prio ticks : ℕ)
    → Updates (has_pid pid) (λ p. set_priority_one p prio ticks) ps (set_in_range ps pid prio ticks)
unfolding set_in_range
set_in_range-Updates ps pid prio ticks = elim (Option-cases (find_slot (has_pid pid) ps)) [
  | inl e ↦ rw (e, set_in_range) (refl, rw e at (find_slot_lem (has_pid pid) ps))
  | inr (i, e) ↦
      rw (e, set_in_range)
        (set_with-Updates (has_pid pid) _ ps i (rw e at (find_slot_lem (has_pid pid) ps)))
]

-- setpriority refuses a priority outside PRI_MIN to PRI_MAX and changes nothing then; otherwise it
-- sets the priority of the first process with the pid, refills its slice, restarts its wait if it
-- is RUNNABLE, and leaves all other slots, or fails because no slot has the pid.
pub setpriority-SetsPriority :
    (ps : Table) (pid : ℕ) (prio : ℤ) (ticks : ℕ)
    → SetsPriority ps pid prio ticks (setpriority ps pid prio ticks)
unfolding setpriority
setpriority-SetsPriority ps pid (negsuc n) ticks = refl
setpriority-SetsPriority ps pid (pos prio) ticks = elim (Bool-cases (ltb pri_max prio)) [
  | inl e ↦ rw e refl
  | inr e ↦ rw e (set_in_range-Updates ps pid prio ticks)
]

-- getpriority finds the first process with the pid.
getpriority_first :
    (ps : Table) (pid i : ℕ) (p : Proc)
    → get_elem? ps i ≡ some p
    → has_pid pid p ≡ true
    → ((j : ℕ) (q : Proc) → j < i → get_elem? ps j ≡ some q → has_pid pid q ≡ false)
    → getpriority ps pid ≡ some p.priority
unfolding getpriority
getpriority_first ps pid i p g t before =
    rw (find_slot_first (has_pid pid) ps i p g t before, getpriority, g)

set_priority_one_fields :
    (p : Proc) (prio ticks : ℕ)
    → let q = set_priority_one p prio ticks in
      (q.priority ≡ prio) × (q.pid ≡ p.pid) × (q.state ≡ p.state)
unfolding set_priority_one
set_priority_one_fields p prio ticks = ground arith

getpriority-Updates :
    (ps : Table) (pid prio ticks : ℕ) (out : Table × Bool)
    → Updates (has_pid pid) (λ p. set_priority_one p prio ticks) ps out
    → out.1 ≡ true
    → getpriority out.0 pid ≡ some prio
getpriority-Updates ps pid prio ticks (qs, false) u e = cc
getpriority-Updates ps pid prio ticks (qs, true) (i, p, g, t, before, new, same) e =
    let f = set_priority_one_fields p prio ticks in
    getpriority_first qs pid i _ new (rw (f.1) t)
      (λ j q lt h. before j q lt (sym (same j (omega arith)) ∙ h))
    ∙ ap some f.0

-- getpriority after a setpriority that succeeded gives the priority that was set.
pub getpriority-setpriority :
    (ps : Table) (pid prio ticks : ℕ)
    → (setpriority ps pid (pos prio) ticks).1 ≡ true
    → getpriority (setpriority ps pid (pos prio) ticks).0 pid ≡ some prio
unfolding setpriority
getpriority-setpriority ps pid prio ticks e = elim (Bool-cases (ltb pri_max prio)) [
  | inl big ↦ cc
  | inr small ↦ rw small (
      getpriority-Updates ps pid prio ticks _ (set_in_range-Updates ps pid prio ticks)
        (rw small at e))
]
