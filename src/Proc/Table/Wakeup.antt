-- ===== src/Proc/Table/Wakeup.antt =====
-- wakeup over the whole table: who is woken, and what stays.
use mathlib.Core.Option
use native.Mathlib.Nat.{add-zero}
use hai_os.Base.{
  ℕ, zero, suc, ◌+◌, ◌≤◌, min, ◌≡◌, refl, ap, subst, ◌∙◌, ◌⊎◌, inl, inr, true, false, Option, some,
  [], ◌∷◌, arith, if◌then◌else◌, Bool-cases, get_elem?,
}
use hai_os.Proc.{sleeping, runnable, Proc, wakeup_one, pri_max}
use hai_os.Proc.Table.{Table, same_slot, wakeup_from, wakeup}

-- wakeup turns each process of the table on its own, but for the caller's slot.
wakeup_from-get :
    (i : ℕ) (me : Option ℕ) (ps : Table) (chan ticks j : ℕ)
    → get_elem? (wakeup_from i me ps chan ticks) j
      ≡ Option.map
          (λ p. if same_slot me (i + j) then p else wakeup_one p chan ticks)
          (get_elem? ps j)
unfolding wakeup_from
wakeup_from-get i me [] chan ticks j = refl
wakeup_from-get i me (p ∷ ps) chan ticks zero = rw add-zero
wakeup_from-get i me (p ∷ ps) chan ticks (suc j) =
    let e : i + 1 + j ≡ i + suc j = omega arith in
    rw (← e) (wakeup_from-get (i + 1) me ps chan ticks j)

pub wakeup-get :
    (me : Option ℕ) (ps : Table) (chan ticks j : ℕ)
    → get_elem? (wakeup me ps chan ticks) j
      ≡ Option.map (λ p. if same_slot me j then p else wakeup_one p chan ticks) (get_elem? ps j)
unfolding wakeup
wakeup-get me ps chan ticks j =
    let e : 0 + j ≡ j = omega arith in
    subst
      (λ n.
        get_elem? (wakeup_from 0 me ps chan ticks) j
        ≡ Option.map (λ p. if same_slot me n then p else wakeup_one p chan ticks) (get_elem? ps j))
      e (wakeup_from-get 0 me ps chan ticks j)

-- A sleeper on the channel.
abbrev pub SleepsOn : ℕ → Proc → Type 0
SleepsOn chan p = (p.state ≡ sleeping) × (p.chan ≡ chan)

wakeup_one_sleeper :
    (p : Proc) (chan ticks : ℕ)
    → p.priority ≤ pri_max
    → SleepsOn chan p
    → let q = wakeup_one p chan ticks in
      (q.state ≡ runnable) × (q.sched_stamp ≡ ticks) × (q.priority ≡ min (p.priority + 1) pri_max)
unfolding wakeup_one
wakeup_one_sleeper p chan ticks h s = ground arith

wakeup_one_other : (p : Proc) (chan ticks : ℕ) → ¬ SleepsOn chan p → wakeup_one p chan ticks ≡ p
unfolding wakeup_one
wakeup_one_other p chan ticks h = ground arith

pub wakeup_one_parent : (p : Proc) (chan ticks : ℕ) → (wakeup_one p chan ticks).parent ≡ p.parent
unfolding wakeup_one
wakeup_one_parent p chan ticks = ground arith

-- wakeup loses no sleeper: every process that sleeps on the channel, in a slot that is not the
-- caller's, becomes RUNNABLE from this tick, one level up unless at the top. Every other slot is left
-- as it was.
pub wakeup_lem :
    (me : Option ℕ) (ps : Table) (chan ticks j : ℕ) (p : Proc)
    → get_elem? ps j ≡ some p
    → p.priority ≤ pri_max
    → (q : Proc) × (get_elem? (wakeup me ps chan ticks) j ≡ some q)
      × (same_slot me j ≡ false
          → SleepsOn chan p
          → (q.state ≡ runnable)
            × (q.sched_stamp ≡ ticks)
            × (q.priority ≡ min (p.priority + 1) pri_max))
      × ((same_slot me j ≡ true) ⊎ ¬ SleepsOn chan p → q ≡ p)
wakeup_lem me ps chan ticks j p g h = elim (Bool-cases (same_slot me j)) [
  | inl e ↦ (p, at ∙ rw e, (λ f s. cc), λ c. refl)
  | inr e ↦
      (wakeup_one p chan ticks, at ∙ rw e, (λ f s. wakeup_one_sleeper p chan ticks h s), others e)
]
  where
    at :
        get_elem? (wakeup me ps chan ticks) j
        ≡ some (if same_slot me j then p else wakeup_one p chan ticks)
    at =
        wakeup-get me ps chan ticks j
        ∙ ap (Option.map (λ p. if same_slot me j then p else wakeup_one p chan ticks)) g

    others :
        same_slot me j ≡ false
        → (same_slot me j ≡ true) ⊎ ¬ SleepsOn chan p
        → wakeup_one p chan ticks ≡ p
    others e (inl t) = cc
    others e (inr ns) = wakeup_one_other p chan ticks ns
