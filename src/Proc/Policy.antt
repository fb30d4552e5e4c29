-- ===== src/Proc/Policy.antt =====
-- What the scheduling fields of one process may hold, and that every operation keeps it.
use hai_os.Base.{
  ℕ, zero, suc, ◌≤◌, ◌<◌, ◌≡◌, refl, inl, inr, false, ◌&&◌, arith, ◌==◌, Bool-cases, ℤ, pos, negsuc,
}
use hai_os.Proc.{
  sleeping, running, state_eq, Proc, pri_max, pri_default, slice_for_priority, claim, freeproc,
  proc_tick, yield, dispatch, sleep_on, wakeup_one, kill_one, set_priority_one, become_zombie,
  start_child, charge, demoted, refill, minus_one, not_positive, promoted, rewarded,
}

-- Between calls a process has a priority of param.h and a positive rest of its slice.
abbrev pub InSlice : ℕ → ℤ → Type 0
InSlice prio (pos b) = (0 < b) × (b ≤ slice_for_priority prio)
InSlice prio (negsuc b) = ⊥

pub record IsScheduled (p : Proc) : Type 0 where
  pub in_range : p.priority ≤ pri_max
  pub in_slice : InSlice p.priority p.budget

slice_pos :
    (prio : ℕ) → prio ≤ pri_max → (0 < slice_for_priority prio) × (slice_for_priority prio ≤ 8)
unfolding slice_for_priority
slice_pos zero h = ground arith
slice_pos (suc zero) h = ground arith
slice_pos (suc (suc zero)) h = ground arith
slice_pos (suc (suc (suc zero))) h = ground arith
slice_pos (suc (suc (suc (suc n)))) h = absurd (omega arith)

-- The operations of the source on the scheduling state of one process.
pub data Op : Type 0 where
  claims : ℕ → ℕ → Op
  frees ticks kills : Op
  yields dispatches starts : ℕ → Op
  sleeps : ℕ → Op
  wakes : ℕ → ℕ → Op
  sets : ℕ → ℕ → Op
  exits : ℤ → Op

unfoldable pub apply : Op → Proc → Proc
apply (claims pid t) p = claim p pid t
apply frees p = freeproc p
apply ticks p = proc_tick p
apply kills p = kill_one p
apply (yields t) p = yield p t
apply (dispatches t) p = dispatch p t
apply (starts t) p = start_child p t
apply (sleeps c) p = sleep_on p c
apply (wakes c t) p = wakeup_one p c t
apply (sets prio t) p = set_priority_one p prio t
apply (exits s) p = become_zombie p s

-- setpriority's own check, for an argument that is not negative.
abbrev pub Allowed : Op → Type 0
Allowed (sets prio t) = prio ≤ pri_max
Allowed _ = Unit {0}

-- What an operation relies on: claim, freeproc and setpriority on nothing.
abbrev pub Needs : Op → Proc → Type 0
Needs (claims pid t) p = Unit {0}
Needs frees p = Unit {0}
Needs (sets prio t) p = Unit {0}
Needs ticks p = IsScheduled p
Needs kills p = IsScheduled p
Needs (yields t) p = IsScheduled p
Needs (dispatches t) p = IsScheduled p
Needs (starts t) p = IsScheduled p
Needs (sleeps c) p = IsScheduled p
Needs (wakes c t) p = IsScheduled p
Needs (exits s) p = IsScheduled p

-- The budget after a tick that does not end the slice.
InSlice-minus_one :
    (prio : ℕ) (b : ℤ)
    → InSlice prio b
    → not_positive (minus_one b) ≡ false
    → InSlice prio (minus_one b)
InSlice-minus_one prio (pos zero) h e = absurd (omega arith)
InSlice-minus_one prio (pos (suc zero)) h e = cc
InSlice-minus_one prio (pos (suc (suc n))) h e = omega arith
InSlice-minus_one prio (negsuc n) h e = h

-- A new slice is within bounds.
refill-IsScheduled : (p : Proc) → p.priority ≤ pri_max → IsScheduled (refill p)
unfolding refill
refill-IsScheduled p h = record {
  in_range = h;
  in_slice = ((slice_pos p.priority h).0, omega arith);
}

-- An operation that leaves the two fields leaves the bounds.
IsScheduled-same :
    (p q : Proc) → q.priority ≡ p.priority → q.budget ≡ p.budget → IsScheduled p → IsScheduled q
IsScheduled-same p q e b v = record { in_range = rw e v.in_range; in_slice = rw (e, b) v.in_slice }

proc_tick-IsScheduled : (p : Proc) → IsScheduled p → IsScheduled (proc_tick p)
unfolding proc_tick
proc_tick-IsScheduled p v = elim (Bool-cases (state_eq p.state running)) [
  | inr e ↦ rw e v
  | inl e ↦ elim (Bool-cases (not_positive (minus_one p.budget))) [
    | inl done ↦ rw (e, done) (refill-IsScheduled (demoted (charge p)) (ground (arith, v.in_range)))
    | inr more ↦
        rw (e, more)
          (record {
            in_range = v.in_range;
            in_slice = InSlice-minus_one p.priority p.budget v.in_slice more;
          })
  ]
]

wakeup_one-IsScheduled : (p : Proc) (c t : ℕ) → IsScheduled p → IsScheduled (wakeup_one p c t)
unfolding wakeup_one
wakeup_one-IsScheduled p c t v = elim (Bool-cases (state_eq p.state sleeping && (p.chan == c))) [
  | inr e ↦ rw e v
  | inl e ↦ rw e (
      IsScheduled-same (refill (promoted p)) _ refl refl
        (refill-IsScheduled (promoted p) (promoted-le p v.in_range)))
]
  where
    promoted-le : (p : Proc) → p.priority ≤ pri_max → (promoted p).priority ≤ pri_max
    promoted-le p h = ground arith

yield-IsScheduled : (p : Proc) (t : ℕ) → IsScheduled p → IsScheduled (yield p t)
unfolding yield
yield-IsScheduled p t v =
    IsScheduled-same (refill (rewarded p)) _ refl refl
      (refill-IsScheduled (rewarded p) (ground arith))

set_priority_one-IsScheduled :
    (p : Proc) (prio t : ℕ) → prio ≤ pri_max → IsScheduled (set_priority_one p prio t)
unfolding set_priority_one
set_priority_one-IsScheduled p prio t h =
    IsScheduled-same (refill (record p { priority = prio })) _ (ground arith) (ground arith)
      (refill-IsScheduled (record p { priority = prio }) h)

kill_one-IsScheduled : (p : Proc) → IsScheduled p → IsScheduled (kill_one p)
unfolding kill_one
kill_one-IsScheduled p v = IsScheduled-same p _ (ground arith) (ground arith) v

-- After claim, freeproc, or setpriority to a priority that it accepts, a process has a priority within
-- PRI_MIN and PRI_MAX and a budget that is positive and within the slice of that priority, whatever it
-- had before; every other operation of the source keeps this.
pub apply-IsScheduled : (op : Op) (p : Proc) → Allowed op → Needs op p → IsScheduled (apply op p)
unfolding apply claim freeproc dispatch start_child sleep_on become_zombie
apply-IsScheduled (claims pid t) p h v =
    IsScheduled-same (refill (record p { priority = pri_default })) _ refl refl
      (refill-IsScheduled (record p { priority = pri_default }) (omega arith))
apply-IsScheduled frees p h v =
    IsScheduled-same (refill (record p { priority = pri_default })) _ refl refl
      (refill-IsScheduled (record p { priority = pri_default }) (omega arith))
apply-IsScheduled ticks p h v = proc_tick-IsScheduled p v
apply-IsScheduled kills p h v = kill_one-IsScheduled p v
apply-IsScheduled (yields t) p h v = yield-IsScheduled p t v
apply-IsScheduled (dispatches t) p h v =
    IsScheduled-same (refill p) _ refl refl (refill-IsScheduled p v.in_range)
apply-IsScheduled (starts t) p h v =
    IsScheduled-same (refill p) _ refl refl (refill-IsScheduled p v.in_range)
apply-IsScheduled (sleeps c) p h v = IsScheduled-same p _ refl refl v
apply-IsScheduled (wakes c t) p h v = wakeup_one-IsScheduled p c t v
apply-IsScheduled (sets prio t) p h v = set_priority_one-IsScheduled p prio t h
apply-IsScheduled (exits s) p h v = IsScheduled-same p _ refl refl v
