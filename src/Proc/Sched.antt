-- ===== src/Proc/Sched.antt =====
-- scheduler's choice: one scan of the table for the RUNNABLE process to run next.
use hai_os.Base.{
  ℕ, ◌+◌, ◌-◌, ◌≤◌, ◌<◌, ◌≡◌, ◌≢◌, ◌⊎◌, Bool, true, ◌&&◌, ◌||◌, Option, none, some, List, [], ◌∷◌,
  arith, ltb, leb, ◌==◌, if◌then◌else◌, All, set_with, get_elem?,
}
use hai_os.Proc.{State, runnable, state_eq, Proc, dispatch}

-- `best`, `best_prio` and `best_wait`; without a best, `best_prio` is -1.
pub record Pick : Type 0 where
  pub index : ℕ
  pub prio : ℕ
  pub wait : ℕ

unfoldable pub wait_of : Proc → ℕ → ℕ
wait_of p now = if leb p.sched_stamp now then now - p.sched_stamp else 0

-- `pr > best_prio || (pr == best_prio && (best == 0 || wait > best_wait))`
beats : ℕ → ℕ → Option Pick → Bool
beats pr wait none = true
beats pr wait (some b) = ltb b.prio pr || ((pr == b.prio) && ltb b.wait wait)

-- The body of the scan for the process in slot `i`.
consider : ℕ → ℕ → Proc → Option Pick → Option Pick
unfolding wait_of beats
consider now i p best =
    if state_eq p.state runnable && beats p.priority (wait_of p now) best
    then some (record { index = i; prio = p.priority; wait = wait_of p now })
    else best

unfoldable pub pick_from : ℕ → ℕ → List Proc → Option Pick → Option Pick
unfolding consider
pick_from now i [] best = best
pick_from now i (p ∷ ps) best = pick_from now (i + 1) ps (consider now i p best)

-- What follows the scan: the chosen process starts to run.
run_best : ℕ → List Proc → Option Pick → List Proc × Option ℕ
run_best now ps none = (ps, none)
run_best now ps (some b) = (set_with ps b.index (λ p. dispatch p now), some b.index)

-- One round of scheduler: the table with the chosen process RUNNING, and its slot.
unfoldable pub schedule : ℕ → List Proc → List Proc × Option ℕ
unfolding pick_from run_best dispatch
schedule now ps = run_best now ps (pick_from now 0 ps none)

-- `a` ranks no higher than `b`: a lower level, or the same and no longer wait.
abbrev pub RanksBelow : ℕ → ℕ → Pick → Type 0
RanksBelow prio wait b = (prio < b.prio) ⊎ ((prio ≡ b.prio) × (wait ≤ b.wait))

abbrev Bounds : Pick → Option Pick → Type 0
Bounds c none = Unit {0}
Bounds c (some b) = RanksBelow b.prio b.wait c

-- `p` may run and ranks no higher than `c`, or may not run.
abbrev pub Outranked : ℕ → Pick → Proc → Type 0
Outranked now c p = p.state ≡ runnable → RanksBelow p.priority (wait_of p now) c

-- `c` describes the process in a slot of `ps`, the first of which has number `i`.
abbrev Describes : ℕ → ℕ → List Proc → Pick → Type 0
Describes now i ps c =
    (j : ℕ) × (p : Proc) × (get_elem? ps j ≡ some p)
    × (c.index ≡ i + j)
    × (p.state ≡ runnable)
    × (c.prio ≡ p.priority)
    × (c.wait ≡ wait_of p now)

state_eq-runnable : (s : State) → state_eq s runnable ≡ true → s ≡ runnable
state_eq-runnable s h = ground arith

-- What a round of scheduler did: it chose a RUNNABLE process that no RUNNABLE process outranks by
-- level, or at the same level by waiting time, and set that one RUNNING; or nothing could run.
abbrev pub Scheduled : ℕ → List Proc → List Proc × Option ℕ → Type 0
Scheduled now ps (qs, none) = (qs ≡ ps) × All (λ p. p.state ≢ runnable) ps
Scheduled now ps (qs, some i) =
    (p : Proc) × (get_elem? ps i ≡ some p)
    × (p.state ≡ runnable)
    × (get_elem? qs i ≡ some (dispatch p now))
    × ((j : ℕ) → i ≢ j → get_elem? qs j ≡ get_elem? ps j)
    × All
        (λ q.
          q.state ≡ runnable
          → (q.priority < p.priority)
            ⊎ ((q.priority ≡ p.priority) × (wait_of q now ≤ wait_of p now)))
        ps
