-- ===== src/Tests/Proc.antt =====
-- Examples for kernel/proc.c: a table of init, a child of it that sleeps, a zombie and a free slot.
use hai_os.Base.{
  ℕ, zero, suc, ◌+◌, ◌<◌, min, ◌≡◌, refl, subst, ◌≢◌, ◌⊎◌, true, false, Option, none, some, [], ◌∷◌,
  arith, ◌==◌, if◌then◌else◌, eq_of_some, get_elem?, pos,
}
use hai_os.Proc.{
  State, unused, used, sleeping, runnable, running, zombie, Proc, pri_max, slice_for_priority,
}
use hai_os.Proc.Policy.{ticks, apply, IsScheduled, apply-IsScheduled}
use hai_os.Proc.Hog.{turns, turns_level}
use hai_os.Proc.Table.{Table, find_slot, same_slot, kkill, setpriority, allocproc, wakeup}
use hai_os.Proc.Table.Pids.{PidsUnique, Allocated, allocproc-Allocated, kkill_zero}
use hai_os.Proc.Table.Wakeup.{SleepsOn, wakeup_lem}
use hai_os.Proc.Table.Fork.{Forked, kfork, kfork-Forked}
use hai_os.Proc.Table.Wait.{Waited, kwait_pass, kwait_pass-Waited}

abbrev proc : ℕ → State → Option ℕ → Proc
proc pid state parent = record {
  state = state;
  chan = if pid == 2 then 9 else 0;
  killed = false;
  xstate = pos 0;
  pid = pid;
  priority = 1;
  budget = pos 6;
  rtime = 0;
  sched_cnt = 0;
  sched_stamp = 0;
  page_faults = 0;
  parent = parent;
}

abbrev table : Table
table =
    proc 1 runnable none
    ∷ proc 2 sleeping (some 0)
    ∷ proc 3 zombie (some 1)
    ∷ proc 0 unused none
    ∷ []

set_two : (setpriority table 2 (pos 3) 7).1 ≡ true
unfolding setpriority find_slot
set_two = refl

wakeup_lem_example :
    (q : Proc) × (get_elem? (wakeup (some 0) table 9 7) 1 ≡ some q)
    × (same_slot (some 0) 1 ≡ false
        → SleepsOn 9 (proc 2 sleeping (some 0))
        → (q.state ≡ runnable) × (q.sched_stamp ≡ 7) × (q.priority ≡ min (1 + 1) pri_max))
    × ((same_slot (some 0) 1 ≡ true) ⊎ ¬ SleepsOn 9 (proc 2 sleeping (some 0))
        → q ≡ proc 2 sleeping (some 0))
wakeup_lem_example = wakeup_lem (some 0) table 9 7 1 (proc 2 sleeping (some 0)) refl (ground arith)

kwait_pass-Waited_example : Waited table 1 false true (kwait_pass table 1 false true)
kwait_pass-Waited_example = kwait_pass-Waited table 1 false true

turns_level_example : (turns 5 0 (proc 1 runnable none)).priority ≡ min (1 + 5) pri_max
turns_level_example = turns_level 5 0 (proc 1 runnable none) (ground arith)

proc-IsScheduled : IsScheduled (proc 1 running none)
unfolding slice_for_priority
proc-IsScheduled = record { in_range = ground arith; in_slice = (ground arith, ground arith) }

apply-IsScheduled_example : IsScheduled (apply ticks (proc 1 running none))
apply-IsScheduled_example = apply-IsScheduled ticks (proc 1 running none) tt proc-IsScheduled

-- One free slot.
abbrev free_table : Table
free_table = proc 0 unused none ∷ []

only_slot :
    (i : ℕ) (p : Proc) → get_elem? free_table i ≡ some p → (i ≡ 0) × (proc 0 unused none ≡ p)
only_slot zero p g = (refl, eq_of_some (proc 0 unused none) p g)
only_slot (suc n) p g = cc

free_table-PidsUnique : PidsUnique free_table 1
free_table-PidsUnique = record {
  started = ground arith;
  used_below = λ i p g. subst (λ (x : Proc). x.pid < 1) (only_slot i p g).1 (ground arith);
  free_zero = λ i p g s. subst (λ (x : Proc). x.pid ≡ 0) (only_slot i p g).1 refl;
  distinct = λ i j p q ne g h e. subst (λ (x : Proc). x.pid ≡ 0) (only_slot i p g).1 refl;
}

allocproc-Allocated_example :
    let out = allocproc free_table 1 7 true in
    PidsUnique out.0 out.1 × Allocated free_table 1 7 true out
allocproc-Allocated_example = allocproc-Allocated free_table 1 7 true free_table-PidsUnique

none_before :
    (j : ℕ) (q : Proc) → j < 0 → get_elem? free_table j ≡ some q → (q.pid ≢ 0) × (q.state ≢ unused)
none_before j q lt g = absurd (omega (arith, lt))

kfork-Forked_example : Forked free_table 0 1 true true (kfork free_table 0 1 7 true true)
kfork-Forked_example = kfork-Forked free_table 0 1 7 true true free_table-PidsUnique

kkill_zero_example :
    let (qs, done) = kkill free_table 0 in
    let (rs, n, slot) = allocproc qs 1 7 true in
    (done ≡ true)
    × (slot ≡ some 0)
    × ((q : Proc) → get_elem? rs 0 ≡ some q → (q.killed ≡ true) × (q.state ≡ used))
kkill_zero_example = kkill_zero free_table 0 (proc 0 unused none) 1 7 refl refl refl none_before
