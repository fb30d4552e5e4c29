-- ===== src/Proc.antt =====
-- kernel/proc.c: the process table and the scheduling policy. A process is a record without the parts
-- that belong to memory and files; each function below is one critical section under p->lock (the
-- scans take the locks one by one, which a step of the table leaves out). Signed fields whose values
-- never go below 0 are natural numbers; `budget` is an integer.
pub mod Policy
pub mod Table
pub mod Sched
pub mod Hog
use hai_os.Base.{
  ℕ, zero, suc, ◌+◌, ◌-◌, ◌/◌, Bool, true, false, ◌&&◌, Option, none, [], ◌∷◌, ltb, ◌==◌,
  if◌then◌else◌, get_or, ℤ, pos, negsuc, add64,
}

-- `enum procstate`
pub data State : Type 0 where
  unused used sleeping runnable running zombie : State

abbrev pub state_eq : State → State → Bool
state_eq unused unused = true
state_eq used used = true
state_eq sleeping sleeping = true
state_eq runnable runnable = true
state_eq running running = true
state_eq zombie zombie = true
state_eq _ _ = false

-- `struct proc`. `chan` is the address slept on, 0 for none; `parent` is the index of a slot.
pub record Proc : Type 0 where
  pub state : State
  pub chan : ℕ
  pub killed : Bool
  pub xstate : ℤ
  pub pid : ℕ
  pub priority : ℕ
  pub budget : ℤ
  pub rtime : ℕ
  pub sched_cnt : ℕ
  pub sched_stamp : ℕ
  pub page_faults : ℕ
  pub parent : Option ℕ

-- kernel/param.h
abbrev pub pri_max : ℕ
pri_max = 3

abbrev pub pri_default : ℕ
pri_default = 1

-- The clamp below PRI_MIN is for negative priorities, which do not arise here.
unfoldable pub slice_for_priority : ℕ → ℕ
slice_for_priority prio = get_or (8 ∷ 6 ∷ 4 ∷ 2 ∷ []) (if ltb pri_max prio then pri_max else prio) 0

abbrev minus_one : ℤ → ℤ
minus_one (pos zero) = negsuc 0
minus_one (pos (suc n)) = pos n
minus_one (negsuc n) = negsuc (suc n)

abbrev not_positive : ℤ → Bool
not_positive (pos zero) = true
not_positive (pos (suc n)) = false
not_positive (negsuc n) = true

-- `a < b` for an `int` b.
abbrev below : ℕ → ℤ → Bool
below a (pos b) = ltb a b
below a (negsuc b) = false

-- `p->budget = slice_for_priority(p->priority)`
refill : Proc → Proc
unfolding slice_for_priority
refill p = record p { budget = pos (slice_for_priority p.priority) }

-- The state that allocproc gives a slot that it has found, before it allocates memory for it.
unfoldable pub claim : Proc → ℕ → ℕ → Proc
unfolding slice_for_priority
claim p pid ticks = record p {
  pid = pid;
  state = used;
  priority = pri_default;
  budget = pos (slice_for_priority pri_default);
  rtime = 0;
  sched_cnt = 0;
  sched_stamp = ticks;
  page_faults = 0;
}

unfoldable pub freeproc : Proc → Proc
unfolding slice_for_priority
freeproc p = record {
  state = unused;
  chan = 0;
  killed = false;
  xstate = pos 0;
  pid = 0;
  priority = pri_default;
  budget = pos (slice_for_priority pri_default);
  rtime = 0;
  sched_cnt = 0;
  sched_stamp = 0;
  page_faults = 0;
  parent = none;
}

-- One level down, if there is one.
demoted : Proc → Proc
demoted p = if ltb 0 p.priority then record p { priority = p.priority - 1 } else p

-- A tick charged to the process, whatever its slice has left.
charge : Proc → Proc
charge p = record p { rtime = add64 p.rtime 1; budget = minus_one p.budget }

-- proc_tick for the process of this CPU.
unfoldable pub proc_tick : Proc → Proc
unfolding refill demoted charge
proc_tick p =
    if state_eq p.state running
    then (if not_positive (charge p).budget then refill (demoted (charge p)) else charge p)
    else p

-- yield's reward for more than half of the slice left.
rewarded : Proc → Proc
unfolding slice_for_priority
rewarded p =
    if below (slice_for_priority p.priority / 2) p.budget && ltb p.priority pri_max
    then record p { priority = p.priority + 1 }
    else p

-- yield up to its call of sched.
unfoldable pub yield : Proc → ℕ → Proc
unfolding refill rewarded
yield p ticks = record (refill (rewarded p)) { sched_stamp = ticks; state = runnable }

-- What scheduler does to the process that it has chosen, before swtch.
unfoldable pub dispatch : Proc → ℕ → Proc
unfolding refill
dispatch p now = record (refill p) {
  state = running;
  sched_cnt = add64 p.sched_cnt 1;
  sched_stamp = now;
}

-- sleep up to its call of sched.
unfoldable pub sleep_on : Proc → ℕ → Proc
sleep_on p chan = record p { chan = chan; state = sleeping }

-- One level up, if there is one.
promoted : Proc → Proc
promoted p = if ltb p.priority pri_max then record p { priority = p.priority + 1 } else p

-- What wakeup does to one process other than the caller.
unfoldable pub wakeup_one : Proc → ℕ → ℕ → Proc
unfolding refill promoted
wakeup_one p chan ticks =
    if state_eq p.state sleeping && (p.chan == chan)
    then record (refill (promoted p)) { sched_stamp = ticks; state = runnable }
    else p

-- What kkill does to the process with the pid.
unfoldable pub kill_one : Proc → Proc
kill_one p =
    let q = record p { killed = true } in
    if state_eq q.state sleeping then record q { state = runnable } else q

unfoldable pub set_killed : Proc → Proc
set_killed p = record p { killed = true }

-- What setpriority does to the process with the pid.
unfoldable pub set_priority_one : Proc → ℕ → ℕ → Proc
unfolding refill
set_priority_one p prio ticks =
    let q = refill (record p { priority = prio }) in
    if state_eq q.state runnable then record q { sched_stamp = ticks } else q

-- The end of kexit, once files and memory are closed.
unfoldable pub become_zombie : Proc → ℤ → Proc
become_zombie p status = record p { xstate = status; state = zombie }

-- The end of kfork for the child.
unfoldable pub start_child : Proc → ℕ → Proc
unfolding refill
start_child p ticks = record (refill p) { state = runnable; sched_stamp = ticks }
