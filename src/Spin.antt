-- ===== src/Spin.antt =====
-- kernel/spinlock.c: one spin lock and the CPUs that use it. `pc` is the place of each CPU in acquire
-- and release, so that the CPUs take their steps in any order. A CPU's `intr` says that its interrupts
-- are on. The fences of __sync_synchronize have no effect here: each step is one access to the lock.
pub mod Nesting
pub mod Exclusion
use hai_os.Base.{
  ℕ, ◌+◌, ◌-◌, Bool, true, false, not, ◌&&◌, Option, none, some, List, [], ◌∷◌, ltb, ◌==◌,
  if◌then◌else◌, Run, ok, panic, ◌>>=◌, ◌>>◌, update,
}

-- `struct cpu`, the parts for interrupts.
pub record Cpu : Type 0 where
  pub intr : Bool
  pub noff : ℕ
  pub intena : Bool

-- `struct spinlock`
pub record Lock : Type 0 where
  pub locked : Bool
  pub cpu : Option ℕ

abbrev pub initlock : Lock
initlock = record { locked = false; cpu = none }

unfoldable pub push_off : Cpu → Cpu
push_off c = record {
  intr = false;
  noff = c.noff + 1;
  intena = if c.noff == 0 then c.intr else c.intena;
}

unfoldable pub pop_off : Cpu → Run Cpu
pop_off c =
    if c.intr
    then panic "pop_off - interruptible"
    else if ltb c.noff 1
    then panic "pop_off"
    else ok (record c { noff = c.noff - 1; intr = (c.noff - 1 == 0) && c.intena })

abbrev pub is_cpu : Option ℕ → ℕ → Bool
is_cpu none i = false
is_cpu (some j) i = j == i

unfoldable pub holding : ℕ → Lock → Bool
holding i lk = lk.locked && is_cpu lk.cpu i

-- Where a CPU is: outside; in the loop of acquire; past the loop; back from acquire; in release once
-- `lk->cpu` is 0; and before its pop_off.
pub data Pc : Type 0 where
  outside : Pc
  spinning : Pc
  taken : Pc
  inside : Pc
  releasing : Pc
  popping : Pc

pub record Spin : Type 0 where
  pub lock : Lock
  pub cpus : ℕ → Cpu
  pub pc : ℕ → Pc

abbrev pub goto : Spin → ℕ → Pc → Spin
goto s i p = record s { pc = update s.pc i p }

-- acquire up to its loop.
unfoldable pub acquire_enter : ℕ → Spin → Run Spin
unfolding push_off holding
acquire_enter i s =
    if holding i s.lock
    then panic "acquire"
    else ok (goto (record s { cpus = update s.cpus i (push_off (s.cpus i)) }) i spinning)

-- A pass of its loop: the atomic swap.
unfoldable pub test_and_set : ℕ → Spin → Spin
test_and_set i s =
    if s.lock.locked then s else goto (record s { lock = record s.lock { locked = true } }) i taken

unfoldable pub acquire_own : ℕ → Spin → Spin
acquire_own i s = goto (record s { lock = record s.lock { cpu = some i } }) i inside

-- release, in three steps.
unfoldable pub release_disown : ℕ → Spin → Run Spin
unfolding holding
release_disown i s =
    if not (holding i s.lock)
    then panic "release"
    else ok (goto (record s { lock = record s.lock { cpu = none } }) i releasing)

unfoldable pub release_unlock : ℕ → Spin → Spin
release_unlock i s = goto (record s { lock = record s.lock { locked = false } }) i popping

unfoldable pub release_leave : ℕ → Spin → Run Spin
unfolding pop_off
release_leave i s =
    pop_off (s.cpus i) >>= λ c. ok (goto (record s { cpus = update s.cpus i c }) i outside)

-- The next step of CPU `i`.
pub advance_at : Pc → ℕ → Spin → Run Spin
unfolding acquire_enter test_and_set acquire_own release_disown release_unlock release_leave
advance_at outside i s = acquire_enter i s
advance_at spinning i s = ok (test_and_set i s)
advance_at taken i s = ok (acquire_own i s)
advance_at inside i s = release_disown i s
advance_at releasing i s = ok (release_unlock i s)
advance_at popping i s = release_leave i s

abbrev pub advance : ℕ → Spin → Run Spin
unfolding advance_at
advance i s = advance_at (s.pc i) i s

-- The steps of a schedule of CPUs.
pub run_schedule : List ℕ → Spin → Run Spin
unfolding advance
run_schedule [] s = ok s
run_schedule (i ∷ is) s = advance i s >>= λ s'. run_schedule is s'
