-- ===== src/Proc/Hog.antt =====
-- How a process that computes without pause moves between the levels. usertrap, on a timer interrupt,
-- calls proc_tick and then yield; scheduler has filled the slice when it chose the process.
use hai_os.Base.{ℕ, zero, suc, ◌+◌, ◌≤◌, min, ◌≡◌, refl, arith}
use hai_os.Proc.{Proc, pri_max, proc_tick, yield, dispatch}

-- usertrap's last part, for a timer interrupt (`which_dev == 2`).
unfoldable pub timer_interrupt : Proc → ℕ → Proc
unfolding proc_tick yield
timer_interrupt p ticks = yield (proc_tick p) ticks

-- kerneltrap's last part, for a timer interrupt.
unfoldable pub kernel_timer_interrupt : Proc → ℕ → Proc
unfolding yield
kernel_timer_interrupt p ticks = yield p ticks

-- One turn on the CPU that only the timer ends.
unfoldable pub turn : ℕ → Proc → Proc
unfolding timer_interrupt dispatch
turn now p = timer_interrupt (dispatch p now) (now + 1)

turn_level :
    (now : ℕ) (p : Proc) (level : ℕ)
    → p.priority ≡ level
    → level ≤ pri_max
    → (turn now p).priority ≡ min (level + 1) pri_max
unfolding turn
turn_level now p zero e h = ground arith
turn_level now p (suc zero) e h = ground arith
turn_level now p (suc (suc zero)) e h = ground arith
turn_level now p (suc (suc (suc zero))) e h = ground arith
turn_level now p (suc (suc (suc (suc n)))) e h = absurd (omega arith)

-- `n` turns, each ended by the timer.
unfoldable pub turns : ℕ → ℕ → Proc → Proc
unfolding turn
turns zero now p = p
turns (suc n) now p = turns n (now + 1) (turn now p)

-- A process that only the timer takes off the CPU, tick by tick, rises one level with each turn up
-- to PRI_MAX and stays there.
pub turns_level :
    (n now : ℕ) (p : Proc)
    → p.priority ≤ pri_max
    → (turns n now p).priority ≡ min (p.priority + n) pri_max
unfolding turns
turns_level zero now p h = omega arith
turns_level (suc n) now p h =
    omega (arith, turn_level now p p.priority refl h, turns_level n (now + 1) (turn now p))
