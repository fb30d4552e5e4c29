-- ===== src/Tests/Spin.antt =====
-- Examples for spin locks: two CPUs.
use hai_os.Base.{ℕ, ◌≡◌, true, false, List, [], ◌∷◌, arith, ok}
use hai_os.Spin.{Cpu, Spin, run_schedule}
use hai_os.Spin.Nesting.{push_times, pop_times, pop_times-push_times}
use hai_os.Spin.Exclusion.{IsExclusive, fresh_lock, run_schedule-IsExclusive}

abbrev running : Cpu
running = record { intr = true; noff = 0; intena = false }

abbrev order : List ℕ
order = 0 ∷ 1 ∷ 0 ∷ 1 ∷ 0 ∷ 0 ∷ 0 ∷ 1 ∷ []

run_schedule-IsExclusive_example :
    (s : Spin) × (run_schedule order (fresh_lock (λ i. running)) ≡ ok s) × IsExclusive s
run_schedule-IsExclusive_example = run_schedule-IsExclusive order (λ i. running)

pop_times-push_times_example :
    (c' : Cpu) × (pop_times 2 (push_times 2 running) ≡ ok c') × (c'.intr ≡ true) × (c'.noff ≡ 0)
pop_times-push_times_example = pop_times-push_times 2 running (λ lt. absurd (omega (arith, lt)))
