-- ===== src/Spin/Exclusion.antt =====
-- Mutual exclusion: in every order of steps, one CPU at most has the lock.
use hai_os.Base.{
  ℕ, ◌-◌, ◌<◌, ◌≡◌, refl, sym, ap, subst, inl, inr, Bool, true, false, ◌&&◌, none, List, [], ◌∷◌,
  arith, ◌==◌, if◌then◌else◌, Bool-cases, Run, ok, update,
}
use hai_os.Spin.{
  Cpu, initlock, push_off, pop_off, is_cpu, holding, Pc, outside, spinning, taken, inside,
  releasing, popping, Spin, goto, acquire_enter, test_and_set, acquire_own, release_disown,
  release_unlock, release_leave, advance_at, advance, run_schedule,
}

-- Between the swap that takes the lock and the store that gives it back.
abbrev pub has_lock : Pc → Bool
has_lock outside = false
has_lock spinning = false
has_lock taken = true
has_lock inside = true
has_lock releasing = true
has_lock popping = false

abbrev pub is_inside : Pc → Bool
is_inside inside = true
is_inside _ = false

abbrev pub is_outside : Pc → Bool
is_outside outside = true
is_outside _ = false

pub record IsExclusive (s : Spin) : Type 0 where
  pub one : (i j : ℕ) → has_lock (s.pc i) ≡ true → has_lock (s.pc j) ≡ true → i ≡ j
  pub marked : (i : ℕ) → has_lock (s.pc i) ≡ true → s.lock.locked ≡ true
  pub owner : (i : ℕ) → is_cpu s.lock.cpu i ≡ is_inside (s.pc i)
  pub off :
      (i : ℕ) → is_outside (s.pc i) ≡ false → (0 < (s.cpus i).noff) × ((s.cpus i).intr ≡ false)

-- What a step promises.
abbrev Kept : Run Spin → Type 0
Kept r = (s : Spin) × (r ≡ ok s) × IsExclusive s

enter-Kept : (i : ℕ) (s : Spin) → IsExclusive s → s.pc i ≡ outside → Kept (acquire_enter i s)
unfolding acquire_enter holding push_off
enter-Kept i s h e =
    let free : holding i s.lock ≡ false = ground (arith, h.owner i, e) in
    let s' : Spin = goto (record s { cpus = update s.cpus i (push_off (s.cpus i)) }) i spinning in
    (
      s',
      rw (free) refl,
      record {
        one = λ j k p q. ground (arith, h.one j k, p, q);
        marked = λ j p. ground (arith, h.marked j, p);
        owner = λ j. ground (arith, h.owner j, e);
        off = λ j p. ground (arith, h.off j, p);
      },
    )

swap-Kept : (i : ℕ) (s : Spin) → IsExclusive s → s.pc i ≡ spinning → IsExclusive (test_and_set i s)
unfolding test_and_set
swap-Kept i s h e = elim (Bool-cases s.lock.locked) [
  | inl l ↦
      subst
        (λ b.
          IsExclusive
            (if b then s else goto (record s { lock = record s.lock { locked = true } }) i taken))
        (sym l) h
  | inr l ↦
      subst
        (λ b.
          IsExclusive
            (if b then s else goto (record s { lock = record s.lock { locked = true } }) i taken))
        (sym l)
        (record {
          one = λ j k p q. ground (arith, h.one j k, p, q, h.marked j, h.marked k, l);
          marked = λ j p. refl;
          owner = λ j. ground (arith, h.owner j, e);
          off = λ j p. ground (arith, h.off j, h.off i, p, e);
        })
]

own-Kept : (i : ℕ) (s : Spin) → IsExclusive s → s.pc i ≡ taken → IsExclusive (acquire_own i s)
unfolding acquire_own
own-Kept i s h e = record {
  one = λ j k p q. ground (arith, h.one j k, h.one i k, h.one j i, p, q, e);
  marked = λ j p. ground (arith, h.marked i, e);
  owner = λ j. ground (arith, h.owner j, h.one i j, e);
  off = λ j p. ground (arith, h.off j, h.off i, p, e);
}

disown-Kept : (i : ℕ) (s : Spin) → IsExclusive s → s.pc i ≡ inside → Kept (release_disown i s)
unfolding release_disown holding
disown-Kept i s h e =
    let held : holding i s.lock ≡ true = ground (arith, h.owner i, h.marked i, e) in
    let s' : Spin = goto (record s { lock = record s.lock { cpu = none } }) i releasing in
    (
      s',
      rw (held) refl,
      record {
        one = λ j k p q. ground (arith, h.one j k, h.one i k, h.one j i, p, q, e);
        marked = λ j p. ground (arith, h.marked i, e);
        owner = λ j. ground (arith, h.owner j, h.one i j, e);
        off = λ j p. ground (arith, h.off j, h.off i, p, e);
      },
    )

unlock-Kept :
    (i : ℕ) (s : Spin) → IsExclusive s → s.pc i ≡ releasing → IsExclusive (release_unlock i s)
unfolding release_unlock
unlock-Kept i s h e = record {
  one = λ j k p q. ground (arith, h.one j k, p, q);
  marked = λ j p. ground (arith, h.one i j, p, e);
  owner = λ j. ground (arith, h.owner j, e);
  off = λ j p. ground (arith, h.off j, h.off i, p, e);
}

leave-Kept : (i : ℕ) (s : Spin) → IsExclusive s → s.pc i ≡ popping → Kept (release_leave i s)
unfolding release_leave pop_off
leave-Kept i s h e =
    let o : (0 < (s.cpus i).noff) × ((s.cpus i).intr ≡ false) = h.off i (ap is_outside e) in
    let c : Cpu = record (s.cpus i) {
      noff = (s.cpus i).noff - 1;
      intr = ((s.cpus i).noff - 1 == 0) && (s.cpus i).intena;
    } in
    let run : pop_off (s.cpus i) ≡ ok c = ground (arith, o.0, o.1) in
    let s' : Spin = goto (record s { cpus = update s.cpus i c }) i outside in
    (
      s',
      rw (run) refl,
      record {
        one = λ j k p q. ground (arith, h.one j k, p, q);
        marked = λ j p. ground (arith, h.marked j, p);
        owner = λ j. ground (arith, h.owner j, e);
        off = λ j p. ground (arith, h.off j, p);
      },
    )

advance-Kept : (i : ℕ) (s : Spin) → IsExclusive s → Kept (advance i s)
unfolding advance_at
advance-Kept i s h = by_pc (s.pc i) refl
  where
    by_pc : (p : Pc) → s.pc i ≡ p → Kept (advance_at p i s)
    by_pc outside e = enter-Kept i s h e
    by_pc spinning e = (test_and_set i s, refl, swap-Kept i s h e)
    by_pc taken e = (acquire_own i s, refl, own-Kept i s h e)
    by_pc inside e = disown-Kept i s h e
    by_pc releasing e = (release_unlock i s, refl, unlock-Kept i s h e)
    by_pc popping e = leave-Kept i s h e

-- A spin lock after initlock, with every CPU outside of acquire and release.
abbrev pub fresh_lock : (ℕ → Cpu) → Spin
fresh_lock cpus = record { lock = initlock; cpus = cpus; pc = λ i. outside }

fresh_lock-IsExclusive : (cpus : ℕ → Cpu) → IsExclusive (fresh_lock cpus)
fresh_lock-IsExclusive cpus = record {
  one = λ i j p q. absurd cc;
  marked = λ i p. absurd cc;
  owner = λ i. refl;
  off = λ i p. absurd cc;
}

run_schedule-Kept : (is : List ℕ) (s : Spin) → IsExclusive s → Kept (run_schedule is s)
unfolding run_schedule
run_schedule-Kept [] s h = (s, refl, h)
run_schedule-Kept (i ∷ is) s h =
    let (s1, e1, h1) = advance-Kept i s h in
    let (s2, e2, h2) = run_schedule-Kept is s1 h1 in (s2, rw (e1) e2, h2)

-- From a fresh lock, in every order of the steps of the CPUs, neither acquire nor release nor pop_off
-- panics; at most one CPU is between the swap that takes the lock and the store that gives it back, and
-- the lock is marked then; `lk->cpu` names the CPU in the critical section and no other; and a CPU that is in acquire, in the critical section or in release has its interrupts off.
pub run_schedule-IsExclusive :
    (is : List ℕ) (cpus : ℕ → Cpu)
    → (s : Spin) × (run_schedule is (fresh_lock cpus) ≡ ok s) × IsExclusive s
run_schedule-IsExclusive is cpus =
    run_schedule-Kept is (fresh_lock cpus) (fresh_lock-IsExclusive cpus)
