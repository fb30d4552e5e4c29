-- ===== src/Spin/Nesting.antt =====
-- push_off and pop_off are matched.
use hai_os.Base.{
  ℕ, zero, suc, ◌+◌, ◌-◌, ◌<◌, ◌≡◌, refl, sym, ap, ap₂, ◌∙◌, inl, inr, false, ◌&&◌, arith, ltb,
  ◌==◌, ne→==, le→ltb, Bool-cases, Run, ok, panic, ◌>>=◌,
}
use hai_os.Spin.{Cpu, push_off, pop_off}

abbrev pub push_times : ℕ → Cpu → Cpu
unfolding push_off
push_times zero c = c
push_times (suc n) c = push_times n (push_off c)

abbrev pub pop_times : ℕ → Cpu → Run Cpu
unfolding pop_off
pop_times zero c = ok c
pop_times (suc n) c = pop_off c >>= λ c'. pop_times n c'

pushes :
    (n : ℕ) (c : Cpu)
    → 0 < c.noff
    → c.intr ≡ false
    → push_times n c ≡ record c { noff = c.noff + n }
unfolding push_times push_off
pushes zero c more off = ap (λ k. record c { noff = k }) (omega arith)
pushes (suc n) c more off =
    let first : push_off c ≡ record c { noff = c.noff + 1 } =
      ap₂ (λ b d. record { intr = b; noff = c.noff + 1; intena = d }) (sym off)
        (rw (ne→== c.noff 0 (omega (arith, more))) refl) in
    ap (push_times n) first
    ∙ pushes n (record c { noff = c.noff + 1 }) (omega arith) off
    ∙ ap (λ k. record c { noff = k }) (omega arith)

pops :
    (n : ℕ) (c : Cpu)
    → 0 < c.noff
    → c.intr ≡ false
    → pop_times n (record c { noff = c.noff + n }) ≡ ok c
unfolding pop_times pop_off
pops zero c more off = ap (λ k. ok (record c { noff = k })) (omega arith)
pops (suc n) c more off =
    let full : ltb (c.noff + suc n) 1 ≡ false = le→ltb _ _ (omega arith) in
    let left : (c.noff + suc n - 1 == 0) ≡ false = ne→== _ _ (omega (arith, more)) in
    let k : c.noff + suc n - 1 ≡ c.noff + n = omega arith in
    let first : pop_off (record c { noff = c.noff + suc n }) ≡ ok (record c { noff = c.noff + n }) =
      rw (off, full, left)
        (ap (λ x. ok (record { intr = false; noff = x; intena = c.intena })) k) in
    ap (λ x. x >>= λ c'. pop_times n c') first ∙ pops n c more off

pop_times-last : (n : ℕ) (c : Cpu) → pop_times (suc n) c ≡ (pop_times n c >>= λ c'. pop_off c')
unfolding pop_times pop_off
pop_times-last zero c = bind_ok (pop_off c)
  where
    bind_ok : (x : Run Cpu) → (x >>= λ c'. ok c') ≡ x
    bind_ok (ok c) = refl
    bind_ok (panic s) = refl
pop_times-last (suc n) c = through (pop_off c) (λ c'. pop_times-last n c')
  where
    through :
        (x : Run Cpu)
        → ((c : Cpu) → pop_times (suc n) c ≡ (pop_times n c >>= λ c'. pop_off c'))
        → (x >>= λ c'. pop_times (suc n) c') ≡ ((x >>= λ c'. pop_times n c') >>= λ c'. pop_off c')
    through (ok c) ih = ih c
    through (panic s) ih = refl

-- As many pop_off as push_off leave the interrupts on or off as they were, from a CPU whose interrupts
-- are off while it is under a push_off, and no pop_off panics.
pub pop_times-push_times :
    (n : ℕ) (c : Cpu)
    → (0 < c.noff → c.intr ≡ false)
    → (c' : Cpu) × (pop_times n (push_times n c) ≡ ok c') × (c'.intr ≡ c.intr) × (c'.noff ≡ c.noff)
unfolding push_times pop_times push_off pop_off
pop_times-push_times zero c off = (c, refl, refl, refl)
pop_times-push_times (suc n) c off =
    let c1 : Cpu = push_off c in
    let run : pop_times (suc n) (push_times n c1) ≡ pop_off c1 =
      pop_times-last n (push_times n c1)
      ∙ ap (λ x. pop_times n x >>= λ c'. pop_off c') (pushes n c1 (omega arith) refl)
      ∙ ap (λ x. x >>= λ c'. pop_off c') (pops n c1 (omega arith) refl) in
    let full : ltb (c.noff + 1) 1 ≡ false = le→ltb _ _ (omega arith) in
    let back : c.noff + 1 - 1 ≡ c.noff = omega arith in
    (
      record c1 { noff = c1.noff - 1; intr = (c1.noff - 1 == 0) && c1.intena },
      run ∙ rw (full) refl,
      (elim (Bool-cases (c.noff == 0)) [
        | inl z ↦ rw (back, z) refl
        | inr z ↦ rw (back, z) (sym (off (ground (arith, z))))
      ]),
      back,
    )
