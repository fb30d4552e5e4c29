-- ===== src/Console/Erase.antt =====
-- The keys of consoleintr that take characters away: the last one, or the line.
use hai_os.Base.{
  ℕ, zero, suc, ◌+◌, ◌%◌, ◌^◌, ◌≤◌, ◌<◌, ◌≡◌, refl, sym, ap, subst, ◌∙◌, ◌≢◌, inl, inr, true, false,
  [], ◌∷◌, ◌++◌, arith, ◌==◌, eq→==, ne→==, ==→eq, Bool-cases, All, sub32,
}
use hai_os.Console.{newline, Cons, kill_line}
use hai_os.Console.Line.{Input, view, input, IsConsole, but_last, view-append, but_last-append}

-- The counters modulo the size of the ring.
pub distances :
    (r w e : ℕ)
    → r < 2 ^ 32
    → w < 2 ^ 32
    → e < 2 ^ 32
    → sub32 w r + sub32 e w ≤ 128
    → (w % 128 ≡ (r + sub32 w r) % 128)
      × (e % 128 ≡ (w + sub32 e w) % 128)
      × (e % 128 ≡ (r + (sub32 w r + sub32 e w)) % 128)
      × (sub32 e r ≡ sub32 w r + sub32 e w)
distances r w e lr lw le fit = (
  omega (arith, lr, lw),
  omega (arith, lw, le),
  omega (arith, lr, lw, le),
  omega (arith, lr, lw, le, fit),
)

All-view-last {ℓ} :
    (P : ℕ → Type ℓ) (b : ℕ → ℕ) (p n : ℕ)
    → All P (view b p (suc n))
    → All P (view b p n) × P (b ((p + n) % 128))
unfolding view
All-view-last P b p zero h = (tt, subst (λ x. P (b (x % 128))) (omega arith) h.0)
All-view-last P b p (suc n) h =
    let ih = All-view-last P b (p + 1) n h.1 in
    let e : p + 1 + n ≡ p + suc n = omega arith in
    ((h.0, ih.0), subst (λ x. P (b (x % 128))) e ih.1)

pub view-last : (b : ℕ → ℕ) (p n : ℕ) → view b p (n + 1) ≡ view b p n ++ b ((p + n) % 128) ∷ []
unfolding view
view-last b p n = view-append b p n 1

-- One character less on the line.
abbrev pub erased : Cons → Cons
erased s = record s { e = sub32 s.e 1 }

pub erase_lem :
    (s : Cons)
    → IsConsole s
    → s.e ≢ s.w
    → IsConsole (erased s)
      × (input (erased s) ≡ record { ready = (input s).ready; line = but_last (input s).line })
      × (s.buf (sub32 s.e 1 % 128) ≢ newline)
      × (sub32 s.e s.w ≡ sub32 (sub32 s.e 1) s.w + 1)
unfolding input
erase_lem s h ne =
    let k : ℕ = sub32 (sub32 s.e 1) s.w in
    let words = h.words in
    let ek : sub32 s.e s.w ≡ k + 1 = omega (arith, words, ne) in
    let ek' : sub32 s.e s.w ≡ suc k = omega (arith, ek) in
    let at : sub32 s.e 1 % 128 ≡ (s.w + k) % 128 = omega (arith, words, ne) in
    let typed =
      All-view-last (λ c. c ≢ newline) s.buf s.w k
        (subst (λ n. All (λ c. c ≢ newline) (view s.buf s.w n)) ek' h.open_line) in
    (
      record {
        words = (words.0, words.1, omega (arith, words));
        fits = omega (arith, h.fits, ek);
        open_line = typed.0;
      },
      ap (λ l. record { ready = view s.buf s.r (sub32 s.w s.r); line = l })
          (sym (
            ap but_last (ap (view s.buf s.w) ek ∙ view-last s.buf s.w k)
            ∙ but_last-append (view s.buf s.w k) (s.buf ((s.w + k) % 128)))),
      subst (λ x. s.buf x ≢ newline) (sym at) typed.1,
      ek,
    )

-- What a key promises.
abbrev pub Pressed : Cons → Input → Type 0
Pressed s q = (input s ≡ q) × IsConsole s

pub kill_line-Pressed :
    (fuel : ℕ) (s : Cons)
    → IsConsole s
    → sub32 s.e s.w ≤ fuel
    → Pressed (kill_line fuel s).0 (record { ready = (input s).ready; line = [] })
unfolding kill_line input view
kill_line-Pressed zero s h le =
    let none_left : sub32 s.e s.w ≡ 0 = omega (arith, le) in
    (
      ap (λ n. record { ready = view s.buf s.r (sub32 s.w s.r); line = view s.buf s.w n })
          none_left,
      h,
    )
kill_line-Pressed (suc fuel) s h le = elim (Bool-cases (s.e == s.w)) [
  | inl q ↦
      let z : sub32 s.e s.w ≡ 0 = omega (arith, ==→eq s.e s.w q, h.words) in
      subst (λ r. Pressed r.0 (record { ready = view s.buf s.r (sub32 s.w s.r); line = [] }))
        (sym (stop fuel s q))
        (ap (λ n. record { ready = view s.buf s.r (sub32 s.w s.r); line = view s.buf s.w n }) z, h)
  | inr q ↦
      let ne : s.e ≢ s.w = λ e. ground (arith, eq→== s.e s.w e, q) in
      let l = erase_lem s h ne in
      subst (λ t. Pressed t (record { ready = view s.buf s.r (sub32 s.w s.r); line = [] }))
        (sym (more fuel s q (ne→== (s.buf (sub32 s.e 1 % 128)) newline l.2)))
        (kill_line-Pressed fuel (erased s) l.0 (omega (arith, l.3, le)))
]
  where
    stop : (fuel : ℕ) (s : Cons) → (s.e == s.w) ≡ true → kill_line (suc fuel) s ≡ (s, [])
    stop fuel s q = rw (q) refl

    more :
        (fuel : ℕ) (s : Cons)
        → (s.e == s.w) ≡ false
        → (s.buf (sub32 s.e 1 % 128) == newline) ≡ false
        → (kill_line (suc fuel) s).0 ≡ (kill_line fuel (erased s)).0
    more fuel s q n = rw (q, n) refl
