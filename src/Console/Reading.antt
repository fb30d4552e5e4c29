-- ===== src/Console/Reading.antt =====
-- consoleread against the lists.
use hai_os.Base.{
  ℕ, zero, suc, ◌+◌, ◌%◌, ◌≡◌, refl, sym, ap, subst, ◌∙◌, ◌≢◌, Bool, true, false, List, [], ◌∷◌,
  arith, ltb, not, ◌==◌, if◌then◌else◌, eq→==, ==→eq, add32, sub32,
}
use hai_os.Console.{ctrl_d, newline, Cons, read_line}
use hai_os.Console.Line.{view, input, IsConsole, view-wrap}

-- What consoleread takes from the lines that are ready, for at most `n` bytes, with `i` read before: up
-- to the end of a line; or up to ^D, which stays when something was read before it, so that the next
-- call reads nothing; or up to a byte that cannot be copied out, which is lost; and whether it returns.
abbrev pub take_line : ℕ → ℕ → (ℕ → Bool) → List ℕ → List ℕ × List ℕ × Bool
take_line zero i dst cs = (cs, [], true)
take_line (suc n) i dst [] = ([], [], false)
take_line (suc n) i dst (c ∷ cs) =
    let (rest, xs, done) = take_line n (i + 1) dst cs in
    if c == ctrl_d
    then (if ltb 0 i then c ∷ cs else cs, [], true)
    else if not (dst i)
    then (cs, [], true)
    else if c == newline
    then (cs, c ∷ [], true)
    else (rest, c ∷ xs, done)

-- The result of a read, as the lists show it.
abbrev pub Reads : Cons → Cons × List ℕ × Bool → List ℕ × List ℕ × Bool → Type 0
Reads s x y =
    IsConsole x.0
    × (input x.0 ≡ record { ready = y.0; line = (input s).line })
    × (x.1 ≡ y.1)
    × (x.2 ≡ y.2)

if-Reads :
    (s : Cons) (b : Bool) (x y : Cons × List ℕ × Bool) (p q : List ℕ × List ℕ × Bool)
    → (b ≡ true → Reads s x p)
    → (b ≡ false → Reads s y q)
    → Reads s (if b then x else y) (if b then p else q)
if-Reads s true x y p q h k = h refl
if-Reads s false x y p q h k = k refl

abbrev next : Cons → Cons
next s = record s { r = add32 s.r 1 }

-- The first byte that is ready.
first_ready :
    (s : Cons)
    → IsConsole s
    → s.r ≢ s.w
    → IsConsole (next s) × ((input s).ready ≡ s.buf (s.r % 128) ∷ (input (next s)).ready)
unfolding input
first_ready s h ne =
    let words = h.words in
    let k : ℕ = sub32 s.w (add32 s.r 1) in
    let ek : sub32 s.w s.r ≡ suc k = omega (arith, words, ne) in
    (
      record {
        words = (omega arith, words.1, words.2);
        fits = omega (arith, h.fits, ek);
        open_line = h.open_line;
      },
      ap (view s.buf s.r) ek
          ∙ ap (◌∷◌ (s.buf (s.r % 128))) (view-wrap s.buf (s.r + 1) (add32 s.r 1) k (omega arith)),
    )

pick-Reads :
    (s : Cons) (b : Bool) (x y : Cons × List ℕ × Bool) (t : List ℕ × List ℕ × Bool)
    → (b ≡ true → Reads s x t)
    → (b ≡ false → Reads s y t)
    → Reads s (if b then x else y) t
pick-Reads s true x y t h k = h refl
pick-Reads s false x y t h k = k refl

nothing_ready :
    (n i : ℕ) (dst : ℕ → Bool) (s : Cons)
    → IsConsole s
    → (s.r == s.w) ≡ true
    → Reads s (s, [], false) (take_line (suc n) i dst (input s).ready)
unfolding input
nothing_ready n i dst s h q =
    let z : sub32 s.w s.r ≡ 0 = omega (arith, ==→eq s.r s.w q, h.words) in
    let empty : view s.buf s.r (sub32 s.w s.r) ≡ [] = ap (view s.buf s.r) z in
    subst (λ l. Reads s (s, [], false) (take_line (suc n) i dst l)) (sym empty)
      (h, ap (λ l. record { ready = l; line = (input s).line }) empty, refl, refl)

at_end :
    (got : Bool) (s : Cons)
    → IsConsole s
    → IsConsole (next s)
    → (input s).ready ≡ s.buf (s.r % 128) ∷ (input (next s)).ready
    → Reads s
        (if got then s else next s, [], true)
        (
          if got then s.buf (s.r % 128) ∷ (input (next s)).ready else (input (next s)).ready,
          [],
          true,
        )
unfolding input
at_end true s h h' e = (h, ap (λ l. record { ready = l; line = (input s).line }) e, refl, refl)
at_end false s h h' e = (h', refl, refl, refl)

-- One byte more, before a read that goes on.
cons_Reads :
    (s : Cons) (c : ℕ) (x : Cons × List ℕ × Bool) (y : List ℕ × List ℕ × Bool)
    → Reads (next s) x y
    → Reads s (x.0, c ∷ x.1, x.2) (y.0, c ∷ y.1, y.2)
unfolding input
cons_Reads s c x y (h, i, e, d) = (h, i, ap (◌∷◌ c) e, d)

for_ready :
    (n i : ℕ) (dst : ℕ → Bool) (s : Cons) (x : Cons × List ℕ × Bool) (l l' : List ℕ)
    → l ≡ l'
    → Reads s x (take_line (suc n) i dst l')
    → Reads s x (take_line (suc n) i dst l)
for_ready n i dst s x l l' e h = subst (λ l. Reads s x (take_line (suc n) i dst l)) (sym e) h

one_byte :
    (s : Cons) (c : ℕ)
    → IsConsole (next s)
    → Reads s (next s, c ∷ [], true) ((input (next s)).ready, c ∷ [], true)
unfolding input
one_byte s c h = (h, refl, refl, refl)

-- consoleread, as far as it comes without sleeping, takes from the lines that are ready a line, or a
-- part of one of the length asked for, or what is before ^D, or what is before the first byte that
-- cannot be copied out, in the order of their typing; that byte is taken from the buffer, too. It
-- leaves the line that is being typed.
pub read_line-Reads :
    (n i : ℕ) (dst : ℕ → Bool) (s : Cons)
    → IsConsole s
    → Reads s (read_line n i dst s) (take_line n i dst (input s).ready)
unfolding read_line
read_line-Reads zero i dst s h = (h, refl, refl, refl)
read_line-Reads (suc n) i dst s h =
    pick-Reads s (s.r == s.w) _ _ _ (nothing_ready n i dst s h) (λ q.
      let f = first_ready s h (λ e. ground (arith, eq→== s.r s.w e, q)) in
      let c : ℕ = s.buf (s.r % 128) in
      for_ready n i dst s _ _ _ f.1 (
        if-Reads s (c == ctrl_d) _ _ _ _ (λ _. at_end (ltb 0 i) s h f.0 f.1)
          (λ _.
            if-Reads s (not (dst i)) _ _ _ _ (λ _. at_end false s h f.0 f.1)
              (λ _.
                if-Reads s (c == newline) _ _ _ _ (λ _. one_byte s c f.0)
                  (λ _.
                    cons_Reads s c (read_line n (i + 1) dst (next s)) _
                      (read_line-Reads n (i + 1) dst (next s) f.0))))))
