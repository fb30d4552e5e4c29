-- ===== src/Console/Line.antt =====
-- The input as two lists: the lines that are ready and the one that is being typed.
use hai_os.Base.{
  ℕ, zero, suc, ◌+◌, ◌%◌, ◌^◌, ◌≤◌, ◌<◌, ◌≡◌, refl, ap, ap₂, ◌∙◌, ◌≢◌, ◌||◌, List, [], ◌∷◌, ◌++◌,
  arith, leb, ◌==◌, if◌then◌else◌, length, All, sub32, update, update_ne,
}
use hai_os.Console.{ctrl_d, ctrl_h, newline, ctrl_p, ctrl_u, delete, Cons, return_key}

pub record Input : Type 0 where
  pub ready : List ℕ
  pub line : List ℕ

-- `n` characters of the ring from `p` on.
unfoldable pub view : (ℕ → ℕ) → ℕ → ℕ → List ℕ
view b p zero = []
view b p (suc n) = b (p % 128) ∷ view b (p + 1) n

unfoldable pub input : Cons → Input
unfolding view
input s = record { ready = view s.buf s.r (sub32 s.w s.r); line = view s.buf s.w (sub32 s.e s.w) }

-- The counters are in order and no more than the buffer apart, and the line being typed has not ended.
pub record IsConsole (s : Cons) : Type 0 where
  pub words : (s.r < 2 ^ 32) × (s.w < 2 ^ 32) × (s.e < 2 ^ 32)
  pub fits : sub32 s.w s.r + sub32 s.e s.w ≤ 128
  pub open_line : All (λ c. c ≢ newline) (view s.buf s.w (sub32 s.e s.w))

abbrev pub but_last : List ℕ → List ℕ
but_last [] = []
but_last (x ∷ []) = []
but_last (x ∷ y ∷ ys) = x ∷ but_last (y ∷ ys)

-- What a key means: a line is typed, edited and handed over at its end, at ^D or when the buffer is
-- full.
abbrev pub type_char : ℕ → Input → Input
type_char c q =
    if c == newline || (c == ctrl_d || (length q.ready + length q.line + 1 == 128))
    then record { ready = q.ready ++ (q.line ++ c ∷ []); line = [] }
    else record q { line = q.line ++ c ∷ [] }

abbrev pub press : ℕ → Input → Input
press c q =
    if c == ctrl_p
    then q
    else if c == ctrl_u
    then record q { line = [] }
    else if c == ctrl_h || c == delete
    then record q { line = but_last q.line }
    else if c == 0 || leb 128 (length q.ready + length q.line)
    then q
    else type_char (return_key c) q

pub length-view : (b : ℕ → ℕ) (p n : ℕ) → length (view b p n) ≡ n
unfolding view
length-view b p zero = refl
length-view b p (suc n) = ap suc (length-view b (p + 1) n)

pub view-append : (b : ℕ → ℕ) (p n k : ℕ) → view b p (n + k) ≡ view b p n ++ view b (p + n) k
unfolding view
view-append b p zero k = ap₂ (view b) (omega arith) (omega arith)
view-append b p (suc n) k =
    let e : suc n + k ≡ suc (n + k) = omega arith in
    let e' : p + 1 + n ≡ p + suc n = omega arith in
    ap (view b p) e
    ∙ ap (◌∷◌ (b (p % 128)))
        (view-append b (p + 1) n k ∙ ap (λ x. view b (p + 1) n ++ view b x k) e')

-- The ring is as long as the counters' wrapping asks for.
pub view-wrap : (b : ℕ → ℕ) (p q n : ℕ) → p % 128 ≡ q % 128 → view b p n ≡ view b q n
unfolding view
view-wrap b p q zero e = refl
view-wrap b p q (suc n) e = ap₂ ◌∷◌ (ap b e) (view-wrap b (p + 1) (q + 1) n (omega (arith, e)))

pub view-update :
    (b : ℕ → ℕ) (p n i v : ℕ)
    → ((k : ℕ) → k < n → i ≢ (p + k) % 128)
    → view (update b i v) p n ≡ view b p n
unfolding view
view-update b p zero i v h = refl
view-update b p (suc n) i v h =
    ap₂ ◌∷◌ (update_ne b i (p % 128) v (λ e. h 0 (omega arith) (omega (arith, e))))
      (view-update b (p + 1) n i v (λ k l e. h (suc k) (omega (arith, l)) (omega (arith, e))))

pub but_last-append : (xs : List ℕ) (x : ℕ) → but_last (xs ++ x ∷ []) ≡ xs
but_last-append [] x = refl
but_last-append (y ∷ []) x = refl
but_last-append (y ∷ z ∷ zs) x = ap (◌∷◌ y) (but_last-append (z ∷ zs) x)
