-- ===== src/Fs/Extents.antt =====
-- The blocks that an extent list stands for, and what extent_append does to them.
use hai_os.Base.{
  ℕ, zero, suc, ◌+◌, ◌-◌, ◌^◌, ◌≤◌, ◌<◌, ◌≡◌, refl, sym, ap, ◌∙◌, ◌⊎◌, inl, inr, List, [], ◌∷◌,
  ◌++◌, arith, ltb, ◌==◌, ==→eq, ltb→lt, le→ltb, ltb→le, Bool-cases, length, get_or, length-append,
  All, add32,
}
use hai_os.Fs.{Extent, find_extent, last_extent}

abbrev pub range : ℕ → ℕ → List ℕ
range b zero = []
range b (suc n) = b ∷ range (b + 1) n

-- The blocks of a file in order.
abbrev pub blocks : List Extent → List ℕ
blocks [] = []
blocks (e ∷ es) = range e.start e.len ++ blocks es

-- No extent in use follows an empty one.
abbrev pub Packed : List Extent → Type 0
Packed [] = Unit {0}
Packed (e ∷ es) = ((0 < e.len) × Packed es) ⊎ ((e.len ≡ 0) × All (λ x. x.len ≡ 0) es)

-- Every extent ends within `size`.
abbrev pub Within : ℕ → List Extent → Type 0
Within size = All (λ e. e.start + e.len ≤ size)

length-range : (b n : ℕ) → length (range b n) ≡ n
length-range b zero = refl
length-range b (suc n) = ap suc (length-range (b + 1) n)

get_or-range : (b n i d : ℕ) → i < n → get_or (range b n) i d ≡ b + i
get_or-range b zero i d h = absurd (omega (arith, h))
get_or-range b (suc n) zero d h = omega arith
get_or-range b (suc n) (suc i) d h = omega (arith, get_or-range (b + 1) n i d (omega (arith, h)))

pub get_or-append_left {ℓ} :
    {A : Type ℓ} (xs ys : List A) (i : ℕ) (d : A)
    → i < length xs
    → get_or (xs ++ ys) i d ≡ get_or xs i d
get_or-append_left [] ys i d h = absurd (omega (arith, h))
get_or-append_left (x ∷ xs) ys zero d h = refl
get_or-append_left (x ∷ xs) ys (suc i) d h = get_or-append_left xs ys i d (omega (arith, h))

pub get_or-append_right {ℓ} :
    {A : Type ℓ} (xs ys : List A) (i : ℕ) (d : A)
    → length xs ≤ i
    → get_or (xs ++ ys) i d ≡ get_or ys (i - length xs) d
get_or-append_right [] ys i d h = ap (λ j. get_or ys j d) (omega arith)
get_or-append_right (x ∷ xs) ys zero d h = absurd (omega (arith, h))
get_or-append_right (x ∷ xs) ys (suc i) d h =
    get_or-append_right xs ys i d (omega (arith, h)) ∙ ap (λ j. get_or ys j d) (omega arith)

pub get_or-append_last {ℓ} :
    {A : Type ℓ} (xs : List A) (x d : A) → get_or (xs ++ x ∷ []) (length xs) d ≡ x
get_or-append_last [] x d = refl
get_or-append_last (y ∷ ys) x d = get_or-append_last ys x d

pub range-last : (b n : ℕ) → range b (n + 1) ≡ range b n ++ (b + n) ∷ []
range-last b n = let e : n + 1 ≡ suc n = omega arith in rw e (go b n)
  where
    go : (b n : ℕ) → range b (suc n) ≡ range b n ++ (b + n) ∷ []
    go b zero = ap (λ x. x ∷ []) (omega arith)
    go b (suc n) = ap (◌∷◌ b) (go (b + 1) n ∙ ap (λ x. range (b + 1) n ++ x ∷ []) (omega arith))

pub blocks-empty : (es : List Extent) → All (λ x. x.len ≡ 0) es → blocks es ≡ []
blocks-empty [] h = refl
blocks-empty (e ∷ es) h = rw (h.0) (blocks-empty es h.1)

length-blocks :
    (e : Extent) (es : List Extent) → length (blocks (e ∷ es)) ≡ e.len + length (blocks es)
length-blocks e es =
    omega (arith, length-append (range e.start e.len) (blocks es), length-range e.start e.len)

-- The first search of bmap finds block `bn` of the file.
pub find_extent-hit :
    (size : ℕ) (es : List Extent) (bn base : ℕ) (last : ℕ × ℕ)
    → size < 2 ^ 32
    → Within size es
    → base + length (blocks es) < 2 ^ 32
    → base ≤ bn
    → bn < base + length (blocks es)
    → find_extent es bn base last ≡ inl (get_or (blocks es) (bn - base) 0)
unfolding find_extent
find_extent-hit size [] bn base last hs w fit le lt = absurd (omega (arith, le, lt))
find_extent-hit size (e ∷ es) bn base last hs w fit le lt =
    let l = length-blocks e es in
    let r = range e.start e.len in
    let lr = length-range e.start e.len in
    elim (Bool-cases (e.len == 0)) [
      | inl z ↦
          let ez = ==→eq e.len 0 z in
          rw (z, ez)
            (find_extent-hit size es bn base last hs w.1 (omega (arith, fit, l)) le
              (omega (arith, lt, l, ez)))
      | inr z ↦
          let ew : add32 base e.len ≡ base + e.len = omega (arith, l, fit) in
          elim (Bool-cases (ltb bn (base + e.len))) [
            | inl q ↦
                let qlt = ltb→lt bn (base + e.len) q in
                let ea : add32 e.start (bn - base) ≡ e.start + (bn - base) =
                  omega (arith, w.0, hs, qlt, le) in
                rw (z, ew, q, ea)
                  (ap inl (
                    sym (
                      get_or-append_left r (blocks es) (bn - base) 0 (omega (arith, lr, qlt, le))
                      ∙ get_or-range e.start e.len (bn - base) 0 (omega (arith, qlt, le)))))
            | inr q ↦
                let qle = ltb→le bn (base + e.len) q in
                rw (z, ew, q)
                  (find_extent-hit size es bn (base + e.len) (e.start, e.len) hs w.1
                      (omega (arith, fit, l)) qle (omega (arith, lt, l))
                    ∙ ap inl (
                        ap (λ j. get_or (blocks es) j 0) (omega (arith, lr, qle))
                        ∙ sym (
                            get_or-append_right r (blocks es) (bn - base) 0
                              (omega (arith, lr, qle)))))
          ]
    ]

-- Beyond the last block it gives the number of blocks and the last extent.
pub find_extent-miss :
    (es : List Extent) (bn base : ℕ) (last : ℕ × ℕ)
    → base + length (blocks es) < 2 ^ 32
    → base + length (blocks es) ≤ bn
    → find_extent es bn base last ≡ inr (base + length (blocks es), last_extent es last)
unfolding find_extent last_extent
find_extent-miss [] bn base last fit le = ap (λ b. inr (b, last)) (omega arith)
find_extent-miss (e ∷ es) bn base last fit le =
    let l = length-blocks e es in
    elim (Bool-cases (e.len == 0)) [
      | inl z ↦
          let ez = ==→eq e.len 0 z in
          rw (z, ez)
            (find_extent-miss es bn base last (omega (arith, fit, l)) (omega (arith, le, l, ez)))
      | inr z ↦
          let ew : add32 base e.len ≡ base + e.len = omega (arith, l, fit) in
          rw (z, ew, le→ltb bn (base + e.len) (omega (arith, le, l)))
            (find_extent-miss es bn (base + e.len) (e.start, e.len) (omega (arith, fit, l))
                (omega (arith, le, l))
              ∙ ap (λ b. inr (b, last_extent es (e.start, e.len))) (omega (arith, l)))
    ]
