-- ===== src/Log/Writes.antt =====
-- Lists of disk writes, and the header block as a list.
use hai_os.Base.{
  ℕ, zero, suc, ◌+◌, ◌-◌, ◌<◌, ◌≡◌, refl, ap, ap₂, ◌∙◌, inl, inr, Bool, false, ◌||◌, List, [], ◌∷◌,
  ◌++◌, arith, ◌==◌, ==→eq, Bool-cases, length, take, update, update_self, update_ne,
}
use hai_os.Log.{Block, Disk, Writes, put_words, get_words, put_head, get_head}

-- The disk after the writes, in order.
unfoldable pub apply : Writes → Disk → Disk
apply [] d = d
apply ((b, v) ∷ ws) d = apply ws (update d b v)

unfoldable pub mentions : ℕ → Writes → Bool
mentions b [] = false
mentions b ((x, v) ∷ ws) = (x == b) || mentions b ws

pub apply-append : (xs ys : Writes) (d : Disk) → apply (xs ++ ys) d ≡ apply ys (apply xs d)
unfolding apply
apply-append [] ys d = refl
apply-append ((b, v) ∷ xs) ys d = apply-append xs ys (update d b v)

-- A block that is not written stays.
pub apply_other : (ws : Writes) (d : Disk) (b : ℕ) → mentions b ws ≡ false → apply ws d b ≡ d b
unfolding apply mentions
apply_other [] d b h = refl
apply_other ((x, v) ∷ ws) d b h =
    apply_other ws (update d x v) b (ground arith) ∙ update_ne d x b v (ground arith)

-- Every write stores what `goal` says of its block.
abbrev pub Stores : Disk → Writes → Type 0
Stores goal [] = Unit {0}
Stores goal ((b, v) ∷ ws) = (v ≡ goal b) × Stores goal ws

pub Stores-take : (goal : Disk) (k : ℕ) (ws : Writes) → Stores goal ws → Stores goal (take k ws)
Stores-take goal zero ws h = tt
Stores-take goal (suc k) [] h = tt
Stores-take goal (suc k) ((b, v) ∷ ws) h = (h.0, Stores-take goal k ws h.1)

-- Blocks that the writes reach, or that were right before, are right afterwards.
pub apply-Stores :
    (goal : Disk) (ws : Writes) (d : Disk) (b : ℕ)
    → Stores goal ws
    → (mentions b ws ≡ false → d b ≡ goal b)
    → apply ws d b ≡ goal b
unfolding apply mentions
apply-Stores goal [] d b h right = right refl
apply-Stores goal ((x, v) ∷ ws) d b h right = apply-Stores goal ws (update d x v) b h.1 after
  where
    after : mentions b ws ≡ false → update d x v b ≡ goal b
    after m = elim (Bool-cases (x == b)) [
      | inl e ↦ rw e (h.0 ∙ ap goal (==→eq x b e))
      | inr e ↦ rw e (right (ground arith))
    ]

pub mentions-take : (b k : ℕ) (ws : Writes) → mentions b ws ≡ false → mentions b (take k ws) ≡ false
unfolding mentions
mentions-take b zero ws h = refl
mentions-take b (suc k) [] h = refl
mentions-take b (suc k) ((x, v) ∷ ws) h = ground (arith, mentions-take b k ws)

pub take-nil {ℓ} : {A : Type ℓ} (k : ℕ) → take {A = A} k [] ≡ []
take-nil zero = refl
take-nil (suc k) = refl

pub take-append {ℓ} :
    {A : Type ℓ} (k : ℕ) (xs ys : List A) → take k (xs ++ ys) ≡ take k xs ++ take (k - length xs) ys
take-append k [] ys = let e : k - 0 ≡ k = omega arith in rw (e, take-nil k)
take-append zero (x ∷ xs) ys = let e : 0 - suc (length xs) ≡ 0 = omega arith in rw e
take-append (suc k) (x ∷ xs) ys =
    let e : suc k - suc (length xs) ≡ k - length xs = omega arith in
    rw e (ap (◌∷◌ x) (take-append k xs ys))

put_words_before : (i : ℕ) (bs : List ℕ) (w : ℕ → ℕ) (j : ℕ) → j < i → put_words i bs w j ≡ w j
unfolding put_words
put_words_before i [] w j h = refl
put_words_before i (b ∷ bs) w j h =
    put_words_before (i + 1) bs (update w i b) j (omega arith) ∙ update_ne w i j b (omega arith)

get_words-put_words :
    (i : ℕ) (bs : List ℕ) (w : ℕ → ℕ) → get_words i (length bs) (put_words i bs w) ≡ bs
unfolding get_words put_words
get_words-put_words i [] w = refl
get_words-put_words i (b ∷ bs) w =
    ap₂ ◌∷◌ (put_words_before (i + 1) bs (update w i b) i (omega arith) ∙ update_self w i b)
      (get_words-put_words (i + 1) bs (update w i b))

-- A header that was written is read back.
pub get_head-put_head : (bs : List ℕ) (b : Block) → get_head (put_head bs b) ≡ bs
unfolding get_head put_head
get_head-put_head bs b =
    let w = update b.word 0 (length bs) in
    let n : put_words 1 bs w 0 ≡ length bs =
      put_words_before 1 bs w 0 (omega arith) ∙ update_self b.word 0 (length bs) in
    rw n (get_words-put_words 1 bs w)
