-- ===== src/Dir/Path.antt =====
-- kernel/fs.c: skipelem. A path is the list of its bytes before the NUL.
use hai_os.Base.{
  ℕ, zero, suc, ◌+◌, ◌<◌, ◌≡◌, refl, sym, ap, ◌∙◌, ◌≢◌, inl, inr, Bool, true, false, Option, none,
  some, List, [], ◌∷◌, ◌++◌, append-nil, append_assoc, arith, leb, ◌==◌, if◌then◌else◌, ne→==,
  leb→lt, Bool-cases, length, take, drop, All,
}
use hai_os.Dir.{dirsiz}

abbrev pub slash : ℕ
slash = 47

pub skip_slashes : List ℕ → List ℕ
skip_slashes [] = []
skip_slashes (c ∷ cs) = let rest = skip_slashes cs in if c == slash then rest else c ∷ cs

-- The bytes up to a slash or the end, and the rest.
pub span_elem : List ℕ → List ℕ × List ℕ
span_elem [] = ([], [])
span_elem (c ∷ cs) =
    let (e, rest) = span_elem cs in if c == slash then ([], c ∷ cs) else (c ∷ e, rest)

-- The copy into `name`, which keeps what is behind the NUL.
abbrev pub copy_elem : List ℕ → List ℕ → List ℕ
copy_elem name e =
    if leb dirsiz (length e) then take dirsiz e else e ++ 0 ∷ drop (length e + 1) name

-- skipelem after the slashes: the new `name` and the rest of the path; `none` is the null pointer.
pub next_elem : List ℕ → List ℕ → Option (List ℕ × List ℕ)
unfolding span_elem skip_slashes
next_elem name [] = none
next_elem name (c ∷ cs) =
    let (e, rest) = span_elem (c ∷ cs) in some (copy_elem name e, skip_slashes rest)

unfoldable pub skipelem : List ℕ → List ℕ → Option (List ℕ × List ℕ)
unfolding next_elem skip_slashes
skipelem path name = next_elem name (skip_slashes path)

abbrev is_nil : List ℕ → Bool
is_nil [] = true
is_nil (x ∷ xs) = false

-- The elements of a path, where `w` is the part of the first one that has been read: the parts between
-- the slashes that are not empty.
pub words : List ℕ → List ℕ → List (List ℕ)
words w [] = if is_nil w then [] else w ∷ []
words w (c ∷ cs) =
    if c == slash
    then (if is_nil w then words [] cs else w ∷ words [] cs)
    else words (w ++ c ∷ []) cs

abbrev pub elements : List ℕ → List (List ℕ)
elements path = words [] path

-- A name as the text before the NUL, at most DIRSIZ bytes.
abbrev pub name_text : ℕ → List ℕ → List ℕ
name_text zero xs = []
name_text (suc n) [] = []
name_text (suc n) (x ∷ xs) = if x == 0 then [] else x ∷ name_text n xs

-- The slash that the path starts with.
abbrev starts : List ℕ → Bool
starts [] = false
starts (c ∷ cs) = c == slash

words-skip_slashes : (p : List ℕ) → words [] (skip_slashes p) ≡ words [] p
unfolding words skip_slashes
words-skip_slashes [] = refl
words-skip_slashes (c ∷ cs) = elim (Bool-cases (c == slash)) [
  | inl q ↦ rw (q) (words-skip_slashes cs)
  | inr q ↦ ap (λ b. words [] (if b then skip_slashes cs else c ∷ cs)) q
]

skip_slashes-starts : (p : List ℕ) → starts (skip_slashes p) ≡ false
unfolding skip_slashes
skip_slashes-starts [] = refl
skip_slashes-starts (c ∷ cs) = elim (Bool-cases (c == slash)) [
  | inl q ↦ rw (q) (skip_slashes-starts cs)
  | inr q ↦ rw (q) q
]

span_slash : (c : ℕ) (cs : List ℕ) → (c == slash) ≡ true → span_elem (c ∷ cs) ≡ ([], c ∷ cs)
unfolding span_elem
span_slash c cs q = rw (q) refl

span_byte :
    (c : ℕ) (cs : List ℕ)
    → (c == slash) ≡ false
    → span_elem (c ∷ cs) ≡ (c ∷ (span_elem cs).0, (span_elem cs).1)
unfolding span_elem
span_byte c cs q = rw (q) refl

words-span_elem :
    (p w : List ℕ)
    → is_nil (w ++ (span_elem p).0) ≡ false
    → words w p ≡ (w ++ (span_elem p).0) ∷ words [] (span_elem p).1
unfolding words span_elem
words-span_elem [] w e =
    let full : is_nil w ≡ false = ap is_nil (sym (append-nil w)) ∙ e in
    ap (λ b. if b then [] else w ∷ []) full ∙ ap (λ x. x ∷ []) (sym (append-nil w))
words-span_elem (c ∷ cs) w e = elim (Bool-cases (c == slash)) [
  | inl q ↦
      let e' : is_nil (w ++ []) ≡ false =
        ap (λ x. is_nil (w ++ x.0)) (sym (span_slash c cs q)) ∙ e in
      let full : is_nil w ≡ false = ap is_nil (sym (append-nil w)) ∙ e' in
      rw (q, full)
        (ap (λ x. x ∷ words [] cs) (sym (append-nil w))
          ∙ ap (λ x. (w ++ []) ∷ x) (slash_first c cs q))
  | inr q ↦
      let e' : is_nil (w ++ c ∷ (span_elem cs).0) ≡ false =
        ap (λ x. is_nil (w ++ x.0)) (sym (span_byte c cs q)) ∙ e in
      let a = append_assoc w (c ∷ []) (span_elem cs).0 in
      let ih = words-span_elem cs (w ++ c ∷ []) (ap is_nil a ∙ e') in
      rw (q) (ih ∙ ap (λ x. x ∷ words [] (span_elem cs).1) a)
]
  where
    slash_first : (c : ℕ) (cs : List ℕ) → (c == slash) ≡ true → words [] cs ≡ words [] (c ∷ cs)
    slash_first c cs q = rw (q) refl

-- No byte of a path is a NUL.
abbrev pub IsText : List ℕ → Type 0
IsText = All (λ c. c ≢ 0)

-- What skipelem may give.
abbrev pub SkipResult : List ℕ → Option (List ℕ × List ℕ) → Type 0
SkipResult path none = elements path ≡ []
SkipResult path (some (name, rest)) =
    (e : List ℕ) × (elements path ≡ e ∷ elements rest)
    × (name_text dirsiz name ≡ take dirsiz e)
    × (starts rest ≡ false)

span_elem-IsText : (p : List ℕ) → IsText p → IsText (span_elem p).0
unfolding span_elem
span_elem-IsText [] t = tt
span_elem-IsText (c ∷ cs) t = elim (Bool-cases (c == slash)) [
  | inl q ↦ rw (q) tt
  | inr q ↦ rw (q) (t.0, span_elem-IsText cs t.1)
]

skip_slashes-IsText : (p : List ℕ) → IsText p → IsText (skip_slashes p)
unfolding skip_slashes
skip_slashes-IsText [] t = tt
skip_slashes-IsText (c ∷ cs) t = elim (Bool-cases (c == slash)) [
  | inl q ↦ rw (q) (skip_slashes-IsText cs t.1)
  | inr q ↦ rw (q) t
]

text_cut : (n : ℕ) (e : List ℕ) → IsText e → name_text n (take n e) ≡ take n e
text_cut zero e t = refl
text_cut (suc n) [] t = refl
text_cut (suc n) (c ∷ cs) t = rw (ne→== c 0 t.0) (ap (◌∷◌ c) (text_cut n cs t.1))

text_ended :
    (n : ℕ) (e rest : List ℕ) → IsText e → length e < n → name_text n (e ++ 0 ∷ rest) ≡ take n e
text_ended zero e rest t lt = absurd (omega (arith, lt))
text_ended (suc n) [] rest t lt = refl
text_ended (suc n) (c ∷ cs) rest t lt =
    rw (ne→== c 0 t.0) (ap (◌∷◌ c) (text_ended n cs rest t.1 (omega (arith, lt))))

text_copied : (name e : List ℕ) → IsText e → name_text dirsiz (copy_elem name e) ≡ take dirsiz e
text_copied name e t = elim (Bool-cases (leb dirsiz (length e))) [
  | inl q ↦ rw (q) (text_cut dirsiz e t)
  | inr q ↦ rw (q) (text_ended dirsiz e (drop (length e + 1) name) t (leb→lt dirsiz (length e) q))
]

nonempty : (c : ℕ) (cs : List ℕ) → (c == slash) ≡ false → is_nil (span_elem (c ∷ cs)).0 ≡ false
unfolding span_elem
nonempty c cs q = rw (q) refl

same_elements :
    (p q : List ℕ) (o : Option (List ℕ × List ℕ))
    → elements p ≡ elements q
    → SkipResult p o
    → SkipResult q o
same_elements p q none e r = sym e ∙ r
same_elements p q (some (name, rest)) e (x, h, t, u) = (x, sym e ∙ h, t, u)

next_elem-SkipResult :
    (p name : List ℕ) → IsText p → starts p ≡ false → SkipResult p (next_elem name p)
unfolding next_elem words
next_elem-SkipResult [] name t s = refl
next_elem-SkipResult (c ∷ cs) name t s =
    let e = (span_elem (c ∷ cs)).0 in
    let rest = (span_elem (c ∷ cs)).1 in
    (
      e,
      words-span_elem (c ∷ cs) [] (nonempty c cs s)
          ∙ ap (λ x. e ∷ x) (sym (words-skip_slashes rest)),
      text_copied name e (span_elem-IsText (c ∷ cs) t),
      skip_slashes-starts rest,
    )

-- skipelem on a path takes its first element away: the name holds it, cut at DIRSIZ bytes, and the
-- rest of the path has the other elements and no leading slash; and it gives the null pointer exactly
-- where no element is left.
pub skipelem-SkipResult : (path name : List ℕ) → IsText path → SkipResult path (skipelem path name)
unfolding skipelem
skipelem-SkipResult path name t =
    same_elements (skip_slashes path) path (next_elem name (skip_slashes path))
      (words-skip_slashes path)
      (next_elem-SkipResult (skip_slashes path) name (skip_slashes-IsText path t)
        (skip_slashes-starts path))
