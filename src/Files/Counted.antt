-- ===== src/Files/Counted.antt =====
-- The count of a file is the number of descriptors that name it.
use hai_os.Base.{
  ◌⊎◌, inl, inr, ltb→lt, ltb→le, eq_of_some, ℕ, zero, suc, ◌+◌, ◌-◌, ◌<◌, ◌≡◌, refl, sym, ap, ◌∙◌,
  Bool, true, false, Option, none, some, [], ◌∷◌, arith, ltb, ◌==◌, if◌then◌else◌, eq→==, ==→eq,
  Bool-cases, set, set_with, le→ltb, Run, ok, panic, map_some,
}
use hai_os.Files.{
  File, Files, Descriptors, no_file, file_at, filedup, fileclose, argfd, fdalloc, dup_into,
  dup_file, sys_dup, close_file, sys_close,
}

-- How many of the descriptors name file `i`.
abbrev pub uses : ℕ → Descriptors → ℕ
uses i [] = 0
uses i (none ∷ ds) = uses i ds
uses i (some j ∷ ds) = (if j == i then 1 else 0) + uses i ds

-- The counts are right, where `others` has the references of the other processes.
abbrev pub IsCounted : (ℕ → ℕ) → Descriptors → Files → Type 0
IsCounted others ds fs = (i : ℕ) → (file_at fs i).ref ≡ uses i ds + others i

ref-set_with :
    (fs : Files) (i k : ℕ) (f : File → File)
    → 0 < (file_at fs i).ref
    → (file_at (set_with fs i f) k).ref
      ≡ (if i == k then (f (file_at fs i)).ref else (file_at fs k).ref)
ref-set_with [] i k f h = absurd (omega (arith, h))
ref-set_with (x ∷ xs) zero zero f h = refl
ref-set_with (x ∷ xs) zero (suc k) f h = ground arith
ref-set_with (x ∷ xs) (suc i) zero f h = ground arith
ref-set_with (x ∷ xs) (suc i) (suc k) f h = ground (arith, ref-set_with xs i k f h)

-- What fdalloc does to the number of descriptors for file `i`.
abbrev Alloc : ℕ → ℕ → Descriptors → Option (ℕ × Descriptors) → Type 0
Alloc i j ds none = Unit {0}
Alloc i j ds (some (fd, ds')) = uses i ds' ≡ (if j == i then 1 else 0) + uses i ds

Alloc-behind :
    (i j k : ℕ) (ds : Descriptors) (o : Option (ℕ × Descriptors))
    → Alloc i j ds o
    → Alloc i j (some k ∷ ds) (map_some (λ r. (suc r.0, some k ∷ r.1)) o)
Alloc-behind i j k ds none a = tt
Alloc-behind i j k ds (some (fd, ds')) a = omega (arith, a)

fdalloc-Alloc : (ds : Descriptors) (i j : ℕ) → Alloc i j ds (fdalloc ds j)
unfolding fdalloc
fdalloc-Alloc [] i j = tt
fdalloc-Alloc (none ∷ ds) i j = refl
fdalloc-Alloc (some k ∷ ds) i j = Alloc-behind i j k ds (fdalloc ds j) (fdalloc-Alloc ds i j)

uses-set :
    (ds : Descriptors) (fd j i : ℕ)
    → argfd ds fd ≡ some j
    → uses i ds ≡ (if j == i then 1 else 0) + uses i (set ds fd none)
uses-set [] fd j i e = absurd cc
uses-set (none ∷ ds) zero j i e = absurd cc
uses-set (some k ∷ ds) zero j i e =
    ap (λ x. (if x == i then 1 else 0) + uses i ds) (eq_of_some k j e)
uses-set (none ∷ ds) (suc fd) j i e = uses-set ds fd j i e
uses-set (some k ∷ ds) (suc fd) j i e = omega (arith, uses-set ds fd j i e)

closes_one :
    (ds : Descriptors) (fd i : ℕ) → argfd ds fd ≡ some i → uses i ds ≡ 1 + uses i (set ds fd none)
closes_one ds fd i e =
    uses-set ds fd i i e ∙ ap (λ b. (if b then 1 else 0) + uses i (set ds fd none)) (eq→== i i refl)

-- A file that a descriptor names is open.
open_ref :
    (others : ℕ → ℕ) (ds : Descriptors) (fs : Files) (fd i : ℕ)
    → IsCounted others ds fs
    → argfd ds fd ≡ some i
    → 0 < (file_at fs i).ref
open_ref others ds fs fd i h e = omega (arith, h i, closes_one ds fd i e)

-- What a call promises that gives new descriptors and files.
abbrev pub KeepsCounts : (ℕ → ℕ) → Run (Descriptors × Files × Option ℕ) → Type 0
KeepsCounts others (ok (ds, fs, r)) = IsCounted others ds fs
KeepsCounts others (panic s) = ⊥

dup_into-KeepsCounts :
    (others : ℕ → ℕ) (i : ℕ) (ds : Descriptors) (fs : Files) (o : Option (ℕ × Descriptors))
    → IsCounted others ds fs
    → 0 < (file_at fs i).ref
    → ((k : ℕ) → Alloc k i ds o)
    → KeepsCounts others (dup_into i ds fs o)
unfolding dup_into filedup
dup_into-KeepsCounts others i ds fs none h more a = h
dup_into-KeepsCounts others i ds fs (some (fd, ds')) h more a =
    let used : ltb (file_at fs i).ref 1 ≡ false = le→ltb _ _ (omega (arith, more)) in
    rw (used) (λ k.
      ref-set_with fs i k (λ f. record f { ref = f.ref + 1 }) more
      ∙ count_more (i == k) (file_at fs i).ref (file_at fs k).ref (uses k ds) (others k) (h k)
          (λ q. ap (λ k. (file_at fs k).ref) (==→eq i k q))
      ∙ ap (λ x. x + others k) (sym (a k)))
  where
    count_more :
        (b : Bool) (r s u o : ℕ)
        → s ≡ u + o
        → (b ≡ true → r ≡ s)
        → (if b then r + 1 else s) ≡ (if b then 1 else 0) + u + o
    count_more true r s u o e q = omega (arith, e, q refl)
    count_more false r s u o e q = omega (arith, e)

-- sys_dup never panics, and where the count of each file was the number of descriptors for it, in this
-- process and in the others, it is so after the call.
pub sys_dup-KeepsCounts :
    (others : ℕ → ℕ) (ds : Descriptors) (fs : Files) (fd : ℕ)
    → IsCounted others ds fs
    → KeepsCounts others (sys_dup ds fs fd)
unfolding sys_dup dup_file
sys_dup-KeepsCounts others ds fs fd h = by_file (argfd ds fd) refl
  where
    by_file : (o : Option ℕ) → argfd ds fd ≡ o → KeepsCounts others (dup_file ds fs o)
    by_file none e = h
    by_file (some i) e =
        dup_into-KeepsCounts others i ds fs (fdalloc ds i) h (open_ref others ds fs fd i h e)
          (λ k. fdalloc-Alloc ds k i)

-- sys_close of an open descriptor never panics and frees the descriptor, and the counts stay right; it
-- closes the file itself exactly when no
-- descriptor of any process is left for it.
pub sys_close-Closes :
    (others : ℕ → ℕ) (ds : Descriptors) (fs : Files) (fd i : ℕ)
    → IsCounted others ds fs
    → argfd ds fd ≡ some i
    → (fs' : Files) × (last : Option File) × (sys_close ds fs fd
        ≡ ok (set ds fd none, fs', true, last))
      × IsCounted others (set ds fd none) fs'
      × (((last ≡ none) × (0 < uses i (set ds fd none) + others i))
          ⊎ ((last ≡ some (file_at fs i)) × (uses i (set ds fd none) + others i ≡ 0)))
unfolding sys_close close_file fileclose
sys_close-Closes others ds fs fd i h e =
    let more = open_ref others ds fs fd i h e in
    let used : ltb (file_at fs i).ref 1 ≡ false = le→ltb _ _ (omega (arith, more)) in
    let u = closes_one ds fd i e in
    let ds' : Descriptors = set ds fd none in
    let counted : (f : File → File)
        → (f (file_at fs i)).ref ≡ (file_at fs i).ref - 1
        → IsCounted others ds' (set_with fs i f) =
      λ f ef k.
        ref-set_with fs i k f more
        ∙ count_less (i == k) (file_at fs i).ref (f (file_at fs i)).ref (file_at fs k).ref
            (uses k ds) (uses k ds') (others k) (h k) more (uses-set ds fd i k e) ef
            (λ q. ap (λ k. (file_at fs k).ref) (==→eq i k q)) in
    elim (Bool-cases (ltb 0 ((file_at fs i).ref - 1))) [
      | inl q ↦ (
        set_with fs i (λ f. record f { ref = f.ref - 1 }),
        none,
        rw (e, used, q) refl,
        counted _ refl,
        inl (refl, omega (arith, ltb→lt _ _ q, h i, u)),
      )
      | inr q ↦ (
        set_with fs i (λ f. no_file),
        some (file_at fs i),
        rw (e, used, q) refl,
        counted _ (omega (arith, ltb→le _ _ q)),
        inr (refl, omega (arith, ltb→le _ _ q, h i, u)),
      )
    ]
  where
    count_less :
        (b : Bool) (r r' s u u' o : ℕ)
        → s ≡ u + o
        → 0 < r
        → u ≡ (if b then 1 else 0) + u'
        → r' ≡ r - 1
        → (b ≡ true → r ≡ s)
        → (if b then r' else s) ≡ u' + o
    count_less true r r' s u u' o e m v w q = omega (arith, e, m, v, w, q refl)
    count_less false r r' s u u' o e m v w q = omega (arith, e, v)
