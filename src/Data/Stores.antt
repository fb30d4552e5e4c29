-- ===== src/Data/Stores.antt =====
-- A store into a block of a file: which of its bytes it changes.
use hai_os.Base.{
  ◌-◌, ℕ, zero, suc, ◌+◌, ◌*◌, ◌/◌, ◌%◌, ◌≤◌, ◌<◌, ◌≡◌, refl, sym, ap, ◌∙◌, ◌≢◌, ◌⊎◌, inl, inr,
  List, [], ◌∷◌, arith, ltb, ◌==◌, eq→==, ne→==, ==→eq, ltb→lt, lt→ltb, Bool-cases, length, get_or,
  take, drop, count, update, update_self, update_ne,
}
use hai_os.Str.{Bytes, put_bytes}
use hai_os.Fs.{Extent}
use hai_os.Fs.Extents.{blocks}
use hai_os.Fs.Bmap.{IsFile}
use hai_os.Data.{Disk, with_bytes}
use hai_os.Data.Grow.{stored_byte}

put_bytes_lem :
    (xs : List ℕ) (m : Bytes) (p a : ℕ)
    → (p ≤ a → a < p + length xs → put_bytes m p xs a ≡ get_or xs (a - p) 0)
      × ((a < p) ⊎ (p + length xs ≤ a) → put_bytes m p xs a ≡ m a)
put_bytes_lem [] m p a = (λ le lt. absurd (omega (arith, le, lt)), λ o. refl)
put_bytes_lem (x ∷ xs) m p a =
    let ih = put_bytes_lem xs (update m p x) (p + 1) a in
    (
      λ le lt. elim (Bool-cases (a == p)) [
        | inl q ↦
            let e = ==→eq a p q in
            let d : a - p ≡ 0 = omega (arith, e) in
            rw (ih.1 (inl (omega (arith, e))), d) (rw (e) (update_self m p x))
        | inr q ↦
            let n : a ≢ p = λ e. ground (arith, eq→== a p e, q) in
            let d : a - p ≡ suc (a - (p + 1)) = omega (arith, le, n) in
            rw (ih.0 (omega (arith, le, n)) (omega (arith, lt)), d) refl
      ],
      λ o. ih.1 (out o) ∙ update_ne m p a x (λ e. ne o e),
    )
  where
    out : (a < p) ⊎ (p + length (x ∷ xs) ≤ a) → (a < p + 1) ⊎ (p + 1 + length xs ≤ a)
    out (inl l) = inl (omega (arith, l))
    out (inr l) = inr (omega (arith, l))

    ne : (a < p) ⊎ (p + length (x ∷ xs) ≤ a) → p ≡ a → ⊥
    ne o e = omega (arith, o, e)

count_get_or : (xs : List ℕ) (i : ℕ) → i < length xs → 0 < count (get_or xs i 0) xs
count_get_or [] i l = absurd (omega (arith, l))
count_get_or (x ∷ xs) zero l = ground arith
count_get_or (x ∷ xs) (suc i) l = ground (arith, count_get_or xs i (omega (arith, l)))

-- Two places of a list without repetition.
distinct_places :
    (xs : List ℕ) (i j : ℕ)
    → ((b : ℕ) → count b xs ≤ 1)
    → i < length xs
    → j < length xs
    → i ≢ j
    → get_or xs i 0 ≢ get_or xs j 0
distinct_places [] i j h li lj n e = absurd (omega (arith, li))
distinct_places (x ∷ xs) zero zero h li lj n e = n refl
distinct_places (x ∷ xs) zero (suc j) h li lj n e =
    ground (arith, h (get_or xs j 0), count_get_or xs j (omega (arith, lj)), e)
distinct_places (x ∷ xs) (suc i) zero h li lj n e =
    ground (arith, h (get_or xs i 0), count_get_or xs i (omega (arith, li)), e)
distinct_places (x ∷ xs) (suc i) (suc j) h li lj n e =
    distinct_places xs i j (λ b. ground (arith, h b)) (omega (arith, li)) (omega (arith, lj))
      (λ q. n (ap suc q)) e

pub get_or-take : (m i : ℕ) (xs : List ℕ) → i < m → get_or (take m xs) i 0 ≡ get_or xs i 0
get_or-take zero i xs l = absurd (omega (arith, l))
get_or-take (suc m) i [] l = refl
get_or-take (suc m) zero (x ∷ xs) l = refl
get_or-take (suc m) (suc i) (x ∷ xs) l = get_or-take m i xs (omega (arith, l))

pub get_or-drop : (m i : ℕ) (xs : List ℕ) → get_or (drop m xs) i 0 ≡ get_or xs (m + i) 0
get_or-drop zero i xs = ap (λ j. get_or xs j 0) (omega arith)
get_or-drop (suc m) i [] = refl
get_or-drop (suc m) i (x ∷ xs) =
    let e : suc m + i ≡ suc (m + i) = omega arith in get_or-drop m i xs ∙ rw (e) refl

pub length-drop : (m : ℕ) (xs : List ℕ) → length (drop m xs) ≡ length xs - m
length-drop zero xs = omega arith
length-drop (suc m) [] = omega arith
length-drop (suc m) (x ∷ xs) = omega (arith, length-drop m xs)

-- A store into the `bn`th block of the file.
pub with_bytes_lem :
    (d : Disk) (es : List Extent) (bn p : ℕ) (xs : List ℕ) (i : ℕ)
    → IsFile d.fs es
    → bn < length (blocks es)
    → p + length xs ≤ 1024
    → (bn * 1024 + p ≤ i
        → i < bn * 1024 + p + length xs
        → stored_byte (with_bytes d (get_or (blocks es) bn 0) p xs) es i
          ≡ get_or xs (i - (bn * 1024 + p)) 0)
      × ((i < bn * 1024 + p) ⊎ (bn * 1024 + p + length xs ≤ i)
          → stored_byte (with_bytes d (get_or (blocks es) bn 0) p xs) es i ≡ stored_byte d es i)
with_bytes_lem d es bn p xs i h lt fit =
    let b : ℕ = get_or (blocks es) bn 0 in
    let put = put_bytes_lem xs (d.bytes b) p (i % 1024) in
    (
      λ le l.
          let e : i / 1024 ≡ bn = omega (arith, le, l, fit) in
          let a : i % 1024 - p ≡ i - (bn * 1024 + p) = omega (arith, le, l, fit) in
          rw (e, lt→ltb bn (length (blocks es)) lt, eq→== b b refl)
            (put.0 (omega (arith, le, l, fit)) (omega (arith, le, l, fit))
              ∙ ap (λ j. get_or xs j 0) a),
      λ out. elim (Bool-cases (ltb (i / 1024) (length (blocks es)))) [
        | inr q ↦ rw (q) refl
        | inl q ↦
            let l = ltb→lt (i / 1024) (length (blocks es)) q in
            (elim (Bool-cases (i / 1024 == bn)) [
              | inl z ↦
                  let e = ==→eq (i / 1024) bn z in
                  rw (q, e, eq→== b b refl)
                    (put.1 (outside i bn p (length xs) e out)
                      ∙ ap (λ j. d.bytes (get_or (blocks es) j 0) (i % 1024)) (sym e))
              | inr z ↦
                  let n : i / 1024 ≢ bn = λ e. ground (arith, eq→== (i / 1024) bn e, z) in
                  let other : b ≢ get_or (blocks es) (i / 1024) 0 =
                    distinct_places (blocks es) bn (i / 1024) h.distinct lt l (λ e. n (sym e)) in
                  rw (q, ne→== b (get_or (blocks es) (i / 1024) 0) other) refl
            ])
      ],
    )
  where
    outside :
        (i bn p n : ℕ)
        → i / 1024 ≡ bn
        → (i < bn * 1024 + p) ⊎ (bn * 1024 + p + n ≤ i)
        → (i % 1024 < p) ⊎ (p + n ≤ i % 1024)
    outside i bn p n e (inl l) = inl (omega (arith, e, l))
    outside i bn p n e (inr l) = inr (omega (arith, e, l))
