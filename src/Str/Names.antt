-- ===== src/Str/Names.antt =====
-- C strings of bounded length: what strncmp, strncpy, safestrcpy and strlen do to the text that
-- the bytes stand for.
use hai_os.Base.{
  ℕ, zero, suc, ◌+◌, ◌≤◌, ◌<◌, ◌≡◌, ◌≢◌, ◌↔◌, ◌⊎◌, refl, ap, arith, ◌==◌, if◌then◌else◌, update,
  pos, List, [], ◌∷◌, length, some,
}
use hai_os.Str.{
  Bytes, block, strncmp, zero_fill, strncpy, safe_copy, safestrcpy, strlen_from, strlen, memcmp,
}

-- The text at `p`: the bytes before the first NUL, at most `n` of them.
abbrev pub text : Bytes → ℕ → ℕ → List ℕ
text m p zero = []
text m p (suc n) = if m p == 0 then [] else m p ∷ text m (p + 1) n

-- Two blocks of `n` bytes with nothing in common.
abbrev pub Disjoint : ℕ → ℕ → ℕ → Type 0
Disjoint s t n = (s + n ≤ t) ⊎ (t + n ≤ s)

-- Writing outside a block leaves its text.
text-update :
    (n : ℕ) (m : Bytes) (p i v : ℕ) → (i < p) ⊎ (p + n ≤ i) → text (update m i v) p n ≡ text m p n
text-update zero m p i v h = refl
text-update (suc n) m p i v h = ground (arith, text-update n m (p + 1) i v)

-- strncmp answers 0 exactly when the two texts agree.
pub strncmp-eq_zero :
    (n : ℕ) (m : Bytes) (p q : ℕ) → (strncmp m p q n ≡ pos 0) ↔ (text m p n ≡ text m q n)
unfolding strncmp
strncmp-eq_zero zero m p q = (λ _. refl, λ _. refl)
strncmp-eq_zero (suc n) m p q = (
  λ h. ground (arith, (strncmp-eq_zero n m (p + 1) (q + 1)).0),
  λ h. ground (arith, (strncmp-eq_zero n m (p + 1) (q + 1)).1),
)

-- memcmp answers 0 exactly when the two blocks hold the same bytes.
pub memcmp-eq_zero :
    (n : ℕ) (m : Bytes) (p q : ℕ) → (memcmp m p q n ≡ pos 0) ↔ (block m p n ≡ block m q n)
unfolding memcmp
memcmp-eq_zero zero m p q = (λ _. refl, λ _. refl)
memcmp-eq_zero (suc n) m p q = (
  λ h. ground (arith, (memcmp-eq_zero n m (p + 1) (q + 1)).0),
  λ h. ground (arith, (memcmp-eq_zero n m (p + 1) (q + 1)).1),
)

zero_fill_outside : (n : ℕ) (m : Bytes) (s a : ℕ) → (a < s) ⊎ (s + n ≤ a) → zero_fill m s n a ≡ m a
unfolding zero_fill
zero_fill_outside zero m s a h = refl
zero_fill_outside (suc n) m s a h = ground (arith, zero_fill_outside n (update m s 0) (s + 1) a)

strncpy_outside : (n : ℕ) (m : Bytes) (s t a : ℕ) → (a < s) ⊎ (s + n ≤ a) → strncpy m s t n a ≡ m a
unfolding strncpy
strncpy_outside zero m s t a h = refl
strncpy_outside (suc n) m s t a h = ground (
  arith,
  zero_fill_outside n (update m s (m t)) (s + 1) a,
  strncpy_outside n (update m s (m t)) (s + 1) (t + 1) a,
)

text-strncpy :
    (n : ℕ) (m : Bytes) (s t : ℕ) → Disjoint s t n → text (strncpy m s t n) s n ≡ text m t n
unfolding strncpy
text-strncpy zero m s t h = refl
text-strncpy (suc n) m s t h = ground (
  arith,
  zero_fill_outside n (update m s (m t)) (s + 1) s,
  strncpy_outside n (update m s (m t)) (s + 1) (t + 1) s,
  text-strncpy n (update m s (m t)) (s + 1) (t + 1),
  text-update n m (t + 1) s (m t),
)

-- strncpy between disjoint blocks of `n` bytes makes the destination hold the source's text, cut to
-- `n` bytes, and changes no byte outside the destination.
pub strncpy_lem :
    (m : Bytes) (s t n : ℕ)
    → Disjoint s t n
    → (text (strncpy m s t n) s n ≡ text m t n)
      × ((a : ℕ) → (a < s) ⊎ (s + n ≤ a) → strncpy m s t n a ≡ m a)
strncpy_lem m s t n h = (text-strncpy n m s t h, strncpy_outside n m s t)

safe_copy_outside :
    (n : ℕ) (m : Bytes) (s t a : ℕ) → (a < s) ⊎ (s + n < a) → safe_copy m s t n a ≡ m a
unfolding safe_copy
safe_copy_outside zero m s t a h = ground arith
safe_copy_outside (suc n) m s t a h =
    ground (arith, safe_copy_outside n (update m s (m t)) (s + 1) (t + 1) a)

text-safe_copy :
    (n : ℕ) (m : Bytes) (s t : ℕ)
    → Disjoint s t (suc n)
    → text (safe_copy m s t n) s (suc n) ≡ text m t n
unfolding safe_copy
text-safe_copy zero m s t h = ground arith
text-safe_copy (suc n) m s t h = ground (
  arith,
  safe_copy_outside n (update m s (m t)) (s + 1) (t + 1) s,
  text-safe_copy n (update m s (m t)) (s + 1) (t + 1),
  text-update n m (t + 1) s (m t),
)

length-text : (n : ℕ) (m : Bytes) (p : ℕ) → length (text m p n) ≤ n
length-text zero m p = omega arith
length-text (suc n) m p = ground (arith, length-text n m (p + 1))

-- safestrcpy into `n + 1` bytes disjoint from the source keeps the first `n` bytes of its text, and
-- always leaves room for the NUL that ends it; no byte outside the destination changes.
pub safestrcpy_lem :
    (m : Bytes) (s t n : ℕ)
    → Disjoint s t (suc n)
    → (text (safestrcpy m s t (suc n)) s (suc n) ≡ text m t n)
      × (length (text (safestrcpy m s t (suc n)) s (suc n)) < suc n)
      × ((a : ℕ) → (a < s) ⊎ (s + n < a) → safestrcpy m s t (suc n) a ≡ m a)
unfolding safestrcpy
safestrcpy_lem m s t n h = (
  text-safe_copy n m s t h,
  omega (arith, length-text n m t, ap (length {A = ℕ}) (text-safe_copy n m s t h)),
  safe_copy_outside n m s t,
)

strlen_from_lem :
    (fuel : ℕ) (m : Bytes) (s n k : ℕ)
    → n ≤ k
    → k < n + fuel
    → m (s + k) ≡ 0
    → ((i : ℕ) → i < k → m (s + i) ≢ 0)
    → strlen_from fuel m s n ≡ some k
unfolding strlen_from
strlen_from_lem zero m s n k l u z b = absurd (omega arith)
strlen_from_lem (suc fuel) m s n k l u z b = ground (arith, b n, strlen_from_lem fuel m s (n + 1) k)

-- strlen ends at the first NUL, with its distance, once it may read that far.
pub strlen_lem :
    (fuel : ℕ) (m : Bytes) (s k : ℕ)
    → k < fuel
    → m (s + k) ≡ 0
    → ((i : ℕ) → i < k → m (s + i) ≢ 0)
    → strlen fuel m s ≡ some k
unfolding strlen
strlen_lem fuel m s k h z b = strlen_from_lem fuel m s 0 k (omega arith) (omega arith) z b
