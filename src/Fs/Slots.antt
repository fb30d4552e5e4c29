-- ===== src/Fs/Slots.antt =====
-- How many slots of an extent list are in use.
use hai_os.Base.{
  ◌or_else◌, map_some, ℕ, suc, ◌≤◌, ◌<◌, ◌≡◌, refl, ap, inl, inr, false, Option, none, some, List,
  [], ◌∷◌, arith, ◌==◌, if◌then◌else◌, Bool-cases, length,
}
use hai_os.Fs.{Extent, fill_slot, grow_last, extent_append}

abbrev pub used : List Extent → ℕ
used [] = 0
used (e ∷ es) = if e.len == 0 then used es else suc (used es)

used-le-length : (es : List Extent) → used es ≤ length es
used-le-length [] = omega arith
used-le-length (e ∷ es) = ground (arith, used-le-length es)

abbrev OneMore : List Extent → Option (List Extent) → Type 0
OneMore es none = used es ≡ length es
OneMore es (some es') = used es' ≡ suc (used es)

fill_slot-OneMore : (es : List Extent) (b : ℕ) → OneMore es (fill_slot es b)
unfolding fill_slot
fill_slot-OneMore [] b = refl
fill_slot-OneMore (e ∷ es) b = elim (Bool-cases (e.len == 0)) [
  | inl z ↦ rw z (rw z refl)
  | inr z ↦ rw z (lift (fill_slot es b) z (fill_slot-OneMore es b))
]
  where
    lift :
        (o : Option (List Extent))
        → (e.len == 0) ≡ false
        → OneMore es o
        → OneMore (e ∷ es) (map_some (◌∷◌ e) o)
    lift none z r = rw z (ap suc r)
    lift (some es') z r = rw z (ap suc r)

-- While a slot of the list is empty, extent_append uses a further slot, also for a block that
-- follows the last one.
pub extent_append-used :
    (es : List Extent) (b : ℕ)
    → used es < length es
    → (es' : List Extent) × (extent_append es b ≡ some es') × (used es' ≡ suc (used es))
unfolding extent_append
extent_append-used es b h = choose (fill_slot es b) (fill_slot-OneMore es b)
  where
    choose :
        (o : Option (List Extent))
        → OneMore es o
        → (es' : List Extent) × (o or_else grow_last es b ≡ some es') × (used es' ≡ suc (used es))
    choose none r = absurd (omega (arith, r, h))
    choose (some es') r = (es', refl, r)
