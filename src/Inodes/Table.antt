-- ===== src/Inodes/Table.antt =====
-- iget gives each inode one entry.
use hai_os.Base.{
  ℕ, zero, suc, ◌+◌, ◌≤◌, ◌<◌, ◌≡◌, refl, ap, ◌∙◌, ◌≢◌, ◌⊎◌, inl, inr, true, false, Option, none,
  some, [], ◌∷◌, arith, ◌==◌, if◌then◌else◌, Bool-cases, All, get_elem?, Run, ok, panic,
}
use hai_os.Base.{map_some, or_panic, ◌or_else◌}
use hai_os.Inodes.{Entry, Entries, names_inode, after, find_entry, reuse_entry, iget}

-- How many entries in use are for the inode.
abbrev pub entries_of : ℕ → ℕ → Entries → ℕ
entries_of dev inum [] = 0
entries_of dev inum (e ∷ es) =
    if names_inode dev inum e then suc (entries_of dev inum es) else entries_of dev inum es

abbrev pub OneEach : Entries → Type 0
OneEach es = (dev inum : ℕ) → entries_of dev inum es ≤ 1

abbrev pub AllInUse : Entries → Type 0
AllInUse = All (λ e. 0 < e.ref)

-- `es'` has at `i` an entry in use for the inode, and is `es` elsewhere.
abbrev pub EntryAt : ℕ → ℕ → Entries → ℕ → Entries → Type 0
EntryAt dev inum es i es' =
    ((e : Entry) × (get_elem? es' i ≡ some e) × (names_inode dev inum e ≡ true))
    × ((j : ℕ) → i ≢ j → get_elem? es' j ≡ get_elem? es j)

-- What iget gives: the entry of the inode, the same number of entries for every other inode and one
-- for this; or a panic, where the inode has no entry and every entry is in use.
abbrev pub Gives : ℕ → ℕ → Entries → Run (ℕ × Entries) → Type 0
Gives dev inum es (ok (i, es')) =
    EntryAt dev inum es i es'
    × (entries_of dev inum es' ≡ 1)
    × ((d n : ℕ) → (d ≢ dev) ⊎ (n ≢ inum) → entries_of d n es' ≡ entries_of d n es)
Gives dev inum es (panic s) = (s ≡ "iget: no inodes") × (entries_of dev inum es ≡ 0) × AllInUse es

EntryAt-after :
    (dev inum : ℕ) (e : Entry) (es es' : Entries) (i : ℕ)
    → EntryAt dev inum es i es'
    → EntryAt dev inum (e ∷ es) (suc i) (e ∷ es')
EntryAt-after dev inum e es es' i h = (h.0, others)
  where
    others : (j : ℕ) → suc i ≢ j → get_elem? (e ∷ es') j ≡ get_elem? (e ∷ es) j
    others zero ne = refl
    others (suc j) ne = h.1 j (λ q. ne (ap suc q))

EntryAt-here :
    (dev inum : ℕ) (e e' : Entry) (es : Entries)
    → names_inode dev inum e' ≡ true
    → EntryAt dev inum (e ∷ es) 0 (e' ∷ es)
EntryAt-here dev inum e e' es h = ((e', refl, h), others)
  where
    others : (j : ℕ) → 0 ≢ j → get_elem? (e' ∷ es) j ≡ get_elem? (e ∷ es) j
    others zero ne = absurd (ne refl)
    others (suc j) ne = refl

abbrev FindResult : ℕ → ℕ → Entries → Option (ℕ × Entries) → Type 0
FindResult dev inum es none = entries_of dev inum es ≡ 0
FindResult dev inum es (some (i, es')) =
    EntryAt dev inum es i es'
    × (0 < entries_of dev inum es)
    × ((d n : ℕ) → entries_of d n es' ≡ entries_of d n es)

find_entry-FindResult :
    (dev inum : ℕ) (es : Entries) → FindResult dev inum es (find_entry dev inum es)
unfolding find_entry
find_entry-FindResult dev inum [] = refl
find_entry-FindResult dev inum (e ∷ es) = elim (Bool-cases (names_inode dev inum e)) [
  | inl h ↦ rw h (
    EntryAt-here dev inum e (record e { ref = e.ref + 1 }) es (ground (arith, h)),
    ground (arith, h),
    (λ d n. ground (arith, h)),
  )
  | inr h ↦ rw h (lift h (find_entry dev inum es) (find_entry-FindResult dev inum es))
]
  where
    lift :
        names_inode dev inum e ≡ false
        → (o : Option (ℕ × Entries)) → FindResult dev inum es o
        → FindResult dev inum (e ∷ es) (map_some (after e) o)
    lift h none r = rw h r
    lift h (some (i, es')) r =
        (EntryAt-after dev inum e es es' i r.0, rw h (r.1), (λ d n. ground (arith, r.2 d n)))

abbrev ReuseResult : ℕ → ℕ → Entries → Option (ℕ × Entries) → Type 0
ReuseResult dev inum es none = AllInUse es
ReuseResult dev inum es (some (i, es')) =
    EntryAt dev inum es i es'
    × (entries_of dev inum es' ≡ suc (entries_of dev inum es))
    × ((d n : ℕ) → (d ≢ dev) ⊎ (n ≢ inum) → entries_of d n es' ≡ entries_of d n es)

reuse_entry-ReuseResult :
    (dev inum : ℕ) (es : Entries) → ReuseResult dev inum es (reuse_entry dev inum es)
unfolding reuse_entry
reuse_entry-ReuseResult dev inum [] = tt
reuse_entry-ReuseResult dev inum (e ∷ es) = elim (Bool-cases (e.ref == 0)) [
  | inl h ↦
      let e' : Entry = record e {
        dev = dev;
        ref = 1;
        valid = false;
        ip = record e.ip { inum = inum };
      } in
      rw h (
        EntryAt-here dev inum e e' es (ground arith),
        ground (arith, h),
        (λ d n ne. ground (arith, h, ne)),
      )
  | inr h ↦ rw h (lift h (reuse_entry dev inum es) (reuse_entry-ReuseResult dev inum es))
]
  where
    lift :
        (e.ref == 0) ≡ false
        → (o : Option (ℕ × Entries)) → ReuseResult dev inum es o
        → ReuseResult dev inum (e ∷ es) (map_some (after e) o)
    lift h none r = (ground (arith, h), r)
    lift h (some (i, es')) r = (
      EntryAt-after dev inum e es es' i r.0,
      ground (arith, r.1),
      (λ d n ne. ground (arith, r.2 d n ne)),
    )

-- iget on a table where no inode has two entries in use: it gives an entry in use for the inode,
-- which is the only one for it, and changes no other entry; or it panics, where no entry is for the
-- inode and all are in use.
pub iget-Gives : (dev inum : ℕ) (es : Entries) → OneEach es → Gives dev inum es (iget dev inum es)
unfolding iget
iget-Gives dev inum es h = choose (find_entry dev inum es) (find_entry-FindResult dev inum es)
  where
    fresh :
        (o : Option (ℕ × Entries))
        → entries_of dev inum es ≡ 0
        → ReuseResult dev inum es o
        → Gives dev inum es (or_panic "iget: no inodes" o)
    fresh none z r = (refl, z, r)
    fresh (some (i, es')) z r = (r.0, r.1 ∙ ap suc z, r.2)

    choose :
        (o : Option (ℕ × Entries))
        → FindResult dev inum es o
        → Gives dev inum es (or_panic "iget: no inodes" (o or_else reuse_entry dev inum es))
    choose none z = fresh (reuse_entry dev inum es) z (reuse_entry-ReuseResult dev inum es)
    choose (some (i, es')) r =
        (r.0, omega (arith, r.1, r.2 dev inum, h dev inum), (λ d n ne. r.2 d n))
