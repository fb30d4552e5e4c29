-- ===== src/Dir/Cache.antt =====
-- The cache of a directory: a lookup through it finds what a scan of the directory finds.
use hai_os.Base.{
  ℕ, zero, suc, ◌+◌, ◌<◌, ◌≡◌, refl, sym, ap, subst, ◌∙◌, ◌⊎◌, inl, inr, Bool, true, false, ◌&&◌,
  Option, none, some, List, [], ◌∷◌, arith, leb, ◌==◌, if◌then◌else◌, leb→lt, Bool-cases, Run, ok,
  ok_injective, ◌>>=◌,
}
use hai_os.Dir.{
  Dirent, CacheEntry, DirCache, dircache_max, dirent_size, namecmp, is_zero, find_cached,
  rebuild_from, dircache_rebuild, rebuild_lookup, decide_lookup, dircache_lookup, scan_dir,
  scan_after, find_name,
}

-- Every entry of the directory can be read.
abbrev pub Readable : (ℕ → Option Dirent) → ℕ → Type 0
Readable read size = (off : ℕ) → off < size → (de : Dirent) × (read off ≡ some de)

-- A cache that is in use is what dircache_rebuild makes.
abbrev pub Coherent : (ℕ → Option Dirent) → ℕ → DirCache → Type 0
Coherent read size c = c.valid ≡ true → c.size_snapshot ≡ size → dircache_rebuild read size ≡ ok c

-- What a part of the cache says of the scan of the same part of the directory.
abbrev Agrees : List CacheEntry × Bool → List ℕ → Run (Option (ℕ × ℕ)) → Type 0
Agrees r name s =
    ((x : ℕ × ℕ) × (find_cached r.0 name ≡ some x) × (s ≡ ok (some x)))
    ⊎ ((find_cached r.0 name ≡ none) × ((r.1 ≡ false) → s ≡ ok none))

rebuild_from-Agrees :
    (read : ℕ → Option Dirent) (size fuel off n : ℕ) (name : List ℕ)
    → Readable read size
    → (r : List CacheEntry × Bool) × (rebuild_from read size fuel off n ≡ ok r)
      × Agrees r name (scan_dir read size fuel off name)
unfolding rebuild_from scan_dir find_cached
rebuild_from-Agrees read size zero off n name h = (([], false), refl, inr (refl, λ e. refl))
rebuild_from-Agrees read size (suc fuel) off n name h = elim (Bool-cases (leb size off)) [
  | inl q ↦ (([], false), rw (q) refl, rw (q) (inr (refl, λ e. refl)))
  | inr q ↦
      let (de, e) = h off (leb→lt size off q) in
      let o : ℕ = off + dirent_size in
      (elim (Bool-cases (leb dircache_max n)) [
        | inl m ↦ (([], true), rw (q, m) refl, inr (refl, λ t. absurd cc))
        | inr m ↦ (elim (Bool-cases (de.inum == 0)) [
          | inl z ↦
              let (r, er, a) = rebuild_from-Agrees read size fuel o n name h in
              (r, rw (q, m, e, z) er, rw (q, e, z) a)
          | inr z ↦
              let (r, er, a) = rebuild_from-Agrees read size fuel o (n + 1) name h in
              let c : CacheEntry = record { name = de.name; inum = de.inum; off = off } in
              (
                (c ∷ r.0, r.1),
                rw (q, m, e, z, er) refl,
                (elim (Bool-cases (is_zero (namecmp name de.name))) [
                  | inl y ↦ rw (q, e, z, y) (inl ((de.inum, off), refl, refl))
                  | inr y ↦ rw (q, e, z, y) a
                ]),
              )
        ])
      ])
]

scan_dir-ok :
    (read : ℕ → Option Dirent) (size fuel off : ℕ) (name : List ℕ)
    → Readable read size
    → (r : Option (ℕ × ℕ)) × (scan_dir read size fuel off name ≡ ok r)
unfolding scan_dir
scan_dir-ok read size zero off name h = (none, refl)
scan_dir-ok read size (suc fuel) off name h = elim (Bool-cases (leb size off)) [
  | inl q ↦ (none, rw (q) refl)
  | inr q ↦
      let (de, e) = h off (leb→lt size off q) in
      let (r, er) = scan_dir-ok read size fuel (off + dirent_size) name h in
      (elim (Bool-cases (de.inum == 0)) [
        | inl z ↦ (r, rw (q, e, z) er)
        | inr z ↦ (elim (Bool-cases (is_zero (namecmp name de.name))) [
          | inl y ↦ (some (de.inum, off), rw (q, e, z, y) refl)
          | inr y ↦ (r, rw (q, e, z, y) er)
        ])
      ])
]

-- What the search of dirlookup promises: the result of the scan, and a cache that is right.
abbrev pub Found : (ℕ → Option Dirent) → ℕ → List ℕ → Run (DirCache × Option (ℕ × ℕ)) → Type 0
Found read size name x =
    (c : DirCache) × (r : Option (ℕ × ℕ)) × (x ≡ ok (c, r))
    × (scan_dir read size size 0 name ≡ ok r)
    × Coherent read size c

-- A cache that agrees with the scan.
cached-Found :
    (read : ℕ → Option Dirent) (size : ℕ) (name : List ℕ) (c : DirCache) (s : Option (ℕ × ℕ))
    → Coherent read size c
    → scan_dir read size size 0 name ≡ ok s
    → Agrees (c.entries, c.truncated) name (scan_dir read size size 0 name)
    → Found read size name (scan_after read size name (c, find_cached c.entries name))
unfolding scan_after
cached-Found read size name c s co e (inl (x, f, g)) = (c, some x, rw (f) refl, g, co)
cached-Found read size name c s co e (inr (f, g)) = (c, s, rw (f, e) refl, e, co)

rebuild-Found :
    (read : ℕ → Option Dirent) (size : ℕ) (name : List ℕ)
    → Readable read size
    → (c : DirCache) × (dircache_rebuild read size ≡ ok c)
      × Agrees (c.entries, c.truncated) name (scan_dir read size size 0 name)
unfolding dircache_rebuild
rebuild-Found read size name h =
    let (r, e, a) = rebuild_from-Agrees read size size 0 0 name h in
    (record { valid = true; size_snapshot = size; truncated = r.1; entries = r.0 }, rw (e) refl, a)

rebuild_lookup-Found :
    (read : ℕ → Option Dirent) (size : ℕ) (name : List ℕ)
    → Readable read size
    → Found read size name (rebuild_lookup read size name >>= scan_after read size name)
unfolding rebuild_lookup
rebuild_lookup-Found read size name h =
    let (c, e, a) = rebuild-Found read size name h in
    let (s, es) = scan_dir-ok read size size 0 name h in
    let run : rebuild_lookup read size name ≡ ok (c, find_cached c.entries name) =
      ap (λ x. x >>= λ c. ok (c, find_cached c.entries name)) e in
    subst (Found read size name) (sym (ap (λ x. x >>= scan_after read size name) run))
      (cached-Found read size name c s (λ v w. e) es a)

decide-Found :
    (read : ℕ → Option Dirent) (size : ℕ) (c : DirCache) (name : List ℕ) (o : Option (ℕ × ℕ))
    → Readable read size
    → Found read size name (scan_after read size name (c, o))
    → Found read size name (decide_lookup read size c name o >>= scan_after read size name)
unfolding decide_lookup
decide-Found read size c name (some x) h f = f
decide-Found read size c name none h f = elim (Bool-cases c.truncated) [
  | inl t ↦ rw (t) (rebuild_lookup-Found read size name h)
  | inr t ↦
      subst
        (λ b. Found read size name (
          (if b then rebuild_lookup read size name else ok (c, none))
          >>= scan_after read size name))
        (sym t) f
]

-- In a directory that can be read, with a cache that is not in use, or for another size, or as
-- dircache_rebuild makes it, the search of dirlookup through the cache gives what the scan of the
-- directory alone gives, entry and offset, whether or not the directory has more entries than the
-- cache; and the cache is right again.
pub find_name-Found :
    (read : ℕ → Option Dirent) (size : ℕ) (c : DirCache) (name : List ℕ)
    → Readable read size
    → Coherent read size c
    → Found read size name (find_name read size c name)
unfolding find_name dircache_lookup
find_name-Found read size c name h co = elim (Bool-cases (c.valid && (c.size_snapshot == size))) [
  | inr q ↦ rw (q) (rebuild_lookup-Found read size name h)
  | inl q ↦
      let (c1, e1, a) = rebuild-Found read size name h in
      let (s, es) = scan_dir-ok read size size 0 name h in
      let valid : c.valid ≡ true = ground (arith, q) in
      let current : c.size_snapshot ≡ size = ground (arith, q) in
      let same = ok_injective c1 c (sym e1 ∙ co valid current) in
      let a' =
        subst (λ c. Agrees (c.entries, c.truncated) name (scan_dir read size size 0 name)) same a in
      subst
        (λ b. Found read size name (
          (if b
            then decide_lookup read size c name (find_cached c.entries name)
            else rebuild_lookup read size name)
          >>= scan_after read size name))
        (sym q)
        (decide-Found read size c name (find_cached c.entries name) h
          (cached-Found read size name c s co es a'))
]
