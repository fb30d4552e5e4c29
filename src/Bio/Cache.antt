-- ===== src/Bio/Cache.antt =====
-- A block stands in one buffer at most.
use hai_os.Base.{
  ℕ, suc, ◌≤◌, ◌<◌, ◌≡◌, refl, ◌≢◌, ◌⊎◌, inl, inr, true, false, ◌&&◌, Option, none, some, [], ◌∷◌,
  ◌++◌, ap, arith, ==→eq, add32, ◌==◌, if◌then◌else◌, Bool-cases, All, Run, ok, panic, sub32,
}
use hai_os.Base.{map_some, or_panic, ◌or_else◌}
use hai_os.Bio.{Buf, Buffers, holds, find_cached, recycle, bget, at_id, unlink, release, brelse}

-- How many buffers hold the block.
abbrev pub copies : ℕ → ℕ → Buffers → ℕ
copies dev blockno [] = 0
copies dev blockno (b ∷ bs) =
    if holds dev blockno b then suc (copies dev blockno bs) else copies dev blockno bs

-- The buffers that hold no block yet have device 0.
abbrev pub NoTwins : Buffers → Type 0
NoTwins bs = (dev blockno : ℕ) → dev ≢ 0 → copies dev blockno bs ≤ 1

abbrev pub AllBusy : Buffers → Type 0
AllBusy = All (λ b. 0 < b.refcnt)

abbrev SameCopies : Buffers → Buffers → Type 0
SameCopies bs bs' = (dev blockno : ℕ) → copies dev blockno bs' ≡ copies dev blockno bs

-- `bs'` is `bs` with `b'` in place of `b`, and `i` is the id of both.
pub record Changed (i : ℕ) (b b' : Buf) (bs bs' : Buffers) : Type 0 where
  pub before : Buffers
  pub after : Buffers
  pub old : bs ≡ before ++ b ∷ after
  pub new : bs' ≡ before ++ b' ∷ after
  pub same_id : (b.id ≡ i) × (b'.id ≡ i)

abbrev in_tail :
    (i : ℕ) (b b' c : Buf) (bs bs' : Buffers)
    → Changed i b b' bs bs'
    → Changed i b b' (c ∷ bs) (c ∷ bs')
in_tail i b b' c bs bs' h = record {
  before = c ∷ h.before;
  after = h.after;
  old = ap (◌∷◌ c) h.old;
  new = ap (◌∷◌ c) h.new;
  same_id = h.same_id;
}

-- The buffer with one reference more, and the buffer reused for another block.
abbrev pub referenced : Buf → Buf
referenced b = record b { refcnt = add32 b.refcnt 1 }

abbrev pub reused : ℕ → ℕ → Buf → Buf
reused dev blockno b = record b { dev = dev; blockno = blockno; valid = false; refcnt = 1 }

-- The buffer `i` held the block, and has one reference more.
abbrev pub Shares : ℕ → ℕ → ℕ → Buffers → Buffers → Type 0
Shares dev blockno i bs bs' =
    (b : Buf) × (holds dev blockno b ≡ true) × Changed i b (referenced b) bs bs'

-- The buffer `i`, the last without a reference, holds the block now.
abbrev pub Recycles : ℕ → ℕ → ℕ → Buffers → Buffers → Type 0
Recycles dev blockno i bs bs' =
    (b : Buf) × (c : Changed i b (reused dev blockno b) bs bs') × (b.refcnt ≡ 0) × AllBusy c.after

abbrev FindResult : ℕ → ℕ → Buffers → Option (ℕ × Buffers) → Type 0
FindResult dev blockno bs none = copies dev blockno bs ≡ 0
FindResult dev blockno bs (some (i, bs')) =
    (0 < copies dev blockno bs) × SameCopies bs bs' × Shares dev blockno i bs bs'

find_cached-FindResult :
    (dev blockno : ℕ) (bs : Buffers) → FindResult dev blockno bs (find_cached dev blockno bs)
unfolding find_cached
find_cached-FindResult dev blockno [] = refl
find_cached-FindResult dev blockno (b ∷ bs) = elim (Bool-cases (holds dev blockno b)) [
  | inl e ↦ rw e (
    ground (arith, e),
    λ d c. refl,
    (b, e, record { before = []; after = bs; old = refl; new = refl; same_id = (refl, refl) }),
  )
  | inr e ↦ rw e (lift e (find_cached dev blockno bs) (find_cached-FindResult dev blockno bs))
]
  where
    lift :
        holds dev blockno b ≡ false
        → (o : Option (ℕ × Buffers)) → FindResult dev blockno bs o
        → FindResult dev blockno (b ∷ bs) (map_some (λ r. (r.0, b ∷ r.1)) o)
    lift e none r = rw e r
    lift e (some (i, bs')) (some_copy, same, (x, h, ch)) = (
      rw e some_copy,
      λ d c. ground (arith, same d c),
      (x, h, in_tail i x (referenced x) b bs bs' ch),
    )

-- One buffer takes the block `dev`, `blockno`, and the block that it had is in one buffer fewer.
abbrev Took : ℕ → ℕ → Buffers → Buffers → Type 0
Took dev blockno bs bs' =
    (copies dev blockno bs ≡ 0 → copies dev blockno bs' ≡ 1)
    × ((d c : ℕ) → (d ≢ dev) ⊎ (c ≢ blockno) → copies d c bs' ≤ copies d c bs)

abbrev RecycleResult : ℕ → ℕ → Buffers → Option (ℕ × Buffers) → Type 0
RecycleResult dev blockno bs none = AllBusy bs
RecycleResult dev blockno bs (some (i, bs')) =
    Took dev blockno bs bs' × Recycles dev blockno i bs bs'

recycle-RecycleResult :
    (dev blockno : ℕ) (bs : Buffers) → RecycleResult dev blockno bs (recycle dev blockno bs)
unfolding recycle
recycle-RecycleResult dev blockno [] = tt
recycle-RecycleResult dev blockno (b ∷ bs) =
    lift (recycle dev blockno bs) (recycle-RecycleResult dev blockno bs)
  where
    lift :
        (o : Option (ℕ × Buffers))
        → RecycleResult dev blockno bs o
        → RecycleResult dev blockno (b ∷ bs) (
            map_some (λ r. (r.0, b ∷ r.1)) o
            or_else (if b.refcnt == 0
                then some (
                  b.id,
                  record b { dev = dev; blockno = blockno; valid = false; refcnt = 1 } ∷ bs,
                )
                else none))
    lift (some (i, bs')) (t, (x, ch, z, busy)) = (
      ((λ z. ground (arith, t.0)), (λ d c ne. ground (arith, t.1 d c ne))),
      (x, in_tail i x (reused dev blockno x) b bs bs' ch, z, busy),
    )
    lift none r = elim (Bool-cases (b.refcnt == 0)) [
      | inl e ↦ rw e (
        ((λ z. ground (arith, z)), (λ d c ne. ground (arith, ne))),
        (
          b,
          record { before = []; after = bs; old = refl; new = refl; same_id = (refl, refl) },
          ==→eq b.refcnt 0 e,
          r,
        ),
      )
      | inr e ↦ rw e (ground arith, r)
    ]

-- What bget gives: the block is in one buffer, no block is in two, and the buffer of the id that it
-- gives held the block and has one reference more, or, where none held it, is the last buffer without
-- a reference, reused for the block; or a panic, where the block stands in no buffer and every buffer
-- has a reference.
abbrev pub Got : ℕ → ℕ → Buffers → Run (ℕ × Buffers) → Type 0
Got dev blockno bs (ok (i, bs')) =
    (copies dev blockno bs' ≡ 1)
    × NoTwins bs'
    × (Shares dev blockno i bs bs' ⊎ ((copies dev blockno bs ≡ 0) × Recycles dev blockno i bs bs'))
Got dev blockno bs (panic s) = (s ≡ "bget: no buffers") × (copies dev blockno bs ≡ 0) × AllBusy bs

Took-NoTwins :
    (dev blockno : ℕ) (bs bs' : Buffers)
    → NoTwins bs
    → copies dev blockno bs ≡ 0
    → Took dev blockno bs bs'
    → NoTwins bs'
Took-NoTwins dev blockno bs bs' h z t d c nz = elim (Bool-cases ((d == dev) && (c == blockno))) [
  | inl e ↦
      let ed : d ≡ dev = ground arith in
      let ec : c ≡ blockno = ground arith in rw (ed, ec) (omega (arith, t.0 z))
  | inr e ↦ let ne : (d ≢ dev) ⊎ (c ≢ blockno) = ground arith in omega (arith, t.1 d c ne, h d c nz)
]

-- bget for a block of a device other than 0, where no block of such a device is in two buffers: after
-- it the block is in one buffer, and no block is in two. It gives the id of a buffer that held the
-- block and has one reference more now; or, where no buffer held it, of the last buffer without a
-- reference, which holds the block now, not valid, with one reference; no other buffer changes. Or it
-- panics, where no buffer holds the block and all are in use.
pub bget-Got :
    (dev blockno : ℕ) (bs : Buffers)
    → dev ≢ 0
    → NoTwins bs
    → Got dev blockno bs (bget dev blockno bs)
unfolding bget
bget-Got dev blockno bs nz h =
    choose (find_cached dev blockno bs) (find_cached-FindResult dev blockno bs)
  where
    fresh :
        (o : Option (ℕ × Buffers))
        → copies dev blockno bs ≡ 0
        → RecycleResult dev blockno bs o
        → Got dev blockno bs (or_panic "bget: no buffers" o)
    fresh none z r = (refl, z, r)
    fresh (some (i, bs')) z (t, r) = (t.0 z, Took-NoTwins dev blockno bs bs' h z t, inr (z, r))

    choose :
        (o : Option (ℕ × Buffers))
        → FindResult dev blockno bs o
        → Got dev blockno bs (or_panic "bget: no buffers" (o or_else recycle dev blockno bs))
    choose none z = fresh (recycle dev blockno bs) z (recycle-RecycleResult dev blockno bs)
    choose (some (i, bs')) (some_copy, same, r) = (
      omega (arith, some_copy, same dev blockno, h dev blockno nz),
      (λ d c n. omega (arith, same d c, h d c n)),
      inl r,
    )

at_id-copies :
    (id : ℕ) (f : Buf → Buf) (bs : Buffers)
    → ((b : Buf) → (f b).dev ≡ b.dev)
    → ((b : Buf) → (f b).blockno ≡ b.blockno)
    → SameCopies bs (at_id id f bs)
unfolding at_id
at_id-copies id f [] hd hb d c = refl
at_id-copies id f (b ∷ bs) hd hb d c = elim (Bool-cases (b.id == id)) [
  | inl e ↦ rw (e, hd b, hb b, at_id-copies id f bs hd hb d c) refl
  | inr e ↦ rw (e, at_id-copies id f bs hd hb d c) refl
]

abbrev Unlinked : Buffers → Option (Buf × Buffers) → Type 0
Unlinked bs none = Unit {0}
Unlinked bs (some (b, rest)) = SameCopies bs (b ∷ rest)

unlink-Unlinked : (id : ℕ) (bs : Buffers) → Unlinked bs (unlink id bs)
unfolding unlink
unlink-Unlinked id [] = tt
unlink-Unlinked id (b ∷ bs) = elim (Bool-cases (b.id == id)) [
  | inl e ↦ rw e (λ d c. refl)
  | inr e ↦ rw e (lift (unlink id bs) (unlink-Unlinked id bs))
]
  where
    lift :
        (o : Option (Buf × Buffers))
        → Unlinked bs o
        → Unlinked (b ∷ bs) (map_some (λ r. (r.0, b ∷ r.1)) o)
    lift none r = tt
    lift (some (x, rest)) r = λ d c. ground (arith, r d c)

-- brelse by the holder of the buffer changes in how many buffers a block is for no block; by anyone
-- else it panics.
pub brelse-copies :
    (id : ℕ) (bs : Buffers)
    → ((bs' : Buffers) × (brelse true id bs ≡ ok bs')
        × ((dev blockno : ℕ) → copies dev blockno bs' ≡ copies dev blockno bs))
      × (brelse false id bs ≡ panic "brelse")
unfolding brelse release
brelse-copies id bs =
    ((release id bs (unlink id bs), refl, given (unlink id bs) (unlink-Unlinked id bs)), refl)
  where
    given : (o : Option (Buf × Buffers)) → Unlinked bs o → SameCopies bs (release id bs o)
    given none r d c = refl
    given (some (b, rest)) r d c = elim (Bool-cases (sub32 b.refcnt 1 == 0)) [
      | inl e ↦ rw e (r d c)
      | inr e ↦ rw e (
          at_id-copies id (λ x. record x { refcnt = sub32 x.refcnt 1 }) bs (λ x. refl) (λ x. refl) d
            c)
    ]
