-- ===== src/Bio.antt =====
-- kernel/bio.c: the buffer cache. The list is `bcache.head.next`, ... in order, the most recently used
-- buffer first; `id` tells the buffers of `bcache.buf` apart. `disk` is what virtio_disk_rw reads.
pub mod Cache
use hai_os.Base.{
  ℕ, zero, suc, ◌+◌, Bool, true, false, ◌&&◌, Option, none, some, List, [], ◌∷◌, ◌==◌,
  if◌then◌else◌, Run, ok, panic, ◌>>=◌, ◌>>◌, add32, sub32, map_some, or_panic, ◌or_else◌,
}

-- NBUF
abbrev pub nbuf : ℕ
nbuf = 30

-- `struct buf`; `content` stands for `data`.
pub record Buf : Type 0 where
  pub id : ℕ
  pub dev : ℕ
  pub blockno : ℕ
  pub valid : Bool
  pub refcnt : ℕ
  pub content : ℕ

abbrev pub Buffers : Type 0
Buffers = List Buf

abbrev pub holds : ℕ → ℕ → Buf → Bool
holds dev blockno b = (b.dev == dev) && (b.blockno == blockno)

-- binit pushes each of the buffers, all zero, to the front.
pub binit_from : ℕ → ℕ → Buffers → Buffers
binit_from zero i bs = bs
binit_from (suc n) i bs =
    binit_from n (i + 1)
      (record { id = i; dev = 0; blockno = 0; valid = false; refcnt = 0; content = 0 } ∷ bs)

unfoldable pub binit : Buffers
unfolding binit_from
binit = binit_from nbuf 0 []

-- The first scan of bget, from the front.
pub find_cached : ℕ → ℕ → Buffers → Option (ℕ × Buffers)
find_cached dev blockno [] = none
find_cached dev blockno (b ∷ bs) =
    let rest = map_some (λ r. (r.0, b ∷ r.1)) (find_cached dev blockno bs) in
    if holds dev blockno b then some (b.id, record b { refcnt = add32 b.refcnt 1 } ∷ bs) else rest

-- The second scan, from the back: the last buffer without a reference.
pub recycle : ℕ → ℕ → Buffers → Option (ℕ × Buffers)
recycle dev blockno [] = none
recycle dev blockno (b ∷ bs) =
    map_some (λ r. (r.0, b ∷ r.1)) (recycle dev blockno bs)
    or_else (if b.refcnt == 0
        then some (b.id, record b { dev = dev; blockno = blockno; valid = false; refcnt = 1 } ∷ bs)
        else none)

-- The buffer's id, and the buffers.
unfoldable pub bget : ℕ → ℕ → Buffers → Run (ℕ × Buffers)
unfolding find_cached recycle
bget dev blockno bs =
    or_panic "bget: no buffers" (find_cached dev blockno bs or_else recycle dev blockno bs)

-- A change of the buffer `id`.
pub at_id : ℕ → (Buf → Buf) → Buffers → Buffers
at_id id f [] = []
at_id id f (b ∷ bs) = (if b.id == id then f b else b) ∷ at_id id f bs

-- bread's reading of a buffer that is not valid.
abbrev pub fill : (ℕ → ℕ → ℕ) → Buf → Buf
fill disk b = if b.valid then b else record b { valid = true; content = disk b.dev b.blockno }

unfoldable pub bread : (ℕ → ℕ → ℕ) → ℕ → ℕ → Buffers → Run (ℕ × Buffers)
unfolding bget at_id
bread disk dev blockno bs = bget dev blockno bs >>= λ r. ok (r.0, at_id r.0 (fill disk) r.1)

-- The buffer `id`, unlinked.
pub unlink : ℕ → Buffers → Option (Buf × Buffers)
unlink id [] = none
unlink id (b ∷ bs) =
    let rest = map_some (λ r. (r.0, b ∷ r.1)) (unlink id bs) in
    if b.id == id then some (b, bs) else rest

-- brelse once the list has been searched for the buffer, which the source has by its address.
pub release : ℕ → Buffers → Option (Buf × Buffers) → Buffers
unfolding at_id
release id bs none = bs
release id bs (some (b, rest)) =
    let dropped = record b { refcnt = sub32 b.refcnt 1 } in
    if dropped.refcnt == 0
    then dropped ∷ rest
    else at_id id (λ x. record x { refcnt = sub32 x.refcnt 1 }) bs

-- `held`: the caller holds the buffer's sleep lock.
unfoldable pub brelse : Bool → ℕ → Buffers → Run Buffers
unfolding unlink release
brelse held id bs = if held then ok (release id bs (unlink id bs)) else panic "brelse"

unfoldable pub bpin : ℕ → Buffers → Buffers
unfolding at_id
bpin id bs = at_id id (λ x. record x { refcnt = add32 x.refcnt 1 }) bs

unfoldable pub bunpin : ℕ → Buffers → Buffers
unfolding at_id
bunpin id bs = at_id id (λ x. record x { refcnt = sub32 x.refcnt 1 }) bs
