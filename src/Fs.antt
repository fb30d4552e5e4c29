-- ===== src/Fs.antt =====
-- kernel/fs.c, the parts below directories: the free map (balloc_prefer, balloc, bfree), the extent
-- lists of inodes (extent_append, bmap, itrunc, iupdate), and the Adler-32 sum of a file. Bit
-- `b % BPB` of the block BBLOCK(b) is `bitmap b`. A block that is not read by this code is left out;
-- `zeroed b` says that bzero has cleared block `b`. The calls of log_write are the log's.
pub mod Adler
pub mod FreeMap
pub mod Extents
pub mod Append
pub mod Slots
pub mod Bmap
pub mod Truncate
use Prim.Native.String.{String}
use hai_os.Base.{
  ◌or_else◌, map_some, or_panic, ℕ, zero, suc, ◌+◌, ◌-◌, ◌*◌, ◌/◌, ◌%◌, ◌^◌, min, ◌⊎◌, inl, inr,
  Bool, true, false, Option, none, some, List, [], ◌∷◌, ltb, leb, ◌==◌, if◌then◌else◌, Run, ok,
  panic, ◌>>=◌, ◌>>◌, add32, update,
}

-- BPB, NEXTENT, and the modulus of Adler-32.
abbrev pub bpb : ℕ
bpb = 8192

abbrev pub nextent : ℕ
nextent = 14

abbrev pub mod_adler : ℕ
mod_adler = 65521

-- The loop of adler32_update on `a` and `b`.
unfoldable pub adler_loop : List ℕ → ℕ → ℕ → ℕ × ℕ
adler_loop [] a b = (a, b)
adler_loop (x ∷ xs) a b =
    adler_loop xs ((a + x) % mod_adler) ((b + (a + x) % mod_adler) % mod_adler)

-- `b << 16 | a`, where both have 16 bits.
abbrev pub pack_adler : ℕ × ℕ → ℕ
pack_adler p = p.1 * 2 ^ 16 + p.0

unfoldable pub adler32_update : ℕ → List ℕ → ℕ
unfolding adler_loop
adler32_update adler bytes =
    pack_adler (adler_loop bytes (adler % 2 ^ 16) (adler / 2 ^ 16 % 2 ^ 16))

pub record Extent : Type 0 where
  pub start : ℕ
  pub len : ℕ

-- `struct dinode` without the fields that only name a device.
pub record Dinode : Type 0 where
  pub type : ℕ
  pub nlink : ℕ
  pub size : ℕ
  pub checksum : ℕ
  pub extents : List Extent

-- The in-memory inode: its number, the fields that iupdate writes, and the state of its cache of
-- directory entries.
pub record Inode : Type 0 where
  pub inum : ℕ
  pub d : Dinode
  pub cache_valid : Bool
  pub cache_truncated : Bool
  pub nentries : ℕ

pub record Fs : Type 0 where
  pub size : ℕ
  pub bitmap : ℕ → Bool
  pub zeroed : ℕ → Bool
  pub dinodes : ℕ → Dinode

abbrev pub bzero : ℕ → Fs → Fs
bzero b fs = record fs { zeroed = update fs.zeroed b true }

abbrev pub mark : ℕ → Fs → Fs
mark b fs = record fs { bitmap = update fs.bitmap b true }

unfoldable pub balloc_prefer : Fs → ℕ → ℕ × Fs
balloc_prefer fs b =
    if leb fs.size b then (0, fs) else if fs.bitmap b then (0, fs) else (b, bzero b (mark b fs))

-- The inner loop of balloc: `n` more bits from block `b` on.
pub scan_bits : Fs → ℕ → ℕ → Option ℕ
scan_bits fs zero b = none
scan_bits fs (suc n) b = let rest = scan_bits fs n (b + 1) in if fs.bitmap b then rest else some b

-- The outer loop: `k` more blocks of the map, from the one with bit `b` on.
pub scan_blocks : Fs → ℕ → ℕ → Option ℕ
unfolding scan_bits
scan_blocks fs zero b = none
scan_blocks fs (suc k) b = scan_bits fs (min bpb (fs.size - b)) b or_else scan_blocks fs k (b + bpb)

pub taken : Option ℕ → Fs → ℕ × Fs
taken none fs = (0, fs)
taken (some b) fs = (b, bzero b (mark b fs))

-- The loop runs while `b < sb.size` in steps of BPB.
unfoldable pub balloc : Fs → ℕ × Fs
unfolding scan_blocks taken
balloc fs = taken (scan_blocks fs ((fs.size + bpb - 1) / bpb) 0) fs

unfoldable pub bfree : ℕ → Fs → Run Fs
bfree b fs =
    if fs.bitmap b
    then ok (record fs { bitmap = update fs.bitmap b false })
    else panic "freeing free block"

-- The first loop of extent_append: the first slot of length 0 takes the block.
pub fill_slot : List Extent → ℕ → Option (List Extent)
fill_slot [] newb = none
fill_slot (e ∷ es) newb =
    let rest = map_some (◌∷◌ e) (fill_slot es newb) in
    if e.len == 0 then some (record { start = newb; len = 1 } ∷ es) else rest

-- The second loop, which is reached when no slot has length 0: it looks at the last slot.
pub grow_last : List Extent → ℕ → Option (List Extent)
grow_last [] newb = none
grow_last (e ∷ []) newb =
    if add32 e.start e.len == newb then some (record e { len = add32 e.len 1 } ∷ []) else none
grow_last (e ∷ e' ∷ es) newb = map_some (◌∷◌ e) (grow_last (e' ∷ es) newb)

-- `none` for the result -1.
unfoldable pub extent_append : List Extent → ℕ → Option (List Extent)
unfolding fill_slot grow_last
extent_append es newb = fill_slot es newb or_else grow_last es newb

-- The first loop of bmap: the block, or the number of blocks seen and the last extent.
unfoldable pub find_extent : List Extent → ℕ → ℕ → ℕ × ℕ → ℕ ⊎ (ℕ × (ℕ × ℕ))
find_extent [] bn base last = inr (base, last)
find_extent (e ∷ es) bn base last =
    let rest = find_extent es bn (add32 base e.len) (e.start, e.len) in
    let skipped = find_extent es bn base last in
    if e.len == 0
    then skipped
    else if ltb bn (add32 base e.len)
    then inl (add32 e.start (bn - base))
    else rest

-- The last extent with blocks in it.
pub last_extent : List Extent → ℕ × ℕ → ℕ × ℕ
last_extent [] p = p
last_extent (e ∷ es) p = last_extent es (if e.len == 0 then p else (e.start, e.len))

-- Block after the last extent if it is free, else any.
unfoldable pub balloc_near : ℕ × ℕ → Fs → ℕ × Fs
unfolding balloc_prefer balloc
balloc_near (start, len) fs =
    let p = if ltb 0 len then balloc_prefer fs (add32 start len) else (0, fs) in
    if p.0 == 0 then balloc p.1 else p

-- The loop of bmap that allocates, for at most `n` passes.
pub allocate : ℕ → ℕ → ℕ → ℕ × ℕ → Fs → List Extent → Run (ℕ × Fs × List Extent)
unfolding balloc_near extent_append last_extent
allocate zero bn base last fs es = panic "bmap: unreachable"
allocate (suc n) bn base last fs es =
    let (nb, fs1) = balloc_near last fs in
    if nb == 0
    then ok (0, fs1, es)
    else or_panic "bmap: extent overflow" (extent_append es nb) >>= λ es1.
        (let rest = allocate n bn (base + 1) (last_extent es1 (nb, last.1)) fs1 es1 in
          if base == bn then ok (nb, fs1, es1) else rest)

-- bmap after its first search.
unfoldable pub bmap_from : Fs → List Extent → ℕ → ℕ ⊎ (ℕ × (ℕ × ℕ)) → Run (ℕ × Fs × List Extent)
unfolding allocate
bmap_from fs es bn (inl b) = ok (b, fs, es)
bmap_from fs es bn (inr r) = allocate (bn + 1 - r.0) bn r.0 r.1 fs es

-- bmap on an inode's extents; the block is 0 where the disk is full.
unfoldable pub bmap : Fs → List Extent → ℕ → Run (ℕ × Fs × List Extent)
unfolding find_extent bmap_from
bmap fs es bn = bmap_from fs es bn (find_extent es bn 0 (0, 0))

abbrev pub iupdate : Inode → Fs → Fs
iupdate ip fs = record fs { dinodes = update fs.dinodes ip.inum ip.d }

-- The inner loop of itrunc, on the `n` blocks from `b` on.
pub free_blocks : ℕ → ℕ → Fs → Run Fs
unfolding bfree
free_blocks zero b fs = ok fs
free_blocks (suc n) b fs = bfree b fs >>= λ fs1. free_blocks n (b + 1) fs1

-- The outer loop.
pub free_extents : List Extent → Fs → Run Fs
unfolding free_blocks
free_extents [] fs = ok fs
free_extents (e ∷ es) fs =
    if e.len == 0
    then free_extents es fs
    else free_blocks e.len e.start fs >>= λ fs1. free_extents es fs1

abbrev pub no_extent : Extent
no_extent = record { start = 0; len = 0 }

-- The loop of itrunc leaves an extent of length 0 as it is.
abbrev pub cleared : List Extent → List Extent
cleared [] = []
cleared (e ∷ es) = (if e.len == 0 then e else no_extent) ∷ cleared es

unfoldable pub itrunc : Inode → Fs → Run (Inode × Fs)
unfolding free_extents
itrunc ip fs = free_extents ip.d.extents fs >>= λ fs1.
    (let ip1 : Inode = record ip {
      d = record ip.d { size = 0; checksum = 1; extents = cleared ip.d.extents };
      cache_valid = false;
      cache_truncated = false;
      nentries = 0;
    } in
      ok (ip1, iupdate ip1 fs1))
