-- ===== src/Data.antt =====
-- kernel/fs.c: the bytes of files (readi, writei) and their sum (inode_checksum). `bytes b` is the
-- newest copy of block `b`: bread gives it, and log_write keeps it. A copy to or from a process gives
-- the number of its bytes that it has moved, fewer than asked for when it fails.

pub mod Content
pub mod Sum
pub mod Read
pub mod Grow
pub mod Stores
pub mod Write
pub mod RoundTrip
use hai_os.Base.{
  ℕ, zero, suc, ◌+◌, ◌-◌, ◌*◌, ◌/◌, ◌%◌, min, Bool, false, ◌&&◌, ◌||◌, Option, none, some, List, [],
  ◌++◌, ltb, ◌==◌, if◌then◌else◌, length, take, drop, Run, ok, ◌>>=◌, ◌>>◌, add32, update, map_some,
}
use hai_os.Str.{Bytes, block, put_bytes}
use hai_os.Fs.{Fs, Inode, Extent, bmap, iupdate, adler32_update}
use hai_os.Fs.Bmap.{maxfile}

abbrev pub bsize : ℕ
bsize = 1024

-- stat.h
abbrev pub t_dir : ℕ
t_dir = 1

abbrev pub t_file : ℕ
t_file = 2

-- `errors` is bio_checksum_errors.
pub record Disk : Type 0 where
  pub fs : Fs
  pub bytes : ℕ → Bytes
  pub errors : ℕ

-- The contents once bmap is done: the blocks that it has cleared hold zeros. The flags `zeroed` are for
-- one call of bmap here.
abbrev pub cleared_bytes : Fs → (ℕ → Bytes) → ℕ → Bytes
cleared_bytes fs bytes b = if fs.zeroed b then (λ i. 0) else bytes b

abbrev pub with_extents : Inode → List Extent → Inode
with_extents ip es = record ip { d = record ip.d { extents = es } }

unfoldable pub bmap_at : Disk → Inode → ℕ → Run (ℕ × Disk × Inode)
unfolding bmap
bmap_at d ip bn = bmap (record d.fs { zeroed = λ b. false }) ip.d.extents bn >>= λ r. ok (
  r.0,
  record d { fs = record r.1 { zeroed = d.fs.zeroed }; bytes = cleared_bytes r.1 d.bytes },
  with_extents ip r.2,
)

abbrev pub is_regular : Inode → Bool
is_regular ip = ip.d.type == t_file || ip.d.type == t_dir

-- The loop of inode_checksum, on the blocks from `bn` on: `n` more.
unfoldable pub checksum_from : ℕ → Disk → Inode → ℕ → ℕ → Run (Disk × Inode × ℕ)
unfolding bmap_at adler32_update
checksum_from zero d ip bn adler = ok (d, ip, adler)
checksum_from (suc n) d ip bn adler = bmap_at d ip bn >>= λ r.
    (let chunk = if n == 0 then ip.d.size - bn * bsize else bsize in
      if r.0 == 0
      then ok (r.1, r.2, adler)
      else checksum_from n r.1 r.2 (bn + 1) (adler32_update adler (block (r.1.bytes r.0) 0 chunk)))

unfoldable pub inode_checksum : Disk → Inode → Run (Disk × Inode × ℕ)
unfolding checksum_from
inode_checksum d ip =
    if is_regular ip then checksum_from (add32 ip.d.size 1023 / bsize) d ip 0 1 else ok (d, ip, 1)

unfoldable pub verify_inode_checksum : Disk → Inode → Run (Disk × Inode)
unfolding inode_checksum
verify_inode_checksum d ip =
    if is_regular ip
    then (inode_checksum d ip >>= λ r.
        ok (if r.2 == ip.d.checksum then r.0 else record r.0 { errors = r.0.errors + 1 }, r.1))
    else ok (d, ip)

-- The loop of readi: `left` bytes from `off` on to `dst`; `none` is -1.
pub read_from : ℕ → (ℕ → ℕ → ℕ) → Disk → Inode → ℕ → ℕ → ℕ → Run (Disk × Inode × Option (List ℕ))
unfolding bmap_at
read_from zero copy d ip dst off left = ok (d, ip, some [])
read_from (suc fuel) copy d ip dst off left =
    let m = min left (bsize - off % bsize) in
    if left == 0
    then ok (d, ip, some [])
    else (bmap_at d ip (off / bsize) >>= λ r.
        (if r.0 == 0
          then ok (r.1, r.2, some [])
          else if ltb (copy dst m) m
          then ok (r.1, r.2, none)
          else (read_from fuel copy r.1 r.2 (dst + m) (off + m) (left - m) >>= λ q.
              ok (q.0, q.1, map_some (◌++◌ (block (r.1.bytes r.0) (off % bsize) m)) q.2))))

-- Whether all of a file was read, from its beginning.
abbrev pub whole_file : ℕ → ℕ → Option (List ℕ) → Bool
whole_file size off none = false
whole_file size off (some xs) = off == 0 && (length xs == size)

-- Every pass moves at least one byte, so that as many passes as bytes are enough.
unfoldable pub readi : (ℕ → ℕ → ℕ) → Disk → Inode → ℕ → ℕ → ℕ → Run (Disk × Inode × Option (List ℕ))
unfolding read_from verify_inode_checksum
readi copy d ip dst off n =
    let n' = if ltb ip.d.size (add32 off n) then ip.d.size - off else n in
    if ltb ip.d.size off || ltb (add32 off n) off
    then ok (d, ip, some [])
    else (read_from n' copy d ip dst off n' >>= λ r.
        (if whole_file ip.d.size off r.2
          then (verify_inode_checksum r.0 r.1 >>= λ q. ok (q.0, q.1, r.2))
          else ok r))

-- Where a copy fails, the buffer keeps the bytes that it has moved.
abbrev pub with_bytes : Disk → ℕ → ℕ → List ℕ → Disk
with_bytes d b p xs = record d { bytes = update d.bytes b (put_bytes (d.bytes b) p xs) }

-- The loop of writei: the bytes `xs`, which lie at `src`, to `off`; and the number of them written.
unfoldable pub write_from : ℕ → (ℕ → ℕ → ℕ) → Disk → Inode → ℕ → ℕ → List ℕ → Run (Disk × Inode × ℕ)
unfolding bmap_at
write_from zero copy d ip src off xs = ok (d, ip, 0)
write_from (suc fuel) copy d ip src off xs =
    let m = min (length xs) (bsize - off % bsize) in
    if length xs == 0
    then ok (d, ip, 0)
    else (bmap_at d ip (off / bsize) >>= λ r.
        (if r.0 == 0
          then ok (r.1, r.2, 0)
          else if ltb (copy src m) m
          then ok (with_bytes r.1 r.0 (off % bsize) (take (copy src m) xs), r.2, 0)
          else (write_from fuel copy (with_bytes r.1 r.0 (off % bsize) (take m xs)) r.2 (src + m)
                (off + m) (drop m xs)
              >>= λ q. ok (q.0, q.1, m + q.2))))

abbrev pub with_size : Inode → ℕ → Inode
with_size ip n = record ip { d = record ip.d { size = n } }

abbrev pub uncached : Inode → Inode
uncached ip = record ip { cache_valid = false; cache_truncated = false; nentries = 0 }

abbrev pub with_checksum : Inode → ℕ → Inode
with_checksum ip c = record ip { d = record ip.d { checksum = c } }

-- The recomputing of the checksum, for files and directories.
unfoldable pub update_checksum : Disk → Inode → Run (Disk × Inode)
unfolding inode_checksum
update_checksum d ip =
    if is_regular ip
    then (inode_checksum d ip >>= λ r. ok (r.0, with_checksum r.1 r.2))
    else ok (d, ip)

-- The size after a write that ends at `off`, and the cache of a directory, which is out of date.
unfoldable pub sized : Inode → ℕ → Inode
sized ip off =
    let ip1 = if ltb ip.d.size off then with_size ip off else ip in
    if ip1.d.type == t_dir then uncached ip1 else ip1

-- writei after its loop, with the inode's copy on the disk.
unfoldable pub finish_write : Disk → Inode → ℕ → Run (Disk × Inode)
unfolding sized update_checksum
finish_write d ip off =
    update_checksum d (sized ip off) >>= λ r. ok (record r.0 { fs = iupdate r.1 r.0.fs }, r.1)

-- `none` for the result -1.
unfoldable pub writei : (ℕ → ℕ → ℕ) → Disk → Inode → ℕ → ℕ → List ℕ → Run (Disk × Inode × Option ℕ)
unfolding write_from finish_write
writei copy d ip src off xs =
    if ltb ip.d.size off || ltb (add32 off (length xs)) off
    then ok (d, ip, none)
    else if ltb (maxfile * bsize) (add32 off (length xs))
    then ok (d, ip, none)
    else (write_from (length xs) copy d ip src off xs >>= λ r.
        (finish_write r.0 r.1 (off + r.2) >>= λ q. ok (q.0, q.1, some r.2)))
