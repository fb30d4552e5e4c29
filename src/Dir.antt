-- ===== src/Dir.antt =====
-- kernel/fs.c: directories and paths. The entry of a directory at an offset comes from `read`: `none`
-- where readi gives fewer bytes than an entry has. A name is a list of bytes. A directory is no longer
-- than MAXFILE blocks, so that offsets do not wrap.
pub mod Cache
pub mod Path
use hai_os.Base.{
  ℕ, zero, suc, ◌+◌, ◌-◌, Bool, true, false, not, ◌&&◌, Option, none, some, List, [], ◌∷◌, ltb, leb,
  ◌==◌, if◌then◌else◌, get_or, ℤ, pos, negsuc, Run, ok, panic, ◌>>=◌, ◌>>◌, or_panic,
}
use hai_os.Str.{Bytes, strncmp}
use hai_os.Inodes.{Entries, iget}

-- DIRSIZ, DIRCACHE_MAX, sizeof(struct dirent).
abbrev pub dirsiz : ℕ
dirsiz = 14

abbrev pub dircache_max : ℕ
dircache_max = 256

abbrev pub dirent_size : ℕ
dirent_size = 16

pub record Dirent : Type 0 where
  pub inum : ℕ
  pub name : List ℕ

-- `struct dircache_entry`
pub record CacheEntry : Type 0 where
  pub name : List ℕ
  pub inum : ℕ
  pub off : ℕ

-- `struct dircache`; `nentries` is the length of `entries`.
pub record DirCache : Type 0 where
  pub valid : Bool
  pub size_snapshot : ℕ
  pub truncated : Bool
  pub entries : List CacheEntry

-- The two names, one behind the other.
abbrev pub two_names : List ℕ → List ℕ → Bytes
two_names s t a = if ltb a dirsiz then get_or s a 0 else get_or t (a - dirsiz) 0

unfoldable pub namecmp : List ℕ → List ℕ → ℤ
unfolding strncmp
namecmp s t = strncmp (two_names s t) 0 dirsiz dirsiz

abbrev pub is_zero : ℤ → Bool
is_zero (pos n) = n == 0
is_zero (negsuc n) = false

-- The loop over the entries of the cache: the inode's number and the offset.
pub find_cached : List CacheEntry → List ℕ → Option (ℕ × ℕ)
unfolding namecmp
find_cached [] name = none
find_cached (e ∷ es) name =
    let rest = find_cached es name in
    if is_zero (namecmp name e.name) then some (e.inum, e.off) else rest

-- The loop of dircache_rebuild from offset `off` on, with `n` entries so far: more entries, and
-- `truncated`.
pub rebuild_from : (ℕ → Option Dirent) → ℕ → ℕ → ℕ → ℕ → Run (List CacheEntry × Bool)
rebuild_from read size zero off n = ok ([], false)
rebuild_from read size (suc fuel) off n =
    if leb size off
    then ok ([], false)
    else if leb dircache_max n
    then ok ([], true)
    else (or_panic "dircache rebuild read" (read off) >>= λ de.
        (if de.inum == 0
          then rebuild_from read size fuel (off + dirent_size) n
          else (rebuild_from read size fuel (off + dirent_size) (n + 1) >>= λ r.
              ok (record { name = de.name; inum = de.inum; off = off } ∷ r.0, r.1))))

-- As many passes as bytes are enough.
unfoldable pub dircache_rebuild : (ℕ → Option Dirent) → ℕ → Run DirCache
unfolding rebuild_from
dircache_rebuild read size = rebuild_from read size size 0 0 >>= λ r.
    ok (record { valid = true; size_snapshot = size; truncated = r.1; entries = r.0 })

-- dircache_lookup once the cache does not decide.
unfoldable pub rebuild_lookup : (ℕ → Option Dirent) → ℕ → List ℕ → Run (DirCache × Option (ℕ × ℕ))
unfolding dircache_rebuild find_cached
rebuild_lookup read size name =
    dircache_rebuild read size >>= λ c. ok (c, find_cached c.entries name)

-- The loop over a usable cache has found an entry, or not.
pub decide_lookup :
    (ℕ → Option Dirent) → ℕ → DirCache → List ℕ → Option (ℕ × ℕ) → Run (DirCache × Option (ℕ × ℕ))
unfolding rebuild_lookup
decide_lookup read size c name (some r) = ok (c, some r)
decide_lookup read size c name none =
    if c.truncated then rebuild_lookup read size name else ok (c, none)

unfoldable pub dircache_lookup :
    (ℕ → Option Dirent) → ℕ → DirCache → List ℕ → Run (DirCache × Option (ℕ × ℕ))
unfolding decide_lookup find_cached
dircache_lookup read size c name =
    if c.valid && (c.size_snapshot == size)
    then decide_lookup read size c name (find_cached c.entries name)
    else rebuild_lookup read size name

-- The loop of dirlookup over the directory.
pub scan_dir : (ℕ → Option Dirent) → ℕ → ℕ → ℕ → List ℕ → Run (Option (ℕ × ℕ))
unfolding namecmp
scan_dir read size zero off name = ok none
scan_dir read size (suc fuel) off name =
    if leb size off
    then ok none
    else (or_panic "dirlookup read" (read off) >>= λ de.
        (if de.inum == 0
          then scan_dir read size fuel (off + dirent_size) name
          else if is_zero (namecmp name de.name)
          then ok (some (de.inum, off))
          else scan_dir read size fuel (off + dirent_size) name))

-- The search of dirlookup: the cache, and the directory where that finds nothing.
pub scan_after :
    (ℕ → Option Dirent) → ℕ → List ℕ → DirCache × Option (ℕ × ℕ) → Run (DirCache × Option (ℕ × ℕ))
unfolding scan_dir
scan_after read size name (c, some r) = ok (c, some r)
scan_after read size name (c, none) = scan_dir read size size 0 name >>= λ r. ok (c, r)

unfoldable pub find_name :
    (ℕ → Option Dirent) → ℕ → DirCache → List ℕ → Run (DirCache × Option (ℕ × ℕ))
unfolding dircache_lookup scan_after
find_name read size c name = dircache_lookup read size c name >>= scan_after read size name

-- dirlookup in a directory of type T_DIR: the index of the inode in the table, and the offset.
pub get_found : ℕ → Entries → DirCache × Option (ℕ × ℕ) → Run (Entries × DirCache × Option (ℕ × ℕ))
unfolding iget
get_found dev es (c, none) = ok (es, c, none)
get_found dev es (c, some (inum, off)) = iget dev inum es >>= λ r. ok (r.1, c, some (r.0, off))

unfoldable pub dirlookup :
    (ℕ → Option Dirent)
    → ℕ
    → ℕ
    → ℕ
    → Entries
    → DirCache
    → List ℕ
    → Run (Entries × DirCache × Option (ℕ × ℕ))
unfolding find_name get_found
dirlookup read dev type size es c name =
    if not (type == 1)
    then panic "dirlookup not DIR"
    else (find_name read size c name >>= get_found dev es)

-- dirlink's search for an entry without an inode: the offset where the new entry goes.
pub free_slot : (ℕ → Option Dirent) → ℕ → ℕ → ℕ → Run ℕ
free_slot read size zero off = ok off
free_slot read size (suc fuel) off =
    if leb size off
    then ok off
    else (or_panic "dirlink read" (read off) >>= λ de.
        (if de.inum == 0 then ok off else free_slot read size fuel (off + dirent_size)))
