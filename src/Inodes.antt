-- ===== src/Inodes.antt =====
-- kernel/fs.c: the table of inodes in memory (iget, ialloc, idup, ilock, iput). A pointer to an
-- inode is the index of its entry. An entry that ilock has not read yet has `valid` false.
pub mod Table
pub mod Last
use hai_os.Base.{
  replicate, update, ◌-◌, ℕ, zero, suc, ◌+◌, Bool, true, false, ◌&&◌, Option, none, some, List, [],
  ◌∷◌, ltb, ◌==◌, if◌then◌else◌, set_with, Run, ok, panic, ◌>>=◌, ◌>>◌, map_some, or_panic,
  ◌or_else◌,
}
use hai_os.Fs.{nextent, no_extent, Dinode, Inode, Fs, iupdate, itrunc}

-- `struct inode`: the device, `ref`, `valid`, and the rest.
pub record Entry : Type 0 where
  pub dev : ℕ
  pub ref : ℕ
  pub valid : Bool
  pub ip : Inode

abbrev pub Entries : Type 0
Entries = List Entry

abbrev pub names_inode : ℕ → ℕ → Entry → Bool
names_inode dev inum e = ltb 0 e.ref && ((e.dev == dev) && (e.ip.inum == inum))

-- An index in the rest of a list, in the whole.
abbrev pub after : Entry → ℕ × Entries → ℕ × Entries
after e r = (suc r.0, e ∷ r.1)

-- The scan of iget for an entry in use.
pub find_entry : ℕ → ℕ → Entries → Option (ℕ × Entries)
find_entry dev inum [] = none
find_entry dev inum (e ∷ es) =
    let rest = map_some (after e) (find_entry dev inum es) in
    if names_inode dev inum e then some (0, record e { ref = e.ref + 1 } ∷ es) else rest

-- The entry `empty` of the same scan, and its reuse.
pub reuse_entry : ℕ → ℕ → Entries → Option (ℕ × Entries)
reuse_entry dev inum [] = none
reuse_entry dev inum (e ∷ es) =
    let rest = map_some (after e) (reuse_entry dev inum es) in
    if e.ref == 0
    then some
        (0, record e { dev = dev; ref = 1; valid = false; ip = record e.ip { inum = inum } } ∷ es)
    else rest

unfoldable pub iget : ℕ → ℕ → Entries → Run (ℕ × Entries)
unfolding find_entry reuse_entry
iget dev inum es =
    or_panic "iget: no inodes" (find_entry dev inum es or_else reuse_entry dev inum es)

-- The inode on the disk that ialloc's scan stops at, of the `n` from `inum` on.
pub free_dinode : Fs → ℕ → ℕ → Option ℕ
free_dinode fs zero inum = none
free_dinode fs (suc n) inum =
    let rest = free_dinode fs n (inum + 1) in
    if (fs.dinodes inum).type == 0 then some inum else rest

abbrev pub new_dinode : ℕ → Dinode
new_dinode type = record {
  type = type;
  nlink = 0;
  size = 0;
  checksum = 1;
  extents = replicate nextent no_extent;
}

pub ialloc_at : ℕ → ℕ → Fs → Entries → Option ℕ → Run (Option ℕ × Entries × Fs)
unfolding iget
ialloc_at dev type fs es none = ok (none, es, fs)
ialloc_at dev type fs es (some inum) = iget dev inum es >>= λ r.
    ok (some r.0, r.1, record fs { dinodes = update fs.dinodes inum (new_dinode type) })

-- `none` is the null pointer. The numbers from 1 to `ninodes - 1` are searched.
unfoldable pub ialloc : ℕ → ℕ → ℕ → Fs → Entries → Run (Option ℕ × Entries × Fs)
unfolding free_dinode ialloc_at
ialloc dev type ninodes fs es = ialloc_at dev type fs es (free_dinode fs (ninodes - 1) 1)

unfoldable pub idup : ℕ → Entries → Entries
idup i es = set_with es i (λ e. record e { ref = e.ref + 1 })

-- What ilock reads from the disk into an entry.
abbrev pub loaded : Entry → Fs → Entry
loaded e fs = record e {
  valid = true;
  ip = record e.ip {
    d = fs.dinodes e.ip.inum;
    cache_valid = false;
    cache_truncated = false;
    nentries = 0;
  };
}

-- ilock once it has the sleep lock.
unfoldable pub ilock : Entry → Fs → Run Entry
ilock e fs =
    if ltb e.ref 1
    then panic "ilock"
    else if e.valid
    then ok e
    else if (fs.dinodes e.ip.inum).type == 0
    then panic "ilock: no type"
    else ok (loaded e fs)

-- iput's freeing of an inode without links.
pub free_inode : Entry → Fs → Run (Entry × Fs)
unfolding itrunc
free_inode e fs = itrunc e.ip fs >>= λ r.
    (let ip : Inode = record r.0 { d = record r.0.d { type = 0 } } in
      ok (record e { valid = false; ip = ip }, iupdate ip r.1))

abbrev pub drop_ref : Entry × Fs → Entry × Fs
drop_ref r = (record r.0 { ref = r.0.ref - 1 }, r.1)

-- iput on the entry of a pointer that the caller has, so that its `ref` is not 0.
unfoldable pub iput : Entry → Fs → Run (Entry × Fs)
unfolding free_inode
iput e fs =
    (if (e.ref == 1) && (e.valid && (e.ip.d.nlink == 0)) then free_inode e fs else ok (e, fs))
    >>= λ r. ok (drop_ref r)
