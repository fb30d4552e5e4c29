-- ===== src/Tests/Fs.antt =====
-- Examples for kernel/fs.c: a disk of ten blocks, of which the first five and block 7 are in use,
-- and a file of the blocks 3, 4 and 7.
use hai_os.Base.{
  ℕ, suc, ◌≤◌, ◌<◌, ◌≡◌, refl, ◌⊎◌, inl, inr, true, false, ◌||◌, some, List, [], ◌∷◌, arith, ltb,
  ◌==◌, if◌then◌else◌, length, get_or, ok, count, update,
}
use hai_os.Fs.{Extent, Dinode, Inode, Fs, bmap, extent_append, itrunc}
use hai_os.Fs.Extents.{blocks}
use hai_os.Fs.Slots.{used, extent_append-used}
use hai_os.Fs.Bmap.{IsFile, Mapped, bmap_lem}
use hai_os.Fs.Truncate.{itrunc_lem}

abbrev extent : ℕ → ℕ → Extent
extent s n = record { start = s; len = n }

abbrev pub slots : List Extent
slots = extent 3 2 ∷ extent 7 1 ∷ extent 0 0 ∷ extent 0 0 ∷ []

abbrev pub file : Dinode
file = record { type = 2; nlink = 1; size = 2500; checksum = 1; extents = slots }

abbrev pub disk : Fs
disk = record {
  size = 10;
  bitmap = λ b. ltb b 5 || (b == 7);
  zeroed = λ b. false;
  dinodes = λ i. file;
}

abbrev pub inode : Inode
inode = record { inum = 1; d = file; cache_valid = true; cache_truncated = false; nentries = 3 }

distinct_blocks : (b : ℕ) → count b (blocks slots) ≤ 1
distinct_blocks b = ground arith

pub slots-IsFile : IsFile disk slots
slots-IsFile = record {
  words = ground arith;
  boot = refl;
  packed = inl (ground arith, inl (ground arith, inr (refl, (refl, tt))));
  within = (ground arith, (ground arith, (ground arith, (ground arith, tt))));
  marked = (refl, (refl, (refl, tt)));
  distinct = distinct_blocks;
}

bmap_lem_example :
    ((4 < length (blocks slots))
      × (bmap disk slots 4 ≡ ok (get_or (blocks slots) 4 0, disk, slots)))
    ⊎ ((length (blocks slots) ≤ 4) × Mapped disk slots 4 (bmap disk slots 4))
bmap_lem_example = bmap_lem disk slots 4 slots-IsFile (ground arith) (ground arith)

itrunc_lem_example :
    (ip' : Inode) × (fs' : Fs) × (itrunc inode disk ≡ ok (ip', fs'))
    × ((i : ℕ) → fs'.bitmap i ≡ (if count i (blocks slots) == 0 then disk.bitmap i else false))
    × (fs'.dinodes ≡ update disk.dinodes 1 ip'.d)
    × (blocks ip'.d.extents ≡ [])
    × (ip'.d.size ≡ 0)
    × (ip'.d.checksum ≡ 1)
    × (ip'.cache_valid ≡ false)
    × (ip'.cache_truncated ≡ false)
    × (ip'.nentries ≡ 0)
itrunc_lem_example = itrunc_lem inode disk slots-IsFile

extent_append-used_example :
    (es' : List Extent) × (extent_append slots 8 ≡ some es') × (used es' ≡ suc (used slots))
extent_append-used_example = extent_append-used slots 8 (ground arith)
