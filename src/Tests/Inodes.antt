-- ===== src/Tests/Inodes.antt =====
-- Examples for the inode table: an unlinked file with its last reference, and a free entry.
use hai_os.Base.{ℕ, true, false, [], ◌∷◌, arith, ltb}
use hai_os.Fs.{Dinode, Fs}
use hai_os.Inodes.{Entry, Entries}
use hai_os.Inodes.Table.{OneEach}

abbrev gone : Dinode
gone = record {
  type = 2;
  nlink = 0;
  size = 700;
  checksum = 1;
  extents = record { start = 3; len = 1 } ∷ [];
}

abbrev entry : ℕ → ℕ → Entry
entry ref inum = record {
  dev = 1;
  ref = ref;
  valid = true;
  ip = record { inum = inum; d = gone; cache_valid = false; cache_truncated = false; nentries = 0 };
}

abbrev entries : Entries
entries = entry 1 5 ∷ entry 0 6 ∷ []

entries-OneEach : OneEach entries
entries-OneEach dev inum = ground arith

abbrev small_disk : Fs
small_disk = record { size = 10; bitmap = λ b. ltb b 5; zeroed = λ b. false; dinodes = λ i. gone }
