-- ===== src/Tests/Bio.antt =====
-- Examples for kernel/bio.c: three buffers, two of them for blocks of device 1.
use hai_os.Base.{ℕ, true, [], ◌∷◌, arith}
use hai_os.Bio.{Buf, Buffers, bget}
use hai_os.Bio.Cache.{NoTwins, Got, bget-Got}

abbrev buf : ℕ → ℕ → ℕ → ℕ → Buf
buf id dev blockno refcnt = record {
  id = id;
  dev = dev;
  blockno = blockno;
  valid = true;
  refcnt = refcnt;
  content = 0;
}

abbrev three : Buffers
three = buf 2 1 33 1 ∷ buf 1 1 46 0 ∷ buf 0 0 0 0 ∷ []

three-NoTwins : NoTwins three
three-NoTwins dev blockno nz = ground (arith, nz)

bget-Got_example : Got 1 70 three (bget 1 70 three)
bget-Got_example = bget-Got 1 70 three (ground arith) three-NoTwins
