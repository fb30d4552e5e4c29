-- ===== src/Tests/Data.antt =====
-- Examples for the bytes of files: a file of five bytes on the disk of the examples for extents.
use hai_os.Base.{
  ltb, ◌^◌, ◌+◌, ◌-◌, min, ◌≡◌, refl, ◌&&◌, some, [], ◌∷◌, arith, leb, ◌==◌, if◌then◌else◌, ok,
}
use hai_os.Fs.{Inode, iupdate, bmap, find_extent, bmap_from, adler32_update, adler_loop}
use hai_os.Data.{
  Disk, with_size, with_checksum, with_bytes, bmap_at, checksum_from, inode_checksum, readi,
  write_from, update_checksum, sized, finish_write, writei,
}
use hai_os.Data.Content.{content, IsStored}
use hai_os.Data.Read.{mismatch, readi_lem}
use hai_os.Data.Write.{WriteResult, write_from-WriteResult}
use hai_os.Data.RoundTrip.{readi-writei}
use hai_os.Tests.Fs.{disk, inode, slots, slots-IsFile}

abbrev five : Inode
five = with_size inode 5

abbrev small_disk : Disk
small_disk = record { fs = disk; bytes = λ b i. b + i; errors = 0 }

slots-IsStored : IsStored disk slots
slots-IsStored = record {
  file = slots-IsFile;
  small = ground arith;
  nonzero = (λ e. ground (arith, e), (λ e. ground (arith, e), (λ e. ground (arith, e), tt)));
}

abbrev after_five : Inode
unfolding adler32_update
after_five = with_checksum five (adler32_update 1 (3 ∷ 4 ∷ 5 ∷ 9 ∷ 8 ∷ []))

abbrev after_store : Disk
after_store =
    let d = with_bytes small_disk 3 3 (9 ∷ 8 ∷ []) in record d { fs = iupdate after_five disk }

written :
    writei (λ a m. m) small_disk five 100 3 (9 ∷ 8 ∷ []) ≡ ok (after_store, after_five, some 2)
unfolding writei write_from finish_write sized update_checksum inode_checksum checksum_from bmap_at
    bmap bmap_from find_extent adler32_update adler_loop
written = refl

readi-writei_example :
    (readi (λ a m. m) after_store after_five 200 3 2
      ≡ ok (after_store, after_five, some (9 ∷ 8 ∷ [])))
    × (mismatch after_store after_five ≡ 0)
    × (after_store.fs.dinodes after_five.inum ≡ after_five.d)
readi-writei_example =
    readi-writei (λ a m. m) small_disk five 100 200 3 (9 ∷ 8 ∷ []) after_store after_five
      (λ a m. refl) slots-IsStored (ground arith) (ground arith) (ground arith) written

write_from-WriteResult_example :
    WriteResult small_disk five 3000
      (1 ∷ 2 ∷ [])
      (write_from 2 (λ a m. m) small_disk five 100 3000 (1 ∷ 2 ∷ []))
write_from-WriteResult_example =
    write_from-WriteResult 2 (λ a m. m) small_disk five 100 3000 (1 ∷ 2 ∷ []) (λ a m. refl)
      slots-IsStored (ground arith) (ground arith)

readi_lem_example : readi (λ a m. m) small_disk five 200 1 9 ≡ (
    if ltb (1 + 9) (2 ^ 32)
    then ok (
      record small_disk {
        errors = 0 + (if 1 == 0 && leb 5 9 then mismatch small_disk five else 0);
      },
      five,
      some (content small_disk slots 1 (min 9 (5 - 1))),
    )
    else ok (small_disk, five, some []))
readi_lem_example =
    readi_lem (λ a m. m) small_disk five 200 1 9 (λ a m. refl) slots-IsStored (ground arith)
      (ground arith) (ground arith)
