-- ===== src/Tests/Files.antt =====
-- Examples for open files: one file, which two descriptors of the process name and no other process has.
use hai_os.Base.{
  zero, suc, ◌+◌, ◌<◌, ◌≡◌, refl, ◌⊎◌, true, Option, none, some, [], ◌∷◌, arith, set, ok,
}
use hai_os.Files.{File, Files, Descriptors, file_at, sys_dup, sys_close}
use hai_os.Files.Counted.{uses, IsCounted, KeepsCounts, sys_dup-KeepsCounts, sys_close-Closes}

abbrev open_file : File
open_file = record { type = 2; ref = 2 }

abbrev open_files : Files
open_files = open_file ∷ []

abbrev descriptors : Descriptors
descriptors = some 0 ∷ some 0 ∷ none ∷ []

counted : IsCounted (λ i. 0) descriptors open_files
counted zero = refl
counted (suc i) = ground arith

sys_dup-KeepsCounts_example : KeepsCounts (λ i. 0) (sys_dup descriptors open_files 1)
sys_dup-KeepsCounts_example = sys_dup-KeepsCounts (λ i. 0) descriptors open_files 1 counted

sys_close-Closes_example :
    (fs' : Files) × (last : Option File) × (sys_close descriptors open_files 0
      ≡ ok (set descriptors 0 none, fs', true, last))
    × IsCounted (λ i. 0) (set descriptors 0 none) fs'
    × (((last ≡ none) × (0 < uses 0 (set descriptors 0 none) + 0))
        ⊎ ((last ≡ some (file_at open_files 0)) × (uses 0 (set descriptors 0 none) + 0 ≡ 0)))
sys_close-Closes_example = sys_close-Closes (λ i. 0) descriptors open_files 0 0 counted refl
