-- ===== src/Tests/Dir.antt =====
-- Examples for directories and paths.
use hai_os.Base.{ℕ, refl, false, Option, some, List, [], ◌∷◌, arith, ◌==◌, if◌then◌else◌}
use hai_os.Dir.{Dirent, DirCache, find_name}
use hai_os.Dir.Cache.{Found, find_name-Found}
use hai_os.Dir.Path.{SkipResult, skipelem, skipelem-SkipResult}

-- A directory with an entry of inode 5 after an empty one, and its cache before it is built.
abbrev directory : ℕ → Option Dirent
directory off = some (record { inum = if off == 0 then 0 else 5; name = 97 ∷ 0 ∷ [] })

abbrev no_cache : DirCache
no_cache = record { valid = false; size_snapshot = 0; truncated = false; entries = [] }

find_name-Found_example :
    Found directory 32 (97 ∷ 0 ∷ []) (find_name directory 32 no_cache (97 ∷ 0 ∷ []))
find_name-Found_example =
    find_name-Found directory 32 no_cache (97 ∷ 0 ∷ []) (λ off lt. (_, refl)) (λ v. absurd cc)

-- The path "/a//b".
abbrev path : List ℕ
path = 47 ∷ 97 ∷ 47 ∷ 47 ∷ 98 ∷ []

skipelem-SkipResult_example : SkipResult path (skipelem path [])
skipelem-SkipResult_example = skipelem-SkipResult path [] (
  λ e. ground (arith, e),
  (
    λ e. ground (arith, e),
    (λ e. ground (arith, e), (λ e. ground (arith, e), (λ e. ground (arith, e), tt))),
  ),
)
