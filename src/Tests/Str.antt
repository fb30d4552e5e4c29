-- ===== src/Tests/Str.antt =====
-- Examples for kernel/string.c: "ab" at address 100.
use hai_os.Base.{◌+◌, ◌-◌, ◌≡◌, if◌then◌else◌, update}
use hai_os.Str.{Bytes, memmove}
use hai_os.Str.Move.{in_block, memmove_lem}

abbrev ab : Bytes
ab = update (update (λ a. 0) 100 97) 101 98

memmove_lem_example :
    memmove ab 101 100 2 102 ≡ (if in_block 101 2 102 then ab (100 + (102 - 101)) else ab 102)
memmove_lem_example = memmove_lem ab 101 100 2 102
