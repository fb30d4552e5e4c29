-- ===== src/Vm/UserCopy.antt =====
-- kernel/vm.c: copies between the kernel and user addresses. What goes to the kernel's buffer is a
-- list of bytes. The process has size `sz` and the table that is passed.
pub mod Text
use hai_os.Base.{
  ℕ, zero, suc, ◌+◌, ◌-◌, min, Bool, true, false, Option, none, some, List, [], ◌∷◌, ◌++◌, leb,
  ◌==◌, if◌then◌else◌, length, take, drop, Run, ok, ◌>>=◌, ◌>>◌, map_some,
}
use hai_os.Params.{pgsize}
use hai_os.Str.{Bytes, block, put_bytes}
use hai_os.Vm.{pgrounddown, maxva, Root, Machine, walkaddr, pte_at}
use hai_os.Vm.Ops.{vmfault, cowfault}

-- The inner loop of copyinstr: the bytes, up to a NUL, and whether there was one.
pub copy_run : Bytes → ℕ → ℕ → List ℕ × Bool
copy_run b p zero = ([], false)
copy_run b p (suc n) =
    let (xs, got) = copy_run b (p + 1) n in if b p == 0 then (0 ∷ [], true) else (b p ∷ xs, got)

-- The outer loop, for at most `fuel` pages.
pub copyinstr_from : ℕ → Root → Bytes → ℕ → ℕ → List ℕ × Bool
unfolding copy_run walkaddr
copyinstr_from zero t b va max = ([], false)
copyinstr_from (suc fuel) t b va max =
    let va0 = pgrounddown va in
    let pa0 = walkaddr t va0 in
    let n = min max (pgsize - (va - va0)) in
    let (xs, got) = copy_run b (pa0 + (va - va0)) n in
    let (ys, got') = copyinstr_from fuel t b (va0 + pgsize) (max - n) in
    if max == 0
    then ([], false)
    else if pa0 == 0
    then ([], false)
    else if got
    then (xs, true)
    else (xs ++ ys, got')

-- The bytes stored at `dst`, and whether the result is 0. A page has at least one byte, so that `max`
-- pages are enough.
unfoldable pub copyinstr : Root → Bytes → ℕ → ℕ → List ℕ × Bool
unfolding copyinstr_from
copyinstr t b va max = copyinstr_from max t b va max

-- The address of the page at `va0`, from the table or by vmfault, and 0 without one.
unfoldable pub user_page : ℕ → ℕ → Machine → Root → ℕ → Run (Machine × Root × ℕ)
unfolding vmfault walkaddr
user_page end sz m t va0 =
    if walkaddr t va0 == 0 then vmfault end sz m t va0 else ok (m, t, walkaddr t va0)

-- The loop of copyin; `none` for the bytes is -1.
pub copyin_from : ℕ → ℕ → ℕ → Machine → Root → ℕ → ℕ → Run (Machine × Root × Option (List ℕ))
unfolding user_page
copyin_from zero end sz m t va len = ok (m, t, some [])
copyin_from (suc fuel) end sz m t va len =
    let va0 = pgrounddown va in
    let n = min len (pgsize - (va - va0)) in
    if len == 0
    then ok (m, t, some [])
    else (user_page end sz m t va0 >>= λ r.
        (if r.2 == 0
          then ok (r.0, r.1, none)
          else (copyin_from fuel end sz r.0 r.1 (va0 + pgsize) (len - n) >>= λ q.
              ok (q.0, q.1, map_some (◌++◌ (block r.0.bytes (r.2 + (va - va0)) n)) q.2))))

unfoldable pub copyin : ℕ → ℕ → Machine → Root → ℕ → ℕ → Run (Machine × Root × Option (List ℕ))
unfolding copyin_from
copyin end sz m t va len = copyin_from len end sz m t va len

-- copyout's check that the page at `va0` may be written, which breaks copy-on-write: its address, or
-- 0 for the result -1.
unfoldable pub writable_page : ℕ → Machine → Root → ℕ → ℕ → Run (Machine × Root × ℕ)
unfolding cowfault pte_at walkaddr
writable_page end m t va0 pa0 =
    if (pte_at t va0).flags.w
    then ok (m, t, pa0)
    else if (pte_at t va0).flags.cow
    then (cowfault end m t va0 >>= λ r. ok (r.0, r.1, if r.2 then walkaddr r.1 va0 else 0))
    else ok (m, t, 0)

pub copyout_from : ℕ → ℕ → ℕ → Machine → Root → ℕ → List ℕ → Run (Machine × Root × Bool)
unfolding user_page writable_page
copyout_from zero end sz m t va src = ok (m, t, true)
copyout_from (suc fuel) end sz m t va src =
    let va0 = pgrounddown va in
    let n = min (length src) (pgsize - (va - va0)) in
    if length src == 0
    then ok (m, t, true)
    else if leb maxva va0
    then ok (m, t, false)
    else (user_page end sz m t va0 >>= λ r.
        (if r.2 == 0
          then ok (r.0, r.1, false)
          else (writable_page end r.0 r.1 va0 r.2 >>= λ w.
              (if w.2 == 0
                then ok (w.0, w.1, false)
                else copyout_from fuel end sz
                    (record w.0 { bytes = put_bytes w.0.bytes (w.2 + (va - va0)) (take n src) }) w.1
                    (va0 + pgsize) (drop n src)))))

unfoldable pub copyout : ℕ → ℕ → Machine → Root → ℕ → List ℕ → Run (Machine × Root × Bool)
unfolding copyout_from
copyout end sz m t va src = copyout_from (length src) end sz m t va src

-- The byte that a process reads at an address.
unfoldable pub user_byte : Root → Bytes → ℕ → Option ℕ
user_byte t b va =
    let pa0 = walkaddr t (pgrounddown va) in
    if pa0 == 0 then none else some (b (pa0 + (va - pgrounddown va)))

-- What a byte adds to the string after it.
pub string_step : Option ℕ → List ℕ × Bool → List ℕ × Bool
string_step none r = ([], false)
string_step (some c) r = if c == 0 then (0 ∷ [], true) else (c ∷ r.0, r.1)

-- The bytes at `va` up to a NUL, at most `n`, byte by byte, and whether the NUL is there.
pub user_string : ℕ → Root → Bytes → ℕ → List ℕ × Bool
unfolding string_step user_byte
user_string zero t b va = ([], false)
user_string (suc n) t b va = string_step (user_byte t b va) (user_string n t b (va + 1))
