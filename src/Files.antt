-- ===== src/Files.antt =====
-- kernel/file.c and the descriptors of kernel/sysfile.c: the table of open files with its counts of
-- references. A pointer to a file is its index. What fileclose does to the pipe or the inode of a file
-- that nobody has open any more is left to the caller, which gets the file as it was.
pub mod Counted
use hai_os.Base.{
  ℕ, suc, ◌+◌, ◌-◌, Bool, true, false, Option, none, some, List, [], ◌∷◌, ltb, ◌==◌, if◌then◌else◌,
  get_or, set, set_with, Run, ok, panic, ◌>>=◌, map_some,
}

-- `struct file`: the type, FD_NONE being 0, and `ref`; the pipe, inode and offset are not touched here.
pub record File : Type 0 where
  pub type : ℕ
  pub ref : ℕ

abbrev pub Files : Type 0
Files = List File

-- `ofile` of a process: NOFILE entries, `none` being the null pointer.
abbrev pub Descriptors : Type 0
Descriptors = List (Option ℕ)

abbrev pub no_file : File
no_file = record { type = 0; ref = 0 }

abbrev pub file_at : Files → ℕ → File
file_at fs i = get_or fs i no_file

abbrev pub next_file : File → Option (ℕ × Files) → Option (ℕ × Files)
next_file f = map_some (λ r. (suc r.0, f ∷ r.1))

pub filealloc : Files → Option (ℕ × Files)
filealloc [] = none
filealloc (f ∷ fs) =
    let rest = next_file f (filealloc fs) in
    if f.ref == 0 then some (0, record f { ref = 1 } ∷ fs) else rest

unfoldable pub filedup : ℕ → Files → Run Files
filedup i fs =
    if ltb (file_at fs i).ref 1
    then panic "filedup"
    else ok (set_with fs i (λ f. record f { ref = f.ref + 1 }))

-- The file as it was, when its last reference goes.
unfoldable pub fileclose : ℕ → Files → Run (Files × Option File)
fileclose i fs =
    if ltb (file_at fs i).ref 1
    then panic "fileclose"
    else if ltb 0 ((file_at fs i).ref - 1)
    then ok (set_with fs i (λ f. record f { ref = f.ref - 1 }), none)
    else ok (set_with fs i (λ f. no_file), some (file_at fs i))

-- A descriptor below 0 or beyond the table answers like one that is not open.
abbrev pub argfd : Descriptors → ℕ → Option ℕ
argfd ds fd = get_or ds fd none

pub fdalloc : Descriptors → ℕ → Option (ℕ × Descriptors)
fdalloc [] i = none
fdalloc (none ∷ ds) i = some (0, some i ∷ ds)
fdalloc (some j ∷ ds) i = map_some (λ r. (suc r.0, some j ∷ r.1)) (fdalloc ds i)

-- sys_dup; `none` is -1.
pub dup_into :
    ℕ → Descriptors → Files → Option (ℕ × Descriptors) → Run (Descriptors × Files × Option ℕ)
unfolding filedup
dup_into i ds fs none = ok (ds, fs, none)
dup_into i ds fs (some (fd, ds')) = filedup i fs >>= λ fs'. ok (ds', fs', some fd)

pub dup_file : Descriptors → Files → Option ℕ → Run (Descriptors × Files × Option ℕ)
unfolding dup_into fdalloc
dup_file ds fs none = ok (ds, fs, none)
dup_file ds fs (some i) = dup_into i ds fs (fdalloc ds i)

unfoldable pub sys_dup : Descriptors → Files → ℕ → Run (Descriptors × Files × Option ℕ)
unfolding dup_file
sys_dup ds fs fd = dup_file ds fs (argfd ds fd)

-- sys_close: whether it returns 0, and the file to close.
pub close_file : ℕ → Descriptors → Files → Option ℕ → Run (Descriptors × Files × Bool × Option File)
unfolding fileclose
close_file fd ds fs none = ok (ds, fs, false, none)
close_file fd ds fs (some i) = fileclose i fs >>= λ r. ok (set ds fd none, r.0, true, r.1)

unfoldable pub sys_close : Descriptors → Files → ℕ → Run (Descriptors × Files × Bool × Option File)
unfolding close_file
sys_close ds fs fd = close_file fd ds fs (argfd ds fd)
