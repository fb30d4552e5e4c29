-- ===== src/Log.antt =====
-- kernel/log.c: the redo log. `view b` is the content that bread returns for block `b`: the cached
-- copy, which log_write pins until it is installed, or the disk's. A function returns the new state
-- and its writes to the disk in order (its calls of bwrite), so that a crash after any of them can
-- be stated: the disk is then the old one under a prefix of the writes.
pub mod Writes
pub mod Passes
pub mod Recovery
pub mod Crash
pub mod Space
use hai_os.Base.{
  ℕ, zero, suc, ◌+◌, ◌-◌, ◌*◌, Bool, true, false, Option, none, some, List, [], ◌∷◌, ◌++◌, ltb, leb,
  ◌==◌, if◌then◌else◌, length, Run, ok, panic, update,
}
use hai_os.Params.{maxopblocks, logblocks}

-- A block as the 32-bit words in it.
pub record Block : Type 0 where
  pub word : ℕ → ℕ

abbrev pub Disk : Type 0
Disk = ℕ → Block

abbrev pub Writes : Type 0
Writes = List (ℕ × Block)

-- `struct log` with the cache. `lh` is `lh.block[0..n)`.
pub record Log : Type 0 where
  pub start : ℕ
  pub outstanding : ℕ
  pub committing : Bool
  pub lh : List ℕ
  pub view : Disk

-- The words of `block[]` from index `i` on.
pub put_words : ℕ → List ℕ → (ℕ → ℕ) → ℕ → ℕ
put_words i [] w = w
put_words i (b ∷ bs) w = put_words (i + 1) bs (update w i b)

pub get_words : ℕ → ℕ → (ℕ → ℕ) → List ℕ
get_words i zero w = []
get_words i (suc n) w = w i ∷ get_words (i + 1) n w

-- A `struct logheader` in a block: `n`, then `block[]`.
pub put_head : List ℕ → Block → Block
unfolding put_words
put_head bs b = record { word = put_words 1 bs (update b.word 0 (length bs)) }

unfoldable pub get_head : Block → List ℕ
unfolding get_words
get_head b = get_words 1 (b.word 0) b.word

-- `bread(dev, b)`, a change of its data to `v`, and `bwrite`.
abbrev pub rewrite_block : ℕ → Block → Log → Log
rewrite_block b v s = record s { view = update s.view b v }

unfoldable pub write_head : Log → Log × Writes
unfolding put_head
write_head s =
    let v = put_head s.lh (s.view s.start) in (rewrite_block s.start v s, (s.start, v) ∷ [])

unfoldable pub read_head : Log → Log
unfolding get_head
read_head s = record s { lh = get_head (s.view s.start) }

-- The loop of write_log from index `tail`, over the rest of `lh.block`.
pub write_log_from : ℕ → List ℕ → Log → Log × Writes
write_log_from tail [] s = (s, [])
write_log_from tail (b ∷ bs) s =
    let v = s.view b in
    let at = s.start + tail + 1 in
    let (s', ws) = write_log_from (tail + 1) bs (rewrite_block at v s) in (s', (at, v) ∷ ws)

-- The loop of install_trans. The unpinning of an installed block is the end of its place in `lh`.
pub install_trans_from : ℕ → List ℕ → Log → Log × Writes
install_trans_from tail [] s = (s, [])
install_trans_from tail (b ∷ bs) s =
    let v = s.view (s.start + tail + 1) in
    let (s', ws) = install_trans_from (tail + 1) bs (rewrite_block b v s) in (s', (b, v) ∷ ws)

-- One part after another.
infixl 5 ◌and_then◌
abbrev pub ◌and_then◌ : Log × Writes → (Log → Log × Writes) → Log × Writes
r and_then f = ((f r.0).0, r.1 ++ (f r.0).1)

abbrev pub write_log : Log → Log × Writes
write_log s = write_log_from 0 s.lh s

abbrev pub install_trans : Log → Log × Writes
install_trans s = install_trans_from 0 s.lh s

abbrev pub clear : Log → Log × Writes
clear s = (record s { lh = [] }, [])

unfoldable pub commit : Log → Log × Writes
unfolding write_log_from write_head install_trans_from
commit s =
    if ltb 0 (length s.lh)
    then write_log s and_then write_head and_then install_trans and_then clear and_then write_head
    else (s, [])

unfoldable pub recover_from_log : Log → Log × Writes
unfolding read_head install_trans_from write_head
recover_from_log s = install_trans (read_head s) and_then clear and_then write_head

-- initlog at boot: an empty cache over the disk.
unfoldable pub initlog : ℕ → Disk → Log × Writes
unfolding recover_from_log
initlog start disk =
    recover_from_log
      (record { start = start; outstanding = 0; committing = false; lh = []; view = disk })

-- One pass of begin_op: `none` where it sleeps.
unfoldable pub begin_op : Log → Option Log
begin_op s =
    if s.committing
    then none
    else if ltb logblocks (length s.lh + (s.outstanding + 1) * maxopblocks)
    then none
    else some (record s { outstanding = s.outstanding + 1 })

-- The search of log_write, and the block number stored where it ends.
absorb : ℕ → List ℕ → List ℕ
absorb b [] = b ∷ []
absorb b (x ∷ xs) = if x == b then b ∷ xs else x ∷ absorb b xs

unfoldable pub log_write : Log → ℕ → Run Log
unfolding absorb
log_write s b =
    if leb logblocks (length s.lh)
    then panic "too big a transaction"
    else if ltb s.outstanding 1
    then panic "log_write outside of trans"
    else ok (record s { lh = absorb b s.lh })

-- end_op: the last operation commits, with `committing` set until the writes are done. The source
-- tests the count after subtracting 1; it is an int, so that a call with none outstanding would
-- leave -1 and not commit. Here the count stays 0 then.
unfoldable pub end_op : Log → Run (Log × Writes)
unfolding commit
end_op s =
    if s.committing
    then panic "log.committing"
    else if s.outstanding == 1
    then (let (s', ws) = commit (record s { outstanding = s.outstanding - 1; committing = true }) in
        ok (record s' { committing = false }, ws))
    else ok (record s { outstanding = s.outstanding - 1 }, [])
