-- ===== src/Tests/Log.antt =====
-- Examples for kernel/log.c: a log at block 2 and a transaction of the blocks 50 and 60.
use hai_os.Base.{
  ℕ, suc, ◌≡◌, refl, sym, ◌∙◌, ◌≢◌, inr, true, false, List, [], ◌∷◌, ◌++◌, arith, ok, count, update,
  update_ne,
}
use hai_os.Log.{Disk, Log, get_head, put_head, begin_op, log_write, end_op, Writes}
use hai_os.Log.Writes.{get_head-put_head}
use hai_os.Log.Passes.{Outside}
use hai_os.Log.Recovery.{IsRestored}
use hai_os.Log.Crash.{IsReady, crashed, outcome, commit-crash}
use hai_os.Log.Space.{begins, Calls, start, then_call, HasRoom, Calls-no_panic}

abbrev blank : Disk
blank = λ b. record { word = λ i. 0 }

abbrev cache : Disk
cache = update (update blank 50 (record { word = λ i. 7 })) 60 (record { word = λ i. 8 })

abbrev two_blocks : Log
two_blocks = record {
  start = 2;
  outstanding = 0;
  committing = true;
  lh = 50 ∷ 60 ∷ [];
  view = cache;
}

blank_head : get_head (blank 2) ≡ []
unfolding get_head
blank_head = refl

clean_elsewhere : (b : ℕ) → Outside 2 b → count b (50 ∷ 60 ∷ []) ≡ 0 → cache b ≡ blank b
clean_elsewhere b o z =
    let n60 : 60 ≢ b = ground arith in
    let n50 : 50 ≢ b = ground arith in
    update_ne (update blank 50 (record { word = λ i. 7 })) 60 b (record { word = λ i. 8 }) n60
    ∙ update_ne blank 50 b (record { word = λ i. 7 }) n50

two_blocks-IsReady : IsReady two_blocks blank
two_blocks-IsReady = record {
  fits = ground arith;
  outside = (inr (ground arith), (inr (ground arith), tt));
  erased = blank_head;
  clean = clean_elsewhere;
}

commit-crash_example : IsRestored 2 (crashed two_blocks 4 blank) (outcome two_blocks 4 blank)
commit-crash_example = commit-crash two_blocks blank 4 two_blocks-IsReady

-- The disk of a machine that stopped when the header was written: block 3 is the copy of block 50.
abbrev stopped : Disk
stopped = update (update blank 3 (cache 50)) 2 (put_head (50 ∷ []) (blank 2))

abbrev installed : Disk
installed = update stopped 50 (cache 50)

head_stopped : get_head (stopped 2) ≡ 50 ∷ []
head_stopped = get_head-put_head (50 ∷ []) (blank 2)

stopped_elsewhere : (b : ℕ) → Outside 2 b → count b (50 ∷ []) ≡ 0 → stopped b ≡ installed b
stopped_elsewhere b o z =
    let ne : 50 ≢ b = ground arith in sym (update_ne stopped 50 b (cache 50) ne)

abbrev idle : ℕ → List ℕ → Log
idle n bs = record { start = 2; outstanding = n; committing = false; lh = bs; view = blank }

idle-HasRoom : HasRoom (idle 0 []) []
idle-HasRoom = record { counted = refl; idle = refl; bounded = tt; room = ground arith }

one_call : Calls (idle 0 []) [] (idle 1 []) (10 ∷ [])
unfolding begin_op
one_call =
    then_call (idle 0 []) (idle 0 []) (idle 1 []) [] [] (10 ∷ []) (start (idle 0 []) [])
      (begins (idle 0 []) (idle 1 []) [] refl)

Calls-no_panic_example :
    ((ms ns : List ℕ) (m b : ℕ)
      → 10 ∷ [] ≡ ms ++ suc m ∷ ns
      → (t : Log) × (log_write (idle 1 []) b ≡ ok t))
    × ((ms ns : List ℕ) (m : ℕ)
        → 10 ∷ [] ≡ ms ++ m ∷ ns
        → (t : Log) × (ws : Writes) × (end_op (idle 1 []) ≡ ok (t, ws)))
Calls-no_panic_example = Calls-no_panic (idle 0 []) (idle 1 []) (10 ∷ []) idle-HasRoom one_call
