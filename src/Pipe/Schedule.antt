-- ===== src/Pipe/Schedule.antt =====
-- Readers and writers of one pipe in any order of their passes.
use hai_os.Base.{
  ℕ, ◌≡◌, sym, ap, ◌∙◌, Bool, Option, List, [], ◌∷◌, ◌++◌, append-nil, append_assoc, arith,
}
use hai_os.Pipe.{Pipe, pipe_init, pipewrite, piperead}
use hai_os.Pipe.Fifo.{contents, IsPipe}
use hai_os.Pipe.Write.{sent, moved, pipewrite-Written}
use hai_os.Pipe.Read.{piperead-DidRead}

-- One pass of a system call on the pipe.
pub data Pass : Type 0 where
  writes : ℕ → Bool → (ℕ → Option ℕ) → Pass
  reads : ℕ → Bool → (ℕ → Bool) → Pass

-- The pipe after some passes, the bytes that writers were told went in, and those that readers got.
pub run : Pipe → List Pass → Pipe × List ℕ × List ℕ
run pi [] = (pi, [], [])
run pi (writes n killed src ∷ rest) =
    let (pi', e) = pipewrite pi n killed src in
    let (pi'', ins, outs) = run pi' rest in (pi'', sent src 0 (moved e) ++ ins, outs)
run pi (reads n killed dst ∷ rest) =
    let (pi', got, e) = piperead pi n killed dst in
    let (pi'', ins, outs) = run pi' rest in (pi'', ins, got ++ outs)

run-stream :
    (pi : Pipe) (passes : List Pass)
    → IsPipe pi
    → let (pi', ins, outs) = run pi passes in
      IsPipe pi' × (outs ++ contents pi' ≡ contents pi ++ ins)
unfolding run
run-stream pi [] v = (v, sym (append-nil (contents pi)))
run-stream pi (writes n killed src ∷ rest) v =
    let w = pipewrite-Written pi n killed src v in
    let pi' = (pipewrite pi n killed src).0 in
    let accepted = sent src 0 (moved (pipewrite pi n killed src).1) in
    let r = run-stream pi' rest w.valid in
    (
      r.0,
      r.1
          ∙ ap (λ xs. xs ++ (run pi' rest).1) w.appended
          ∙ append_assoc (contents pi) accepted (run pi' rest).1,
    )
run-stream pi (reads n killed dst ∷ rest) v =
    let w = piperead-DidRead pi n killed dst v in
    let pi' = (piperead pi n killed dst).0 in
    let got = (piperead pi n killed dst).1 in
    let r = run-stream pi' rest w.valid in
    (
      r.0,
      append_assoc got (run pi' rest).2 (contents (run pi' rest).0)
          ∙ ap (◌++◌ got) r.1
          ∙ sym (append_assoc got (contents pi') (run pi' rest).1)
          ∙ ap (λ xs. xs ++ (run pi' rest).1) (sym w.taken),
    )

-- A new pipe is a stream: after any passes of readers and writers, in any order, the bytes that
-- readers got are, in order, the first of those that writers put in, and the rest is still in the
-- pipe, at most PIPESIZE bytes of it.
pub run_init-stream :
    (bytes : ℕ → ℕ) (passes : List Pass)
    → let (pi', ins, outs) = run (pipe_init bytes) passes in
      IsPipe pi' × (outs ++ contents pi' ≡ ins)
unfolding pipe_init
run_init-stream bytes passes = run-stream (pipe_init bytes) passes (omega arith)
