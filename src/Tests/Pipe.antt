-- ===== src/Tests/Pipe.antt =====
-- Examples for kernel/pipe.c.
use hai_os.Base.{◌+◌, ◌-◌, ◌^◌, ◌≡◌, true, false, some, List, [], ◌∷◌, ◌++◌, arith}
use hai_os.Pipe.{Pipe, pipe_init, piperead}
use hai_os.Pipe.Fifo.{contents, IsPipe}
use hai_os.Pipe.Read.{DidRead, piperead-DidRead}
use hai_os.Pipe.Schedule.{Pass, writes, reads, run, run_init-stream}

-- A pipe whose counters are about to wrap, with two bytes in it.
abbrev two_bytes : Pipe
two_bytes = record {
  bytes = λ i. i;
  nread = 2 ^ 32 - 1;
  nwrite = 1;
  readopen = true;
  writeopen = true;
}

two_bytes-IsPipe : IsPipe two_bytes
two_bytes-IsPipe = record {
  read_word = ground arith;
  write_word = ground arith;
  held = ground arith;
}

piperead-DidRead_example :
    DidRead 5 false (λ i. true) two_bytes (piperead two_bytes 5 false (λ i. true))
piperead-DidRead_example = piperead-DidRead two_bytes 5 false (λ i. true) two_bytes-IsPipe

abbrev passes : List Pass
passes =
    writes 2 false (λ i. some (i + 65))
    ∷ reads 1 false (λ i. true)
    ∷ writes 1 false (λ i. some 90)
    ∷ reads 9 false (λ i. true)
    ∷ []

run_init-stream_example :
    let (pi', ins, outs) = run (pipe_init (λ i. 0)) passes in
    IsPipe pi' × (outs ++ contents pi' ≡ ins)
run_init-stream_example = run_init-stream (λ i. 0) passes
