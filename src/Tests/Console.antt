-- ===== src/Tests/Console.antt =====
-- Examples for the console: counters that are about to wrap.
use hai_os.Base.{◌-◌, ◌^◌, ◌≡◌, true, arith, ◌==◌, if◌then◌else◌}
use hai_os.Console.{Cons, consoleintr, read_line}
use hai_os.Console.Line.{input, view, IsConsole, press}
use hai_os.Console.Keys.{consoleintr-press}
use hai_os.Console.Reading.{Reads, take_line, read_line-Reads}

-- Nothing typed, and a line with one character and the newline.
abbrev idle : Cons
idle = record { buf = λ i. 0; r = 2 ^ 32 - 1; w = 2 ^ 32 - 1; e = 2 ^ 32 - 1 }

abbrev one_line : Cons
one_line = record { buf = λ i. if i == 127 then 97 else 10; r = 2 ^ 32 - 1; w = 1; e = 1 }

idle-IsConsole : IsConsole idle
unfolding view
idle-IsConsole = record {
  words = (ground arith, ground arith, ground arith);
  fits = ground arith;
  open_line = tt;
}

one_line-IsConsole : IsConsole one_line
unfolding view
one_line-IsConsole = record {
  words = (ground arith, ground arith, ground arith);
  fits = ground arith;
  open_line = tt;
}

consoleintr-press_example :
    (input (consoleintr 97 idle).0 ≡ press 97 (input idle)) × IsConsole (consoleintr 97 idle).0
consoleintr-press_example = consoleintr-press 97 idle idle-IsConsole

read_line-Reads_example :
    Reads one_line
      (read_line 5 0 (λ i. true) one_line)
      (take_line 5 0 (λ i. true) (input one_line).ready)
read_line-Reads_example = read_line-Reads 5 0 (λ i. true) one_line one_line-IsConsole
