-- ===== src/Params.antt =====
-- Constants of kernel/param.h, kernel/memlayout.h and kernel/riscv.h.
use hai_os.Base.{ℕ, ◌+◌, ◌*◌, ◌/◌, ◌%◌, ◌^◌}

-- riscv.h
abbrev pub pgsize : ℕ
pgsize = 4096

-- `(sz + PGSIZE - 1) & ~(PGSIZE - 1)` on 64 bits: the sum wraps, then the low 12 bits are cleared.
abbrev pub pgroundup : ℕ → ℕ
pgroundup sz = (sz + 4095) % 2 ^ 64 / 4096 * 4096

-- memlayout.h
abbrev pub phystop : ℕ
phystop = 0x9000_0000

-- param.h
abbrev pub maxopblocks : ℕ
maxopblocks = 10

abbrev pub logblocks : ℕ
logblocks = 30

abbrev pub mem_low_watermark_pages : ℕ
mem_low_watermark_pages = 64

abbrev pub mem_crit_watermark_pages : ℕ
mem_crit_watermark_pages = 32
