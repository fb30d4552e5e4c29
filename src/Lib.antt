-- ===== src/Lib.antt =====
-- Hai-OS: a model of the kernel, which is a small Unix for RISC-V, and theorems about it.
--
-- The parts and the files that model them:
-- - Params: constants of kernel/param.h, kernel/memlayout.h and kernel/riscv.h.
-- - Str: kernel/string.c over a memory of bytes. Every function has the source's name; a loop is a
--   function of the rounds left. Str.Move has the theorems on memmove and memset, Str.Names those on
--   NUL-terminated text.
-- - Kalloc: kernel/kalloc.c. The record Kmem is `kmem` with the table `refcnt` and the words of the
--   free list that lie in the free pages. Kalloc.Invariant states what the allocator keeps: a list of
--   free pages and a list of pages in use. Kalloc.Free, Kalloc.Init and Kalloc.Sharing have kfree,
--   kinit and the reference counts.
-- - Proc: kernel/proc.c. Proc has what each function does to one `struct proc`; Proc.Table the
--   functions that scan `proc[NPROC]`, with Pids (allocproc), Wakeup, Family (reparent), Wait
--   (kwait) and Fork (kfork, userinit, kexit); Proc.Sched has scheduler's choice; Proc.Policy and Proc.Hog follow priorities and slices,
--   with the timer interrupt of kernel/trap.c.
-- - Pipe: kernel/pipe.c. A call is a sequence of passes between sleeps; Pipe.Schedule puts passes of
--   readers and writers in any order. Pipe.Fifo is the abstract view, a list of bytes.
-- - Log: kernel/log.c. A function gives the new state and its writes to the disk in order; a crash
--   leaves a prefix of the writes. Log.Writes and Log.Passes describe the writes, Log.Recovery the next
--   boot, Log.Crash puts both together, and Log.Space follows concurrent operations.
-- - Fs: kernel/fs.c below directories: the free map, extent lists, bmap, itrunc and Adler-32.
--   Fs.Extents has the abstract view of an inode, the list of its blocks.
-- - Data: readi, writei and inode_checksum of kernel/fs.c. Data.Disk is the file system with the
--   contents of its blocks; Data.Content has the contents of a file byte by byte, Data.Sum the
--   checksum, Data.Grow what bmap keeps of the contents, Data.Stores a store into a block, Data.Read and
--   Data.Write the two loops, Data.RoundTrip a read after a write.
-- - Dir: the directories of kernel/fs.c: dirlookup with its cache (Dir.Cache), the search of dirlink,
--   and skipelem (Dir.Path).
-- - Files: the open files of kernel/file.c and the descriptors of kernel/sysfile.c; Files.Counted follows
--   the counts of references.
-- - Inodes: the table of inodes in memory of kernel/fs.c, with iget in Inodes.Table and iput in
--   Inodes.Last.
-- - Bio: kernel/bio.c, the buffers in order of use; Bio.Cache has bget and brelse.
-- - Vm: kernel/vm.c. A page table is a tree, a word of it a record (Vm.Entry). Vm.Tree has walk, Vm.Map
--   mappages, Vm.Memory the pages that the kernel takes from kalloc, Vm.Refs and Vm.Share the counts
--   of shared pages, Vm.Cow cowfault, Vm.Fork and Vm.Enough uvmcopy, Vm.Isolation a cowfault after
--   uvmcopy, Vm.UserCopy the copies to and from user memory, with copyinstr in Vm.UserCopy.Text.
-- - Spin: kernel/spinlock.c. Spin.Exclusion has the CPUs' steps in any order, Spin.Nesting push_off and
--   pop_off.
-- - Console: the input of kernel/console.c. Console.Line is the abstract view, the lines that are ready
--   and the one that is being typed; Console.Erase and Console.Keys have consoleintr,
--   Console.Reading has consoleread, to which it is an argument what either_copyout can write.
-- - Tests: every theorem of the list below at a concrete input.
-- - Base: names of the library, lists and lookups over native numbers, C's words, and results that
--   may be a panic.
--
-- How the parts meet: the log writes what bread and log_write of kernel/fs.c hand it, with
-- MAXOPBLOCKS blocks reserved for each operation; bmap and itrunc use the free map; readi and writei
-- use bmap; a page table's pages and the pages it maps come from kalloc, which counts the tables that
-- share one; the processes sleep and
-- wake on channels, as pipes and the log do.
--
-- Integers: `uint` and `uint64` are natural numbers with their wrap-around written out where the
-- source can reach it; an `int` that never goes below 0 is a natural number, others are integers.
--
-- Bounds: freerange has fuel for one round for each page below its end;
-- strlen has fuel for the bytes it may read, and gives none where it would read on; the
-- allocating loop of bmap runs at most once for each block up to the one asked for. The loops of readi,
-- writei, copyin, copyout and copyinstr have fuel for one pass for each byte, and a pass moves at least
-- one; the scan of a directory has fuel for one entry for each byte of it; the loop of ^U has fuel for
-- the characters that the buffer holds.
--
-- Not modelled: the order of locks and the passing of the CPU in the middle of a critical section;
-- the kernel's own page table and the freeing of whole tables, traps and context switches; sleep locks;
-- the end of dirlink and namex; reading and writing through descriptors and the other system calls; drivers, consolewrite and printing; user
-- programs. Whether memory can be allocated,
-- whether a user address can be read or written, and the linker's end of the kernel are arguments.
pub mod Base
pub mod Params
pub mod Str
pub mod Kalloc
pub mod Proc
pub mod Pipe
pub mod Log
pub mod Bio
pub mod Fs
pub mod Inodes
pub mod Vm
pub mod Data
pub mod Dir
pub mod Files
pub mod Spin
pub mod Console
pub mod Tests
