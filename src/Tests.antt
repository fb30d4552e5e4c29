-- ===== src/Tests.antt =====
-- Examples: each theorem of the list in Lib.antt at a concrete input.
mod Kalloc
mod Str
mod Pipe
mod Log
mod Fs
mod Bio
mod Inodes
mod Proc
mod Vm
mod Data
mod Dir
mod Spin
mod Console
mod Files
