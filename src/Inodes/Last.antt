-- ===== src/Inodes/Last.antt =====
-- iput of the last reference to an inode without links.
use hai_os.Fs.{Fs}
