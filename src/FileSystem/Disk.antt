-- ===== src/FileSystem/Disk.antt =====
-- The device of filesystemFUSE/submission as its functions use it. A block of the device is read as what
-- was written to it: a bitmap, two inodes, the entries of a directory, or the bytes of a file.
use rutgers_cs.Prelude.{ℕ, leb, Bool, if◌then◌else◌, ◌==◌}
use rutgers_cs.FileSystem.Blocks.{Device}
use rutgers_cs.FileSystem.Inodes.{InodeTable}
use rutgers_cs.FileSystem.Entries.{DirBlock}

pub record Disk : Type 0 where
  pub bitmaps : Device
  pub inodes : InodeTable
  pub entries : ℕ → DirBlock
  pub bytes : ℕ → ℕ → ℕ

-- What the code takes from the headers of the system and from its context: S_ISDIR and S_ISREG, and the
-- results of time(NULL), getuid() and getegid().
pub record Host : Type 0 where
  pub is_dir : ℕ → Bool
  pub is_reg : ℕ → Bool
  pub time : ℕ
  pub uid : ℕ
  pub egid : ℕ

-- A size that is negative as a long.
abbrev pub is_negative : ℕ → Bool
is_negative n = leb 9_223_372_036_854_775_808 n

-- S_IFDIR and S_IFDIR | 0755.
abbrev pub mode_dir : ℕ
mode_dir = 16_384

abbrev pub mode_dir_755 : ℕ
mode_dir_755 = 16_877

abbrev pub ndblock_ptrs : ℕ
ndblock_ptrs = 10

abbrev pub name_len : ℕ
name_len = 255

-- One block of directory entries is written.
abbrev pub write_entries : ℕ → DirBlock → Disk → Disk
write_entries j b d = record d { entries = λ k. if k == j then b else d.entries k }

-- A result of a call of FUSE: 0, or the number of an error with its sign, where -ENOENT, ENOENT, EFAULT and -1
-- occur.
pub data Status : Type 0 where
  done : Status
  no_entry : Status
  positive_no_entry : Status
  positive_fault : Status
  failed : Status
