-- ===== src/FileSystem/Format.antt =====
-- initializeSuperBlock of filesystemFUSE/submission/block.c, and sfs_init of sfs.c.
pub mod Fresh
use rutgers_cs.Prelude.{ℕ, ◌+◌, ◌-◌, ◌*◌, Bool, true, false, ◌&&◌, if◌then◌else◌, ◌==◌, ltb, leb}
use rutgers_cs.Prelude.Run.{Run, ok, fault, out_of_fuel, ◌>>=◌}
use rutgers_cs.FileSystem.Layout.{
  block_size, total_inodes, num_inode_blocks, inodes_per_block, nbit_block, ibitmap_idx,
  bbitmap_idx, itable_idx,
}
use rutgers_cs.FileSystem.Bitmap.{Bitmap, set_bit}
use rutgers_cs.FileSystem.Blocks.{Device, block_write}
use rutgers_cs.FileSystem.Inodes.{Inode, InodeTable, free_size}
use rutgers_cs.FileSystem.Disk.{Disk, Host}
use rutgers_cs.FileSystem.Create.{create_root}

-- `struct sblock`, without dirtyFlag, which is not set, and the two lists, which are NULL.
pub record SuperBlock : Type 0 where
  pub fs_size : ℕ
  pub num_inodes : ℕ
  pub num_blocks : ℕ
  pub block_bytes : ℕ
  pub num_free_blocks : ℕ
  pub num_free_inodes : ℕ
  pub index_next_free_block : ℕ
  pub index_next_free_inode : ℕ
  pub magic_number : ℕ
  pub root_inode_num : ℕ

abbrev pub total_fs_size : ℕ
total_fs_size = (8 + 16) * 1024 * 1024

-- TOTAL_FS_SIZE/BLOCK_SIZE
abbrev pub total_blocks : ℕ
total_blocks = 49_152

abbrev pub num_reserved_blocks : ℕ
num_reserved_blocks = num_inode_blocks + 4

abbrev pub magic : ℕ
magic = 90_210

abbrev pub initialize_super_block : SuperBlock
initialize_super_block = record {
  fs_size = total_fs_size;
  block_bytes = block_size;
  num_inodes = total_inodes;
  num_blocks = total_blocks;
  num_free_blocks = total_blocks - num_reserved_blocks;
  index_next_free_block = total_blocks - (total_blocks - num_reserved_blocks) - 1;
  num_free_inodes = total_inodes - 1;
  index_next_free_inode = 1;
  root_inode_num = 0;
  magic_number = magic;
}

abbrev zero_bitmap : Bitmap
zero_bitmap i = 0

-- The bitmaps that are written. The last block that is written to the first block bitmap is new memory with
-- the contents `fresh`.
unfoldable pub format_bitmaps : Bitmap → Device → Device
format_bitmaps fresh d =
    let inode_bitmap = block_write ibitmap_idx (set_bit zero_bitmap 0) d in
    block_write bbitmap_idx fresh (
      block_write (bbitmap_idx + 2) zero_bitmap (
        block_write (bbitmap_idx + 1) zero_bitmap
          (block_write bbitmap_idx zero_bitmap inode_bitmap)))

-- The inode table in memory, whose contents are `junk` before the loop.
unfoldable pub format_table : (ℕ → Inode) → ℕ → Inode
format_table junk n =
    if ltb n total_inodes then record (junk n) { i_num = n; size = free_size } else junk n

-- The table on the device.
unfoldable pub store_table : (ℕ → Inode) → InodeTable → InodeTable
store_table table t k i =
    if leb itable_idx k && ltb k (itable_idx + num_inode_blocks) && ltb i inodes_per_block
    then table ((k - itable_idx) * inodes_per_block + i)
    else t k i

-- sfs_init, on a device with the magic number `found` in its block for the struct sblock: the block, and the device.
unfoldable pub init : Host → Bitmap → (ℕ → Inode) → SuperBlock → Disk → Run (SuperBlock × Disk)
init host fresh junk old d =
    let bitmaps = format_bitmaps fresh d.bitmaps in
    let table = store_table (format_table junk) d.inodes in
    let formatted = create_root host (record d { bitmaps = bitmaps; inodes = table }) >>= λ d'.
    ok (initialize_super_block, d') in
    if old.magic_number == magic then ok (old, d) else formatted
