-- ===== src/FileSystem/Inodes.antt =====
-- The inode table, filesystemFUSE/submission/inode.h and inode.c: getInode, updateInode and removeInode.
-- `t j i` is inode `i` of block `j` of the device. S_ISDIR of sys/stat.h is the parameter `is_dir`.
pub mod Table
use rutgers_cs.Prelude.{ℕ, ◌+◌, ◌/◌, ◌%◌, Bool, true, false, ◌&&◌, if◌then◌else◌, ◌==◌, leb}
use rutgers_cs.FileSystem.Layout.{
  inodes_per_block, itable_idx, get_inode_index, get_inode_block_index,
}

-- `struct inode`, without its padding. The size -1 marks an inode as free; a long is its 64-bit pattern.
pub record Inode : Type 0 where
  pub i_num : ℕ
  pub size : ℕ
  pub file_mode : ℕ
  pub atime : ℕ
  pub ctime : ℕ
  pub mtime : ℕ
  pub user_id : ℕ
  pub group_id : ℕ
  pub n_links : ℕ
  pub direct_block_ptr : ℕ → ℕ
  pub indirect_block_ptr : ℕ
  pub bit_pos : ℕ
  pub num_blocks : ℕ

abbrev pub free_size : ℕ
free_size = 18_446_744_073_709_551_615

-- What memset writes.
abbrev pub zero_inode : Inode
zero_inode = record {
  i_num = 0;
  size = 0;
  file_mode = 0;
  atime = 0;
  ctime = 0;
  mtime = 0;
  user_id = 0;
  group_id = 0;
  n_links = 0;
  direct_block_ptr = λ i. 0;
  indirect_block_ptr = 0;
  bit_pos = 0;
  num_blocks = 0;
}

abbrev pub InodeTable : Type 0
InodeTable = ℕ → ℕ → Inode

-- Inode `i` of block `j` replaced.
abbrev pub write_inode : ℕ → ℕ → Inode → InodeTable → InodeTable
write_inode j i v t k l = if (k == j) && (l == i) then v else t k l

unfoldable pub get_inode : ℕ → InodeTable → Inode
get_inode n t = t (get_inode_block_index n) (get_inode_index n)

unfoldable pub update_inode : Inode → InodeTable → InodeTable
update_inode v t =
    let index = if leb inodes_per_block v.i_num then v.i_num % inodes_per_block else v.i_num in
    write_inode (itable_idx + v.i_num / inodes_per_block) index v t

-- True is 1, and false is -1: the inode is free already, or of the other kind.
unfoldable pub remove_inode : (ℕ → Bool) → ℕ → ℕ → InodeTable → Bool × InodeTable
remove_inode is_dir n mode t =
    let block = itable_idx + n / inodes_per_block in
    let v = t block (get_inode_index n) in
    let removed =
      write_inode block (get_inode_index n) (record zero_inode { size = free_size; i_num = n }) t in
    let same_kind =
      if is_dir v.file_mode then is_dir mode else if is_dir mode then false else true in
    if v.size == free_size then (false, t) else if same_kind then (true, removed) else (false, t)
