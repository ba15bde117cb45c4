-- ===== src/FileSystem/Create.antt =====
-- createInode and createRoot of filesystemFUSE/submission/inode.c, and createDEntry of dirent.c. A `fault`
-- is undefined behaviour of the code, or a data block that could not be allocated: its number, -1 as an
-- unsigned, passes every test, and leads into the inode table.
pub mod Entry
pub mod Found
use rutgers_cs.Prelude.{
  ℕ, zero, suc, ◌+◌, Bool, true, false, List, if◌then◌else◌, ◌==◌, ltb, leb, length, update, Option,
  none, some,
}
use rutgers_cs.Prelude.Run.{Run, ok, fault, out_of_fuel, ◌>>=◌}
use rutgers_cs.FileSystem.Layout.{
  block_size, dblock_idx, itable_idx, get_inode_index, get_inode_block_index,
}
use rutgers_cs.FileSystem.Blocks.{Device, find_free_block, find_free_inode}
use rutgers_cs.FileSystem.Inodes.{Inode, InodeTable, free_size, get_inode, write_inode}
use rutgers_cs.FileSystem.Entries.{
  DirBlock, dentry_min, room, new_entry, kind_dir, kind_file, initialize_entries, create_in,
  delete_inode_entry,
}
use rutgers_cs.FileSystem.Disk.{
  Disk, Host, ndblock_ptrs, mode_dir_755, write_entries, Status, done, no_entry, positive_fault,
}
use rutgers_cs.FileSystem.Lookup.{split_last, inode_from_path}

abbrev pub kind_of : Host → ℕ → ℕ
kind_of host mode = if host.is_dir mode then kind_dir else kind_file

-- The walk of the second loop of createDEntry stops at an entry with the number 0, too.
unfoldable pub walk_new : ℕ → ℕ → DirBlock → Run ℕ
walk_new zero o d = out_of_fuel
walk_new (suc fuel) o d =
    let rest = walk_new fuel (o + (d o).dir_length) d in
    if (d o).dir_length == 0
    then ok o
    else if leb block_size o
    then ok o
    else if (d o).i_num == 0
    then ok o
    else rest

-- The loop that adds a block to the directory `parent`, which has `first` blocks when it begins: the block
-- with the number numBlocks is read, and the new one is written. Where no block is free, nothing changes
-- from one round to the next.
unfoldable pub grow : ℕ → ℕ → ℕ → ℕ → List ℕ → ℕ → Disk → Run (Bool × Disk)
grow zero first n kind name parent d = out_of_fuel
grow (suc fuel) first n kind name parent d =
    let v = get_inode parent d.inodes in
    if leb ndblock_ptrs v.num_blocks
    then ok (false, d)
    else let (found, b) = find_free_block d.bitmaps in
      elim found [
        | none ↦ grow fuel first n kind name parent (record d { bitmaps = b })
        | some j ↦
            let v' = record v {
              direct_block_ptr = update v.direct_block_ptr v.num_blocks j;
              num_blocks = v.num_blocks + 1;
            } in
            let d' = record d {
              bitmaps = b;
              inodes =
                  write_inode (get_inode_block_index parent) (get_inode_index parent) v' d.inodes;
            } in
            let old = d'.entries (dblock_idx + v'.num_blocks) in
            let rest = grow fuel first n kind name parent d' in
            walk_new fuel 0 old >>= λ o.
            if ltb (dentry_min + length name) (room o)
            then ok (
              true,
              write_entries (dblock_idx + v'.direct_block_ptr first)
                  (update old o (new_entry n kind name)) d',
            )
            else rest
      ]

-- createDEntry: in the blocks of the directory, in a new block, or the entry is deleted, which is not there.
unfoldable pub create_entry : Host → ℕ → ℕ → List ℕ → ℕ → ℕ → Disk → Run Disk
create_entry host fuel n name parent mode d =
    let v = get_inode parent d.inodes in
    create_in fuel v.num_blocks 0 n (kind_of host mode) name v d.entries >>= λ (placed, blocks).
    if placed
    then ok (record d { entries = blocks })
    else grow fuel v.num_blocks n (kind_of host mode) name parent d >>= λ (grown, d').
        if grown
        then ok d'
        else delete_inode_entry fuel n (get_inode parent d'.inodes) d'.entries
          >>= λ (deleted, blocks'). ok (record d' { entries = blocks' })

-- The inode `n` as createInode sets it up; the times ctime and the group are left as they were.
unfoldable pub new_inode : Host → ℕ → ℕ → ℕ → Inode → Inode
new_inode host n mode j v = record v {
  i_num = n;
  size = 0;
  atime = host.time;
  mtime = host.time;
  user_id = host.uid;
  file_mode = mode;
  n_links = if host.is_dir mode then 2 else 1;
  num_blocks = 1;
  bit_pos = get_inode_index n;
  direct_block_ptr = update v.direct_block_ptr 0 j;
}

-- Both inodes of the block are written as they were read, the new one apart.
abbrev pub write_back : ℕ → Inode → InodeTable → InodeTable → InodeTable
write_back n v old t k i =
    if k == get_inode_block_index n then (if i == get_inode_index n then v else old k i) else t k i

-- createInode from the allocated data block `j` on.
unfoldable pub place_inode : Host → ℕ → List ℕ → ℕ → ℕ → ℕ → Disk → Run (Status × Disk)
place_inode host fuel path mode n j d = elim (split_last path) [
  | none ↦ fault
  | some (parent_path, name) ↦
      let v = new_inode host n mode j (get_inode n d.inodes) in
      inode_from_path fuel parent_path d >>= λ p. elim p [
        | none ↦ fault
        | some parent ↦
            let dir = write_entries (j + dblock_idx) (initialize_entries n parent) d in
            let start = if host.is_dir mode then dir else d in
            create_entry host fuel n name parent mode start >>= λ d'.
            ok (done, record d' { inodes = write_back n v d.inodes d'.inodes })
      ]
]

unfoldable pub create_inode : Host → ℕ → List ℕ → ℕ → Disk → Run (Status × Disk)
create_inode host fuel path mode d =
    let (number, b) = find_free_inode d.bitmaps in
    elim number [
      | none ↦ ok (no_entry, record d { bitmaps = b })
      | some n ↦
          let (found, b') = find_free_block b in
          elim found [
            | none ↦
                if (get_inode n d.inodes).size == free_size
                then fault
                else ok (positive_fault, record d { bitmaps = b })
            | some j ↦
                let made = place_inode host fuel path mode n j (record d { bitmaps = b' }) in
                if (get_inode n d.inodes).size == free_size
                then made
                else ok (positive_fault, record d { bitmaps = b })
          ]
    ]

-- The root; its time atime is left as it was.
abbrev pub root_inode : Host → ℕ → Inode → Inode
root_inode host j v = record v {
  file_mode = mode_dir_755;
  n_links = 2;
  ctime = host.time;
  mtime = host.time;
  group_id = host.egid;
  bit_pos = 0;
  user_id = host.uid;
  size = 0;
  direct_block_ptr = update v.direct_block_ptr 0 j;
  num_blocks = 1;
  i_num = 0;
}

-- createRoot once findFreeBlock has returned.
abbrev pub place_root : Host → Disk → Option ℕ × Device → Run Disk
place_root host d (none, b) = fault
place_root host d (some j, b) = ok (
    write_entries (j + dblock_idx) (initialize_entries 0 0) (record d {
      bitmaps = b;
      inodes = write_inode itable_idx 0 (root_inode host j (d.inodes itable_idx 0)) d.inodes;
    }))

-- createRoot on the table that is built in memory: block and place of the root are 0 and 0 in it.
unfoldable pub create_root : Host → Disk → Run Disk
create_root host d = place_root host d (find_free_block d.bitmaps)
