-- ===== src/FileSystem/Entries.antt =====
-- The directory entries of filesystemFUSE/submission/dirent.c and inode.c: initializeDEntries, the place
-- of a new entry in createDEntry, and deleteInodeEntry. `d o` is the struct dirEntry that is read at the
-- offset `o` of a block; a name is a list of characters.
pub mod Order
pub mod Cut
use rutgers_cs.Prelude.{
  ℕ, zero, suc, ◌+◌, ◌-◌, ◌*◌, ◌%◌, ◌^◌, Bool, true, false, List, [], ◌∷◌, if◌then◌else◌, ◌==◌, ltb,
  leb, length, update, Option, none, some,
}
use rutgers_cs.Prelude.Run.{Run, fault, ok, out_of_fuel, ◌>>=◌}
use rutgers_cs.FileSystem.Layout.{block_size, dblock_idx}
use rutgers_cs.FileSystem.Inodes.{Inode}

-- `struct dirEntry`.
pub record DirEntry : Type 0 where
  pub i_num : ℕ
  pub file_type : ℕ
  pub dir_length : ℕ
  pub file_name : List ℕ

abbrev pub zero_entry : DirEntry
zero_entry = record { i_num = 0; file_type = 0; dir_length = 0; file_name = [] }

abbrev pub DirBlock : Type 0
DirBlock = ℕ → DirEntry

abbrev pub zero_block : DirBlock
zero_block o = zero_entry

abbrev pub dentry_min : ℕ
dentry_min = 8

-- The length of an entry is an unsigned short.
abbrev pub new_entry : ℕ → ℕ → List ℕ → DirEntry
new_entry n kind name = record {
  i_num = n;
  file_type = kind;
  dir_length = (dentry_min + length name) % 2 ^ 16;
  file_name = name;
}

-- 'd', 'f', and "." and "..".
abbrev pub kind_dir : ℕ
kind_dir = 100

abbrev pub kind_file : ℕ
kind_file = 102

abbrev pub dot : List ℕ
dot = 46 ∷ []

abbrev pub dot_dot : List ℕ
dot_dot = 46 ∷ 46 ∷ []

-- The block of a new directory.
unfoldable pub initialize_entries : ℕ → ℕ → DirBlock
initialize_entries n parent =
    let first = new_entry n kind_dir dot in
    update (update zero_block 0 first) first.dir_length (new_entry parent kind_dir dot_dot)

-- The walk over the entries from the offset `o` on, to the first one without a length.
unfoldable pub walk : ℕ → ℕ → DirBlock → Run ℕ
walk zero o d = out_of_fuel
walk (suc fuel) o d =
    let rest = walk fuel (o + (d o).dir_length) d in
    if (d o).dir_length == 0 then ok o else if leb block_size o then ok o else rest

-- BLOCK_SIZE - bytesChecked, in a size_t.
abbrev pub room : ℕ → ℕ
room checked = (block_size + 2 ^ 64 - checked) % 2 ^ 64

-- A new entry behind the others; `none` where the block has no room for it.
unfoldable pub add_entry : ℕ → ℕ → ℕ → List ℕ → DirBlock → Run (Option DirBlock)
add_entry fuel n kind name d = walk fuel 0 d >>= λ o.
    if ltb (dentry_min + length name) (room o)
    then ok (some (update d o (new_entry n kind name)))
    else ok none

-- The block with what is behind the entry at `o` moved over it, and its end filled with 0.
abbrev pub without : ℕ → DirBlock → DirBlock
without o d x =
    let deleted = (d o).dir_length in
    if ltb x o then d x else if ltb (x + deleted) block_size then d (x + deleted) else zero_entry

-- memcpy of the rest of the block over the entry at `o`, and memset of the end. Where the rest is longer than
-- the entry, the two areas of memcpy overlap, and where the entry is longer than the block, the number of bytes
-- is negative: both are undefined behaviour.
unfoldable pub cut_entry : ℕ → DirBlock → Run DirBlock
cut_entry o d =
    let deleted = (d o).dir_length in
    if ltb block_size (o + deleted)
    then fault
    else if ltb deleted (block_size - o - deleted)
    then fault
    else ok (without o d)

-- The loop over the entries of a block from the offset `o` on; `none` where none has the number.
unfoldable pub delete_from : ℕ → ℕ → ℕ → DirBlock → Run (Option DirBlock)
delete_from zero o n d = out_of_fuel
delete_from (suc fuel) o n d =
    let rest = delete_from fuel (o + (d o).dir_length) n d in
    let cut = cut_entry o d >>= λ d'. ok (some d') in
    if (d o).dir_length == 0
    then ok none
    else if leb block_size o
    then ok none
    else if (d o).i_num == n
    then cut
    else rest

-- The loop over the `k` blocks of a directory from its block `i` on; true is 1, and false is -1.
unfoldable pub delete_in : ℕ → ℕ → ℕ → ℕ → Inode → (ℕ → DirBlock) → Run (Bool × (ℕ → DirBlock))
delete_in fuel zero i n parent blocks = ok (false, blocks)
delete_in fuel (suc k) i n parent blocks =
    let j = parent.direct_block_ptr i + dblock_idx in
    let rest = delete_in fuel k (i + 1) n parent blocks in
    delete_from fuel 0 n (blocks j) >>= λ r. elim r [
      | some d ↦ ok (true, λ l. if l == j then d else blocks l)
      | none ↦ rest
    ]

unfoldable pub delete_inode_entry : ℕ → ℕ → Inode → (ℕ → DirBlock) → Run (Bool × (ℕ → DirBlock))
delete_inode_entry fuel n parent blocks = delete_in fuel parent.num_blocks 0 n parent blocks

-- The loop of createDEntry over the `k` blocks that the directory has, from its block `i` on; false where
-- none has room, and the code goes on to ask for a new block.
unfoldable pub create_in :
    ℕ → ℕ → ℕ → ℕ → ℕ → List ℕ → Inode → (ℕ → DirBlock) → Run (Bool × (ℕ → DirBlock))
create_in fuel zero i n kind name parent blocks = ok (false, blocks)
create_in fuel (suc k) i n kind name parent blocks =
    let j = dblock_idx + parent.direct_block_ptr i in
    let rest = create_in fuel k (i + 1) n kind name parent blocks in
    add_entry fuel n kind name (blocks j) >>= λ r. elim r [
      | some d ↦ ok (true, λ l. if l == j then d else blocks l)
      | none ↦ rest
    ]

-- The number in the second entry of the directory.
unfoldable pub get_parent_inode : Inode → (ℕ → DirBlock) → ℕ
get_parent_inode child blocks =
    let d = blocks (child.direct_block_ptr 0 + dblock_idx) in (d (d 0).dir_length).i_num
