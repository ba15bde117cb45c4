-- ===== src/FileSystem/Lookup.antt =====
-- Paths and their inodes: findInode, inodeFromPath, getParentInodeFP and fillStat of
-- filesystemFUSE/submission/inode.c. A `fault` is undefined behaviour of the code: a string longer than its
-- array, a path without '/', or the inode with the number -1.
pub mod Names
pub mod Root
pub mod Child
use rutgers_cs.Prelude.{
  ℕ, zero, suc, ◌+◌, Bool, true, false, ◌&&◌, List, [], ◌∷◌, if◌then◌else◌, ◌==◌, ltb, length,
  Option, none, some, not,
}
use rutgers_cs.Prelude.Run.{Run, ok, fault, out_of_fuel, ◌>>=◌}
use rutgers_cs.FileSystem.Layout.{block_size, dblock_idx, itable_idx, total_inodes}
use rutgers_cs.FileSystem.Inodes.{Inode, get_inode}
use rutgers_cs.FileSystem.Entries.{DirBlock}
use rutgers_cs.FileSystem.Disk.{Disk, name_len}

abbrev pub slash : ℕ
slash = 47

-- strcmp(a, b) == 0
abbrev pub same_name : List ℕ → List ℕ → Bool
same_name [] [] = true
same_name [] (y ∷ ys) = false
same_name (x ∷ xs) [] = false
same_name (x ∷ xs) (y ∷ ys) = (x == y) && same_name xs ys

abbrev pub put_name : List ℕ → List (List ℕ) → List (List ℕ)
put_name [] names = names
put_name (c ∷ cs) names = (c ∷ cs) ∷ names

-- The characters before the first '/', and the names behind it.
abbrev pub split : List ℕ → List ℕ × List (List ℕ)
split [] = ([], [])
split (c ∷ cs) =
    let (name, names) = split cs in
    if c == slash then ([], put_name name names) else (c ∷ name, names)

-- What strtok with "/" gives in turn.
abbrev pub names_of : List ℕ → List (List ℕ)
names_of path = let (name, names) = split path in put_name name names

-- The path up to its last '/', which strrchr finds, and the name behind it.
abbrev pub split_last : List ℕ → Option (List ℕ × List ℕ)
split_last [] = none
split_last (c ∷ cs) = elim (split_last cs) [
  | some (parent, name) ↦ some (c ∷ parent, name)
  | none ↦ if c == slash then some (c ∷ [], cs) else none
]

-- strcpy into an array of NAME_LEN characters.
abbrev pub copy_path : List ℕ → Run (List ℕ)
copy_path path = if ltb (length path) name_len then ok path else fault

-- The loop over the entries of a block from the offset `o` on: the number in the first entry with the name.
-- `checked`, the bytes that were read, is not set to 0 for a new block.
unfoldable pub find_from : ℕ → ℕ → ℕ → List ℕ → DirBlock → Run (Option ℕ × ℕ)
find_from zero o checked name d = out_of_fuel
find_from (suc fuel) o checked name d =
    let rest = find_from fuel (o + (d o).dir_length) (checked + (d o).dir_length) name d in
    if (d o).dir_length == 0
    then ok (none, checked)
    else if ltb block_size checked
    then ok (none, checked)
    else if same_name (d o).file_name name
    then ok (some (d o).i_num, checked)
    else rest

-- The loop over the `k` blocks of a directory from its block `i` on.
unfoldable pub find_in : ℕ → ℕ → ℕ → ℕ → List ℕ → Inode → (ℕ → DirBlock) → Run (Option ℕ)
find_in fuel zero i checked name parent blocks = ok none
find_in fuel (suc k) i checked name parent blocks =
    find_from fuel 0 checked name (blocks (parent.direct_block_ptr i + dblock_idx))
    >>= λ (r, checked'). elim r [
      | some n ↦ ok (some n)
      | none ↦ find_in fuel k (i + 1) checked' name parent blocks
    ]

-- The inode of the name in the directory `parent`; `none` where the code sets iNum to -1.
unfoldable pub find_inode : ℕ → List ℕ → ℕ → Disk → Run (Option Inode)
find_inode fuel name parent d =
    let v = get_inode parent d.inodes in
    find_in fuel v.num_blocks 0 0 name v d.entries >>= λ r. elim r [
      | some n ↦ ok (some (get_inode n d.inodes))
      | none ↦ ok none
    ]

-- The test behind the loop of inodeFromPath and of sfs_getattr.
abbrev pub is_found : ℕ → Inode → Bool
is_found parent v = ltb 0 v.i_num && not (v.i_num == parent) && ltb v.i_num total_inodes

-- The loop over the names. Where a name is missing and another one follows, the code reads on in the
-- directory with the number -1.
unfoldable pub follow : ℕ → List (List ℕ) → ℕ → Inode → Disk → Run (Option ℕ)
follow fuel [] parent v d = ok (if is_found parent v then some v.i_num else none)
follow fuel (name ∷ names) parent v d = find_inode fuel name v.i_num d >>= λ r. elim r [
  | none ↦ (elim names [ [] ↦ ok none | _ ∷ _ ↦ fault ])
  | some w ↦ let rest = follow fuel names v.i_num w d in if w.i_num == 0 then ok none else rest
]

-- `none` is -1.
unfoldable pub inode_from_path : ℕ → List ℕ → Disk → Run (Option ℕ)
inode_from_path fuel path d =
    let inside = copy_path path >>= λ p. elim p [
      | [] ↦ fault
      | c ∷ cs ↦
          if c == slash then follow fuel (names_of (c ∷ cs)) 0 (d.inodes itable_idx 0) d else fault
    ] in
    if same_name path (slash ∷ []) then ok (some 0) else inside

unfoldable pub get_parent_inode_from_path : ℕ → List ℕ → Disk → Run (Option ℕ)
get_parent_inode_from_path fuel path d = elim (split_last path) [
  | none ↦ fault
  | some (parent, name) ↦ inode_from_path fuel parent d
]

-- `struct stat` of sys/stat.h, its fields that are set.
pub record Stat : Type 0 where
  pub st_ino : ℕ
  pub st_mode : ℕ
  pub st_nlink : ℕ
  pub st_uid : ℕ
  pub st_gid : ℕ
  pub st_size : ℕ
  pub st_blksize : ℕ
  pub st_blocks : ℕ
  pub st_atime : ℕ
  pub st_mtime : ℕ
  pub st_ctime : ℕ

abbrev pub fill_stat : Inode → Stat
fill_stat v = record {
  st_ino = v.i_num;
  st_mode = v.file_mode;
  st_nlink = v.n_links;
  st_uid = v.user_id;
  st_gid = v.group_id;
  st_size = v.size;
  st_blksize = block_size;
  st_blocks = v.num_blocks;
  st_atime = v.atime;
  st_mtime = v.mtime;
  st_ctime = v.ctime;
}
