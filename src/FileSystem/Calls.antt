-- ===== src/FileSystem/Calls.antt =====
-- sfs_getattr, sfs_create, sfs_mkdir, sfs_open, sfs_opendir and sfs_readdir of
-- filesystemFUSE/submission/sfs.c.
pub mod Listing
use rutgers_cs.Prelude.{
  ℕ, zero, suc, ◌+◌, Bool, List, [], ◌∷◌, ◌++◌, if◌then◌else◌, ◌==◌, ltb, leb, Option, none, some,
}
use rutgers_cs.Prelude.Run.{Run, ok, fault, out_of_fuel, ◌>>=◌}
use rutgers_cs.FileSystem.Layout.{block_size, dblock_idx, itable_idx}
use rutgers_cs.FileSystem.Inodes.{Inode, get_inode}
use rutgers_cs.FileSystem.Entries.{DirBlock}
use rutgers_cs.FileSystem.Disk.{
  Disk, Host, mode_dir_755, Status, done, no_entry, positive_no_entry, failed, is_negative,
  is_negative,
}
use rutgers_cs.FileSystem.Lookup.{
  slash, same_name, names_of, copy_path, find_inode, is_found, inode_from_path, Stat, fill_stat,
}
use rutgers_cs.FileSystem.Create.{create_inode}

-- The end of sfs_getattr, with the status so far: what is written to statbuf.
abbrev pub answer : Status → ℕ → Inode → Status × Option Stat
answer status parent v =
    if is_found parent v then (status, some (fill_stat v)) else (no_entry, none)

-- The loop of sfs_getattr over the names. It leaves at an inode that is free; where a name is missing and
-- another one follows, it reads on in the directory with the number -1.
unfoldable pub get_attr_from : ℕ → List (List ℕ) → ℕ → Inode → Disk → Run (Status × Option Stat)
get_attr_from fuel [] parent v d = ok (answer done parent v)
get_attr_from fuel (name ∷ names) parent v d = find_inode fuel name v.i_num d >>= λ r. elim r [
  | none ↦ (elim names [ [] ↦ ok (no_entry, none) | _ ∷ _ ↦ fault ])
  | some w ↦
      let rest = get_attr_from fuel names v.i_num w d in
      if is_negative w.size then ok (answer no_entry v.i_num w) else rest
]

unfoldable pub get_attr : ℕ → List ℕ → Disk → Run (Status × Option Stat)
get_attr fuel path d =
    let root = d.inodes itable_idx 0 in
    let inside = get_attr_from fuel (names_of path) 0 root d in
    copy_path path >>= λ p. elim p [
      | [] ↦ ok (no_entry, none)
      | c ∷ cs ↦
          if same_name (c ∷ cs) (slash ∷ [])
          then ok (done, some (fill_stat root))
          else if c == slash
          then inside
          else ok (no_entry, none)
    ]

unfoldable pub create_file : Host → ℕ → List ℕ → ℕ → Disk → Run (Status × Disk)
create_file host fuel path mode d = copy_path path >>= λ p. create_inode host fuel p mode d

unfoldable pub mkdir : Host → ℕ → List ℕ → Disk → Run (Status × Disk)
mkdir host fuel path d = copy_path path >>= λ p. create_inode host fuel p mode_dir_755 d

-- sfs_open and sfs_opendir with their test of the mode.
unfoldable pub open_as : (ℕ → Bool) → ℕ → List ℕ → Disk → Run Status
open_as test fuel path d = inode_from_path fuel path d >>= λ r. elim r [
  | none ↦ ok positive_no_entry
  | some n ↦ if test (get_inode n d.inodes).file_mode then ok done else ok positive_no_entry
]

unfoldable pub open_file : Host → ℕ → List ℕ → Disk → Run Status
open_file host fuel path d = open_as host.is_reg fuel path d

unfoldable pub open_dir : Host → ℕ → List ℕ → Disk → Run Status
open_dir host fuel path d = open_as host.is_dir fuel path d

-- The loop of sfs_readdir over the entries of a block: the names that are passed to the filler, and the bytes
-- that were read, which is not set to 0 for a new block. The number -1 is the pattern of an unsigned.
unfoldable pub list_from : ℕ → ℕ → ℕ → DirBlock → Run (List (List ℕ) × ℕ)
list_from zero o checked b = out_of_fuel
list_from (suc fuel) o checked b =
    let rest =
      list_from fuel (o + (b o).dir_length) (checked + (b o).dir_length) b >>= λ (names, end).
      ok (if (b o).i_num == 4_294_967_295 then names else (b o).file_name ∷ names, end) in
    if (b o).dir_length == 0
    then ok ([], checked)
    else if ltb block_size checked
    then ok ([], checked)
    else rest

unfoldable pub list_in : ℕ → ℕ → ℕ → ℕ → Inode → Disk → Run (List (List ℕ))
list_in fuel zero i checked v d = ok []
list_in fuel (suc k) i checked v d =
    list_from fuel 0 checked (d.entries (dblock_idx + v.direct_block_ptr i)) >>= λ (names, end).
    list_in fuel k (i + 1) end v d >>= λ more. ok (names ++ more)

unfoldable pub read_dir : Host → ℕ → List ℕ → Disk → Run (Status × List (List ℕ))
read_dir host fuel path d = inode_from_path fuel path d >>= λ r. elim r [
  | none ↦ ok (no_entry, [])
  | some n ↦
      let v = get_inode n d.inodes in
      let names = list_in fuel v.num_blocks 0 0 v d >>= λ xs. ok (done, xs) in
      if leb 2_147_483_648 v.i_num
      then ok (failed, [])
      else if host.is_dir v.file_mode
      then names
      else ok (failed, [])
]
