-- ===== src/FileSystem/Lookup/Names.antt =====
-- findInode of filesystemFUSE/submission/inode.c on the list of the entries of a directory.
use rutgers_cs.Prelude.{
  ℕ, zero, suc, ◌+◌, ◌≤◌, ◌<◌, ◌≡◌, refl, false, List, [], ◌∷◌, if◌then◌else◌, ◌==◌, ltb, Option,
  none, some, arith, inl, inr, Bool-cases, Option-cases,
}
use rutgers_cs.Prelude.Run.{ok}
use rutgers_cs.FileSystem.Layout.{block_size, dblock_idx}
use rutgers_cs.FileSystem.Inodes.{Inode, InodeTable, get_inode}
use rutgers_cs.FileSystem.Entries.{DirEntry, DirBlock}
use rutgers_cs.FileSystem.Entries.Order.{Entries, total}
use rutgers_cs.FileSystem.Disk.{Disk}
use rutgers_cs.FileSystem.Lookup.{same_name, find_from, find_in, find_inode}

-- The number of the first entry with the name.
abbrev pub lookup : List ℕ → List DirEntry → Option ℕ
lookup name [] = none
lookup name (e ∷ es) = if same_name e.file_name name then some e.i_num else lookup name es

abbrev pub inode_at : InodeTable → Option ℕ → Option Inode
inode_at t none = none
inode_at t (some n) = some (get_inode n t)

find_from-lookup :
    (fuel o checked : ℕ) (name : List ℕ) (b : DirBlock) (es : List DirEntry)
    → Entries b o es
    → checked + total es ≤ block_size
    → total es < fuel
    → (c : ℕ) × (find_from fuel o checked name b ≡ ok (lookup name es, c))
unfolding find_from
find_from-lookup zero o checked name b es v low enough = absurd (omega arith)
find_from-lookup (suc fuel) o checked name b [] v low enough =
    let e = v o (omega arith) in (checked, rw e refl)
find_from-lookup (suc fuel) o checked name b (e ∷ es) v low enough =
    let (here, pos, rest) = v in
    let go : ((b o).dir_length == 0) ≡ false = rw here (ground arith) in
    let within : ltb block_size checked ≡ false = ground arith in
    elim (Bool-cases (same_name e.file_name name)) [
      | inl hit ↦ (checked, rw (go, within, here, hit) refl)
      | inr miss ↦
          let (c, r) =
            find_from-lookup fuel (o + e.dir_length) (checked + e.dir_length) name b es rest
              (omega arith) (omega arith) in
          (c, rw (go, within, here, miss) r)
    ]

-- findInode in a directory of one block gives the inode of the first entry with the name, and nothing
-- exactly where no entry has it; one unit of fuel more than the bytes of a block is enough.
pub find_inode-lookup :
    (fuel parent : ℕ) (name : List ℕ) (d : Disk) (es : List DirEntry)
    → (get_inode parent d.inodes).num_blocks ≡ 1
    → Entries (d.entries ((get_inode parent d.inodes).direct_block_ptr 0 + dblock_idx)) 0 es
    → total es ≤ block_size
    → block_size < fuel
    → find_inode fuel name parent d ≡ ok (inode_at d.inodes (lookup name es))
unfolding find_inode find_in
find_inode-lookup fuel parent name d es one v low enough =
    let (c, r) = find_from-lookup fuel 0 0 name _ es v (omega arith) (omega arith) in
    rw (one, r)
      (elim (Option-cases (lookup name es)) [ inl e ↦ rw e refl | inr (n, e) ↦ rw e refl ])
