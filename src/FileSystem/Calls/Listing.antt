-- ===== src/FileSystem/Calls/Listing.antt =====
-- sfs_readdir of filesystemFUSE/submission/sfs.c on the list of the entries of a directory.
use rutgers_cs.Prelude.{
  ℕ, zero, suc, ◌+◌, ◌≤◌, ◌<◌, ◌≡◌, refl, true, false, List, [], ◌∷◌, ◌++◌, if◌then◌else◌, ◌==◌,
  ltb, arith, ap,
}
use rutgers_cs.Prelude.Run.{ok}
use rutgers_cs.FileSystem.Layout.{block_size, dblock_idx}
use rutgers_cs.FileSystem.Inodes.{get_inode}
use rutgers_cs.FileSystem.Entries.{DirEntry, DirBlock}
use rutgers_cs.FileSystem.Entries.Order.{Entries, total}
use rutgers_cs.FileSystem.Disk.{Disk, Host, done}
use rutgers_cs.FileSystem.Lookup.{slash, inode_from_path}
use rutgers_cs.FileSystem.Calls.{list_from, list_in, read_dir}

-- The names of the entries, without those of the number -1.
abbrev pub names_in : List DirEntry → List (List ℕ)
names_in [] = []
names_in (e ∷ es) = if e.i_num == 4_294_967_295 then names_in es else e.file_name ∷ names_in es

list_from-names_in :
    (fuel o checked : ℕ) (b : DirBlock) (es : List DirEntry)
    → Entries b o es
    → checked + total es ≤ block_size
    → total es < fuel
    → list_from fuel o checked b ≡ ok (names_in es, checked + total es)
unfolding list_from
list_from-names_in zero o checked b es v low enough = absurd (omega arith)
list_from-names_in (suc fuel) o checked b [] v low enough =
    let e = v o (omega arith) in let z : checked + 0 ≡ checked = omega arith in rw (e, z) refl
list_from-names_in (suc fuel) o checked b (e ∷ es) v low enough =
    let (here, pos, rest) = v in
    let go : ((b o).dir_length == 0) ≡ false = rw here (ground arith) in
    let within : ltb block_size checked ≡ false = ground arith in
    let z : checked + e.dir_length + total es ≡ checked + (e.dir_length + total es) = omega arith in
    let r =
      list_from-names_in fuel (o + e.dir_length) (checked + e.dir_length) b es rest (omega arith)
        (omega arith) in
    rw (go, within, here, r, z) refl

append-nil : (xs : List (List ℕ)) → xs ++ [] ≡ xs
append-nil [] = refl
append-nil (x ∷ xs) = ap (λ ys. x ∷ ys) (append-nil xs)

-- sfs_readdir of the root, where that is a directory of one block with the number 0: the result is 0, and
-- the names of the entries that have a number other than -1 are listed in their order. One unit of fuel
-- more than the bytes of a block is enough.
pub read_dir-names_in :
    (host : Host) (fuel : ℕ) (d : Disk) (es : List DirEntry)
    → host.is_dir (get_inode 0 d.inodes).file_mode ≡ true
    → (get_inode 0 d.inodes).i_num ≡ 0
    → (get_inode 0 d.inodes).num_blocks ≡ 1
    → Entries (d.entries (dblock_idx + (get_inode 0 d.inodes).direct_block_ptr 0)) 0 es
    → total es ≤ block_size
    → block_size < fuel
    → read_dir host fuel (slash ∷ []) d ≡ ok (done, names_in es)
unfolding read_dir list_in inode_from_path
read_dir-names_in host fuel d es dir number one v low enough =
    let r = list_from-names_in fuel 0 0 _ es v (omega arith) (omega arith) in
    rw (number, dir, one, r, append-nil (names_in es)) refl
