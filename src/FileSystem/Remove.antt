-- ===== src/FileSystem/Remove.antt =====
-- deleteAllInodeEntries of filesystemFUSE/submission/inode.c, and sfs_unlink and sfs_rmdir of sfs.c.
pub mod Bare
pub mod Unlink
pub mod Directory
pub mod RoundTrip
pub mod Tests
use rutgers_cs.Prelude.{
  ℕ, zero, suc, ◌+◌, Bool, update, true, false, ◌&&◌, not, List, [], ◌∷◌, if◌then◌else◌, ◌==◌, ltb,
  leb, Option, none, some,
}
use rutgers_cs.Prelude.Run.{Run, ok, fault, out_of_fuel, ◌>>=◌}
use rutgers_cs.FileSystem.Layout.{block_size, dblock_idx}
use rutgers_cs.FileSystem.Inodes.{Inode, get_inode, remove_inode}
use rutgers_cs.FileSystem.Entries.{DirEntry, DirBlock, cut_entry, dot, dot_dot, delete_inode_entry}
use rutgers_cs.FileSystem.Disk.{Disk, Host, mode_dir, Status, done, positive_fault, failed}
use rutgers_cs.FileSystem.Lookup.{same_name, copy_path, inode_from_path, get_parent_inode_from_path}

-- removeInode on the device.
abbrev pub remove : Host → ℕ → ℕ → Disk → Bool × Disk
remove host n mode d =
    let (removed, t) = remove_inode host.is_dir n mode d.inodes in
    (removed, record d { inodes = t })

-- The memory of malloc: which addresses are in use, and the one that it gives next.
pub record Heap : Type 0 where
  pub live : ℕ → Bool
  pub next : ℕ

abbrev pub malloc : Heap → ℕ × Heap
malloc h = (h.next, record { live = update h.live h.next true; next = h.next + 1 })

-- free of memory that is not in use is undefined behaviour.
unfoldable pub free : ℕ → Heap → Run Heap
free p h = if h.live p then ok (record h { live = update h.live p false }) else fault

abbrev pub is_child : DirEntry → Bool
is_child e = ltb 0 e.i_num && not (same_name e.file_name dot_dot) && not (same_name e.file_name dot)

-- The loop over the `k` blocks of the directory from its block `i` on, with the loop over the entries of a block as
-- `entries`. What stays in the buffer is not written to the device.
unfoldable pub delete_all_from :
    (DirBlock → Heap × Disk → Run (Heap × Disk)) → ℕ → ℕ → Inode → Heap × Disk → Run (Heap × Disk)
delete_all_from entries zero i v s = ok s
delete_all_from entries (suc k) i v (h, d) =
    entries (d.entries (v.direct_block_ptr i + dblock_idx)) (h, d) >>= λ s.
    delete_all_from entries k (i + 1) v s

-- free(_inode), at the end.
abbrev pub free_inode : ℕ → Heap × Disk → Run (Heap × Disk)
free_inode p (h, d) = free p h >>= λ h'. ok (h', d)

-- The loop over the entries of a block. For each entry other than "." and ".." currInode is read, its inode is
-- removed, the entry is cut out of the buffer, deleteAllInodeEntries is called for currInode, which ends with its
-- free, and currInode is freed once more. That free never succeeds, so the loop does not go on behind it.
unfoldable pub delete_entries_from : Host → ℕ → ℕ → DirBlock → Heap × Disk → Run (Heap × Disk)
delete_entries_from host zero o b s = out_of_fuel
delete_entries_from host (suc fuel) o b (h, d) =
    let rest = delete_entries_from host fuel (o + (b o).dir_length) b (h, d) in
    let v = get_inode (b o).i_num d.inodes in
    let (curr, h') = malloc h in
    let (removed, d') = remove host v.i_num v.file_mode d in
    let child = cut_entry o b >>= λ b'.
    delete_all_from (delete_entries_from host fuel 0) v.num_blocks 0 v (h', d') >>= λ s.
    free_inode curr s >>= λ s'. free_inode curr s' in
    if leb block_size o
    then ok (h, d)
    else if (b o).dir_length == 0
    then ok (h, d)
    else if is_child (b o)
    then child
    else rest

-- deleteAllInodeEntries of the inode `v`, which stands in memory at `p`.
unfoldable pub delete_all_entries : Host → ℕ → ℕ → Inode → Heap × Disk → Run (Heap × Disk)
delete_all_entries host fuel p v s =
    delete_all_from (delete_entries_from host fuel 0) v.num_blocks 0 v s >>= free_inode p

-- deleteInodeEntry on the device; the inode -1 as the parent is undefined behaviour.
unfoldable pub delete_entry : ℕ → ℕ → Option ℕ → Disk → Run (Bool × Disk)
delete_entry fuel n parent d = elim parent [
  | none ↦ fault
  | some p ↦ delete_inode_entry fuel n (get_inode p d.inodes) d.entries >>= λ (deleted, blocks).
      ok (deleted, record d { entries = blocks })
]

-- The results of removeInode and deleteInodeEntry, 1 and -1, both count as true: the status stays 0.
unfoldable pub unlink : Host → ℕ → List ℕ → Disk → Run (Status × Disk)
unlink host fuel path d = copy_path path >>= λ p. inode_from_path fuel p d >>= λ file.
    get_parent_inode_from_path fuel p d >>= λ parent. elim file [
      | none ↦ ok (done, d)
      | some n ↦
          let v = get_inode n d.inodes in
          let (removed, d') = remove host v.i_num v.file_mode d in
          let cut = delete_entry fuel n parent d' >>= λ (deleted, d''). ok (done, d'') in
          if n == 0 then ok (done, d) else if v.i_num == 0 then ok (done, d) else cut
    ]

-- The directory's inode is the only memory of malloc that concerns the call.
abbrev pub no_heap : Heap
no_heap = record { live = λ p. false; next = 1 }

unfoldable pub rmdir : Host → ℕ → List ℕ → Disk → Run (Status × Disk)
rmdir host fuel path d = copy_path path >>= λ p. inode_from_path fuel p d >>= λ dir.
    get_parent_inode_from_path fuel p d >>= λ parent. elim dir [
      | none ↦ ok (positive_fault, d)
      | some n ↦
          let v = get_inode n d.inodes in
          let (removed, d') = remove host n mode_dir d in
          let cut = delete_entry fuel n parent d' >>= λ (deleted, d'').
          let (directory, h) = malloc no_heap in
          let all = delete_all_entries host fuel directory v (h, d'') >>= λ (h', g). ok (done, g) in
          if deleted then all else ok (failed, d'') in
          if n == 0 then ok (positive_fault, d) else if removed then cut else ok (failed, d')
    ]
