-- ===== src/FileSystem/Inodes/Table.antt =====
-- The inode table of filesystemFUSE/submission/inode.c as a map from inode numbers to inodes.
use rutgers_cs.Prelude.{
  ℕ, ◌≡◌, ◌≢◌, refl, Bool, true, false, ◌&&◌, if◌then◌else◌, ◌==◌, arith, inl, inr, ◌⊎◌,
}
use rutgers_cs.FileSystem.Layout.{get_inode_index, get_inode_block_index}
use rutgers_cs.FileSystem.Inodes.{
  Inode, InodeTable, free_size, zero_inode, write_inode, get_inode, update_inode, remove_inode,
}

-- Two inodes in the same place are one.
pub same_place :
    (k n : ℕ)
    → ((get_inode_block_index k == get_inode_block_index n)
        && (get_inode_index k == get_inode_index n))
      ≡ (k == n)
unfolding get_inode_index get_inode_block_index
same_place k n = ground arith

pub get_inode-write_inode :
    (k n : ℕ) (v : Inode) (t : InodeTable)
    → get_inode k (write_inode (get_inode_block_index n) (get_inode_index n) v t)
      ≡ (if k == n then v else get_inode k t)
unfolding get_inode
get_inode-write_inode k n v t = rw (same_place k n) refl

update_inode_lem :
    (v : Inode) (t : InodeTable)
    → update_inode v t ≡ write_inode (get_inode_block_index v.i_num) (get_inode_index v.i_num) v t
unfolding update_inode get_inode_index get_inode_block_index
update_inode_lem v t = refl

-- getInode after updateInode gives the inode that was written under its own number, and what was there
-- before under every other number.
pub get_inode-update_inode :
    (k : ℕ) (v : Inode) (t : InodeTable)
    → get_inode k (update_inode v t) ≡ (if k == v.i_num then v else get_inode k t)
get_inode-update_inode k v t = rw (update_inode_lem v t) (get_inode-write_inode k v.i_num v t)

-- What removeInode returns and leaves behind where the inode is in use and of the kind asked for.
removes :
    (is_dir : ℕ → Bool) (n mode : ℕ) (t : InodeTable)
    → (get_inode n t).size ≢ free_size
    → is_dir (get_inode n t).file_mode ≡ is_dir mode
    → remove_inode is_dir n mode t ≡ (
      true,
      write_inode
          (get_inode_block_index n)
          (get_inode_index n)
          (record zero_inode { size = free_size; i_num = n })
          t,
    )
unfolding remove_inode get_inode get_inode_block_index
removes is_dir n mode t used kind = ground (arith, used, kind)

-- removeInode gives -1 and changes nothing where the inode is free already, or is a directory and a file is
-- asked for, or the other way round.
remove_inode-refuses :
    (is_dir : ℕ → Bool) (n mode : ℕ) (t : InodeTable)
    → ((get_inode n t).size ≡ free_size) ⊎ (is_dir (get_inode n t).file_mode ≢ is_dir mode)
    → remove_inode is_dir n mode t ≡ (false, t)
unfolding remove_inode get_inode get_inode_block_index
remove_inode-refuses is_dir n mode t (inl free) = ground (arith, free)
remove_inode-refuses is_dir n mode t (inr kind) = ground (arith, kind)

-- removeInode of an inode in use and of the kind asked for gives 1 and frees it: it keeps its number, has
-- the size -1, no other inode changes, and a second removal gives -1 and changes nothing.
pub remove_inode-frees :
    (is_dir : ℕ → Bool) (n mode : ℕ) (t : InodeTable)
    → (get_inode n t).size ≢ free_size
    → is_dir (get_inode n t).file_mode ≡ is_dir mode
    → (t' : InodeTable) × (remove_inode is_dir n mode t ≡ (true, t'))
      × ((get_inode n t').size ≡ free_size)
      × ((get_inode n t').i_num ≡ n)
      × ((k : ℕ) → k ≢ n → get_inode k t' ≡ get_inode k t)
      × (remove_inode is_dir n mode t' ≡ (false, t'))
remove_inode-frees is_dir n mode t used kind = (
  t',
  removes is_dir n mode t used kind,
  size,
  rw (get_inode-write_inode n n _ t) (ground arith),
  λ k ne. rw (get_inode-write_inode k n _ t) (ground (arith, ne)),
  remove_inode-refuses is_dir n mode t' (inl size),
)
  where
    t' : InodeTable
    t' =
        write_inode (get_inode_block_index n) (get_inode_index n)
          (record zero_inode { size = free_size; i_num = n }) t

    size : (get_inode n t').size ≡ free_size
    size = rw (get_inode-write_inode n n _ t) (ground arith)
