-- ===== src/FileSystem/Remove/Directory.antt =====
-- sfs_rmdir of filesystemFUSE/submission/sfs.c for a name in the root.
use rutgers_cs.Prelude.{
  ℕ, ◌+◌, ◌≤◌, ◌<◌, ◌≡◌, ◌≢◌, refl, Bool, true, false, update, List, [], ◌∷◌, if◌then◌else◌, ◌==◌,
  ltb, some, arith, inl, inr, Bool-cases, ◌∙◌, length, has, ap,
}
use rutgers_cs.Prelude.Run.{Run, ok, fault, ◌>>=◌}
use rutgers_cs.FileSystem.Layout.{block_size, dblock_idx, total_inodes}
use rutgers_cs.FileSystem.Inodes.{InodeTable, get_inode, free_size, remove_inode}
use rutgers_cs.FileSystem.Inodes.Table.{remove_inode-frees}
use rutgers_cs.FileSystem.Entries.{DirEntry}
use rutgers_cs.FileSystem.Entries.Order.{Entries, total}
use rutgers_cs.FileSystem.Entries.Cut.{drop_first, overlaps}
use rutgers_cs.FileSystem.Disk.{Disk, Host, Status, done, mode_dir, name_len}
use rutgers_cs.FileSystem.Lookup.{slash, is_found, inode_from_path, get_parent_inode_from_path}
use rutgers_cs.FileSystem.Lookup.Names.{lookup}
use rutgers_cs.FileSystem.Lookup.Root.{reached, inode_from_path-lookup}
use rutgers_cs.FileSystem.Remove.{
  Heap, malloc, no_heap, free, free_inode, delete_entry, delete_all_entries, rmdir,
}
use rutgers_cs.FileSystem.Remove.Bare.{is_bare, delete_all_entries-bare}
use rutgers_cs.FileSystem.Remove.Unlink.{unless, get_parent-root, number-lookup, delete_entry-one}

-- The memory when deleteAllInodeEntries is called.
abbrev held : Heap
held = (malloc no_heap).1

abbrev place : ℕ
place = (malloc no_heap).0

abbrev released : Heap
released = record held { live = update held.live place false }

free-held : (d : Disk) → free_inode place (held, d) ≡ ok (released, d)
unfolding free
free-held d = refl

module _ (host : Host) (fuel : ℕ) (name : List ℕ) (d : Disk) (n : ℕ)
    (es inner : List DirEntry) where
  -- The end of sfs_rmdir, on the device that deleteInodeEntry leaves.
  abbrev last : Disk → Run (Status × Disk)
  last d' = delete_all_entries host fuel place (get_inode n d.inodes) (held, d') >>= λ (h', g).
      ok (done, g)

  rmdir-runs :
      (t : InodeTable) (bad : Bool) (d' : Disk)
      → length name + 1 < name_len
      → inode_from_path fuel (slash ∷ name) d ≡ ok (some n)
      → get_parent_inode_from_path fuel (slash ∷ name) d ≡ ok (some 0)
      → 0 < n
      → remove_inode host.is_dir n mode_dir d.inodes ≡ (true, t)
      → delete_entry fuel n (some 0) (record d { inodes = t }) ≡ unless bad (true, d')
      → rmdir host fuel (slash ∷ name) d ≡ (if bad then fault else last d')
  unfolding rmdir
  rmdir-runs t bad d' short file parent pos gone cut =
      let fits : ltb (length (slash ∷ name)) name_len ≡ true = ground arith in
      let other : (n == 0) ≡ false = ground arith in
      rw (fits, file, parent, other, gone, cut)
        (elim (Bool-cases bad) [ inl h ↦ rw h refl | inr h ↦ rw h refl ])

  -- The directory is taken out of the root and of the table, and then deleteAllInodeEntries runs.
  rmdir-last :
      name ≢ []
      → has slash name ≡ false
      → length name + 1 < name_len
      → (get_inode 0 d.inodes).i_num ≡ 0
      → (get_inode 0 d.inodes).num_blocks ≡ 1
      → Entries (d.entries ((get_inode 0 d.inodes).direct_block_ptr 0 + dblock_idx)) 0 es
      → total es ≤ block_size
      → block_size < fuel
      → lookup name es ≡ some n
      → (get_inode n d.inodes).i_num ≡ n
      → 0 < n
      → n < total_inodes
      → (get_inode n d.inodes).size ≢ free_size
      → host.is_dir (get_inode n d.inodes).file_mode ≡ host.is_dir mode_dir
      → (get_inode n d.inodes).num_blocks ≡ 1
      → (get_inode n d.inodes).direct_block_ptr 0 ≢ (get_inode 0 d.inodes).direct_block_ptr 0
      → Entries (d.entries ((get_inode n d.inodes).direct_block_ptr 0 + dblock_idx)) 0 inner
      → total inner ≤ block_size
      → (d' : Disk) × (rmdir host fuel (slash ∷ name) d
          ≡ (if overlaps n 0 es then fault else last d'))
        × Entries (d'.entries ((get_inode n d.inodes).direct_block_ptr 0 + dblock_idx)) 0 inner
        × Entries
            (d'.entries ((get_inode 0 d.inodes).direct_block_ptr 0 + dblock_idx))
            0
            (drop_first n es)
        × ((get_inode n d'.inodes).size ≡ free_size)
        × ((k : ℕ) → k ≢ n → get_inode k d'.inodes ≡ get_inode k d.inodes)
        × (d'.bitmaps ≡ d.bitmaps)
  rmdir-last some_name plain short root one v low enough found number pos small used kind one' apart
        w low' =
      let (t, gone, freed, kept_number, others, again) =
        remove_inode-frees host.is_dir n mode_dir d.inodes used kind in
      let g : Disk = record d { inodes = t } in
      let kept = others 0 (λ e. absurd (omega (arith, e, pos))) in
      let (d', cut, left, same, maps, blocks) =
        delete_entry-one fuel n 0 _ g es (rw kept one) (rw kept refl) v low enough
          (number-lookup name n es found) in
      let real : is_found 0 (get_inode n d.inodes) ≡ true = rw number (ground arith) in
      let leads : reached d.inodes (lookup name es) ≡ some n = rw (found, real, number) refl in
      let file =
        inode_from_path-lookup fuel name d es some_name plain short root one v low enough
        ∙ ap ok leads in
      let k = (get_inode n d.inodes).direct_block_ptr 0 + dblock_idx in
      let old : d'.entries k ≡ d.entries k = blocks k (λ e. apart (omega (arith, e))) in
      (
        d',
        rmdir-runs t (overlaps n 0 es) d' short file (get_parent-root fuel name d plain) pos gone
            cut,
        rw old w,
        left,
        rw same freed,
        λ i ne. rw same (others i ne),
        maps,
      )

  -- sfs_rmdir of '/' and one name, in a root of one block, where the first entry with the name leads to an inode
  -- in use with a number from 1 to 127 that is a directory of one block, not the root's, whose only entries with
  -- a number other than 0 are "." and "..". Where the first entry of the root with the number of the inode is as
  -- long as what is behind it in the block, or longer, the result is 0, that entry is gone from the root, which
  -- keeps the others in their order, the inode has the size of a free one in the table, all other inodes are as
  -- they were, and the bitmaps too: the inode's number and its block stay allocated. Where the entry is shorter,
  -- its memcpy overlaps, which is undefined behaviour. One unit of fuel more than the bytes of a block is enough.
  pub rmdir-drop_first :
      name ≢ []
      → has slash name ≡ false
      → length name + 1 < name_len
      → (get_inode 0 d.inodes).i_num ≡ 0
      → (get_inode 0 d.inodes).num_blocks ≡ 1
      → Entries (d.entries ((get_inode 0 d.inodes).direct_block_ptr 0 + dblock_idx)) 0 es
      → total es ≤ block_size
      → block_size < fuel
      → lookup name es ≡ some n
      → (get_inode n d.inodes).i_num ≡ n
      → 0 < n
      → n < total_inodes
      → (get_inode n d.inodes).size ≢ free_size
      → host.is_dir (get_inode n d.inodes).file_mode ≡ host.is_dir mode_dir
      → (get_inode n d.inodes).num_blocks ≡ 1
      → (get_inode n d.inodes).direct_block_ptr 0 ≢ (get_inode 0 d.inodes).direct_block_ptr 0
      → Entries (d.entries ((get_inode n d.inodes).direct_block_ptr 0 + dblock_idx)) 0 inner
      → total inner ≤ block_size
      → is_bare inner ≡ true
      → (d' : Disk) × (rmdir host fuel (slash ∷ name) d ≡ unless (overlaps n 0 es) (done, d'))
        × Entries
            (d'.entries ((get_inode 0 d.inodes).direct_block_ptr 0 + dblock_idx))
            0
            (drop_first n es)
        × ((get_inode n d'.inodes).size ≡ free_size)
        × ((k : ℕ) → k ≢ n → get_inode k d'.inodes ≡ get_inode k d.inodes)
        × (d'.bitmaps ≡ d.bitmaps)
  rmdir-drop_first some_name plain short root one v low enough found number pos small used kind one'
        apart w low' bare =
      let (d', ran, w', left, freed, others, maps) =
        rmdir-last some_name plain short root one v low enough found number pos small used kind one'
          apart w low' in
      let all =
        delete_all_entries-bare host fuel place (get_inode n d.inodes) (held, d') inner one' w' low'
          enough bare
        ∙ free-held d' in
      (d', ran ∙ rw all refl, left, freed, others, maps)
