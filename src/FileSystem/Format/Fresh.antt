-- ===== src/FileSystem/Format/Fresh.antt =====
-- The device that sfs_init of filesystemFUSE/submission/sfs.c leaves behind.
use rutgers_cs.Prelude.{
  ℕ, ◌+◌, ◌-◌, ◌*◌, ◌/◌, ◌%◌, ◌<◌, ◌≡◌, ◌≢◌, refl, true, false, [], ◌∷◌, if◌then◌else◌, ◌==◌, ltb,
  leb, some, arith, ==_refl, ap, ◌∙◌,
}
use rutgers_cs.Prelude.Run.{ok}
use rutgers_cs.FileSystem.Layout.{
  total_inodes, dblock_idx, itable_idx, get_inode_index, get_inode_block_index,
}
use rutgers_cs.FileSystem.Bitmap.{Bitmap}
use rutgers_cs.FileSystem.Blocks.{Device, find_free_block}
use rutgers_cs.FileSystem.Inodes.{Inode, free_size, get_inode, write_inode}
use rutgers_cs.FileSystem.Inodes.Table.{get_inode-write_inode}
use rutgers_cs.FileSystem.Entries.{new_entry, kind_dir, dot, dot_dot, initialize_entries}
use rutgers_cs.FileSystem.Entries.Order.{Entries, initialize_entries-Entries}
use rutgers_cs.FileSystem.Disk.{Disk, Host, mode_dir_755, write_entries}
use rutgers_cs.FileSystem.Create.{create_root, place_root, root_inode}
use rutgers_cs.FileSystem.Format.{
  SuperBlock, magic, initialize_super_block, init, format_bitmaps, format_table, store_table,
}

-- Where an inode is stored.
store_table-get :
    (table : ℕ → Inode) (t : ℕ → ℕ → Inode) (n : ℕ)
    → n < total_inodes
    → get_inode n (store_table table t) ≡ table n
unfolding get_inode store_table get_inode_index get_inode_block_index
store_table-get table t n low =
    let place : (6 + n / 2 - 6) * 2 + (if leb 2 n then n % 2 else n) ≡ n = ground arith in
    let above : leb 6 (6 + n / 2) ≡ true = ground arith in
    let below : ltb (6 + n / 2) 70 ≡ true = ground arith in
    let inner : ltb (if leb 2 n then n % 2 else n) 2 ≡ true = ground arith in
    rw (above, below, inner) (ap table place)

-- A device that is new: every inode but the root is free and has its number, the root is a directory of
-- one block with the number 0, and the entries "." and ".." are in it.
pub record IsFresh (d : Disk) : Type 0 where
  pub free :
      (n : ℕ)
      → 0 < n
      → n < total_inodes
      → ((get_inode n d.inodes).size ≡ free_size) × ((get_inode n d.inodes).i_num ≡ n)
  pub mode : (get_inode 0 d.inodes).file_mode ≡ mode_dir_755
  pub number : (get_inode 0 d.inodes).i_num ≡ 0
  pub blocks : (get_inode 0 d.inodes).num_blocks ≡ 1
  pub entries :
      Entries
        (d.entries ((get_inode 0 d.inodes).direct_block_ptr 0 + dblock_idx))
        0
        (new_entry 0 kind_dir dot ∷ new_entry 0 kind_dir dot_dot ∷ [])

module _ (host : Host) (fresh : Bitmap) (junk : ℕ → Inode) (old : SuperBlock) (d : Disk) where
  abbrev table : ℕ → ℕ → Inode
  table = store_table (format_table junk) d.inodes

  abbrev formatted : ℕ → Device → Disk
  formatted j b = write_entries (j + dblock_idx) (initialize_entries 0 0) (record d {
    bitmaps = b;
    inodes = write_inode itable_idx 0 (root_inode host j (table itable_idx 0)) table;
  })

  get_inode-formatted :
      (j : ℕ) (b : Device) (n : ℕ)
      → get_inode n (formatted j b).inodes
        ≡ (if n == 0 then root_inode host j (table itable_idx 0) else get_inode n table)
  unfolding get_inode get_inode_index get_inode_block_index
  get_inode-formatted j b n =
      get_inode-write_inode n 0 (root_inode host j (table itable_idx 0)) table

  formatted-IsFresh : (j : ℕ) (b : Device) → IsFresh (formatted j b)
  unfolding format_table
  formatted-IsFresh j b =
      let root = get_inode-formatted j b 0 in
      let ptr : (get_inode 0 (formatted j b).inodes).direct_block_ptr 0 ≡ j =
        ap (λ (v : Inode). v.direct_block_ptr 0) root in
      record {
        free = λ n pos low.
            let other : (n == 0) ≡ false = ground arith in
            let known : ltb n total_inodes ≡ true = ground arith in
            rw
              (
                get_inode-formatted j b n,
                other,
                store_table-get (format_table junk) d.inodes n low,
                known,
              )
              (refl, refl);
        mode = ap (λ (v : Inode). v.file_mode) root;
        number = ap (λ (v : Inode). v.i_num) root;
        blocks = ap (λ (v : Inode). v.num_blocks) root;
        entries =
            rw (ptr, ==_refl (j + dblock_idx))
              (initialize_entries-Entries 0 0 (root_inode host j (table itable_idx 0))
                (λ k. initialize_entries 0 0) refl).0;
      }

  create_root-formatted :
      (j : ℕ) (b : Device) (g : Disk)
      → g ≡ record d { bitmaps = g.bitmaps; inodes = table }
      → find_free_block g.bitmaps ≡ (some j, b)
      → create_root host g ≡ ok (formatted j b)
  unfolding create_root
  create_root-formatted j b g same found =
      ap (place_root host g) found ∙ ap (λ h. place_root host h (some j, b)) same

  -- sfs_init on a device without the magic number, whatever else is on it and whatever the memory held that it
  -- writes: the device is new then, where the block that is written to the first bitmap leads to a free block.
  pub init-IsFresh :
      (j : ℕ) (b : Device)
      → old.magic_number ≢ magic
      → find_free_block (format_bitmaps fresh d.bitmaps) ≡ (some j, b)
      → (d' : Disk) × (init host fresh junk old d ≡ ok (initialize_super_block, d')) × IsFresh d'
  unfolding init
  init-IsFresh j b other found =
      let new : (old.magic_number == magic) ≡ false = ground (arith, other) in
      (formatted j b, rw (new, create_root-formatted j b _ refl found) refl, formatted-IsFresh j b)
