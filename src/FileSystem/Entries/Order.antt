-- ===== src/FileSystem/Entries/Order.antt =====
-- What a directory block of filesystemFUSE/submission/dirent.c stands for: the list of its entries.
use rutgers_cs.Prelude.{
  ℕ, zero, suc, ◌+◌, ◌≤◌, ◌<◌, ◌≡◌, refl, true, false, List, [], ◌∷◌, ◌++◌, ◌==◌, ltb, leb, length,
  update, none, some, arith, ap,
}
use rutgers_cs.Prelude.Run.{ok}
use rutgers_cs.FileSystem.Layout.{block_size, dblock_idx}
use rutgers_cs.FileSystem.Inodes.{Inode}
use rutgers_cs.FileSystem.Entries.{
  DirEntry, DirBlock, dentry_min, new_entry, walk, room, add_entry, initialize_entries,
  get_parent_inode, kind_dir, dot, dot_dot,
}

-- The entries stand one behind the other from `o` on, and what is behind them is zero.
abbrev pub Entries : DirBlock → ℕ → List DirEntry → Type 0
Entries d o [] = (x : ℕ) → o ≤ x → (d x).dir_length ≡ 0
Entries d o (e ∷ es) = (d o ≡ e) × (0 < e.dir_length) × Entries d (o + e.dir_length) es

-- The bytes of the entries.
abbrev pub total : List DirEntry → ℕ
total [] = 0
total (e ∷ es) = e.dir_length + total es

-- The walk comes to the end `p` of the entries; one unit of fuel for each byte that is left is enough.
walk_lem :
    (fuel o p : ℕ) (d : DirBlock) (es : List DirEntry)
    → p ≡ o + total es
    → Entries d o es
    → p ≤ block_size
    → total es < fuel
    → walk fuel o d ≡ ok p
unfolding walk
walk_lem zero o p d es at_end v low enough = absurd (omega arith)
walk_lem (suc fuel) o p d [] at_end v low enough = let e = v o (omega arith) in rw e (ground arith)
walk_lem (suc fuel) o p d (e ∷ es) at_end v low enough =
    let (here, pos, rest) = v in
    let go : ((d o).dir_length == 0) ≡ false = rw here (ground arith) in
    let within : leb block_size o ≡ false = ground arith in
    rw (go, within, here)
      (walk_lem fuel (o + e.dir_length) p d es (omega arith) rest low (omega arith))

Entries-append :
    (o p : ℕ) (d : DirBlock) (es : List DirEntry) (e : DirEntry)
    → p ≡ o + total es
    → Entries d o es
    → 0 < e.dir_length
    → Entries (update d p e) o (es ++ e ∷ [])
Entries-append o p d [] e at_end v pos = (ground arith, pos, λ x h. ground (arith, v x))
Entries-append o p d (x ∷ xs) e at_end v pos =
    let (here, first, rest) = v in
    (ground (arith, here), first, Entries-append (o + x.dir_length) p d xs e (omega arith) rest pos)

-- createDEntry appends the new entry to those of a block that has room for it, and more than one byte to
-- spare; it leaves the block alone where it has not. Fuel for each byte of the block is enough.
pub add_entry_lem :
    (fuel n kind : ℕ) (name : List ℕ) (d : DirBlock) (es : List DirEntry)
    → Entries d 0 es
    → total es ≤ block_size
    → length name < 255
    → block_size < fuel
    → (total es + dentry_min + length name < block_size
        → (d' : DirBlock) × (add_entry fuel n kind name d ≡ ok (some d'))
          × Entries d' 0 (es ++ new_entry n kind name ∷ []))
      × (block_size ≤ total es + dentry_min + length name → add_entry fuel n kind name d ≡ ok none)
unfolding add_entry
add_entry_lem fuel n kind name d es v low short enough =
    let end = walk_lem fuel 0 (total es) d es (omega arith) v low (omega arith) in
    (
      λ h.
          let fits : ltb (dentry_min + length name) (room (total es)) ≡ true = ground arith in
          (
            update d (total es) (new_entry n kind name),
            rw (end, fits),
            Entries-append 0 (total es) d es _ (omega arith) v (omega arith),
          ),
      λ h.
          let full : ltb (dentry_min + length name) (room (total es)) ≡ false = ground arith in
          rw (end, full),
    )

-- The block that initializeDEntries writes for a new directory holds the two entries "." and "..", in this
-- order, and getParentInode finds the number of the parent in it.
pub initialize_entries-Entries :
    (n parent : ℕ) (child : Inode) (blocks : ℕ → DirBlock)
    → blocks (child.direct_block_ptr 0 + dblock_idx) ≡ initialize_entries n parent
    → Entries
        (initialize_entries n parent)
        0
        (new_entry n kind_dir dot ∷ new_entry parent kind_dir dot_dot ∷ [])
      × (get_parent_inode child blocks ≡ parent)
unfolding initialize_entries get_parent_inode
initialize_entries-Entries n parent child blocks e = (
  (refl, omega arith, (refl, omega arith, λ x h. ground arith)),
  ap (λ (d : DirBlock). (d (d 0).dir_length).i_num) e,
)
