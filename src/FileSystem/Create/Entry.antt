-- ===== src/FileSystem/Create/Entry.antt =====
-- createDEntry of filesystemFUSE/submission/dirent.c in a directory of one block with room.
use rutgers_cs.Prelude.{
  ℕ, ◌+◌, ◌<◌, ◌≡◌, ◌≢◌, refl, List, [], ◌∷◌, ◌++◌, if◌then◌else◌, ◌==◌, ==_refl, arith, length,
}
use rutgers_cs.Prelude.Run.{ok}
use rutgers_cs.FileSystem.Layout.{block_size, dblock_idx}
use rutgers_cs.FileSystem.Inodes.{get_inode}
use rutgers_cs.FileSystem.Entries.{DirEntry, dentry_min, new_entry, create_in}
use rutgers_cs.FileSystem.Entries.Order.{Entries, total, add_entry_lem}
use rutgers_cs.FileSystem.Disk.{Disk, Host}
use rutgers_cs.FileSystem.Create.{kind_of, create_entry}

-- The directory `p` of one block with room gets the new entry behind the others; nothing else changes.
pub create_entry-one :
    (host : Host) (fuel n p mode j : ℕ) (name : List ℕ) (d : Disk) (es : List DirEntry)
    → (get_inode p d.inodes).num_blocks ≡ 1
    → dblock_idx + (get_inode p d.inodes).direct_block_ptr 0 ≡ j
    → Entries (d.entries j) 0 es
    → total es + dentry_min + length name < block_size
    → length name < 255
    → block_size < fuel
    → (d' : Disk) × (create_entry host fuel n name p mode d ≡ ok d')
      × Entries (d'.entries j) 0 (es ++ new_entry n (kind_of host mode) name ∷ [])
      × (d'.inodes ≡ d.inodes)
      × ((l : ℕ) → l ≢ j → d'.entries l ≡ d.entries l)
unfolding create_entry create_in
create_entry-one host fuel n p mode j name d es one place v room short enough =
    let (b, ran, left) =
      (add_entry_lem fuel n (kind_of host mode) name (d.entries j) es v (omega arith) short
          enough).0
        room in
    (
      record d { entries = λ l. if l == j then b else d.entries l },
      rw (one, place, ran, place) refl,
      rw (==_refl j) left,
      refl,
      λ l ne. ground (arith, ne),
    )
