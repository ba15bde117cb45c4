-- ===== src/FileSystem/Tests.antt =====
-- Runs of the file system's functions, and its theorems, at concrete blocks.
use rutgers_cs.Prelude.{◌+◌, ◌*◌, ◌≤◌, ◌<◌, ◌≡◌, ◌≢◌, refl, if◌then◌else◌, ◌==◌, some, arith}
use rutgers_cs.FileSystem.Layout.{
  get_inode_index, get_inode_block_index, inodes_per_block, itable_idx, dblock_idx, inode_place_lem,
}
use rutgers_cs.FileSystem.Bitmap.{Bitmap, bit, or_bit, scan_word, scan_words, find_first_free}
use rutgers_cs.FileSystem.Bitmap.Search.{Outcome, found, full, find_first_free_lem}
use rutgers_cs.FileSystem.Blocks.{Device, block_write, find_free_block}
use rutgers_cs.FileSystem.Blocks.Reuse.{IsFull, find_free_block-reuses}

abbrev empty_block : Bitmap
empty_block = λ i. 0

-- All 32 bits of the first word are 1.
abbrev full_block : Bitmap
full_block = λ i. if i == 0 then 4_294_967_295 else 0

-- Block 3, the first of the block bitmap, is full.
abbrev disk : Device
disk = λ j. if j == 3 then full_block else empty_block

inode_place_lem_example :
    (get_inode_index 5 < inodes_per_block)
    × (itable_idx ≤ get_inode_block_index 5)
    × (get_inode_block_index 5 < dblock_idx)
    × (get_inode_block_index 5 * inodes_per_block + get_inode_index 5
        ≡ itable_idx * inodes_per_block + 5)
inode_place_lem_example = inode_place_lem 5 (omega arith)

find_first_free_lem_example : Outcome full_block
find_first_free_lem_example = find_first_free_lem full_block

full_block-IsFull : IsFull full_block
unfolding find_first_free scan_words scan_word bit
full_block-IsFull = elim (find_first_free_lem full_block) [
  | found k first low e ↦ absurd (cc)
  | full h e ↦ h
]

abbrev new_block : Bitmap
new_block = λ i. if i == 0 then or_bit 0 1 else 0

find_free_block-reuses_example :
    (find_free_block disk ≡ (some 1, block_write 4 new_block disk)) × (bit 4_294_967_295 1 ≢ 0)
unfolding find_first_free scan_words scan_word bit
find_free_block-reuses_example = find_free_block-reuses 1 new_block disk full_block-IsFull refl
