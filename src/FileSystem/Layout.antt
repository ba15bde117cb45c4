-- ===== src/FileSystem/Layout.antt =====
-- The constants of filesystemFUSE/submission/stdefs.h, and the places of the inodes in the inode table,
-- getInodeIndex and getInodeBlockIndex of filesystemFUSE/submission/inode.c. sizeof(inode) is 256.
use rutgers_cs.Prelude.{ℕ, ◌+◌, ◌*◌, ◌/◌, ◌%◌, ◌≤◌, ◌<◌, ◌≡◌, arith, if◌then◌else◌, leb}

abbrev pub num_inode_blocks : ℕ
num_inode_blocks = 64

abbrev pub block_size : ℕ
block_size = 512

abbrev pub sizeof_inode : ℕ
sizeof_inode = 256

-- (BLOCK_SIZE * NUM_INODE_BLOCKS) / sizeof(inode), and BLOCK_SIZE / sizeof(inode).
abbrev pub total_inodes : ℕ
total_inodes = 128

abbrev pub inodes_per_block : ℕ
inodes_per_block = 2

abbrev pub nbit_block : ℕ
nbit_block = 3

abbrev pub ibitmap_idx : ℕ
ibitmap_idx = 2

abbrev pub bbitmap_idx : ℕ
bbitmap_idx = 3

abbrev pub itable_idx : ℕ
itable_idx = 6

abbrev pub dblock_idx : ℕ
dblock_idx = 70

unfoldable pub get_inode_index : ℕ → ℕ
get_inode_index n = if leb inodes_per_block n then n % inodes_per_block else n

unfoldable pub get_inode_block_index : ℕ → ℕ
get_inode_block_index n = itable_idx + n / inodes_per_block

-- Every inode of the system has a place of its own, in a block of the inode table, before the data
-- blocks: the number is found again from the place.
pub inode_place_lem :
    (n : ℕ)
    → n < total_inodes
    → (get_inode_index n < inodes_per_block)
      × (itable_idx ≤ get_inode_block_index n)
      × (get_inode_block_index n < dblock_idx)
      × (get_inode_block_index n * inodes_per_block + get_inode_index n
          ≡ itable_idx * inodes_per_block + n)
unfolding get_inode_index get_inode_block_index
inode_place_lem n h = ground arith
