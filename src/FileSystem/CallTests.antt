-- ===== src/FileSystem/CallTests.antt =====
-- The theorems on paths, directories, files and the new device, at concrete devices.
use rutgers_cs.Prelude.{
  ◌≢◌, ℕ, ◌+◌, ◌≡◌, refl, ◌&&◌, List, [], ◌∷◌, if◌then◌else◌, ◌==◌, update, some, arith,
}
use rutgers_cs.Prelude.Run.{ok}
use rutgers_cs.FileSystem.Layout.{get_inode_index, get_inode_block_index}
use rutgers_cs.FileSystem.Bitmap.{
  Bitmap, find_first_free, scan_words, scan_word, bit, or_bit, set_bit,
}
use rutgers_cs.FileSystem.Blocks.{Device, find_free_block, find_free_from, block_read, block_write}
use rutgers_cs.FileSystem.Inodes.{Inode, zero_inode, get_inode, free_size}
use rutgers_cs.FileSystem.Entries.{
  DirEntry, DirBlock, new_entry, kind_dir, kind_file, dot, dot_dot, initialize_entries,
}
use rutgers_cs.FileSystem.Entries.Order.{Entries}
use rutgers_cs.FileSystem.Disk.{Disk, Host, mode_dir_755, done}
use rutgers_cs.FileSystem.Lookup.{slash, inode_from_path}
use rutgers_cs.FileSystem.Lookup.Names.{lookup}
use rutgers_cs.FileSystem.Lookup.Root.{reached, inode_from_path-lookup}
use rutgers_cs.FileSystem.Calls.{read_dir, create_file}
use rutgers_cs.FileSystem.Create.{kind_of}
use rutgers_cs.FileSystem.Create.Found.{create_file-found}
use rutgers_cs.FileSystem.Blocks.{find_free_inode}
use rutgers_cs.Prelude.{◌++◌}
use rutgers_cs.FileSystem.Calls.Listing.{names_in, read_dir-names_in}
use rutgers_cs.FileSystem.Data.{read_data, write_data}
use rutgers_cs.FileSystem.Data.Writes.{read_data-write_data}
use rutgers_cs.FileSystem.Format.{SuperBlock, initialize_super_block, init, format_bitmaps}
use rutgers_cs.FileSystem.Format.Fresh.{IsFresh, init-IsFresh}

-- The file "a" has the inode 5.
abbrev file_name_a : List ℕ
file_name_a = 97 ∷ []

abbrev pub root : Inode
root = record zero_inode { file_mode = mode_dir_755; num_blocks = 1; direct_block_ptr = λ i. 1 }

abbrev pub file_a : Inode
file_a = record zero_inode { i_num = 5; size = 600; num_blocks = 2; direct_block_ptr = λ i. i + 2 }

abbrev pub root_entries : List DirEntry
root_entries =
    new_entry 0 kind_dir dot ∷ new_entry 0 kind_dir dot_dot ∷ new_entry 5 kind_file file_name_a ∷ []

abbrev root_block : DirBlock
root_block = update (initialize_entries 0 0) 19 (new_entry 5 kind_file file_name_a)

-- The bytes of the file are those of the blocks 72 and 73.
abbrev pub disk : Disk
disk = record {
  bitmaps = λ j i. 0;
  inodes = λ j i. if (j == 8) && (i == 1) then file_a else root;
  entries = λ j. root_block;
  bytes = λ j o. j;
}

pub root-Entries : Entries root_block 0 root_entries
unfolding initialize_entries
root-Entries = (refl, omega arith, (refl, omega arith, (refl, omega arith, λ x h. ground arith)))

inode_from_path-lookup_example :
    inode_from_path 600 (slash ∷ file_name_a) disk
    ≡ ok (reached disk.inodes (lookup file_name_a root_entries))
unfolding get_inode get_inode_index get_inode_block_index
inode_from_path-lookup_example =
    inode_from_path-lookup 600 file_name_a disk root_entries (λ e. cc) refl (omega arith) refl refl
      root-Entries (omega arith) (omega arith)

abbrev three_bytes : List ℕ
three_bytes = 1 ∷ 2 ∷ 3 ∷ []

read_data-write_data_example :
    (d' : Disk) × (write_data 1 file_a three_bytes 4 disk ≡ ok (some 3, d'))
    × ((get_inode 5 d'.inodes).size ≡ 603)
    × (read_data 1 (get_inode 5 d'.inodes) d'.bytes 3 4 ≡ ok three_bytes)
read_data-write_data_example =
    read_data-write_data 0 file_a three_bytes 4 disk (omega arith) (omega arith) (omega arith)
      (omega arith) (omega arith)

abbrev pub host : Host
host = record {
  is_dir = λ m. m == mode_dir_755;
  is_reg = λ m. m == 33_188;
  time = 1_500_000_000;
  uid = 1_000;
  egid = 1_000;
}

abbrev blank : Bitmap
blank i = 0

abbrev unformatted : SuperBlock
unformatted = record {
  fs_size = 0;
  num_inodes = 0;
  num_blocks = 0;
  block_bytes = 0;
  num_free_blocks = 0;
  num_free_inodes = 0;
  index_next_free_block = 0;
  index_next_free_inode = 0;
  magic_number = 0;
  root_inode_num = 0;
}

abbrev first_bitmaps : Device
first_bitmaps = (find_free_block (format_bitmaps blank disk.bitmaps)).1

finds_first : find_free_block (format_bitmaps blank disk.bitmaps) ≡ (some 1, first_bitmaps)
unfolding find_free_block find_free_from find_first_free scan_words scan_word bit or_bit block_read
    block_write format_bitmaps set_bit
finds_first = refl

init-IsFresh_example :
    (d' : Disk) × (init host blank (λ n. file_a) unformatted disk ≡ ok (initialize_super_block, d'))
    × IsFresh d'
init-IsFresh_example =
    init-IsFresh host blank (λ n. file_a) unformatted disk 1 first_bitmaps
      (λ e. absurd (omega (arith, e))) finds_first

read_dir-names_in_example : read_dir host 600 (slash ∷ []) disk ≡ ok (done, names_in root_entries)
unfolding get_inode get_inode_index get_inode_block_index
read_dir-names_in_example =
    read_dir-names_in host 600 disk root_entries refl refl refl root-Entries (omega arith)
      (omega arith)

-- Inode 1 is free, and the root has another data block than the first one.
abbrev pub far_root : Inode
far_root = record root { direct_block_ptr = λ i. 40 }

abbrev pub room_disk : Disk
room_disk = record disk {
  inodes = λ j i. if (j == 6) && (i == 1) then record zero_inode { size = free_size } else far_root;
}

abbrev file_name_b : List ℕ
file_name_b = 98 ∷ []

abbrev pub numbered : Device
numbered = (find_free_inode room_disk.bitmaps).1

abbrev pub allocated : Device
allocated = (find_free_block numbered).1

pub finds_number : find_free_inode room_disk.bitmaps ≡ (some 1, numbered)
unfolding find_free_inode find_first_free scan_words scan_word bit or_bit block_read block_write
finds_number = refl

pub finds_place : find_free_block numbered ≡ (some 1, allocated)
unfolding find_free_inode find_free_block find_free_from find_first_free scan_words scan_word bit
    or_bit block_read block_write
finds_place = refl

create_file-found_example :
    (d' : Disk) × (create_file host 600 (slash ∷ file_name_b) 33_188 room_disk ≡ ok (done, d'))
    × (inode_from_path 600 (slash ∷ file_name_b) d' ≡ ok (some 1))
    × ((get_inode 1 d'.inodes).file_mode ≡ 33_188)
    × ((get_inode 1 d'.inodes).size ≡ 0)
    × Entries
        (d'.entries 110)
        0
        (root_entries ++ new_entry 1 (kind_of host 33_188) file_name_b ∷ [])
    × ((i : ℕ) → i ≢ 1 → get_inode i d'.inodes ≡ get_inode i room_disk.inodes)
unfolding get_inode get_inode_index get_inode_block_index
create_file-found_example =
    create_file-found host 600 file_name_b 33_188 1 1 root_entries room_disk numbered allocated
      finds_number finds_place refl (omega arith) (omega arith) (λ e. cc) refl (omega arith) refl
      refl (λ e. absurd (omega (arith, e))) root-Entries (omega arith) refl (omega arith)
