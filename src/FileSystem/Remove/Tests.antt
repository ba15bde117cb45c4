-- ===== src/FileSystem/Remove/Tests.antt =====
-- The theorems on the removal of files and directories, at concrete devices.
use rutgers_cs.Prelude.{
  ◌≢◌, ℕ, zero, suc, ◌≡◌, refl, ◌&&◌, List, [], ◌∷◌, if◌then◌else◌, ◌==◌, update, leb, ltb, arith,
}
use rutgers_cs.Prelude.Run.{ok}
use rutgers_cs.FileSystem.Layout.{get_inode_index, get_inode_block_index}
use rutgers_cs.FileSystem.Inodes.{Inode, get_inode, free_size}
use rutgers_cs.FileSystem.Entries.{
  DirEntry, DirBlock, new_entry, kind_dir, kind_file, dot, dot_dot, initialize_entries,
}
use rutgers_cs.FileSystem.Entries.Order.{Entries}
use rutgers_cs.FileSystem.Entries.Cut.{drop_first}
use rutgers_cs.FileSystem.Disk.{Disk, Host, mode_dir_755, done}
use rutgers_cs.FileSystem.Lookup.{slash}
use rutgers_cs.FileSystem.Calls.{mkdir}
use rutgers_cs.FileSystem.Remove.{unlink, rmdir}
use rutgers_cs.FileSystem.Remove.Unlink.{unlink-drop_first}
use rutgers_cs.FileSystem.Remove.Directory.{rmdir-drop_first}
use rutgers_cs.FileSystem.Remove.RoundTrip.{rmdir-mkdir}
use rutgers_cs.FileSystem.CallTests.{
  root, file_a, disk, host, room_disk, numbered, allocated, root_entries, finds_number, finds_place,
  root-Entries,
}

-- A name of 240 letters: its entry is longer than what is behind it in the block.
abbrev letters : ℕ → List ℕ
letters zero = []
letters (suc n) = 97 ∷ letters n

abbrev long_name : List ℕ
long_name = letters 240

abbrev long_entries : List DirEntry
long_entries =
    new_entry 0 kind_dir dot ∷ new_entry 0 kind_dir dot_dot ∷ new_entry 5 kind_file long_name ∷ []

abbrev long_block : DirBlock
long_block = update (initialize_entries 0 0) 19 (new_entry 5 kind_file long_name)

abbrev long_disk : Disk
long_disk = record disk { entries = λ j. long_block }

long-Entries : Entries long_block 0 long_entries
unfolding initialize_entries
long-Entries = (refl, omega arith, (refl, omega arith, (refl, omega arith, λ x h. ground arith)))

unlink-drop_first_example :
    (d' : Disk) × (unlink host 600 (slash ∷ long_name) long_disk ≡ ok (done, d'))
    × Entries (d'.entries 71) 0 (drop_first 5 long_entries)
    × ((get_inode 5 d'.inodes).size ≡ free_size)
    × ((k : ℕ) → k ≢ 5 → get_inode k d'.inodes ≡ get_inode k long_disk.inodes)
    × (d'.bitmaps ≡ long_disk.bitmaps)
unfolding get_inode get_inode_index get_inode_block_index
unlink-drop_first_example =
    unlink-drop_first host 600 long_name long_disk 5 long_entries (λ e. cc) refl (omega arith) refl
      refl long-Entries (omega arith) (omega arith) refl refl (omega arith) (omega arith)
      (λ e. absurd (omega (arith, e)))

-- The inode 5 is a directory in block 74.
abbrev dir_host : Host
dir_host = record host { is_dir = λ m. leb 16_384 m && ltb m 32_768 }

abbrev dir_a : Inode
dir_a = record file_a { file_mode = mode_dir_755; num_blocks = 1; direct_block_ptr = λ i. 4 }

abbrev dir_disk : DirBlock → Disk
dir_disk b = record disk {
  inodes = λ j i. if (j == 8) && (i == 1) then dir_a else root;
  entries = λ j. if j == 74 then b else long_block;
}

abbrev inner_entries : List DirEntry
inner_entries = new_entry 5 kind_dir dot ∷ new_entry 0 kind_dir dot_dot ∷ []

inner-Entries : Entries (initialize_entries 5 0) 0 inner_entries
unfolding initialize_entries
inner-Entries = (refl, omega arith, (refl, omega arith, λ x h. ground arith))

rmdir-drop_first_example :
    (d' : Disk) × (rmdir dir_host 600 (slash ∷ long_name) (dir_disk (initialize_entries 5 0))
      ≡ ok (done, d'))
    × Entries (d'.entries 71) 0 (drop_first 5 long_entries)
    × ((get_inode 5 d'.inodes).size ≡ free_size)
    × ((k : ℕ)
        → k ≢ 5
        → get_inode k d'.inodes ≡ get_inode k (dir_disk (initialize_entries 5 0)).inodes)
    × (d'.bitmaps ≡ disk.bitmaps)
unfolding get_inode get_inode_index get_inode_block_index
rmdir-drop_first_example =
    rmdir-drop_first dir_host 600 long_name (dir_disk (initialize_entries 5 0)) 5 long_entries
      inner_entries (λ e. cc) refl (omega arith) refl refl long-Entries (omega arith) (omega arith)
      refl refl (omega arith) (omega arith) (λ e. absurd (omega (arith, e))) refl refl
      (λ e. absurd (omega (arith, e))) inner-Entries (omega arith) refl

rmdir-mkdir_example :
    (d' : Disk) × (d'' : Disk) × (mkdir dir_host 600 (slash ∷ long_name) room_disk ≡ ok (done, d'))
    × (rmdir dir_host 600 (slash ∷ long_name) d' ≡ ok (done, d''))
    × Entries (d''.entries 110) 0 root_entries
    × ((get_inode 1 d''.inodes).size ≡ free_size)
    × ((i : ℕ) → i ≢ 1 → get_inode i d''.inodes ≡ get_inode i room_disk.inodes)
    × (d''.bitmaps ≡ d'.bitmaps)
unfolding get_inode get_inode_index get_inode_block_index
rmdir-mkdir_example =
    rmdir-mkdir dir_host 600 long_name 1 1 root_entries room_disk numbered allocated refl refl
      finds_number finds_place refl (omega arith) (omega arith) (λ e. cc) refl (omega arith) refl
      refl (λ e. absurd (omega (arith, e))) root-Entries (omega arith) refl refl (omega arith)
