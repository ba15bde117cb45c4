-- ===== src/FileSystem/Data/Tests.antt =====
-- The theorems on the contents of files, at concrete devices.
use rutgers_cs.Prelude.{
  ℕ, zero, suc, ◌+◌, ◌<◌, ◌≡◌, List, [], ◌∷◌, ◌==◌, if◌then◌else◌, some, arith, refl,
}
use rutgers_cs.Prelude.Run.{ok}
use rutgers_cs.FileSystem.Inodes.{Inode, zero_inode, get_inode}
use rutgers_cs.FileSystem.Entries.{initialize_entries}
use rutgers_cs.FileSystem.Disk.{Disk}
use rutgers_cs.FileSystem.Data.{read_data, write_data, part}
use rutgers_cs.FileSystem.Data.RoundTrip.{read_data-write_data_blocks}
use rutgers_cs.FileSystem.Data.Reads.{stored_bytes}
use rutgers_cs.FileSystem.Data.Put.{byte_at, stored_byte, IsApart}
use rutgers_cs.FileSystem.Data.Whole.{Wrote, write_data-Wrote}
use rutgers_cs.FileSystem.Data.Shared.{IsNewFile, write_data-shared}
use rutgers_cs.FileSystem.Data.Short.{read_data-short}

-- A file of three blocks, 72 to 74 of the device.
abbrev long_file : Inode
long_file = record zero_inode {
  i_num = 5;
  size = 1_200;
  num_blocks = 3;
  direct_block_ptr = λ i. i + 2;
}

abbrev disk : Disk
disk = record {
  bitmaps = λ j i. 0;
  inodes = λ j i. long_file;
  entries = λ j. initialize_entries 0 0;
  bytes = λ j o. j;
}

long_file-IsApart : IsApart 3 long_file
long_file-IsApart i j low low' e = omega (arith, e)

-- From the last byte of the first block on.
abbrev three_bytes : List ℕ
three_bytes = 1 ∷ 2 ∷ 3 ∷ []

write_data-Wrote_example :
    (d' : Disk) × (write_data 2 long_file three_bytes 511 disk ≡ ok (some 3, d'))
    × (stored_bytes long_file d'.bytes 3 511 ≡ three_bytes)
    × Wrote 3 long_file three_bytes 3 0 511 disk d'
write_data-Wrote_example =
    write_data-Wrote 2 3 long_file three_bytes 511 disk (omega arith) (omega arith) (omega arith)
      (omega arith) (omega arith) long_file-IsApart

-- A new file with its one block, and another one.
abbrev new_file : ℕ → Inode
new_file j = record zero_inode {
  i_num = j;
  size = 0;
  num_blocks = 1;
  direct_block_ptr = λ i. if i == 0 then j else 0;
}

new_file-IsNewFile : IsNewFile (new_file 7)
new_file-IsNewFile = record {
  empty = refl;
  one = refl;
  first = λ e. absurd (omega (arith, e));
  second = refl;
}

abbrev sevens : ℕ → List ℕ
sevens zero = []
sevens (suc n) = 7 ∷ sevens n

write_data-shared_example :
    (d' : Disk) × (write_data 2 (new_file 7) (sevens 600) 0 disk ≡ ok (some 600, d'))
    × (d'.bitmaps ≡ disk.bitmaps)
    × ((k : ℕ)
        → 512 + k < 600
        → stored_byte (new_file 8) d'.bytes (512 + k) ≡ byte_at (sevens 600) (512 + k))
write_data-shared_example =
    write_data-shared 0 (new_file 7) (new_file 8) (sevens 600) disk new_file-IsNewFile refl
      (omega arith) (omega arith)

read_data-short_example :
    read_data 3 long_file disk.bytes 1_100 0 ≡ ok (stored_bytes long_file disk.bytes 1_024 0)
read_data-short_example =
    read_data-short long_file disk.bytes 0 1_100 0 (omega arith) refl (omega arith) (omega arith)
      (omega arith)

read_data-write_data_blocks_example :
    (d' : Disk) × (write_data 2 long_file three_bytes 511 disk ≡ ok (some 3, d'))
    × (read_data 2 (get_inode 5 d'.inodes) d'.bytes 2 512 ≡ ok (part 2 1 three_bytes))
read_data-write_data_blocks_example =
    read_data-write_data_blocks 2 0 3 long_file three_bytes 511 2 1 disk (omega arith) (omega arith)
      (omega arith) (omega arith) (omega arith) (omega arith) long_file-IsApart (omega arith)
      (omega arith) (omega arith)
