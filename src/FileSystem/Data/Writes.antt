-- ===== src/FileSystem/Data/Writes.antt =====
-- sfs_write and sfs_read of filesystemFUSE/submission/sfs.c one after the other.
use rutgers_cs.Prelude.{
  ℕ, zero, suc, ◌+◌, ◌-◌, ◌/◌, ◌%◌, ◌^◌, ◌≤◌, ◌<◌, ◌≡◌, refl, true, false, List, [], ◌∷◌, ◌==◌, ltb,
  leb, length, update, arith, ==_refl, ◌∙◌, ap, some,
}
use rutgers_cs.Prelude.Run.{ok}
use rutgers_cs.FileSystem.Layout.{block_size, dblock_idx}
use rutgers_cs.FileSystem.Inodes.{Inode, get_inode}
use rutgers_cs.FileSystem.Inodes.Table.{get_inode-update_inode}
use rutgers_cs.FileSystem.Disk.{Disk, ndblock_ptrs, is_negative}
use rutgers_cs.FileSystem.Data.{
  slice, part, splice, read_data, write_loop, write_data, reserve, end_block, put_bytes,
  store_inode,
}
use rutgers_cs.FileSystem.Data.Reads.{loop_last}

part-all : (xs : List ℕ) → part (length xs) 0 xs ≡ xs
part-all [] = refl
part-all (x ∷ xs) = ap (λ ys. x ∷ ys) (part-all xs)

-- What is before the part that is written stays.
splice-before : (xs : List ℕ) (o x : ℕ) (b : ℕ → ℕ) → x < o → splice xs o b x ≡ b x
splice-before [] o x b h = refl
splice-before (y ∷ ys) o x b h = ground (arith, splice-before ys (o + 1) x b)

slice-ext : (n o : ℕ) (b c : ℕ → ℕ) → ((x : ℕ) → o ≤ x → b x ≡ c x) → slice n o b ≡ slice n o c
slice-ext zero o b c h = refl
slice-ext (suc n) o b c h =
    rw (h o (omega arith))
      (ap (λ ys. c o ∷ ys) (slice-ext n (o + 1) b c (λ x l. h x (omega arith))))

slice-splice : (xs : List ℕ) (o : ℕ) (b : ℕ → ℕ) → slice (length xs) o (splice xs o b) ≡ xs
slice-splice [] o b = refl
slice-splice (x ∷ xs) o b =
    let here : (update (splice xs (o + 1) b) o x) o ≡ x = ground arith in
    let behind =
      slice-ext (length xs) (o + 1) (update (splice xs (o + 1) b) o x) (splice xs (o + 1) b)
        (λ y l. ground arith) in
    rw (here, behind) (ap (λ ys. x ∷ ys) (slice-splice xs (o + 1) b))

-- What sfs_write leaves behind where it writes in one block.
abbrev pub written : Inode → List ℕ → ℕ → Disk → Disk
written v buf offset d =
    store_inode (record v { size = (v.size + length buf) % 2 ^ 64 })
      (put_bytes (v.direct_block_ptr (offset / block_size) + dblock_idx) buf (offset % block_size)
        d)

write_data-written :
    (fuel : ℕ) (v : Inode) (buf : List ℕ) (offset : ℕ) (d : Disk)
    → 0 < length buf
    → offset % block_size + length buf ≤ block_size
    → offset / block_size < v.num_blocks
    → offset / block_size < ndblock_ptrs
    → write_data (suc fuel) v buf offset d ≡ ok (some (length buf), written v buf offset d)
unfolding write_data reserve write_loop
write_data-written fuel v buf offset d pos fits has inside =
    let end : end_block (length buf) offset ≡ offset / block_size = ground arith in
    let some_left : (length buf == 0) ≡ false = ground arith in
    let some_sum : (length buf + offset == 0) ≡ false = ground arith in
    let known : ltb (offset / block_size) v.num_blocks ≡ true = ground arith in
    let low : ltb ndblock_ptrs (offset / block_size) ≡ false = ground arith in
    let here : leb ndblock_ptrs (offset / block_size) ≡ false = ground arith in
    let last : leb (length buf) (block_size - offset % block_size) ≡ true = ground arith in
    let z : 0 + length buf ≡ length buf = omega arith in
    rw (end, some_sum, low, known, some_left, here, last, z, part-all buf) refl

-- Bytes that sfs_write puts into one block of a file, which the file has already, are read back by sfs_read with
-- the inode that is stored then, and the size of the file has grown by their number, even where they take the
-- place of others. It holds for a file of the size 0 too.
pub read_data-write_data :
    (fuel : ℕ) (v : Inode) (buf : List ℕ) (offset : ℕ) (d : Disk)
    → 0 < length buf
    → offset % block_size + length buf ≤ block_size
    → offset / block_size < v.num_blocks
    → offset / block_size < ndblock_ptrs
    → v.size + length buf < 2 ^ 63
    → (d' : Disk) × (write_data (suc fuel) v buf offset d ≡ ok (some (length buf), d'))
      × ((get_inode v.i_num d'.inodes).size ≡ v.size + length buf)
      × (read_data (suc fuel) (get_inode v.i_num d'.inodes) d'.bytes (length buf) offset ≡ ok buf)
unfolding read_data
read_data-write_data fuel v buf offset d pos fits has inside small =
    let v' = record v { size = (v.size + length buf) % 2 ^ 64 } in
    let d' = written v buf offset d in
    let idx = offset / block_size in
    let stored : get_inode v.i_num d'.inodes ≡ v' =
      get_inode-update_inode v.i_num v' d.inodes ∙ rw (==_refl v.i_num) refl in
    let grown : (v.size + length buf) % 2 ^ 64 ≡ v.size + length buf = omega arith in
    let positive : is_negative ((v.size + length buf) % 2 ^ 64) ≡ false = rw grown (ground arith) in
    let all : ltb ((v.size + length buf) % 2 ^ 64) (length buf) ≡ false = rw grown (ground arith) in
    let j = v.direct_block_ptr idx + dblock_idx in
    let block : d'.bytes j ≡ splice buf (offset % block_size) (d.bytes j) = ground arith in
    (
      d',
      write_data-written fuel v buf offset d pos fits has inside,
      ap (λ (w : Inode). w.size) stored ∙ grown,
      rw (stored, all)
          (loop_last v' d'.bytes fuel (length buf) idx (offset % block_size) [] pos positive
              (omega arith) inside fits
            ∙ ap ok (rw block (slice-splice buf (offset % block_size) (d.bytes j)))),
    )
