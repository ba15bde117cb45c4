-- ===== src/FileSystem/Data.antt =====
-- sfs_read and sfs_write of filesystemFUSE/submission/sfs.c. A buffer is a list of bytes; a `fault` is a
-- block past the ten of an inode, or an index that is undefined behaviour, or a data block that could
-- not be allocated. Sizes and offsets are below 2 ^ 31.
pub mod Reads
pub mod Writes
pub mod Put
pub mod Whole
pub mod RoundTrip
pub mod Shared
pub mod Short
pub mod Tests
use rutgers_cs.Prelude.{
  ℕ, zero, suc, ◌+◌, ◌-◌, ◌*◌, ◌/◌, ◌%◌, ◌^◌, Bool, true, false, ◌&&◌, not, List, [], ◌∷◌, ◌++◌,
  if◌then◌else◌, ◌==◌, ltb, leb, length, update, Option, none, some,
}
use rutgers_cs.Prelude.Run.{Run, ok, fault, out_of_fuel, ◌>>=◌}
use rutgers_cs.FileSystem.Layout.{block_size, dblock_idx}
use rutgers_cs.FileSystem.Blocks.{Device, find_free_block}
use rutgers_cs.FileSystem.Inodes.{Inode, get_inode, update_inode}
use rutgers_cs.FileSystem.Disk.{Disk, ndblock_ptrs, is_negative}
use rutgers_cs.FileSystem.Lookup.{inode_from_path}

-- memcpy of `n` bytes from the offset `o` of a block.
abbrev pub slice : ℕ → ℕ → (ℕ → ℕ) → List ℕ
slice zero o b = []
slice (suc n) o b = b o ∷ slice n (o + 1) b

-- memcpy of `n` bytes from the offset `o` of a buffer.
abbrev pub part : ℕ → ℕ → List ℕ → List ℕ
part zero o xs = []
part (suc n) o [] = []
part (suc n) zero (x ∷ xs) = x ∷ part n zero xs
part (suc n) (suc o) (x ∷ xs) = part (suc n) o xs

-- memcpy of a buffer to the offset `o` of a block.
abbrev pub splice : List ℕ → ℕ → (ℕ → ℕ) → ℕ → ℕ
splice [] o b = b
splice (x ∷ xs) o b = update (splice xs (o + 1) b) o x

-- The loop of sfs_read: the bytes left, the block and the offset in it, and the bytes read. The number of bytes
-- left, an int, may become negative, which ends the loop.
unfoldable pub read_loop : ℕ → Inode → (ℕ → ℕ → ℕ) → ℕ → ℕ → ℕ → List ℕ → Run (List ℕ)
read_loop zero v bytes left idx off out = out_of_fuel
read_loop (suc fuel) v bytes left idx off out =
    let block = bytes (v.direct_block_ptr idx + dblock_idx) in
    let first = block_size - off in
    let red = length out + (if length out == 0 then first else block_size) in
    let more =
      out ++ (if length out == 0 then slice first off block else slice block_size 0 block) in
    let rest =
      read_loop fuel v bytes (left - red) (idx + 1) (if length out == 0 then 0 else off) more in
    if left == 0
    then ok out
    else if is_negative v.size
    then ok out
    else if ltb v.size (length out)
    then ok out
    else if leb ndblock_ptrs idx
    then fault
    else if leb left first
    then ok (out ++ slice left off block)
    else rest

unfoldable pub read_data : ℕ → Inode → (ℕ → ℕ → ℕ) → ℕ → ℕ → Run (List ℕ)
read_data fuel v bytes size offset =
    let left = if ltb v.size size then v.size else size in
    read_loop fuel v bytes left (offset / block_size) (offset % block_size) []

-- The bytes that are read; without a file, two pointers that were not set are freed.
unfoldable pub read : ℕ → List ℕ → ℕ → ℕ → Disk → Run (List ℕ)
read fuel path size offset d = inode_from_path fuel path d >>= λ r. elim r [
  | none ↦ fault
  | some n ↦ read_data fuel (get_inode n d.inodes) d.bytes size offset
]

-- findFreeBlock for the pointer `i` of the inode.
unfoldable pub allocate : ℕ → Inode → Device → Run (Inode × Device)
allocate i v b =
    let (found, b') = find_free_block b in
    elim found [
      | none ↦ fault
      | some j ↦
          if leb ndblock_ptrs i
          then fault
          else ok (record v { direct_block_ptr = update v.direct_block_ptr i j }, b')
    ]

-- The loop over the needed blocks; `i` is currBlockIdx.
unfoldable pub allocate_from : ℕ → ℕ → Inode → Device → Run (Inode × Device)
allocate_from zero i v b = ok (v, b)
allocate_from (suc n) i v b = allocate (i + 1) v b >>= λ (v', b'). allocate_from n (i + 1) v' b'

-- What sfs_write does where the block `end` is past the blocks that the inode has.
unfoldable pub reserve : ℕ → Inode → Disk → Run (Inode × Disk)
reserve end v d =
    let i = if is_negative v.size then 0 else v.size / block_size in
    let first = if v.direct_block_ptr i == 0 then allocate i v d.bitmaps else ok (v, d.bitmaps) in
    let all = first >>= λ (v', b). allocate_from (end - v.num_blocks) i v' b >>= λ (w, b').
    ok (w, record d { bitmaps = b'; inodes = update_inode w d.inodes }) in
    if ltb end v.num_blocks then ok (v, d) else if leb ndblock_ptrs i then fault else all

-- One block is written, and the inode with its new size.
abbrev pub put_bytes : ℕ → List ℕ → ℕ → Disk → Disk
put_bytes j xs off d = record d { bytes = update d.bytes j (splice xs off (d.bytes j)) }

abbrev pub store_inode : Inode → Disk → Disk
store_inode v d = record d { inodes = update_inode v d.inodes }

-- The loop of sfs_write: the bytes left and written, the block and the offset in it. The result is the number
-- of bytes written; `none` is -1.
unfoldable pub write_loop : ℕ → Inode → List ℕ → ℕ → ℕ → ℕ → ℕ → Disk → Run (Option ℕ × Disk)
write_loop zero v buf left wrote idx off d = out_of_fuel
write_loop (suc fuel) v buf left wrote idx off d =
    let j = v.direct_block_ptr idx + dblock_idx in
    let n = if wrote == 0 then block_size - off else block_size in
    let last = record v { size = (v.size + left) % 2 ^ 64 } in
    let next = record v { size = (v.size + n) % 2 ^ 64; num_blocks = v.num_blocks + 1 } in
    let rest =
      write_loop fuel next buf (left - n) (wrote + n) (idx + 1) (if wrote == 0 then 0 else off)
        (store_inode next (put_bytes j (part n wrote buf) off d)) in
    if left == 0
    then ok (none, d)
    else if leb ndblock_ptrs idx
    then fault
    else if leb left (block_size - off)
    then ok (some (wrote + left), store_inode last (put_bytes j (part left wrote buf) off d))
    else rest

-- endBlockIdx, for a size that is not 0.
abbrev pub end_block : ℕ → ℕ → ℕ
end_block size offset =
    if (size + offset) % block_size == 0
    then (size + offset) / block_size - 1
    else (size + offset) / block_size

unfoldable pub write_data : ℕ → Inode → List ℕ → ℕ → Disk → Run (Option ℕ × Disk)
write_data fuel v buf offset d =
    let size = length buf in
    let end = end_block size offset in
    let written = reserve end v d >>= λ (v', d').
    write_loop fuel v' buf size 0 (offset / block_size) (offset % block_size) d' in
    if size + offset == 0
    then fault
    else if ltb ndblock_ptrs end && not ((size + offset) % block_size == 0)
    then ok (none, d)
    else written

unfoldable pub write : ℕ → List ℕ → List ℕ → ℕ → Disk → Run (Option ℕ × Disk)
write fuel path buf offset d = inode_from_path fuel path d >>= λ r. elim r [
  | none ↦ fault
  | some n ↦ write_data fuel (get_inode n d.inodes) buf offset d
]
