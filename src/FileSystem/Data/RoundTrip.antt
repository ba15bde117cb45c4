-- ===== src/FileSystem/Data/RoundTrip.antt =====
-- sfs_write over several blocks and sfs_read of filesystemFUSE/submission/sfs.c one after the other.
use rutgers_cs.Prelude.{
  ℕ, suc, ◌+◌, ◌*◌, ◌/◌, ◌%◌, ◌^◌, ◌≤◌, ◌<◌, ◌≡◌, false, List, length, arith, ◌∙◌, ap, sym, some,
}
use mathlib.Core.Path.{subst}
use rutgers_cs.Prelude.Run.{ok}
use rutgers_cs.FileSystem.Layout.{block_size}
use rutgers_cs.FileSystem.Inodes.{Inode, get_inode}
use rutgers_cs.FileSystem.Disk.{Disk, ndblock_ptrs, is_negative}
use rutgers_cs.FileSystem.Data.{part, read_data, write_data}
use rutgers_cs.FileSystem.Data.Reads.{stored_bytes, read_data-stored_bytes}
use rutgers_cs.FileSystem.Data.Put.{IsApart, byte_at, stored_byte, length-part, byte_at-part}
use rutgers_cs.FileSystem.Data.Whole.{grown, write_data-Wrote, stored_bytes-ext}

-- A part of a buffer, as the bytes of a file.
stored_bytes-part :
    (v : Inode) (bytes : ℕ → ℕ → ℕ) (buf : List ℕ) (n o pos : ℕ)
    → n + o ≤ length buf
    → ((k : ℕ) → k < n → stored_byte v bytes (pos + k) ≡ byte_at buf (o + k))
    → stored_bytes v bytes n pos ≡ part n o buf
stored_bytes-part v bytes buf n o pos fits h =
    let size = length-part n o buf fits in
    ap (λ k. stored_bytes v bytes k pos) (sym size)
    ∙ stored_bytes-ext v bytes (part n o buf) pos (λ k l.
      let low : k < n = omega (arith, l, size) in h k low ∙ sym (byte_at-part n o k buf low))

-- Of the bytes that sfs_write puts into blocks that a file has and that are different ones, sfs_read, with the inode
-- that is stored then, gives any part that ends in the block it begins in or in the next one, where the
-- size of the file stays below 2 ^ 63.
pub read_data-write_data_blocks :
    (fuel fuel' blocks : ℕ) (v : Inode) (buf : List ℕ) (offset n o : ℕ) (d : Disk)
    → 0 < n
    → n + o ≤ length buf
    → blocks ≤ v.num_blocks
    → blocks ≤ ndblock_ptrs
    → offset + length buf ≤ blocks * block_size
    → offset % block_size + length buf ≤ block_size * fuel
    → IsApart blocks v
    → v.size + length buf < 2 ^ 63
    → (offset + o) % block_size + n ≤ 2 * block_size
    → (offset + o) / block_size + 1 < ndblock_ptrs
    → (d' : Disk) × (write_data fuel v buf offset d ≡ ok (some (length buf), d'))
      × (read_data (suc (suc fuel')) (get_inode v.i_num d'.inodes) d'.bytes n (offset + o)
          ≡ ok (part n o buf))
read_data-write_data_blocks fuel fuel' blocks v buf offset n o d pos fits has few within fuels apart
      small near inside =
    let (d', ran, all, w) =
      write_data-Wrote fuel blocks v buf offset d (omega (arith, pos, fits)) has few within fuels
        apart in
    let v' = grown v (offset % block_size) (length buf) in
    let size : v'.size ≡ v.size + length buf = omega (arith, small) in
    let positive : is_negative v'.size ≡ false = rw size (ground (arith, small)) in
    let bytes = stored_bytes-part v' d'.bytes buf n o (offset + o) fits (λ k h.
      let e : offset + o + k ≡ offset + (o + k) = omega arith in
      let z : 0 + (o + k) ≡ o + k = omega arith in
      ap (stored_byte v d'.bytes) e
      ∙ w.inside (o + k) (omega (arith, h, fits))
      ∙ ap (byte_at buf) z) in
    (
      d',
      ran,
      subst (λ u. read_data (suc (suc fuel')) u d'.bytes n (offset + o) ≡ ok (part n o buf))
          (sym w.stored)
          (read_data-stored_bytes v' d'.bytes fuel' n (offset + o) pos (omega (arith, size, fits))
              positive near inside
            ∙ ap ok bytes),
    )
