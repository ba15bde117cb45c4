-- ===== src/FileSystem/Blocks.antt =====
-- findFreeBlock of filesystemFUSE/submission/block.c and findFreeInode of inode.c. A device holds all of
-- its blocks, as the README's dd command makes it, so that block_read and block_write do not fail;
-- `device j` is block `j`, read as a bitmap.
pub mod Reuse
use rutgers_cs.Prelude.{ℕ, zero, suc, ◌+◌, if◌then◌else◌, ◌==◌, ltb, Option, none, some}
use rutgers_cs.FileSystem.Layout.{nbit_block, ibitmap_idx, bbitmap_idx}
use rutgers_cs.FileSystem.Bitmap.{Bitmap, find_first_free}

abbrev pub Device : Type 0
Device = ℕ → Bitmap

unfoldable pub block_read : ℕ → Device → Bitmap
block_read j d = d j

unfoldable pub block_write : ℕ → Bitmap → Device → Device
block_write j b d = λ k. if k == j then b else d k

-- The loop over the blocks of the bitmap from `i` on, with `n` left; `none` is -1.
unfoldable pub find_free_from : ℕ → ℕ → Device → Option ℕ × Device
find_free_from zero i d = (none, d)
find_free_from (suc n) i d = elim (find_first_free (block_read (bbitmap_idx + i) d)) [
  | some (k, b) ↦
      let rest = find_free_from n (i + 1) d in
      if ltb 0 k then (some k, block_write (bbitmap_idx + i) b d) else rest
  | none ↦ find_free_from n (i + 1) d
]

unfoldable pub find_free_block : Device → Option ℕ × Device
find_free_block d = find_free_from nbit_block 0 d

unfoldable pub find_free_inode : Device → Option ℕ × Device
find_free_inode d = elim (find_first_free (block_read ibitmap_idx d)) [
  | some (k, b) ↦ if ltb k 1 then (some k, d) else (some k, block_write ibitmap_idx b d)
  | none ↦ (none, d)
]
