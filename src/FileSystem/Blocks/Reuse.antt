-- ===== src/FileSystem/Blocks/Reuse.antt =====
-- findFreeBlock of filesystemFUSE/submission/block.c: the block numbers that it gives.
use rutgers_cs.Prelude.{
  ℕ, zero, suc, ◌+◌, ◌≤◌, ◌<◌, ◌≡◌, ◌≢◌, Option, none, some, arith, ltb, ◌∙◌, true, ap, sym,
}
use rutgers_cs.FileSystem.Layout.{nbit_block, bbitmap_idx}
use rutgers_cs.FileSystem.Bitmap.{Bitmap, bit, find_first_free}
use rutgers_cs.FileSystem.Bitmap.Search.{found, full, find_first_free_lem}
use rutgers_cs.FileSystem.Blocks.{Device, block_read, block_write, find_free_from, find_free_block}

step_found :
    (n i k : ℕ) (b : Bitmap) (d : Device)
    → find_first_free (d (bbitmap_idx + i)) ≡ some (k, b)
    → 0 < k
    → find_free_from (suc n) i d ≡ (some k, block_write (bbitmap_idx + i) b d)
unfolding find_free_from block_read
step_found n i k b d e pos =
    let test : ltb 0 k ≡ true = ground arith in rw (e, find_free_from) (rw test)

step_full :
    (n i : ℕ) (d : Device)
    → find_first_free (d (bbitmap_idx + i)) ≡ none
    → find_free_from (suc n) i d ≡ find_free_from n (i + 1) d
unfolding find_free_from block_read
step_full n i d e = rw (e, find_free_from)

-- The 31 bits that findFirstFree looks at are all 1.
abbrev pub IsFull : Bitmap → Type 0
IsFull b = (j : ℕ) → 1 ≤ j → j < 32 → bit (b 0) j ≢ 0

none-of_full : (b : Bitmap) → IsFull b → find_first_free b ≡ none
none-of_full b h = elim (find_first_free_lem b) [
  | found k first low e ↦ absurd (h k first.above low first.clear)
  | full h' e ↦ e
]

find_free_from_bounds :
    (n i k : ℕ) (d : Device) → (find_free_from n i d).0 ≡ some k → (1 ≤ k) × (k < 32)
unfolding find_free_from
find_free_from_bounds zero i k d e = absurd (cc)
find_free_from_bounds (suc n) i k d e = elim (find_first_free_lem (d (bbitmap_idx + i))) [
  | found j first low e' ↦
      let same : (find_free_from (suc n) i d).0 ≡ some j =
        ap (λ (r : Option ℕ × Device). r.0) (step_found n i j _ d e' first.above) in
      let eq : j ≡ k = cc in (omega (arith, first.above, eq), omega (arith, low, eq))
  | full h e' ↦
      find_free_from_bounds n (i + 1) k d
        (sym (ap (λ (r : Option ℕ × Device). r.0) (step_full n i d e')) ∙ e)
]

-- Whatever the device holds, each number that findFreeBlock gives is from 1 to 31.
pub find_free_block_bounds :
    (k : ℕ) (d : Device) → (find_free_block d).0 ≡ some k → (1 ≤ k) × (k < 32)
unfolding find_free_block
find_free_block_bounds k d e = find_free_from_bounds nbit_block 0 k d e

-- Once the 31 bits of the first bitmap block are taken, findFreeBlock goes on in the second, but gives the
-- number of the bit there: a number that the first bitmap block marks as in use already.
pub find_free_block-reuses :
    (k : ℕ) (b : Bitmap) (d : Device)
    → IsFull (d 3)
    → find_first_free (d 4) ≡ some (k, b)
    → (find_free_block d ≡ (some k, block_write 4 b d)) × (bit (d 3 0) k ≢ 0)
unfolding find_free_block
find_free_block-reuses k b d taken e = elim (find_first_free_lem (d 4)) [
  | found k' first low e' ↦
      let same : k' ≡ k = cc in
      let pos : 0 < k = omega (arith, first.above, same) in
      (
        step_full 2 0 d (none-of_full (d 3) taken) ∙ step_found 1 1 k b d e pos,
        taken k pos (omega (arith, low, same)),
      )
  | full h e' ↦ absurd (cc)
]
