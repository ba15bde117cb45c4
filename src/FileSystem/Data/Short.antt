-- ===== src/FileSystem/Data/Short.antt =====
-- sfs_read of filesystemFUSE/submission/sfs.c where it returns fewer bytes than the file has.
use rutgers_cs.Prelude.{
  ℕ, suc, ◌+◌, ◌-◌, ◌*◌, ◌/◌, ◌%◌, ◌≤◌, ◌<◌, ◌≡◌, refl, Bool, false, List, ◌++◌, ◌==◌, ltb, leb,
  length, arith, ◌∙◌, ap, if◌then◌else◌,
}
use rutgers_cs.Prelude.Run.{ok}
use rutgers_cs.FileSystem.Layout.{block_size, dblock_idx}
use rutgers_cs.FileSystem.Inodes.{Inode}
use rutgers_cs.FileSystem.Disk.{ndblock_ptrs, is_negative}
use rutgers_cs.FileSystem.Data.{slice, read_loop, read_data}
use rutgers_cs.FileSystem.Data.Reads.{
  stored_bytes, length-slice, stored_bytes-append, slice-stored_bytes, loop_first,
}

if_no {ℓ} : {A : Type ℓ} (b : Bool) (x y : A) → b ≡ false → (if b then x else y) ≡ y
if_no b x y e = rw e refl

module _ (v : Inode) (bytes : ℕ → ℕ → ℕ) where
  -- The call behind a round, where `begin` says that it was the first one.
  next_round :
      (fuel left idx off n f g : ℕ) (begin : Bool) (out xs ys : List ℕ)
      → begin ≡ false
      → read_loop fuel v bytes
          (left - (n + (if begin then f else g)))
          (idx + 1)
          (if begin then 0 else off)
          (out ++ (if begin then xs else ys))
        ≡ read_loop fuel v bytes (left - (n + g)) (idx + 1) off (out ++ ys)
  next_round fuel left idx off n f g begin out xs ys e = rw e refl

  -- A round behind the first one that fills a block: all the bytes read so far are taken from those left.
  loop_later :
      (fuel left idx : ℕ) (out : List ℕ)
      → block_size < left
      → 0 < length out
      → is_negative v.size ≡ false
      → length out ≤ v.size
      → idx < ndblock_ptrs
      → read_loop (suc fuel) v bytes left idx 0 out
        ≡ read_loop fuel v bytes
            (left - (length out + block_size))
            (idx + 1)
            0
            (out ++ slice block_size 0 (bytes (v.direct_block_ptr idx + dblock_idx)))
  unfolding read_loop
  loop_later fuel left idx out over begun positive within low =
      let some_left : (left == 0) ≡ false = ground (arith, over) in
      let some_read : (length out == 0) ≡ false = ground (arith, begun) in
      let more : ltb v.size (length out) ≡ false = ground (arith, within) in
      let here : leb ndblock_ptrs idx ≡ false = ground (arith, low) in
      let last : leb left block_size ≡ false = ground (arith, over) in
      if_no (left == 0) _ _ some_left
      ∙ if_no (is_negative v.size) _ _ positive
      ∙ if_no (ltb v.size (length out)) _ _ more
      ∙ if_no (leb ndblock_ptrs idx) _ _ here
      ∙ if_no (leb left block_size) _ _ last
      ∙ next_round fuel left idx 0 (length out) block_size block_size (length out == 0) out _ _
          some_read

  loop_end : (fuel idx off : ℕ) (out : List ℕ) → read_loop (suc fuel) v bytes 0 idx off out ≡ ok out
  unfolding read_loop
  loop_end fuel idx off out = refl

  -- Two blocks that follow on each other.
  two_parts :
      (a b pos : ℕ) (xs ys : List ℕ)
      → xs ≡ stored_bytes v bytes a pos
      → ys ≡ stored_bytes v bytes b (pos + a)
      → xs ++ ys ≡ stored_bytes v bytes (a + b) pos
  two_parts a b pos xs ys e e' = rw (e, e') (stored_bytes-append v bytes a b pos)

  -- A read that ends behind the second block, by no more bytes than the first one gave, returns the bytes of the
  -- first two blocks only, where the file has all that were asked for.
  pub read_data-short :
      (fuel size offset : ℕ)
      → size ≤ v.size
      → is_negative v.size ≡ false
      → 2 * block_size < offset % block_size + size
      → size + 2 * (offset % block_size) ≤ 3 * block_size
      → offset / block_size + 1 < ndblock_ptrs
      → read_data (suc (suc (suc fuel))) v bytes size offset
        ≡ ok (stored_bytes v bytes (2 * block_size - offset % block_size) offset)
  unfolding read_data
  read_data-short fuel size offset within positive over short inside =
      let idx = offset / block_size in
      let off = offset % block_size in
      let a = block_size - off in
      let all : ltb v.size size ≡ false = ground (arith, within) in
      let whole : idx * block_size + off ≡ offset = omega arith in
      let start : (idx + 1) * block_size + 0 ≡ offset + a = omega arith in
      let first =
        slice-stored_bytes v bytes a idx off (omega arith) ∙ ap (stored_bytes v bytes a) whole in
      let second =
        slice-stored_bytes v bytes block_size (idx + 1) 0 (omega arith)
        ∙ ap (stored_bytes v bytes block_size) start in
      let n = length-slice a off (bytes (v.direct_block_ptr idx + dblock_idx)) in
      let out = slice a off (bytes (v.direct_block_ptr idx + dblock_idx)) in
      let over_round : (size - a) - (length out + block_size) ≡ 0 = omega (arith, short, n) in
      let sum : a + block_size ≡ 2 * block_size - off = omega arith in
      rw all (
        loop_first v bytes (suc (suc fuel)) size idx off (omega arith) (omega (arith, over))
          positive (omega (arith, inside))
        ∙ loop_later (suc fuel) (size - a) (idx + 1) out (omega (arith, over)) (omega (arith, n))
            positive (omega (arith, n, over, within)) inside
        ∙ ap
            (λ left.
              read_loop (suc fuel) v bytes left (idx + 1 + 1) 0
                (out ++ slice block_size 0 (bytes (v.direct_block_ptr (idx + 1) + dblock_idx))))
            over_round
        ∙ loop_end fuel (idx + 1 + 1) 0 _
        ∙ ap ok (
            two_parts a block_size offset _ _ first second
            ∙ ap (λ k. stored_bytes v bytes k offset) sum))
