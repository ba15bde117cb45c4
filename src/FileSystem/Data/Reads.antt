-- ===== src/FileSystem/Data/Reads.antt =====
-- sfs_read of filesystemFUSE/submission/sfs.c against the bytes of a file by their position.
use rutgers_cs.Prelude.{
  ℕ, zero, suc, ◌+◌, ◌-◌, ◌*◌, ◌/◌, ◌%◌, ◌≤◌, ◌<◌, ◌≡◌, refl, true, false, List, [], ◌∷◌, ◌++◌,
  ◌==◌, ltb, leb, length, arith, inl, inr, Bool-cases, ◌∙◌, ap,
}
use rutgers_cs.Prelude.Run.{ok}
use rutgers_cs.FileSystem.Layout.{block_size, dblock_idx}
use rutgers_cs.FileSystem.Inodes.{Inode}
use rutgers_cs.FileSystem.Disk.{ndblock_ptrs, is_negative}
use rutgers_cs.FileSystem.Data.{slice, read_loop, read_data}

-- The `n` bytes in the blocks of the file from the position `pos` on; the size of the file is not looked at.
abbrev pub stored_bytes : Inode → (ℕ → ℕ → ℕ) → ℕ → ℕ → List ℕ
stored_bytes v bytes zero pos = []
stored_bytes v bytes (suc n) pos =
    bytes (v.direct_block_ptr (pos / block_size) + dblock_idx) (pos % block_size)
    ∷ stored_bytes v bytes n (pos + 1)

pub length-slice : (n o : ℕ) (b : ℕ → ℕ) → length (slice n o b) ≡ n
length-slice zero o b = refl
length-slice (suc n) o b = ap suc (length-slice n (o + 1) b)

module _ (v : Inode) (bytes : ℕ → ℕ → ℕ) where
  pub stored_bytes-append :
      (a c pos : ℕ)
      → stored_bytes v bytes a pos ++ stored_bytes v bytes c (pos + a)
        ≡ stored_bytes v bytes (a + c) pos
  stored_bytes-append zero c pos =
      let e : pos + 0 ≡ pos = omega arith in let z : 0 + c ≡ c = omega arith in rw (e, z) refl
  stored_bytes-append (suc a) c pos =
      let e : pos + suc a ≡ pos + 1 + a = omega arith in
      let z : suc a + c ≡ suc (a + c) = omega arith in
      rw (e, z)
        (ap
          (λ xs. bytes (v.direct_block_ptr (pos / block_size) + dblock_idx) (pos % block_size) ∷ xs)
          (stored_bytes-append a c (pos + 1)))

  -- The part of one block.
  pub slice-stored_bytes :
      (n idx off : ℕ)
      → off + n ≤ block_size
      → slice n off (bytes (v.direct_block_ptr idx + dblock_idx))
        ≡ stored_bytes v bytes n (idx * block_size + off)
  slice-stored_bytes zero idx off fits = refl
  slice-stored_bytes (suc n) idx off fits =
      let q : (idx * block_size + off) / block_size ≡ idx = omega arith in
      let r : (idx * block_size + off) % block_size ≡ off = omega arith in
      let s : idx * block_size + off + 1 ≡ idx * block_size + (off + 1) = omega arith in
      rw (q, r, s)
        (ap (λ xs. bytes (v.direct_block_ptr idx + dblock_idx) off ∷ xs)
          (slice-stored_bytes n idx (off + 1) (omega arith)))

  -- The round that reads what is left.
  pub loop_last :
      (fuel left idx off : ℕ) (out : List ℕ)
      → 0 < left
      → is_negative v.size ≡ false
      → length out ≤ v.size
      → idx < ndblock_ptrs
      → off + left ≤ block_size
      → read_loop (suc fuel) v bytes left idx off out
        ≡ ok (out ++ slice left off (bytes (v.direct_block_ptr idx + dblock_idx)))
  unfolding read_loop
  loop_last fuel left idx off out pos positive within low fits =
      let some_left : (left == 0) ≡ false = ground arith in
      let more : ltb v.size (length out) ≡ false = ground arith in
      let here : leb ndblock_ptrs idx ≡ false = ground arith in
      let last : leb left (block_size - off) ≡ true = ground arith in
      rw (some_left, positive, more, here, last) refl

  -- The first round, where the bytes end in another block.
  pub loop_first :
      (fuel left idx off : ℕ)
      → off < block_size
      → block_size < off + left
      → is_negative v.size ≡ false
      → idx < ndblock_ptrs
      → read_loop (suc fuel) v bytes left idx off []
        ≡ read_loop fuel v bytes
            (left - (block_size - off))
            (idx + 1)
            0
            (slice (block_size - off) off (bytes (v.direct_block_ptr idx + dblock_idx)))
  unfolding read_loop
  loop_first fuel left idx off inner over positive low =
      let some_left : (left == 0) ≡ false = ground arith in
      let more : ltb v.size 0 ≡ false = ground arith in
      let here : leb ndblock_ptrs idx ≡ false = ground arith in
      let last : leb left (block_size - off) ≡ false = ground arith in
      let z : 0 + (block_size - off) ≡ block_size - off = omega arith in
      rw (some_left, positive, more, here, last, z) refl

  pub read_data-stored_bytes :
      (fuel size offset : ℕ)
      → 0 < size
      → size ≤ v.size
      → is_negative v.size ≡ false
      → offset % block_size + size ≤ 2 * block_size
      → offset / block_size + 1 < ndblock_ptrs
      → read_data (suc (suc fuel)) v bytes size offset ≡ ok (stored_bytes v bytes size offset)
  unfolding read_data
  read_data-stored_bytes fuel size offset pos within positive fits inside =
      let all : ltb v.size size ≡ false = ground arith in
      let whole : offset / block_size * block_size + offset % block_size ≡ offset = omega arith in
      let idx = offset / block_size in
      let off = offset % block_size in
      elim (Bool-cases (leb size (block_size - off))) [
        | inl last ↦ rw all (
            loop_last (suc fuel) size idx off [] pos positive (omega arith) (omega arith)
              (ground arith)
            ∙ ap ok (
                slice-stored_bytes size idx off (ground arith)
                ∙ ap (stored_bytes v bytes size) whole))
        | inr more ↦
            let a = block_size - off in
            let c = size - a in
            let over : block_size < off + size = ground arith in
            let first =
              slice-stored_bytes a idx off (omega arith) ∙ ap (stored_bytes v bytes a) whole in
            let start : (idx + 1) * block_size + 0 ≡ offset + a = omega arith in
            let second =
              slice-stored_bytes c (idx + 1) 0 (omega arith) ∙ ap (stored_bytes v bytes c) start in
            let sum : a + c ≡ size = omega arith in
            rw all (
              loop_first (suc fuel) size idx off (omega arith) over positive (omega arith)
              ∙ loop_last fuel c (idx + 1) 0 _ (omega arith) positive
                  (rw (length-slice a off (bytes (v.direct_block_ptr idx + dblock_idx)))
                    (omega arith))
                  (omega arith) (omega arith)
              ∙ ap ok (
                  rw (first, second)
                    (stored_bytes-append a c offset ∙ ap (λ n. stored_bytes v bytes n offset) sum)))
      ]
