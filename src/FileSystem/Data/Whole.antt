-- ===== src/FileSystem/Data/Whole.antt =====
-- sfs_write of filesystemFUSE/submission/sfs.c over any number of blocks that the file has, against the
-- bytes of the file by their position.
use rutgers_cs.Prelude.{
  ℕ, zero, suc, ◌+◌, ◌-◌, ◌*◌, ◌/◌, ◌%◌, ◌^◌, ◌≤◌, ◌<◌, ◌≡◌, ◌≢◌, ◌⊎◌, inl, inr, refl, true, false,
  List, [], ◌∷◌, ◌==◌, ltb, leb, if◌then◌else◌, length, arith, ◌∙◌, ap, sym, ==_refl, some,
}
use mathlib.Core.Path.{subst}
use native.Mathlib.Decide.{dec_lt}
use rutgers_cs.Prelude.Run.{ok}
use rutgers_cs.FileSystem.Layout.{block_size, dblock_idx}
use rutgers_cs.FileSystem.Inodes.{Inode, get_inode}
use rutgers_cs.FileSystem.Inodes.Table.{get_inode-update_inode}
use rutgers_cs.FileSystem.Disk.{Disk, ndblock_ptrs}
use rutgers_cs.FileSystem.Data.{
  part, write_loop, write_data, reserve, end_block, put_bytes, store_inode,
}
use rutgers_cs.FileSystem.Data.Reads.{stored_bytes}
use rutgers_cs.FileSystem.Data.Put.{
  byte_at, stored_byte, length-part, byte_at-part, ne_false, IsApart, put-inside, put-outside,
}

-- The inode after `left` bytes from the offset `off` of a block on are written.
abbrev pub grown : Inode → ℕ → ℕ → Inode
grown v off left = record v {
  size = (v.size + left) % 2 ^ 64;
  num_blocks = v.num_blocks + (off + left - 1) / block_size;
}

-- What a write of `left` bytes of a buffer, those from `wrote` on, to the position `pos` of a file does.
pub record Wrote (blocks : ℕ) (v : Inode) (buf : List ℕ) (left wrote pos : ℕ) (d d' : Disk)
    : Type 0 where
  pub stored : get_inode v.i_num d'.inodes ≡ grown v (pos % block_size) left
  pub inside : (k : ℕ) → k < left → stored_byte v d'.bytes (pos + k) ≡ byte_at buf (wrote + k)
  pub outside :
      (at : ℕ)
      → at < blocks * block_size
      → (pos ≤ at → pos + left ≤ at)
      → stored_byte v d'.bytes at ≡ stored_byte v d.bytes at
  pub elsewhere :
      (j : ℕ)
      → ((i : ℕ) → i < blocks → j ≢ v.direct_block_ptr i + dblock_idx)
      → d'.bytes j ≡ d.bytes j
  pub bitmaps : d'.bitmaps ≡ d.bitmaps

module _ (blocks : ℕ) (few : blocks ≤ ndblock_ptrs) (buf : List ℕ) where
  -- The round that writes the rest into one block.
  last_round :
      (fuel : ℕ) (v : Inode) (left wrote idx off : ℕ) (d : Disk)
      → 0 < left
      → left + wrote ≤ length buf
      → idx < blocks
      → off + left ≤ block_size
      → IsApart blocks v
      → (d' : Disk) × (write_loop (suc fuel) v buf left wrote idx off d
          ≡ ok (some (wrote + left), d'))
        × Wrote blocks v buf left wrote (idx * block_size + off) d d'
  unfolding write_loop
  last_round fuel v left wrote idx off d pos enough low fits apart =
      let some_left : (left == 0) ≡ false = ground arith in
      let here : leb ndblock_ptrs idx ≡ false = ground (arith, few, low) in
      let last : leb left (block_size - off) ≡ true = ground arith in
      let n : length (part left wrote buf) ≡ left = length-part left wrote buf enough in
      let fits' : off + length (part left wrote buf) ≤ block_size = rw n fits in
      let xs = part left wrote buf in
      let w = record v { size = (v.size + left) % 2 ^ 64 } in
      let put = put_bytes (v.direct_block_ptr idx + dblock_idx) xs off d in
      let inner : (idx * block_size + off) % block_size ≡ off = omega (arith, pos, fits) in
      let same : v.num_blocks + (off + left - 1) / block_size ≡ v.num_blocks =
        omega (arith, pos, fits) in
      (
        store_inode w put,
        rw (some_left, here, last) refl,
        record {
          stored =
              rw (inner, same)
                (get_inode-update_inode v.i_num w d.inodes ∙ rw (==_refl v.i_num) refl);
          inside = λ k h.
              put-inside blocks v apart (part left wrote buf) idx off d low fits' k (rw n h)
              ∙ byte_at-part left wrote k buf h;
          outside = λ at h out.
              put-outside blocks v apart (part left wrote buf) idx off d low fits' at h (rw n out);
          elsewhere = λ j h. rw (ne_false _ _ (h idx low)) refl;
          bitmaps = refl;
        },
      )

  -- The inode and the device after a round that fills its block.
  abbrev filled : Inode → ℕ → Inode
  filled v a = record v { size = (v.size + a) % 2 ^ 64; num_blocks = v.num_blocks + 1 }

  abbrev put : Inode → ℕ → ℕ → ℕ → ℕ → Disk → Disk
  put v a wrote idx off d =
      store_inode (filled v a)
        (put_bytes (v.direct_block_ptr idx + dblock_idx) (part a wrote buf) off d)

  full_round :
      (fuel : ℕ) (v : Inode) (left wrote idx off a : ℕ) (d : Disk)
      → block_size < off + left
      → idx < blocks
      → off + a ≡ block_size
      → (wrote ≡ 0 ⊎ off ≡ 0)
      → write_loop (suc fuel) v buf left wrote idx off d
        ≡ write_loop fuel
            (filled v a)
            buf
            (left - a)
            (wrote + a)
            (idx + 1)
            0
            (put v a wrote idx off d)
  unfolding write_loop
  full_round fuel v left wrote idx off a d over low full begun =
      let n : (if wrote == 0 then block_size - off else block_size) ≡ a =
        ground (arith, full, begun) in
      let o : (if wrote == 0 then 0 else off) ≡ 0 = ground (arith, begun) in
      let some_left : (left == 0) ≡ false = ground (arith, full, over) in
      let here : leb ndblock_ptrs idx ≡ false = ground (arith, few, low) in
      let last : leb left (block_size - off) ≡ false = ground (arith, over) in
      rw (some_left, here, last, n, o) refl

  -- A round, and those behind it.
  and_then :
      (v : Inode) (left wrote idx off a : ℕ) (d d' : Disk)
      → left + wrote ≤ length buf
      → block_size < off + left
      → idx < blocks
      → 0 < a
      → off + a ≡ block_size
      → IsApart blocks v
      → Wrote blocks
          (filled v a)
          buf
          (left - a)
          (wrote + a)
          ((idx + 1) * block_size + 0)
          (put v a wrote idx off d)
          d'
      → Wrote blocks v buf left wrote (idx * block_size + off) d d'
  and_then v left wrote idx off a d d' enough over low some_room full apart w =
      let xs = part a wrote buf in
      let n : length xs ≡ a = length-part a wrote buf (omega (arith, enough, over, full)) in
      let fits : off + length xs ≤ block_size = rw n (omega (arith, full)) in
      let sizes : ((v.size + a) % 2 ^ 64 + (left - a)) % 2 ^ 64 ≡ (v.size + left) % 2 ^ 64 =
        omega (arith, full, over) in
      let counts : v.num_blocks
            + 1
            + (((idx + 1) * block_size + 0) % block_size + (left - a) - 1) / block_size
          ≡ v.num_blocks + ((idx * block_size + off) % block_size + left - 1) / block_size =
        omega (arith, full, over, some_room) in
      record {
        stored = w.stored ∙ rw (sizes, counts) refl;
        inside = λ k h. elim (dec_lt k a) [
          | yes first ↦
              w.outside (idx * block_size + off + k) (omega (arith, low, first, full))
                (λ l. absurd (omega (arith, l, first, full)))
              ∙ put-inside blocks v apart xs idx off d low fits k (rw n first)
              ∙ byte_at-part a wrote k buf first
          | no later ↦
              let e : idx * block_size + off + k ≡ (idx + 1) * block_size + 0 + (k - a) =
                omega (arith, later, full) in
              let e' : wrote + a + (k - a) ≡ wrote + k = omega (arith, later) in
              rw e (w.inside (k - a) (omega (arith, h, later, over))) ∙ ap (byte_at buf) e'
        ];
        outside = λ at h out.
            w.outside at h (λ l. omega (arith, l, full, out (omega (arith, l, full)), over))
            ∙ put-outside blocks v apart xs idx off d low fits at h
                (λ l. omega (arith, n, full, over, out l));
        elsewhere = λ j h. w.elsewhere j h ∙ rw (ne_false _ _ (h idx low)) refl;
        bitmaps = w.bitmaps;
      }

  pub write_loop-Wrote :
      (fuel : ℕ) (v : Inode) (left wrote idx off : ℕ) (d : Disk)
      → 0 < left
      → left + wrote ≤ length buf
      → off < block_size
      → idx * block_size + off + left ≤ blocks * block_size
      → off + left ≤ block_size * fuel
      → (wrote ≡ 0 ⊎ off ≡ 0)
      → IsApart blocks v
      → (d' : Disk) × (write_loop fuel v buf left wrote idx off d ≡ ok (some (wrote + left), d'))
        × Wrote blocks v buf left wrote (idx * block_size + off) d d'
  write_loop-Wrote zero v left wrote idx off d pos enough inner within fuels begun apart =
      absurd (omega (arith, pos, fuels))
  write_loop-Wrote (suc fuel) v left wrote idx off d pos enough inner within fuels begun apart =
      elim (dec_lt block_size (off + left)) [
        | no fits ↦
            last_round fuel v left wrote idx off d pos enough (omega (arith, pos, within))
              (omega (arith, fits)) apart
        | yes over ↦
            let a = block_size - off in
            let full : off + (block_size - off) ≡ block_size = omega (arith, inner) in
            let low : idx < blocks = omega (arith, within, pos) in
            let (d', ran, w) =
              write_loop-Wrote fuel (filled v a) (left - a) (wrote + a) (idx + 1) 0
                (put v a wrote idx off d) (omega (arith, over)) (omega (arith, enough, over))
                (omega arith) (omega (arith, within, over)) (omega (arith, fuels, over)) (inr refl)
                apart in
            let total : wrote + a + (left - a) ≡ wrote + left = omega (arith, over) in
            (
              d',
              full_round fuel v left wrote idx off a d over low full begun
                  ∙ ran
                  ∙ ap (λ n. ok (some n, d')) total,
              and_then v left wrote idx off a d d' enough over low (omega (arith, inner)) full apart
                  w,
            )
      ]

-- The bytes of a file that are those of a buffer, place by place.
pub stored_bytes-ext :
    (v : Inode) (bytes : ℕ → ℕ → ℕ) (buf : List ℕ) (pos : ℕ)
    → ((k : ℕ) → k < length buf → stored_byte v bytes (pos + k) ≡ byte_at buf k)
    → stored_bytes v bytes (length buf) pos ≡ buf
stored_bytes-ext v bytes [] pos h = refl
stored_bytes-ext v bytes (x ∷ xs) pos h =
    let z : pos + 0 ≡ pos = omega arith in
    let first : stored_byte v bytes pos ≡ x =
      ap (stored_byte v bytes) (sym z) ∙ h 0 (omega arith) in
    rw first (
      ap (λ ys. x ∷ ys)
        (stored_bytes-ext v bytes xs (pos + 1) (λ k l.
          let e : pos + 1 + k ≡ pos + suc k = omega arith in rw e (h (suc k) (omega (arith, l))))))

-- sfs_write of a buffer that is not empty, into the first `blocks` blocks of a file, which it has and which
-- are different ones, returns the number of bytes of the buffer. They are the bytes of the file at the
-- offset then, every other byte of these blocks, every other block and the bitmaps are what they were, and the
-- inode that is stored has the size grown by the number of bytes, and the number of blocks by one for each
-- block that was filled with more to come. Fuel for each block that is written is enough.
pub write_data-Wrote :
    (fuel blocks : ℕ) (v : Inode) (buf : List ℕ) (offset : ℕ) (d : Disk)
    → 0 < length buf
    → blocks ≤ v.num_blocks
    → blocks ≤ ndblock_ptrs
    → offset + length buf ≤ blocks * block_size
    → offset % block_size + length buf ≤ block_size * fuel
    → IsApart blocks v
    → (d' : Disk) × (write_data fuel v buf offset d ≡ ok (some (length buf), d'))
      × (stored_bytes v d'.bytes (length buf) offset ≡ buf)
      × Wrote blocks v buf (length buf) 0 offset d d'
unfolding write_data reserve
write_data-Wrote fuel blocks v buf offset d pos has few within fuels apart =
    let some_sum : (length buf + offset == 0) ≡ false = ground (arith, pos) in
    let known : ltb (end_block (length buf) offset) v.num_blocks ≡ true =
      ground (arith, has, pos, within) in
    let low : ltb ndblock_ptrs (end_block (length buf) offset) ≡ false =
      ground (arith, pos, within, few) in
    let split : offset / block_size * block_size + offset % block_size ≡ offset = omega arith in
    let z : 0 + length buf ≡ length buf = omega arith in
    let (d', ran, w) =
      write_loop-Wrote blocks few buf fuel v (length buf) 0 (offset / block_size)
        (offset % block_size) d pos (omega arith) (omega arith) (omega (arith, within)) fuels
        (inl refl) apart in
    let w' = subst (λ q. Wrote blocks v buf (length buf) 0 q d d') split w in
    (
      d',
      rw (some_sum, low, known) (ran ∙ ap (λ n. ok (some n, d')) z),
      stored_bytes-ext v d'.bytes buf offset
          (λ k h. let e : 0 + k ≡ k = omega arith in w'.inside k h ∙ ap (byte_at buf) e),
      w',
    )
