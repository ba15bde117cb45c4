-- ===== src/FileSystem/Data/Shared.antt =====
-- The blocks that sfs_write of filesystemFUSE/submission/sfs.c does not allocate.
use rutgers_cs.Prelude.{
  ℕ, suc, ◌+◌, ◌*◌, ◌/◌, ◌≤◌, ◌<◌, ◌≡◌, ◌≢◌, inl, refl, false, List, ◌==◌, length, arith, ◌∙◌, ap,
  sym, some,
}
use native.Mathlib.Decide.{ℕ_discrete}
use rutgers_cs.Prelude.Run.{ok}
use rutgers_cs.FileSystem.Layout.{block_size}
use rutgers_cs.FileSystem.Inodes.{Inode, update_inode}
use rutgers_cs.FileSystem.Disk.{Disk}
use rutgers_cs.FileSystem.Data.{write_data, reserve, end_block, allocate_from}
use rutgers_cs.FileSystem.Data.Put.{byte_at, stored_byte, ne_false, IsApart}
use rutgers_cs.FileSystem.Data.Whole.{write_loop-Wrote}

-- A file of no bytes that has the one block that createInode gives it.
pub record IsNewFile (v : Inode) : Type 0 where
  pub empty : v.size ≡ 0
  pub one : v.num_blocks ≡ 1
  pub first : v.direct_block_ptr 0 ≢ 0
  pub second : v.direct_block_ptr 1 ≡ 0

two_blocks-IsApart : (v : Inode) → IsNewFile v → IsApart 2 v
two_blocks-IsApart v new i j low low' e = elim (ℕ_discrete i 0) [
  | yes a ↦ elim (ℕ_discrete j 0) [
    | yes b ↦ a ∙ sym b
    | no b ↦
        let second : j ≡ 1 = omega (arith, b, low') in
        absurd (
          new.first (ap v.direct_block_ptr (sym a) ∙ e ∙ ap v.direct_block_ptr second ∙ new.second))
  ]
  | no a ↦ elim (ℕ_discrete j 0) [
    | yes b ↦
        let second : i ≡ 1 = omega (arith, a, low) in
        absurd (
          new.first
            (ap v.direct_block_ptr (sym b) ∙ sym e ∙ ap v.direct_block_ptr second ∙ new.second))
    | no b ↦ omega (arith, a, b, low, low')
  ]
]

-- Files without a second block have its bytes in common.
second_byte :
    (u v : Inode) (bytes : ℕ → ℕ → ℕ) (k : ℕ)
    → k < block_size
    → u.direct_block_ptr 1 ≡ 0
    → v.direct_block_ptr 1 ≡ 0
    → stored_byte u bytes (block_size + k) ≡ stored_byte v bytes (block_size + k)
second_byte u v bytes k low e e' =
    let q : (block_size + k) / block_size ≡ 1 = omega (arith, low) in rw (q, e, e') refl

-- No block is allocated for the second block of a new file.
reserve-IsNewFile :
    (v : Inode) (d : Disk)
    → IsNewFile v
    → reserve 1 v d ≡ ok (v, record d { inodes = update_inode v d.inodes })
unfolding reserve allocate_from
reserve-IsNewFile v d new =
    rw (new.one, new.empty, ne_false (v.direct_block_ptr 0) 0 new.first) refl

-- sfs_write of more than one block and at most two to a new file returns the number of bytes but allocates no
-- block for those behind the first 512: they go to data block 0, and are the bytes of the second block of
-- every other file whose second block was not allocated either.
pub write_data-shared :
    (fuel : ℕ) (v u : Inode) (buf : List ℕ) (d : Disk)
    → IsNewFile v
    → u.direct_block_ptr 1 ≡ 0
    → block_size < length buf
    → length buf ≤ 2 * block_size
    → (d' : Disk) × (write_data (suc (suc fuel)) v buf 0 d ≡ ok (some (length buf), d'))
      × (d'.bitmaps ≡ d.bitmaps)
      × ((k : ℕ)
          → block_size + k < length buf
          → stored_byte u d'.bytes (block_size + k) ≡ byte_at buf (block_size + k))
unfolding write_data
write_data-shared fuel v u buf d new other over fits =
    let d₁ = record d { inodes = update_inode v d.inodes } in
    let end : end_block (length buf) 0 ≡ 1 = ground (arith, over, fits) in
    let some_sum : (length buf + 0 == 0) ≡ false = ground (arith, over) in
    let z : 0 + length buf ≡ length buf = omega arith in
    let (d', ran, w) =
      write_loop-Wrote 2 (omega arith) buf (suc (suc fuel)) v (length buf) 0 0 0 d₁
        (omega (arith, over)) (omega arith) (omega arith) (omega (arith, fits))
        (omega (arith, fits)) (inl refl) (two_blocks-IsApart v new) in
    (
      d',
      rw (end, some_sum, reserve-IsNewFile v d new) (ran ∙ ap (λ n. ok (some n, d')) z),
      w.bitmaps,
      λ k h.
          let p : 0 * block_size + 0 + (block_size + k) ≡ block_size + k = omega arith in
          let p' : 0 + (block_size + k) ≡ block_size + k = omega arith in
          second_byte u v d'.bytes k (omega (arith, h, fits)) other new.second
          ∙ ap (stored_byte v d'.bytes) (sym p)
          ∙ w.inside (block_size + k) h
          ∙ ap (byte_at buf) p',
    )
