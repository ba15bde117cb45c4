-- ===== src/FileSystem/Data/Put.antt =====
-- One block written by sfs_write of filesystemFUSE/submission/sfs.c, byte by byte.
use rutgers_cs.Prelude.{
  ℕ, zero, suc, ◌+◌, ◌*◌, ◌/◌, ◌%◌, ◌≤◌, ◌<◌, ◌≡◌, ◌≢◌, refl, false, List, [], ◌∷◌, ◌==◌, length,
  arith, ◌∙◌, ap, ==_refl,
}
use native.Mathlib.Decide.{ℕ_discrete}
use rutgers_cs.FileSystem.Layout.{block_size, dblock_idx}
use rutgers_cs.FileSystem.Inodes.{Inode}
use rutgers_cs.FileSystem.Disk.{Disk}
use rutgers_cs.FileSystem.Data.{part, splice, put_bytes}

-- The byte at the place `k` of a buffer.
abbrev pub byte_at : List ℕ → ℕ → ℕ
byte_at [] k = 0
byte_at (x ∷ xs) zero = x
byte_at (x ∷ xs) (suc k) = byte_at xs k

-- The byte in the blocks of the file at the position `pos`; the size of the file is not looked at.
abbrev pub stored_byte : Inode → (ℕ → ℕ → ℕ) → ℕ → ℕ
stored_byte v bytes pos =
    bytes (v.direct_block_ptr (pos / block_size) + dblock_idx) (pos % block_size)

pub length-part : (n o : ℕ) (xs : List ℕ) → n + o ≤ length xs → length (part n o xs) ≡ n
length-part zero o xs h = refl
length-part (suc n) o [] h = absurd (omega (arith, h))
length-part (suc n) zero (x ∷ xs) h = ap suc (length-part n zero xs (omega (arith, h)))
length-part (suc n) (suc o) (x ∷ xs) h = length-part (suc n) o xs (omega (arith, h))

pub byte_at-part : (n o k : ℕ) (xs : List ℕ) → k < n → byte_at (part n o xs) k ≡ byte_at xs (o + k)
byte_at-part zero o k xs h = absurd (omega (arith, h))
byte_at-part (suc n) o k [] h = refl
byte_at-part (suc n) zero zero (x ∷ xs) h = refl
byte_at-part (suc n) zero (suc k) (x ∷ xs) h =
    let e : 0 + suc k ≡ suc k = omega arith in
    let e' : 0 + k ≡ k = omega arith in
    rw e (byte_at-part n zero k xs (omega (arith, h)) ∙ ap (byte_at xs) e')
byte_at-part (suc n) (suc o) k (x ∷ xs) h =
    let e : suc o + k ≡ suc (o + k) = omega arith in rw e (byte_at-part (suc n) o k xs h)

pub splice-inside :
    (xs : List ℕ) (o k : ℕ) (b : ℕ → ℕ) → k < length xs → splice xs o b (o + k) ≡ byte_at xs k
splice-inside [] o k b h = absurd (omega (arith, h))
splice-inside (x ∷ xs) o zero b h = ground arith
splice-inside (x ∷ xs) o (suc k) b h =
    let e : o + suc k ≡ o + 1 + k = omega arith in
    let later : (o + 1 + k == o) ≡ false = ground arith in
    rw (e, later) (splice-inside xs (o + 1) k b (omega (arith, h)))

pub splice-outside :
    (xs : List ℕ) (o x : ℕ) (b : ℕ → ℕ) → (o ≤ x → o + length xs ≤ x) → splice xs o b x ≡ b x
splice-outside [] o x b h = refl
splice-outside (y ∷ ys) o x b h =
    let later : (x == o) ≡ false = ground (arith, h) in
    rw later (splice-outside ys (o + 1) x b (λ l. omega (arith, h (omega (arith, l)))))

pub ne_false : (a b : ℕ) → a ≢ b → (a == b) ≡ false
ne_false a b h = ground arith

-- The first `blocks` blocks of an inode are different ones.
abbrev pub IsApart : ℕ → Inode → Type 0
IsApart blocks v =
    (i j : ℕ) → i < blocks → j < blocks → v.direct_block_ptr i ≡ v.direct_block_ptr j → i ≡ j

module _ (blocks : ℕ) (v : Inode) (apart : IsApart blocks v) (xs : List ℕ) (idx off : ℕ) (d : Disk)
    (low : idx < blocks) (fits : off + length xs ≤ block_size) where
  -- The device after the bytes are put into block `idx` of the file.
  abbrev pub after : Disk
  after = put_bytes (v.direct_block_ptr idx + dblock_idx) xs off d

  pub put-inside :
      (k : ℕ)
      → k < length xs
      → stored_byte v after.bytes (idx * block_size + off + k) ≡ byte_at xs k
  put-inside k h =
      let q : (idx * block_size + off + k) / block_size ≡ idx = omega (arith, h) in
      let r : (idx * block_size + off + k) % block_size ≡ off + k = omega (arith, h) in
      rw (q, r, ==_refl (v.direct_block_ptr idx + dblock_idx)) (splice-inside xs off k _ h)

  pub put-outside :
      (pos : ℕ)
      → pos < blocks * block_size
      → (idx * block_size + off ≤ pos → idx * block_size + off + length xs ≤ pos)
      → stored_byte v after.bytes pos ≡ stored_byte v d.bytes pos
  put-outside pos within out = elim (ℕ_discrete (pos / block_size) idx) [
    | yes same ↦
        rw (same, ==_refl (v.direct_block_ptr idx + dblock_idx))
          (splice-outside xs off (pos % block_size) _
            (λ l. omega (arith, same, out (omega (arith, same, l)))))
    | no other ↦
        let elsewhere : (v.direct_block_ptr (pos / block_size) + dblock_idx
              == v.direct_block_ptr idx + dblock_idx)
            ≡ false =
          ne_false _ _ (λ e. other (apart _ idx (omega (arith, within)) low (omega (arith, e)))) in
        rw elsewhere refl
  ]
