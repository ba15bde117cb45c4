-- ===== src/FileSystem/Bitmap.antt =====
-- filesystemFUSE/submission/bitmap.c. A bitmap is a block of 128 ints, each as its 32-bit pattern; a bit
-- number is not negative.
pub mod Search
use rutgers_cs.Prelude.{
  ℕ, zero, suc, ◌+◌, ◌-◌, ◌*◌, ◌/◌, ◌%◌, ◌^◌, Bool, true, false, if◌then◌else◌, ◌==◌, ltb, update,
  Option, none, some,
}

abbrev pub Bitmap : Type 0
Bitmap = ℕ → ℕ

-- BLOCK_SIZE / sizeof(int)
abbrev pub words : ℕ
words = 128

-- (w >> l) & 1
unfoldable pub bit : ℕ → ℕ → ℕ
bit w l = w / 2 ^ l % 2

-- w | 1 << l, and w & ~(1 << l)
unfoldable pub or_bit : ℕ → ℕ → ℕ
or_bit w l = if bit w l == 0 then w + 2 ^ l else w

unfoldable pub clear_in : ℕ → ℕ → ℕ
clear_in w l = if bit w l == 0 then w else w - 2 ^ l

-- for (; l < 32; l++), with `n` rounds left: the first bit that is 0.
unfoldable pub scan_word : ℕ → ℕ → ℕ → Option ℕ
scan_word zero l w = none
scan_word (suc n) l w = let rest = scan_word n (l + 1) w in if bit w l == 0 then some l else rest

-- The loop over the words from `i` on, with `n` words left; `l` is where the loop over the bits begins.
-- It is 32 from the second word on, since the code sets it to 1 once, before both loops.
unfoldable pub scan_words : ℕ → ℕ → ℕ → Bitmap → Option (ℕ × ℕ)
scan_words zero i l b = none
scan_words (suc n) i l b = elim (scan_word (32 - l) l (b i)) [
  | some k ↦ some (i, k)
  | none ↦ scan_words n (i + 1) 32 b
]

-- The bit found, set in the bitmap; `none` is -1.
unfoldable pub find_first_free : Bitmap → Option (ℕ × Bitmap)
find_first_free b = elim (scan_words words 0 1 b) [
  | some (i, l) ↦ some (i * 32 + l, update b i (or_bit (b i) l))
  | none ↦ none
]

-- The statement `bitmap[i] | flag;` computes a value and stores none.
unfoldable pub set_bit : Bitmap → ℕ → Bitmap
set_bit b k = b

unfoldable pub clear_bit : Bitmap → ℕ → Bitmap
clear_bit b k = update b (k / 32) (clear_in (b (k / 32)) (k % 32))

unfoldable pub test_bit : Bitmap → ℕ → ℕ
test_bit b k = bit (b (k / 32)) (if ltb k 32 then k else k % 32)
