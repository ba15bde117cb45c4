-- ===== src/FileSystem/Bitmap/Search.antt =====
-- findFirstFree of filesystemFUSE/submission/bitmap.c: the bits that it finds, and those that it cannot.
use rutgers_cs.Prelude.{
  ℕ, zero, suc, ◌+◌, ◌≤◌, ◌<◌, ◌≡◌, ◌≢◌, refl, none, some, arith, ◌==◌, update, false,
}
use native.Mathlib.Decide.{ℕ_discrete}
use rutgers_cs.FileSystem.Bitmap.{Bitmap, bit, or_bit, scan_word, scan_words, find_first_free}

-- The first bit of the word from `l` on that is 0.
pub record IsFirstZero (w l k : ℕ) : Type 0 where
  pub above : l ≤ k
  pub clear : bit w k ≡ 0
  pub set : (j : ℕ) → l ≤ j → j < k → bit w j ≢ 0

pub data Scanned (w n l : ℕ) : Type 0 where
  zero_at : (k : ℕ) → IsFirstZero w l k → k < l + n → scan_word n l w ≡ some k → Scanned w n l
  all_set : ((j : ℕ) → l ≤ j → j < l + n → bit w j ≢ 0) → scan_word n l w ≡ none → Scanned w n l

module _ (w : ℕ) where
  later : (n l : ℕ) → bit w l ≢ 0 → Scanned w n (l + 1) → Scanned w (suc n) l
  unfolding scan_word
  later n l set (zero_at k first low e) =
      let skip : (bit w l == 0) ≡ false = ground arith in
      zero_at k (record { above = omega (arith, first.above); clear = first.clear; set = sets })
        (omega arith) (rw (skip, e))
    where
      sets : (j : ℕ) → l ≤ j → j < k → bit w j ≢ 0
      sets j a b = elim (ℕ_discrete j l) [
        | yes same ↦ rw same set
        | no other ↦ first.set j (omega arith) b
      ]
  later n l set (all_set h e) =
      let skip : (bit w l == 0) ≡ false = ground arith in
      let found : scan_word (suc n) l w ≡ none = rw (skip, e) in all_set sets found
    where
      sets : (j : ℕ) → l ≤ j → j < l + suc n → bit w j ≢ 0
      sets j a b = elim (ℕ_discrete j l) [
        | yes same ↦ rw same set
        | no other ↦ h j (omega arith) (omega arith)
      ]

  scan_word_lem : (n l : ℕ) → Scanned w n l
  unfolding scan_word
  scan_word_lem zero l = all_set (λ j a b. absurd (omega arith)) refl
  scan_word_lem (suc n) l = elim (ℕ_discrete (bit w l) 0) [
    | yes clear ↦
        zero_at l
          (record { above = omega arith; clear = clear; set = λ j a b. absurd (omega arith) })
          (omega arith) (rw clear)
    | no set ↦ later n l set (scan_word_lem n (l + 1))
  ]

-- From the second word on the loop over the bits makes no round.
scan_words-none : (n i : ℕ) (b : Bitmap) → scan_words n i 32 b ≡ none
unfolding scan_words scan_word
scan_words-none zero i b = refl
scan_words-none (suc n) i b = scan_words-none n (i + 1) b

-- What findFirstFree comes to.
pub data Outcome (b : Bitmap) : Type 0 where
  found :
      (k : ℕ)
      → IsFirstZero (b 0) 1 k
      → k < 32
      → find_first_free b ≡ some (k, update b 0 (or_bit (b 0) k))
      → Outcome b
  full : ((j : ℕ) → 1 ≤ j → j < 32 → bit (b 0) j ≢ 0) → find_first_free b ≡ none → Outcome b

scan_words-first :
    (n k : ℕ) (b : Bitmap) → scan_word 31 1 (b 0) ≡ some k → scan_words (suc n) 0 1 b ≡ some (0, k)
unfolding scan_words
scan_words-first n k b e = rw (e, scan_words)

scan_words-full :
    (n : ℕ) (b : Bitmap) → scan_word 31 1 (b 0) ≡ none → scan_words (suc n) 0 1 b ≡ none
unfolding scan_words
scan_words-full n b e = rw (e, scan_words) (scan_words-none n 1 b)

-- findFirstFree looks at the bits 1 to 31 of the first word alone: it finds and sets the first of them that
-- is 0, and gives -1 exactly where all of these 31 bits are 1, whatever the other 127 words hold.
pub find_first_free_lem : (b : Bitmap) → Outcome b
unfolding find_first_free
find_first_free_lem b = elim (scan_word_lem (b 0) 31 1) [
  | zero_at k first low e ↦
      found k first low (rw (scan_words-first 127 k b e, find_first_free) (ground arith))
  | all_set h e ↦ full h (rw (scan_words-full 127 b e, find_first_free))
]
