-- ===== src/Memory/Pages/Request.antt =====
-- The search of requestPage of scheduler+virtualMemoryManager/submission/paging.c in the page table.
use rutgers_cs.Prelude.{ℕ, zero, suc, ◌+◌, ◌≤◌, ◌<◌, ◌≡◌, ◌≢◌, refl, false, none, some, arith, ◌==◌}
use native.Mathlib.Decide.{ℕ_discrete, dec_lt}
use rutgers_cs.Memory.Types.{
  first_user_page, first_swap_page, last_swap_page, user_pages, swap_pages, PageMeta, Memory,
}
use rutgers_cs.Memory.Pages.{find_free, claim}

-- Page `y` is the first one from `lo` on that is not in use.
pub record IsFirstFree (t : ℕ → PageMeta) (lo y : ℕ) : Type 0 where
  pub above : lo ≤ y
  pub unused : (t y).in_use ≡ 0
  pub used : (z : ℕ) → lo ≤ z → z < y → (t z).in_use ≢ 0

-- What find_free comes to on `n` pages.
pub data Found (t : ℕ → PageMeta) (n lo : ℕ) : Type 0 where
  free_at : (y : ℕ) → IsFirstFree t lo y → y < lo + n → find_free n lo t ≡ some y → Found t n lo
  all_used :
      ((z : ℕ) → lo ≤ z → z < lo + n → (t z).in_use ≢ 0) → find_free n lo t ≡ none → Found t n lo

module _ (t : ℕ → PageMeta) where
  extend : (n lo : ℕ) → (t lo).in_use ≢ 0 → Found t n (lo + 1) → Found t (suc n) lo
  unfolding find_free
  extend n lo taken (free_at y first low e) =
      let skip : ((t lo).in_use == 0) ≡ false = ground arith in
      free_at y (record { above = omega (arith, first.above); unused = first.unused; used = used })
        (omega arith) (rw (skip, e))
    where
      used : (z : ℕ) → lo ≤ z → z < y → (t z).in_use ≢ 0
      used z a b = elim (ℕ_discrete z lo) [
        | yes same ↦ rw same taken
        | no other ↦ first.used z (omega arith) b
      ]
  extend n lo taken (all_used h e) =
      let skip : ((t lo).in_use == 0) ≡ false = ground arith in all_used used (omega_free skip)
    where
      used : (z : ℕ) → lo ≤ z → z < lo + suc n → (t z).in_use ≢ 0
      used z a b = elim (ℕ_discrete z lo) [
        | yes same ↦ rw same taken
        | no other ↦ h z (omega arith) (omega arith)
      ]

      omega_free : ((t lo).in_use == 0) ≡ false → find_free (suc n) lo t ≡ none
      omega_free skip = rw (skip, e)

  pub find_free_lem : (n lo : ℕ) → Found t n lo
  unfolding find_free
  find_free_lem zero lo = all_used (λ z a b. absurd (omega arith)) refl
  find_free_lem (suc n) lo = elim (ℕ_discrete (t lo).in_use 0) [
    | yes unused ↦
        free_at lo
          (record { above = omega arith; unused = unused; used = λ z a b. absurd (omega arith) })
          (omega arith) (rw unused)
    | no taken ↦ extend n lo taken (find_free_lem n (lo + 1))
  ]

pub claim_other :
    (m g : Memory) (y z : ℕ) → (z == y) ≡ false → (claim y g).page_table z ≡ g.page_table z
unfolding claim
claim_other m g y z e = ground arith

module _ (m : Memory) where
  pub both :
      ((z : ℕ)
        → first_user_page ≤ z
        → z < first_user_page + user_pages
        → (m.page_table z).in_use ≢ 0)
      → ((z : ℕ)
          → first_swap_page ≤ z
          → z < first_swap_page + swap_pages
          → (m.page_table z).in_use ≢ 0)
      → (z : ℕ) → first_user_page ≤ z
      → z < last_swap_page
      → (m.page_table z).in_use ≢ 0
  both full full' z a b = elim (dec_lt z first_swap_page) [
    | yes low ↦ full z a (omega arith)
    | no high ↦ full' z (omega arith) (omega arith)
  ]
