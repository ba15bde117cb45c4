-- ===== src/Memory/Pages/Fresh.antt =====
-- requestPage of scheduler+virtualMemoryManager/submission/paging.c as myallocate uses it: a page that was not in
-- use, or none.
use rutgers_cs.Prelude.{ℕ, ◌≤◌, ◌<◌, ◌≡◌, ◌≢◌, refl, arith, inl, inr, ◌⊎◌, ◌∙◌, ap}
use rutgers_cs.Memory.Types.{
  PageMeta, Memory, addr_of, first_user_page, first_swap_page, last_swap_page, user_pages,
  swap_pages, sub32,
}
use rutgers_cs.Memory.Pages.{request_page, claim}
use rutgers_cs.Memory.Pages.Request.{find_free_lem, free_at, all_used, claim_other, both}
use rutgers_cs.Memory.Pages.Count.{IsCounted, OneLess, OneLess-IsCounted}

-- requestPage gives a page `y` that was not in use, and touches nothing else of what the loop reads.
pub record Fresh (m : Memory) (y : ℕ) (m' : Memory) : Type 0 where
  pub asked : request_page m ≡ (addr_of y, m')
  pub real : y ≢ 0
  pub unused : (m.page_table y).in_use ≡ 0
  pub cells : m'.cell ≡ m.cell
  pub taken : (m'.page_table y).in_use ≡ 1
  pub others : (z : ℕ) → z ≢ y → m'.page_table z ≡ m.page_table z
  pub low : first_user_page ≤ y
  pub high : y < last_swap_page
  pub counted : IsCounted m → IsCounted m'

claim_lem :
    (m g : Memory) (y z : ℕ)
    → g.page_table ≡ m.page_table
    → g.cell ≡ m.cell
    → ((claim y g).cell ≡ m.cell)
      × (((claim y g).page_table y).in_use ≡ 1)
      × (z ≢ y → (claim y g).page_table z ≡ m.page_table z)
unfolding claim
claim_lem m g y z table cells = (
  ground (arith, cells),
  ground arith,
  λ ne. claim_other m g y z (ground (arith, ne)) ∙ ap (λ (t : ℕ → PageMeta). t z) table,
)

claim-OneLess : (m g : Memory) (y : ℕ) → OneLess m g → OneLess m (claim y g)
unfolding claim
claim-OneLess m g y (inl (a, b)) = inl (ground (arith, a), ground (arith, b))
claim-OneLess m g y (inr (a, b)) = inr (ground (arith, a), ground (arith, b))

claim-Fresh :
    (m g : Memory) (y : ℕ)
    → request_page m ≡ (addr_of y, claim y g)
    → first_user_page ≤ y
    → y < last_swap_page
    → (m.page_table y).in_use ≡ 0
    → g.page_table ≡ m.page_table
    → g.cell ≡ m.cell
    → OneLess m g
    → Fresh m y (claim y g)
claim-Fresh m g y asked low high unused table cells less = record {
  asked = asked;
  real = λ e. absurd (omega (arith, e));
  unused = unused;
  cells = (claim_lem m g y y table cells).0;
  taken = (claim_lem m g y y table cells).1;
  others = λ z. (claim_lem m g y z table cells).2;
  low = low;
  high = high;
  counted =
      OneLess-IsCounted m (claim y g) y (λ z. (claim_lem m g y z table cells).2) low high unused
        (claim_lem m g y y table cells).1 (claim-OneLess m g y less);
}

-- Every page of memory and of the swap file is in use.
abbrev pub IsFull : Memory → Type 0
IsFull m = (z : ℕ) → first_user_page ≤ z → z < last_swap_page → (m.page_table z).in_use ≢ 0

pub request_page-Fresh :
    (m : Memory) → ((request_page m ≡ (0, m)) × IsFull m) ⊎ ((y : ℕ) × (m' : Memory) × Fresh m y m')
unfolding request_page
request_page-Fresh m = elim (find_free_lem m.page_table user_pages first_user_page) [
  | free_at y first low e ↦ inr (
    y,
    _,
    claim-Fresh m (record m { num_free_pages_mem = sub32 m.num_free_pages_mem 1 }) y
        (rw (e, request_page)) first.above (omega (arith, low)) first.unused refl refl
        (inl (refl, refl)),
  )
  | all_used h e ↦ elim (find_free_lem m.page_table swap_pages first_swap_page) [
    | free_at y first low e' ↦ inr (
      y,
      _,
      claim-Fresh m (record m { num_free_pages_sf = sub32 m.num_free_pages_sf 1 }) y
          (rw (e, e', request_page)) (omega (arith, first.above)) (omega (arith, low)) first.unused
          refl refl (inr (refl, refl)),
    )
    | all_used h' e' ↦ inl (rw (e, e', request_page), both m h h')
  ]
]
