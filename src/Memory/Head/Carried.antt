-- ===== src/Memory/Head/Carried.antt =====
-- getHead of scheduler+virtualMemoryManager/submission/paging.c as a move of pages: the entries of the
-- page table go where the contents of the pages go.
use rutgers_cs.Prelude.{
  ℕ, ◌+◌, ◌≤◌, ◌<◌, ◌≡◌, ◌≢◌, refl, false, arith, ◌==◌, if◌then◌else◌, ==_refl, sym, ap, ◌∙◌,
}
use native.Mathlib.Decide.{ℕ_discrete}
use rutgers_cs.Memory.Types.{page_size, Memory, addr_of, page_of, first_user_page}
use rutgers_cs.Memory.Pages.{swap_empty_page}
use rutgers_cs.Memory.Pages.Swap.{
  at, page_of-addr, page_of-addr_of, aligned, exchange-first, exchange-second, exchange-other,
  exchange-table,
}
use rutgers_cs.Memory.Head.Flags.{init_mem-table}
use rutgers_cs.Memory.Head.{bring_first, move_first, init_mem}

-- Page `z` is one of those that threads use, in memory or in the swap file.
abbrev pub IsUsed : Memory → ℕ → Type 0
IsUsed m z = (first_user_page ≤ z) × ((m.page_table z).in_use ≢ 0)

-- Each page in use stands at page `to z` afterwards, with its contents and its entry, and no two of
-- them at the same page.
pub record Carried (m m' : Memory) : Type 0 where
  pub to : ℕ → ℕ
  pub entry :
      (z : ℕ)
      → IsUsed m z
      → ((m'.page_table (to z)).tid ≡ (m.page_table z).tid)
        × ((m'.page_table (to z)).page_num ≡ (m.page_table z).page_num)
        × ((m'.page_table (to z)).in_use ≡ (m.page_table z).in_use)
  pub contents : (z o : ℕ) → IsUsed m z → o < page_size → at m' (to z) o ≡ at m z o
  pub apart : (z w : ℕ) → IsUsed m z → IsUsed m w → to z ≡ to w → z ≡ w

-- The first user page and page `y` change places.
abbrev trade : ℕ → ℕ → ℕ
trade y z = if z == first_user_page then y else if z == y then first_user_page else z

not_buffer :
    (z o : ℕ) → first_user_page ≤ z → o < page_size → (page_of (addr_of z + o) == 0) ≡ false
not_buffer z o low h = ground (arith, page_of-addr z o h)

module _ (y : ℕ) (m : Memory) (low : first_user_page ≤ y) (away : y ≢ first_user_page) where
  real : first_user_page ≢ 0
  real e = absurd (omega (arith, e))

  real' : y ≢ 0
  real' e = absurd (omega (arith, e, low))

  bring_first-cell :
      (z o : ℕ)
      → first_user_page ≤ z
      → o < page_size
      → at (bring_first y m) (trade y z) o ≡ at m z o
  unfolding bring_first
  bring_first-cell z o above h = elim (ℕ_discrete z first_user_page) [
    | yes first ↦
        rw (first, not_buffer y o low h, aligned y)
          (exchange-second _ first_user_page y real real' (λ e. away (sym e)) o h)
    | no later ↦ elim (ℕ_discrete z y) [
      | yes here ↦
          let traded : trade y y ≡ first_user_page = ground (arith, away) in
          rw (here, traded, not_buffer first_user_page o (omega arith) h, aligned y)
            (exchange-first _ first_user_page y real real' (λ e. away (sym e)) o h)
      | no other ↦
          let traded : trade y z ≡ z = ground (arith, later, other) in
          rw (traded, not_buffer z o above h, aligned y)
            (exchange-other (addr_of first_user_page) (addr_of y) z o _ h (λ e. later e)
              (λ e. other (e ∙ page_of-addr_of y)) (λ e. absurd (omega (arith, e, above))))
    ]
  ]

pub bring_first-Carried :
    (y : ℕ) (m : Memory) → first_user_page ≤ y → y ≢ first_user_page → Carried m (bring_first y m)
unfolding bring_first
bring_first-Carried y m low away = record {
  to = trade y;
  entry = λ z u. rw (aligned y, exchange-table) (ground arith, ground arith, ground arith);
  contents = λ z o u h. bring_first-cell y m low away z o u.0 h;
  apart = λ z w u v e. ground (arith, e);
}

-- The block that getHead begins on the first user page changes no other page.
init_mem-cell :
    (req z o : ℕ) (m : Memory)
    → z ≢ first_user_page
    → o < page_size
    → at (init_mem req (addr_of first_user_page) m) z o ≡ at m z o
unfolding init_mem
init_mem-cell req z o m away h =
    let other : (addr_of z + o == addr_of first_user_page) ≡ false =
      ground (arith, page_of-addr z o h) in
    rw other refl

-- The first user page is free.
pub given-Carried :
    (req : ℕ) (m g : Memory)
    → (m.page_table first_user_page).in_use ≡ 0
    → ((z : ℕ) → z ≢ first_user_page → g.page_table z ≡ m.page_table z)
    → g.cell ≡ m.cell
    → Carried m (init_mem req (addr_of first_user_page) g)
given-Carried req m g free table cells = record {
  to = λ z. z;
  entry = λ z u.
      let same : g.page_table z ≡ m.page_table z = table z (λ e. u.1 (rw e free)) in
      rw (init_mem-table, same) (refl, refl, refl);
  contents = λ z o u h.
      init_mem-cell req z o g (λ e. u.1 (rw e free)) h ∙ ap (λ f. f (addr_of z + o)) cells;
  apart = λ z w u v e. e;
}

-- The first user page goes to page `y`.
abbrev leave : ℕ → ℕ → ℕ
leave y z = if z == first_user_page then y else z

module _ (y : ℕ) (m : Memory) (low : first_user_page ≤ y) (away : y ≢ first_user_page)
    (free : (m.page_table y).in_use ≡ 0) where
  move_first-cell :
      (z o : ℕ) → IsUsed m z → o < page_size → at (move_first y m) (leave y z) o ≡ at m z o
  unfolding move_first swap_empty_page
  move_first-cell z o u h = elim (ℕ_discrete z first_user_page) [
    | yes first ↦
        rw (first, aligned y, page_of-addr y o h, page_of-addr_of y, ==_refl y)
          (ground (arith, away, page_of-addr first_user_page o h))
    | no later ↦
        let stays : leave y z ≡ z = ground (arith, later) in
        let other : z ≢ y = λ e. u.1 (rw e free) in
        rw (stays, aligned y, page_of-addr z o h, page_of-addr_of y) (ground (arith, later, other))
  ]

  pub move_first-Carried :
      (req : ℕ) → Carried m (init_mem req (addr_of first_user_page) (move_first y m))
  unfolding move_first swap_empty_page
  move_first-Carried req = record {
    to = leave y;
    entry = λ z u. rw (init_mem-table, aligned y) (ground arith, ground arith, ground arith);
    contents = λ z o u h.
        init_mem-cell req (leave y z) o _ (ground (arith, away)) h ∙ move_first-cell z o u h;
    apart = λ z w u v e. ground (arith, e, free, u.1, v.1);
  }
