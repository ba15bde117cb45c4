-- ===== src/Memory/Pages/Swap.antt =====
-- swapPage of scheduler+virtualMemoryManager/submission/paging.c: what is exchanged, and what is not.
use rutgers_cs.Prelude.{ℕ, ◌+◌, ◌%◌, ◌<◌, ◌≡◌, ◌≢◌, refl, true, false, arith, ◌==◌, sym, ==_refl}
use rutgers_cs.Memory.Types.{Addr, page_size, PageMeta, Memory, addr_of, page_of, Meta}
use rutgers_cs.Memory.Pages.{exchange, swap_entries, swap_found}

pub page_of-addr : (y o : ℕ) → o < page_size → page_of (addr_of y + o) ≡ y
page_of-addr y o h = omega arith

offset-addr : (y o : ℕ) → o < page_size → (addr_of y + o) % page_size ≡ o
offset-addr y o h = omega arith

pub page_of-addr_of : (y : ℕ) → page_of (addr_of y) ≡ y
page_of-addr_of y = omega arith

ne_false : (a b : ℕ) → a ≢ b → (a == b) ≡ false
ne_false a b h = ground arith

low_page : (o : ℕ) → o < page_size → page_of (0 + o) ≡ 0
low_page o h = omega arith

low_offset : (o : ℕ) → o < page_size → (0 + o) % page_size ≡ o
low_offset o h = omega arith

pub aligned : (y : ℕ) → addr_of y % page_size ≡ 0
aligned y = omega arith

-- The cell at offset `o` of page `y`.
abbrev pub at : Memory → ℕ → ℕ → Meta
at m y o = m.cell (addr_of y + o)

module _ (m : Memory) (y e : ℕ) (real : y ≢ 0) (real' : e ≢ 0) (apart : y ≢ e) where
  pub exchange-first :
      (o : ℕ) → o < page_size → at (exchange (addr_of y) (addr_of e) m) y o ≡ at m e o
  unfolding exchange
  exchange-first o h = rw (
    page_of-addr y o h,
    offset-addr y o h,
    page_of-addr_of e,
    page_of-addr_of y,
    page_of-addr e o h,
    ne_false y e apart,
    ==_refl y,
    ne_false e 0 real',
  )

  pub exchange-second :
      (o : ℕ) → o < page_size → at (exchange (addr_of y) (addr_of e) m) e o ≡ at m y o
  unfolding exchange
  exchange-second o h = rw (
    page_of-addr e o h,
    offset-addr e o h,
    page_of-addr_of e,
    ==_refl e,
    low_page o h,
    page_of-addr_of y,
    low_offset o h,
    ne_false 0 y (λ z. real (sym z)),
  )

pub exchange-other :
    (a b : Addr) (z o : ℕ) (m : Memory)
    → o < page_size
    → z ≢ page_of a
    → z ≢ page_of b
    → z ≢ 0
    → at (exchange a b m) z o ≡ at m z o
unfolding exchange
exchange-other a b z o m h first second real =
    rw
      (
        page_of-addr z o h,
        ne_false z (page_of a) first,
        ne_false z (page_of b) second,
        ne_false z 0 real,
      )
      refl

pub exchange-table : (a b : Addr) (m : Memory) → (exchange a b m).page_table ≡ m.page_table
unfolding exchange
exchange-table a b m = refl

exchange-open : (a b : Addr) (m : Memory) → (exchange a b m).open_page ≡ m.open_page
unfolding exchange
exchange-open a b m = refl

-- The four writes of swapPage to the page table leave every page to the thread that had it: the two
-- entries that they exchange are one and the same.
swap_entries_lem :
    (t : ℕ → PageMeta) (y z : ℕ)
    → ((swap_entries y y t z).tid ≡ (t z).tid)
      × ((swap_entries y y t z).page_num ≡ (t z).page_num)
      × ((swap_entries y y t z).in_use ≡ (t z).in_use)
unfolding swap_entries
swap_entries_lem t y z = (ground arith, ground arith, ground arith)

-- swapPage, where it has found page `y` and is given page `e` to evict, neither of them the buffer
-- page, exchanges the contents of the two pages, cell by cell, but leaves the entries of the page table
-- to the threads and page numbers that they had: the table does not follow the exchange. Page `e` is
-- open afterwards, whichever thread the table gives it to, and page `y` is closed.
pub swap_found_lem :
    (m : Memory) (y e : ℕ)
    → y ≢ 0
    → e ≢ 0
    → y ≢ e
    → ((o : ℕ) → o < page_size → at (swap_found y (addr_of e) m) y o ≡ at m e o)
      × ((o : ℕ) → o < page_size → at (swap_found y (addr_of e) m) e o ≡ at m y o)
      × ((z : ℕ) → ((swap_found y (addr_of e) m).page_table z).tid ≡ (m.page_table z).tid)
      × ((z : ℕ) → ((swap_found y (addr_of e) m).page_table z).page_num ≡ (m.page_table z).page_num)
      × ((swap_found y (addr_of e) m).open_page e ≡ true)
      × ((swap_found y (addr_of e) m).open_page y ≡ false)
unfolding swap_found
swap_found_lem m y e real real' apart = (
  λ o h.
      rw (aligned y, aligned e, page_of-addr y o h, ne_false y 0 real)
        (exchange-first _ y e real real' apart o h),
  λ o h.
      rw (aligned y, aligned e, page_of-addr e o h, ne_false e 0 real')
        (exchange-second _ y e real real' apart o h),
  λ z.
      rw (aligned y, aligned e, page_of-addr_of y, exchange-table)
        (swap_entries_lem m.page_table y z).0,
  λ z.
      rw (aligned y, aligned e, page_of-addr_of y, exchange-table)
        (swap_entries_lem m.page_table y z).1,
  rw (aligned y, aligned e, page_of-addr_of y, page_of-addr_of e, exchange-open)
      (ground (arith, apart)),
  rw (aligned y, aligned e, page_of-addr_of y, exchange-open) (ground arith),
)
