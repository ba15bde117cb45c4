-- ===== src/Memory/Head/Own.antt =====
-- getHead of scheduler+virtualMemoryManager/submission/paging.c for a thread whose first page is in place.
use rutgers_cs.Prelude.{
  ℕ, zero, ◌+◌, ◌≤◌, ◌&&◌, ◌==◌, arith, Bool-cases, inl, inr, suc, ◌≡◌, refl, ==_refl, some,
}
use mathlib.Core.Option.{some-injective, none-ne-some}
use rutgers_cs.Memory.Types.{Memory, PageMeta, first_user_page, user_pages, thread_req, addr_of}
use rutgers_cs.Memory.Pages.{find_page}
use rutgers_cs.Memory.Head.{get_head, thread_head}

-- The first user page is the first page of the current thread.
pub record IsHome (m : Memory) : Type 0 where
  pub owner : (m.page_table first_user_page).tid ≡ m.current_tid
  pub number : (m.page_table first_user_page).page_num ≡ 0

-- Page `z` is page `page` of thread `tid`, and is not before page `y`.
pub record IsPage (t : ℕ → PageMeta) (y tid page z : ℕ) : Type 0 where
  pub above : y ≤ z
  pub owner : (t z).tid ≡ tid
  pub number : (t z).page_num ≡ page

-- What find_page finds is such a page.
pub find_page-IsPage :
    (n y tid page z : ℕ) (t : ℕ → PageMeta)
    → find_page n y tid page t ≡ some z
    → IsPage t y tid page z
unfolding find_page
find_page-IsPage zero y tid page z t e = absurd (none-ne-some z e)
find_page-IsPage (suc n) y tid page z t e =
    elim (Bool-cases (((t y).tid == tid) && ((t y).page_num == page))) [
      | inl here ↦
          let same : y ≡ z = some-injective y z (rw here at e) in
          rw (← same) (record {
            above = omega arith;
            owner = ground (arith, here);
            number = ground (arith, here);
          })
      | inr away ↦
          let f = find_page-IsPage n (y + 1) tid page z t (rw away at e) in
          record { above = omega (arith, f.above); owner = f.owner; number = f.number }
    ]

find_page-here :
    (n y tid page : ℕ) (t : ℕ → PageMeta)
    → (t y).tid ≡ tid
    → (t y).page_num ≡ page
    → find_page (suc n) y tid page t ≡ some y
unfolding find_page
find_page-here n y tid page t owner number = rw (owner, number, ==_refl tid, ==_refl page) refl

pub get_head-IsHome :
    (flag : ℕ) (m : Memory) → IsHome m → get_head thread_req flag m ≡ (addr_of first_user_page, m)
unfolding get_head thread_head
get_head-IsHome flag m home =
    let found : find_page user_pages first_user_page m.current_tid 0 m.page_table
        ≡ some first_user_page =
      find_page-here 1047 first_user_page m.current_tid 0 m.page_table home.owner home.number in
    rw (found, thread_head) refl
