-- ===== src/Memory/Head/Flags.antt =====
-- getHead of scheduler+virtualMemoryManager/submission/paging.c: the pages that it finds, and its flag.
use rutgers_cs.Prelude.{ℕ, ◌≡◌, refl, none, some, arith}
use rutgers_cs.Memory.Types.{
  Addr, first_user_page, user_pages, thread_req, malloc_flag, free_flag, Memory, addr_of,
}
use rutgers_cs.Memory.Pages.{find_free, find_page, swap_empty_page}
use rutgers_cs.Memory.Head.{get_head, thread_head, new_first, take_user_page, move_first, init_mem}

-- getHead does the same for mydeallocate, which passes FREE_FLAG, as for myallocate, which passes
-- MALLOC_FLAG: its test for a call from mydeallocate is of the flag 0, which no caller passes.
pub get_head-flags : (req : ℕ) (m : Memory) → get_head req free_flag m ≡ get_head req malloc_flag m
unfolding get_head thread_head
get_head-flags req m = refl

pub init_mem-table :
    (req : ℕ) (a : Addr) (m : Memory) → (init_mem req a m).page_table ≡ m.page_table
unfolding init_mem
init_mem-table req a m = ground arith

module _ (req y : ℕ) (m : Memory) where
  new_first-user :
      find_free user_pages first_user_page m.page_table ≡ some y
      → new_first req m ≡ take_user_page req y m
  unfolding new_first
  new_first-user e = rw (e, new_first)

  take_user_page_lem :
      ((take_user_page req y m).0 ≡ addr_of first_user_page)
      × (((take_user_page req y m).1.page_table first_user_page).tid ≡ m.current_tid)
      × (((take_user_page req y m).1.page_table first_user_page).in_use ≡ 1)
  unfolding take_user_page move_first swap_empty_page
  take_user_page_lem = (refl, rw init_mem-table (ground arith), rw init_mem-table (ground arith))

get_head-new :
    (m : Memory)
    → find_page user_pages first_user_page m.current_tid 0 m.page_table ≡ none
    → get_head thread_req free_flag m ≡ new_first thread_req m
unfolding get_head thread_head
get_head-new m e = rw (e, thread_head)

-- A thread that owns no first page, and that frees what it does not have, is given one: where a page
-- of memory is free, getHead returns the address of the first user page with FREE_FLAG too, and that
-- page is the thread's from then on.
pub get_head-claims :
    (m : Memory) (y : ℕ)
    → find_page user_pages first_user_page m.current_tid 0 m.page_table ≡ none
    → find_free user_pages first_user_page m.page_table ≡ some y
    → ((get_head thread_req free_flag m).0 ≡ addr_of first_user_page)
      × (((get_head thread_req free_flag m).1.page_table first_user_page).tid ≡ m.current_tid)
      × (((get_head thread_req free_flag m).1.page_table first_user_page).in_use ≡ 1)
get_head-claims m y nothing free =
    rw (get_head-new m nothing, new_first-user thread_req y m free)
      (take_user_page_lem thread_req y m)
