-- ===== src/Memory/Pages.antt =====
-- The page table and the moves of pages, scheduler+virtualMemoryManager/submission/paging.c: initAll,
-- requestPage, swapEmptyPage, swapPage, freeBuffer, mprotect_setter and the handler of SIGSEGV.
pub mod Request
pub mod Swap
pub mod Count
pub mod Fresh
pub mod Protect
use rutgers_cs.Prelude.{
  ℕ, zero, suc, ◌+◌, ◌-◌, ◌*◌, ◌/◌, ◌%◌, ◌^◌, Bool, true, false, ◌&&◌, if◌then◌else◌, ◌==◌, ltb,
  update, Option, none, some,
}
use rutgers_cs.Memory.Types.{
  Addr, page_size, first_user_page, first_swap_page, last_swap_page, user_pages, swap_pages, sub32,
  no_tid, PageMeta, Memory, addr_of, page_of, write_page_meta, mprotect, copy_page, zero_page,
}

-- The page table that initAll writes; entry 0 keeps what it has.
unfoldable pub initial_entry : ℕ → PageMeta → PageMeta
initial_entry x old = if x == 0 then old else record {
  entry_num = x;
  is_os_region = if ltb x first_user_page then 1 else 0;
  tid = no_tid;
  page_num = 0;
  in_use = 0;
}

unfoldable pub init_all : Memory → Memory
init_all m = record m {
  page_table =
      λ x. if ltb x last_swap_page then initial_entry x (m.page_table x) else m.page_table x;
  base_page = page_size;
  num_free_pages_mem = 1048;
  num_free_pages_sf = 4096;
}

-- The first page that is not in use, of the `n` pages from `y` on.
unfoldable pub find_free : ℕ → ℕ → (ℕ → PageMeta) → Option ℕ
find_free zero y t = none
find_free (suc n) y t =
    let rest = find_free n (y + 1) t in if (t y).in_use == 0 then some y else rest

-- Gives page `y` to the current thread.
unfoldable pub claim : ℕ → Memory → Memory
claim y m =
    mprotect (addr_of y) true
      (write_page_meta y (record (m.page_table y) { in_use = 1; tid = m.current_tid }) m)

-- The address of a page that was free, or 0.
unfoldable pub request_page : Memory → Addr × Memory
unfolding claim
request_page m = elim (find_free user_pages first_user_page m.page_table) [
  | some y ↦ (addr_of y, claim y (record m { num_free_pages_mem = sub32 m.num_free_pages_mem 1 }))
  | none ↦ elim (find_free swap_pages first_swap_page m.page_table) [
    | some y ↦ (addr_of y, claim y (record m { num_free_pages_sf = sub32 m.num_free_pages_sf 1 }))
    | none ↦ (0, m)
  ]
]

unfoldable pub swap_empty_page : Addr → Addr → Memory → Memory
swap_empty_page new_page old_page m = zero_page old_page (copy_page new_page old_page m)

-- The first of the `n` pages from `y` on that is page `page` of thread `tid`.
unfoldable pub find_page : ℕ → ℕ → ℕ → ℕ → (ℕ → PageMeta) → Option ℕ
find_page zero y tid page t = none
find_page (suc n) y tid page t =
    let rest = find_page n (y + 1) tid page t in
    if ((t y).tid == tid) && ((t y).page_num == page) then some y else rest

unfoldable pub free_buffer : Memory → Memory
free_buffer m = zero_page 0 m

-- Exchanges the contents of two pages by the buffer page.
unfoldable pub exchange : Addr → Addr → Memory → Memory
exchange curr_page evict m = copy_page evict 0 (copy_page curr_page evict (copy_page 0 curr_page m))

-- The four writes of swapPage to the page table, in which `curr_page_num` is `y` itself.
unfoldable pub swap_entries : ℕ → ℕ → (ℕ → PageMeta) → ℕ → PageMeta
swap_entries curr_page_num y t =
    let temp = t curr_page_num in
    let t₁ = update t curr_page_num (t y) in
    let t₂ = update t₁ curr_page_num (record (t₁ curr_page_num) { entry_num = curr_page_num }) in
    let t₃ = update t₂ y temp in update t₃ y (record (t₃ y) { entry_num = y })

-- What swapPage does with the page `y` that it has found.
unfoldable pub swap_found : ℕ → Addr → Memory → Memory
unfolding free_buffer
swap_found y evict m =
    let curr_page = addr_of y in
    let opened = mprotect evict true (mprotect 0 true (mprotect curr_page true m)) in
    let entries = record opened {
      page_table = swap_entries (page_of curr_page) y opened.page_table;
    } in
    free_buffer (mprotect curr_page false (exchange curr_page evict entries))

-- `none` is the exit of the process: no page was found.
unfoldable pub swap_page : ℕ → ℕ → Addr → Memory → Option Memory
swap_page sniped_tid sniped_page evict m =
    elim (find_page (last_swap_page - first_user_page) first_user_page sniped_tid sniped_page
      m.page_table) [ some y ↦ some (swap_found y evict m) | none ↦ none ]

-- The handler of SIGSEGV at the address `fault_addr`.
unfoldable pub handler : Addr → Memory → Option Memory
unfolding swap_page
handler fault_addr m =
    let page_fault_page = page_of fault_addr in
    swap_page m.current_tid (sub32 page_fault_page first_user_page) (addr_of page_fault_page)
      (mprotect page_fault_page true m)

-- The loop of mprotect_setter over the `n` pages from `i` on.
unfoldable pub protect_from : ℕ → ℕ → ℕ → ℕ → Memory → Memory
protect_from zero i current_tid prev_tid m = m
protect_from (suc n) i current_tid prev_tid m =
    let m₁ = if (m.page_table i).tid == current_tid then mprotect (addr_of i) true m else m in
    let m₂ = if (m.page_table i).tid == prev_tid then mprotect (addr_of i) false m₁ else m₁ in
    protect_from n (i + 1) current_tid prev_tid m₂

unfoldable pub mprotect_setter : ℕ → ℕ → Memory → Memory
mprotect_setter current_tid prev_tid m =
    protect_from user_pages first_user_page current_tid prev_tid m
