-- ===== src/Memory/Head.antt =====
-- initMem of scheduler+virtualMemoryManager/submission/myallocate.c and getHead of paging.c. getHead
-- is modelled on memory that initAll has set up.
pub mod Flags
pub mod Own
pub mod Carried
pub mod Law
use rutgers_cs.Prelude.{
  ℕ, zero, suc, ◌+◌, ◌-◌, ◌*◌, ◌/◌, ◌%◌, ◌^◌, Bool, true, false, if◌then◌else◌, ◌==◌, update,
  Option, none, some,
}
use rutgers_cs.Memory.Types.{
  Addr, page_size, os_size, first_user_page, first_swap_page, user_pages, swap_pages, thread_req,
  library_req, sub32, sizeof_meta, PageMeta, Memory, addr_of, write_page_meta, write_meta, mprotect,
  copy_page, zero_page,
}
use rutgers_cs.Memory.Pages.{find_free, find_page, exchange, swap_empty_page}

-- One free block over the whole region; a request that is neither kind keeps the size that is there.
unfoldable pub init_mem : ℕ → Addr → Memory → Memory
init_mem req new_head m =
    let opened = mprotect new_head true m in
    let old = opened.cell new_head in
    let size =
      if req == thread_req
      then page_size - sizeof_meta
      else if req == library_req
      then os_size - sizeof_meta
      else old.size in
    write_meta new_head (record old { size = size; next = 0; is_free = 1 }) opened

-- The first page of the current thread stands at `y`: it changes places with the first user page.
unfoldable pub bring_first : ℕ → Memory → Memory
bring_first y m =
    let first = m.page_table first_user_page in
    let table =
      update
        (update m.page_table first_user_page
          (record (m.page_table y) { entry_num = first_user_page }))
        y (record first { entry_num = y }) in
    let opened = mprotect (addr_of first_user_page) true (record m { page_table = table }) in
    let moved = exchange (addr_of first_user_page) (addr_of y) opened in
    zero_page 0 (mprotect (addr_of y) false moved)

-- The entry of a page that becomes the first one of the current thread.
abbrev pub first_of : ℕ → PageMeta → PageMeta
first_of tid old = record old { tid = tid; in_use = 1; page_num = 0 }

-- The first user page is moved to the free page `y`, and given to the current thread.
unfoldable pub move_first : ℕ → Memory → Memory
move_first y m =
    let first = m.page_table first_user_page in
    let table =
      update (update m.page_table y (record first { entry_num = first_user_page })) first_user_page
        (first_of m.current_tid first) in
    let opened =
      mprotect (addr_of first_user_page) true
        (mprotect (addr_of y) true (record m { page_table = table })) in
    mprotect (addr_of y) false (swap_empty_page (addr_of y) (addr_of first_user_page) opened)

-- A page of physical memory was found free at `y`.
unfoldable pub take_user_page : ℕ → ℕ → Memory → Addr × Memory
take_user_page req y m =
    let counted = record m { num_free_pages_mem = sub32 m.num_free_pages_mem 1 } in
    let given =
      write_page_meta first_user_page (first_of m.current_tid (m.page_table first_user_page))
        counted in
    (
      addr_of first_user_page,
      init_mem req (addr_of first_user_page)
          (if y == first_user_page then given else move_first y counted),
    )

-- A page of the swap file was found free at `y`.
unfoldable pub take_swap_page : ℕ → ℕ → Memory → Addr × Memory
take_swap_page req y m =
    let counted = record m { num_free_pages_sf = sub32 m.num_free_pages_sf 1 } in
    (addr_of first_user_page, init_mem req (addr_of first_user_page) (move_first y counted))

-- The current thread has no page in physical memory.
unfoldable pub new_first : ℕ → Memory → Addr × Memory
new_first req m = elim (find_free user_pages first_user_page m.page_table) [
  | some y ↦ take_user_page req y m
  | none ↦ elim (find_free swap_pages first_swap_page m.page_table) [
    | some y ↦ take_swap_page req y m
    | none ↦ (0, m)
  ]
]

unfoldable pub thread_head : ℕ → ℕ → Memory → Addr × Memory
thread_head req flag m =
    let fresh = new_first req m in
    elim (find_page user_pages first_user_page m.current_tid 0 m.page_table) [
      | some y ↦ (addr_of first_user_page, if y == first_user_page then m else bring_first y m)
      | none ↦ if flag == 0 then (0, m) else fresh
    ]

unfoldable pub library_head : ℕ → Memory → Addr × Memory
library_head req m = (
  m.base_page,
  if m.first_os then record (init_mem req m.base_page m) { first_os = false } else m,
)

-- `first_os` is true as long as the code's firstOS is '0'.
unfoldable pub get_head : ℕ → ℕ → Memory → Addr × Memory
get_head req flag m =
    if req == thread_req
    then thread_head req flag m
    else if req == library_req
    then library_head req m
    else (0, m)
