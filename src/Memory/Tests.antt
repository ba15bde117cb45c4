-- ===== src/Memory/Tests.antt =====
-- Runs of the memory manager, and its theorems, at concrete states.
use rutgers_cs.Prelude.{ℕ, ◌≤◌, ◌<◌, ◌≡◌, refl, if◌then◌else◌, ◌==◌, true, false, [], ◌∷◌, arith}
use rutgers_cs.Memory.Pages.Count.{IsCounted, SamePages, OneLess-IsCounted, free_pages-all}
use rutgers_cs.Prelude.{sym, inl}
use rutgers_cs.Memory.Types.{
  Addr, Meta, zero_meta, Memory, PageMeta, addr_of, page_size, no_tid, thread_req, ok,
}
use rutgers_cs.Memory.Pages.{find_free, find_page, swap_found}
use rutgers_cs.Memory.Pages.Swap.{at, swap_found_lem}
use rutgers_cs.Memory.Head.{get_head}
use rutgers_cs.Memory.Allocate.{allocate_at}
use rutgers_cs.Memory.Allocate.Split.{Blocks}
use rutgers_cs.Memory.Deallocate.{mydeallocate}
use rutgers_cs.Memory.Deallocate.Release.{mydeallocate-release}
use rutgers_cs.Memory.Deallocate.RoundTrip.{mydeallocate-myallocate}
use rutgers_cs.Memory.Allocate.Request.{myallocate-first_fit}
use rutgers_cs.Memory.Allocate.{myallocate, is_insufficient}
use rutgers_cs.Memory.Allocate.Total.{myallocate-Met}
use rutgers_cs.Memory.Allocate.Grow.{Met}
use rutgers_cs.Memory.Allocate.FirstFit.{some_space}
use rutgers_cs.Prelude.{List, ◌⊎◌, Bool}
use rutgers_cs.Memory.Head.Own.{IsHome}
use rutgers_cs.Prelude.{update}
use rutgers_cs.Prelude.Run.{value_or}
use rutgers_cs.Memory.Types.{malloc_flag, first_user_page, first_swap_page}
use rutgers_cs.Memory.Head.Law.{Head, get_head-Head}
use rutgers_cs.Memory.Pages.Protect.{flag_after, mprotect_setter_lem}
use rutgers_cs.Memory.Pages.{mprotect_setter, init_all, initial_entry}
use rutgers_cs.Memory.Head.{thread_head, new_first, take_user_page, init_mem}
use rutgers_cs.Memory.Allocate.{find_block, organize_mem}
use rutgers_cs.Memory.Guard.{IsGuarded}
use rutgers_cs.Memory.Guard.System.{switch_to, here, later, allocates, switches, Reach-IsGuarded}

-- Every page is free.
abbrev free_page : ℕ → PageMeta
free_page y = record { entry_num = y; is_os_region = 0; tid = no_tid; page_num = 0; in_use = 0 }

abbrev memory : (Addr → Meta) → Memory
memory h = record {
  page_table = free_page;
  cell = h;
  open_page = λ y. true;
  num_free_pages_mem = 1048;
  num_free_pages_sf = 4096;
  base_page = 4096;
  first_os = true;
  current_tid = 1;
}

-- One free block of a whole page at 4096.
abbrev one_block : Addr → Meta
one_block a =
    if a == 4096 then record { size = 4072; is_free = 1; prev = 0; next = 0 } else zero_meta

swap_found_lem_example :
    let m = memory one_block in
    ((o : ℕ) → o < page_size → at (swap_found 1000 (addr_of 1) m) 1000 o ≡ at m 1 o)
    × ((o : ℕ) → o < page_size → at (swap_found 1000 (addr_of 1) m) 1 o ≡ at m 1000 o)
    × ((z : ℕ) → ((swap_found 1000 (addr_of 1) m).page_table z).tid ≡ (m.page_table z).tid)
    × ((z : ℕ)
        → ((swap_found 1000 (addr_of 1) m).page_table z).page_num ≡ (m.page_table z).page_num)
    × ((swap_found 1000 (addr_of 1) m).open_page 1 ≡ true)
    × ((swap_found 1000 (addr_of 1) m).open_page 1000 ≡ false)
swap_found_lem_example =
    swap_found_lem (memory one_block) 1000 1 (λ e. absurd (omega (arith, e)))
      (λ e. absurd (omega (arith, e))) (λ e. absurd (omega (arith, e)))

-- Page 1000 is the first one of thread 1.
abbrev home : (Addr → Meta) → Memory
home h = record (memory h) {
  num_free_pages_mem = 1_047;
  page_table =
      update free_page 1_000
        (record { entry_num = 1_000; is_os_region = 0; tid = 1; page_num = 0; in_use = 1 });
}

home-IsHome : (h : Addr → Meta) → IsHome (home h)
home-IsHome h = record { owner = refl; number = refl }

-- A block in use at the start of that page, and a free one behind it.
abbrev row : Addr → Meta
row a =
    if a == 4_096_000
    then record { size = 100; is_free = 0; prev = 0; next = 4_096_124 }
    else if a == 4_096_124
    then record { size = 3_948; is_free = 1; prev = 4_096_000; next = 0 }
    else zero_meta

row-Blocks : Blocks row 4_096_000 4_100_096 ((100, true) ∷ (3_948, false) ∷ [])
row-Blocks = (refl, refl, refl, (refl, refl, refl, refl))

myallocate-first_fit_example :
    (m' : Memory) × (myallocate 2 200 thread_req (home row) ≡ ok (4_096_148, m'))
    × Blocks m'.cell 4_096_000 4_100_096 ((100, true) ∷ (200, true) ∷ (3_724, false) ∷ [])
    × SamePages (home row) m'
myallocate-first_fit_example =
    myallocate-first_fit 2 200 4_100_096 (home row) ((100, true) ∷ (3_948, false) ∷ [])
      (λ e. absurd (omega (arith, e))) (omega arith) (omega arith) (home-IsHome row) row-Blocks
      (omega arith, (omega arith, tt)) refl (omega arith)

-- One free block of the whole page.
abbrev whole_page : Addr → Meta
whole_page a =
    if a == 4_096_000 then record { size = 4_072; is_free = 1; prev = 0; next = 0 } else zero_meta

mydeallocate-myallocate_example :
    (m' : Memory) × (m'' : Memory) × (myallocate 1 100 thread_req (home whole_page)
      ≡ ok (4_096_024, m'))
    × (mydeallocate 1 4_096_024 thread_req m' ≡ ok m'')
    × Blocks m''.cell 4_096_000 4_100_096 ((4_072, false) ∷ [])
mydeallocate-myallocate_example =
    mydeallocate-myallocate 0 100 4_100_096 4_072 (home whole_page) []
      (λ e. absurd (omega (arith, e))) (omega arith) (omega arith) (omega arith)
      (home-IsHome whole_page) (refl, refl, refl, refl) refl

memory-IsCounted : IsCounted (memory row)
memory-IsCounted = record {
  small_mem = omega arith;
  small_sf = omega arith;
  total = sym (free_pages-all free_page (λ y. refl));
}

row-IsCounted : IsCounted (home row)
row-IsCounted =
    OneLess-IsCounted (memory row) (home row) 1_000 (λ z ne. ground (arith, ne)) (omega arith)
      (omega arith) refl refl (inl (refl, refl)) memory-IsCounted

abbrev row_list : List (ℕ × Bool)
row_list = (100, true) ∷ (3_948, false) ∷ []

-- More than the free block has: a page is asked for.
myallocate-Met_example :
    (r : Addr × Memory) × (myallocate 2 5_000 thread_req (home row) ≡ ok r)
    × (Met 5_000 r
        ⊎ ((some_space 5_000 row_list ≡ false)
            × (is_insufficient 4_096_124 5_000 (home row) ≡ true)
            × (r ≡ (0, home row))))
    × IsCounted r.1
myallocate-Met_example =
    myallocate-Met 2 5_000 4_100_096 (home row) row_list (λ e. absurd (omega (arith, e)))
      (omega arith) (omega arith) (home-IsHome row) row-Blocks (omega arith)
      (omega arith, (omega arith, tt)) row-IsCounted (λ e. absurd (omega (arith, e))) (omega arith)
      (omega arith)

-- Thread 1 asks for 100 bytes of a memory that is set up, and thread 2 is given the processor.
abbrev set_up : Memory
set_up = init_all (home row)

abbrev first_request : Addr × Memory
first_request = value_or (0, set_up) (myallocate 2 100 thread_req set_up)

-- It is given the first user page, and the bytes behind the header of its first block.
first_request-ran : myallocate 2 100 thread_req set_up ≡ ok first_request
unfolding value_or myallocate get_head thread_head new_first take_user_page find_page find_free
    init_all initial_entry find_block init_mem allocate_at organize_mem
first_request-ran = refl

Reach-IsGuarded_example :
    IsGuarded (switch_to 2 first_request.1).current_tid (switch_to 2 first_request.1)
Reach-IsGuarded_example =
    Reach-IsGuarded (home row)
      (later (later here (allocates 2 100 first_request.0 first_request-ran)) (switches 2))

-- Thread 2 asks for its first page while thread 1 has the first user page.
abbrev second_thread : Memory
second_thread = record (home row) { current_tid = 2 }

get_head-Head_example : Head second_thread (get_head thread_req malloc_flag second_thread)
get_head-Head_example = get_head-Head malloc_flag second_thread (λ e. absurd (omega (arith, e)))

mprotect_setter_lem_example :
    let m = home row in
    ((y : ℕ)
      → first_user_page ≤ y
      → y < first_swap_page
      → (mprotect_setter 2 1 m).open_page y ≡ flag_after 2 1 m y)
    × ((y : ℕ)
        → (first_user_page ≤ y → first_swap_page ≤ y)
        → (mprotect_setter 2 1 m).open_page y ≡ m.open_page y)
    × ((mprotect_setter 2 1 m).page_table ≡ m.page_table)
    × ((mprotect_setter 2 1 m).cell ≡ m.cell)
    × ((mprotect_setter 2 1 m).current_tid ≡ m.current_tid)
mprotect_setter_lem_example = mprotect_setter_lem 2 1 (home row)

mydeallocate-release_example :
    (m' : Memory) × (mydeallocate 2 4_096_024 thread_req (home row) ≡ ok m')
    × Blocks m'.cell 4_096_000 4_100_096 ((4_072, false) ∷ [])
mydeallocate-release_example =
    mydeallocate-release 2 4_096_000 4_100_096 (home row) ((100, true) ∷ (3_948, false) ∷ [])
      (home-IsHome row) row-Blocks (omega arith) (omega arith) refl
