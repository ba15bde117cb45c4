-- ===== src/Memory/Types.antt =====
-- The structs and constants of scheduler+virtualMemoryManager/submission/paging.h and myallocate.h, and
-- the state that paging.c and myallocate.c keep. An address is an offset from all_memory; 0 is NULL,
-- and stands in the buffer page, which holds no block.
pub use rutgers_cs.Prelude.Run.{Run, ok, fault, out_of_fuel, ◌>>=◌}
use rutgers_cs.Prelude.{ℕ, ◌+◌, ◌-◌, ◌*◌, ◌/◌, ◌%◌, ◌^◌, Bool, if◌then◌else◌, ◌==◌, update}

abbrev pub Addr : Type 0
Addr = ℕ

abbrev pub page_size : ℕ
page_size = 4096

abbrev pub os_size : ℕ
os_size = 4_096_000

abbrev pub user_size : ℕ
user_size = 4_096_000

abbrev pub memory_size : ℕ
memory_size = 8_388_608

abbrev pub first_user_page : ℕ
first_user_page = 1000

abbrev pub first_swap_page : ℕ
first_swap_page = 2048

abbrev pub last_swap_page : ℕ
last_swap_page = 6144

-- The pages of the user region and of the swap file.
abbrev pub user_pages : ℕ
user_pages = 1048

abbrev pub swap_pages : ℕ
swap_pages = 4096

-- THREADREQ, LIBRARYREQ, MALLOC_FLAG and FREE_FLAG.
abbrev pub thread_req : ℕ
thread_req = 1

abbrev pub library_req : ℕ
library_req = 2

abbrev pub malloc_flag : ℕ
malloc_flag = 1

abbrev pub free_flag : ℕ
free_flag = 2

-- An int as its 32-bit pattern: -69 is the tid of a page that no thread owns.
abbrev pub sub32 : ℕ → ℕ → ℕ
sub32 a b = (a + 2 ^ 32 - b) % 2 ^ 32

abbrev pub no_tid : ℕ
no_tid = 4_294_967_227

-- `struct page_meta_data`.
pub record PageMeta : Type 0 where
  pub entry_num : ℕ
  pub is_os_region : ℕ
  pub tid : ℕ
  pub page_num : ℕ
  pub in_use : ℕ

-- `struct Meta`, of 24 bytes.
pub record Meta : Type 0 where
  pub size : ℕ
  pub is_free : ℕ
  pub prev : Addr
  pub next : Addr

abbrev pub sizeof_meta : ℕ
sizeof_meta = 24

abbrev pub zero_meta : Meta
zero_meta = record { size = 0; is_free = 0; prev = 0; next = 0 }

-- `cell a` is the struct Meta that is read at address `a`, and `open_page y` says that page `y` may be
-- read and written.
pub record Memory : Type 0 where
  pub page_table : ℕ → PageMeta
  pub cell : Addr → Meta
  pub open_page : ℕ → Bool
  pub num_free_pages_mem : ℕ
  pub num_free_pages_sf : ℕ
  pub base_page : Addr
  pub first_os : Bool
  pub current_tid : ℕ

abbrev pub addr_of : ℕ → Addr
addr_of y = y * page_size

abbrev pub page_of : Addr → ℕ
page_of a = a / page_size

abbrev pub write_page_meta : ℕ → PageMeta → Memory → Memory
write_page_meta y v m = record m { page_table = update m.page_table y v }

abbrev pub write_meta : Addr → Meta → Memory → Memory
write_meta a v m = record m { cell = update m.cell a v }

-- mprotect of one page: an address that is not on a page's border is refused.
abbrev pub mprotect : Addr → Bool → Memory → Memory
mprotect a allowed m =
    if a % page_size == 0
    then record m { open_page = update m.open_page (page_of a) allowed }
    else m

-- memcpy of the page at `src` to the page at `dst`, and memset of the page at `dst` to 0.
abbrev pub copy_page : Addr → Addr → Memory → Memory
copy_page dst src m = record m {
  cell = λ a. if page_of a == page_of dst then m.cell (src + a % page_size) else m.cell a;
}

abbrev pub zero_page : Addr → Memory → Memory
zero_page dst m = record m { cell = λ a. if page_of a == page_of dst then zero_meta else m.cell a }
