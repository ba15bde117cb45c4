-- ===== src/Memory/Allocate/Request.antt =====
-- myallocate of scheduler+virtualMemoryManager/submission/myallocate.c as a whole, for a thread whose first
-- page is in place, where a block has space for the request.
use rutgers_cs.Prelude.{
  ℕ, ◌+◌, ◌-◌, ◌≤◌, ◌<◌, ◌≡◌, ◌≢◌, refl, Bool, true, false, List, arith, ◌==◌, ltb, length, ◌∙◌,
}
use rutgers_cs.Memory.Types.{
  Memory, sizeof_meta, user_size, thread_req, malloc_flag, first_user_page, addr_of, ok,
}
use rutgers_cs.Memory.Head.Own.{IsHome, get_head-IsHome}
use rutgers_cs.Memory.Pages.Count.{SamePages}
use rutgers_cs.Memory.Allocate.{myallocate}
use rutgers_cs.Memory.Allocate.Split.{Blocks}
use rutgers_cs.Memory.Allocate.FirstFit.{
  some_space, first_fit, serve, IsSmall, serve_from, serve_from-Served,
}

-- A request that passes the tests of the size goes to the walk.
pub myallocate-serve_from :
    (fuel size : ℕ) (m : Memory)
    → m.base_page ≢ 0
    → 0 < size
    → size ≤ user_size - sizeof_meta
    → IsHome m
    → myallocate fuel size thread_req m ≡ serve_from fuel fuel size (addr_of first_user_page) m
unfolding myallocate
myallocate-serve_from fuel size m set pos low home =
    let ready : (m.base_page == 0) ≡ false = ground (arith, set) in
    let some : (size == 0) ≡ false = ground arith in
    let fits : ltb (user_size - sizeof_meta) size ≡ false = ground arith in
    rw (ready, some, fits, get_head-IsHome malloc_flag m home) refl

-- myallocate of a thread whose first page is in place and whose blocks stand one behind the other, where a
-- free block has the size of the request, returns with a unit of fuel for each block: the result is the address
-- behind the struct Meta of the first block with space, that block is cut or taken whole, all others
-- stay, the blocks still stand one behind the other up to the same end, and no page changes hands.
pub myallocate-first_fit :
    (fuel size end : ℕ) (m : Memory) (bs : List (ℕ × Bool))
    → m.base_page ≢ 0
    → 0 < size
    → size ≤ user_size - sizeof_meta
    → IsHome m
    → Blocks m.cell (addr_of first_user_page) end bs
    → IsSmall bs
    → some_space size bs ≡ true
    → length bs ≤ fuel
    → (m' : Memory) × (myallocate fuel size thread_req m
        ≡ ok (first_fit size (addr_of first_user_page) bs + sizeof_meta, m'))
      × Blocks m'.cell (addr_of first_user_page) end (serve size bs)
      × SamePages m m'
myallocate-first_fit fuel size end m bs set pos low home v small h enough =
    let (m', ran, blocks, before, pages) =
      serve_from-Served fuel size m fuel (addr_of first_user_page) end bs v small h enough in
    (m', myallocate-serve_from fuel size m set pos low home ∙ ran, blocks, pages)
