-- ===== src/Memory/Guard/Calls.antt =====
-- myallocate and mydeallocate of scheduler+virtualMemoryManager/submission/myallocate.c under the
-- protection of pages.
use rutgers_cs.Prelude.{
  ℕ, zero, suc, ◌+◌, refl, Bool, true, false, arith, ◌==◌, if◌then◌else◌, ◌&&◌, ◌||◌, leb, ltb, not,
  ◌-◌,
}
use rutgers_cs.Prelude.Run.{Run, OnOk, OnOk-ok, OnOk-fault, OnOk-out_of_fuel, OnOk-if, OnOk-bind}
use rutgers_cs.Memory.Types.{
  Addr, Memory, page_of, thread_req, free_flag, malloc_flag, write_meta, sizeof_meta, user_size,
}
use rutgers_cs.Memory.Pages.{init_all, request_page, swap_empty_page}
use rutgers_cs.Memory.Head.{get_head}
use rutgers_cs.Memory.Allocate.{
  growing, fits, is_insufficient, take_page, organize_mem, finish, extend_next, extend_last,
  more_pages, allocate_at, find_block, myallocate,
}
use rutgers_cs.Memory.Deallocate.{
  is_outside, join_next, join_previous, free_block, is_block, mydeallocate,
}
use rutgers_cs.Memory.Guard.{
  IsGuarded, aligned, page_of-addr_of, cells-IsGuarded, init_all-IsGuarded, request_page-IsGuarded,
  get_head-IsGuarded,
}

module _ (c : ℕ) where
  if-IsGuarded :
      (b : Bool) (m m' : Memory)
      → IsGuarded c m
      → IsGuarded c m'
      → IsGuarded c (if b then m else m')
  if-IsGuarded true m m' g g' = g
  if-IsGuarded false m m' g g' = g'

  take_page-IsGuarded :
      (free next : ℕ) (m : Memory) → IsGuarded c m → IsGuarded c (take_page free next m)
  unfolding take_page swap_empty_page
  take_page-IsGuarded free next m g =
      rw (aligned free, aligned next, page_of-addr_of free, page_of-addr_of next)
        (record {
          running = ground (arith, g.running);
          closed = λ z lo hi other owned. ground (arith, other, owned, g.running, g.closed z lo hi);
        })

  organize_mem-IsGuarded :
      (curr size : ℕ) (m : Memory) → IsGuarded c m → IsGuarded c (organize_mem curr size m)
  unfolding organize_mem
  organize_mem-IsGuarded curr size m g = cells-IsGuarded c m _ refl refl refl g

  finish-IsGuarded :
      (curr size : ℕ) (m : Memory) → IsGuarded c m → IsGuarded c (finish curr size m).1
  unfolding finish organize_mem
  finish-IsGuarded curr size m g =
      cells-IsGuarded c m _ (ground arith) (ground arith) (ground arith) g

  extend_next-IsGuarded :
      (curr : Addr) (pages next : ℕ) (m : Memory)
      → IsGuarded c m
      → IsGuarded c (extend_next curr pages next m)
  unfolding extend_next
  extend_next-IsGuarded curr pages next m g =
      cells-IsGuarded c m _ (ground arith) (ground arith) (ground arith) g

  extend_last-IsGuarded :
      (curr : Addr) (m : Memory) → IsGuarded c m → IsGuarded c (extend_last curr m)
  unfolding extend_last
  extend_last-IsGuarded curr m g = cells-IsGuarded c m _ refl refl refl g

  -- A call that keeps the guard, whatever it returns beside the memory.
  abbrev Keeps : Run (Addr × Memory) → Type 0
  Keeps x = OnOk (λ (r : Addr × Memory). IsGuarded c r.1) x

  more_pages-IsGuarded :
      (fuel : ℕ) (curr : Addr) (size pages : ℕ) (m : Memory)
      → IsGuarded c m
      → Keeps (more_pages fuel curr size pages m)
  unfolding more_pages
  more_pages-IsGuarded zero curr size pages m g = OnOk-out_of_fuel
  more_pages-IsGuarded (suc fuel) curr size pages m g =
      let (free_page, m₁) = request_page m in
      let g₁ = request_page-IsGuarded c m g in
      let next = page_of curr + (pages + 1) in
      let m₂ = take_page (page_of (request_page m).0) next (request_page m).1 in
      let g₂ = take_page-IsGuarded (page_of (request_page m).0) next _ g₁ in
      let g₃ =
        if-IsGuarded ((m₂.cell curr).is_free == 0) _ _
          (extend_next-IsGuarded curr (pages + 1) next m₂ g₂) (extend_last-IsGuarded curr m₂ g₂) in
      let used = (m₂.cell curr).is_free == 0 in
      let m₃ = if used then extend_next curr (pages + 1) next m₂ else extend_last curr m₂ in
      let block = growing used curr m₃ in
      OnOk-if ((request_page m).0 == 0) (OnOk-ok _ g₁) (
        OnOk-if (ltb (m₃.cell block).size size)
          (more_pages-IsGuarded fuel curr size (pages + 1) _ g₃)
          (OnOk-ok _ (finish-IsGuarded _ size _ g₃)))

  allocate_at-IsGuarded :
      (fuel size : ℕ) (curr : Addr) (m : Memory)
      → IsGuarded c m
      → Keeps (allocate_at fuel size curr m)
  unfolding allocate_at
  allocate_at-IsGuarded fuel size curr m g =
      let b = m.cell curr in
      let whole = write_meta curr (record b { is_free = 0 }) m in
      OnOk-if (fits size b && leb b.size (size + sizeof_meta))
        (OnOk-ok (curr + sizeof_meta, whole) (cells-IsGuarded c m whole refl refl refl g))
        (OnOk-if ((b.is_free == 1) && leb (size + sizeof_meta) b.size)
          (OnOk-ok (curr + sizeof_meta, organize_mem curr size m)
            (organize_mem-IsGuarded curr size m g))
          (OnOk-if (is_insufficient curr size m) (OnOk-ok (0, m) g) (
            OnOk-if ((b.is_free == 0) || ltb b.size (size + sizeof_meta))
              (more_pages-IsGuarded fuel curr size 0 m g) (OnOk-ok (0, m) g))))

  -- myallocate sets the page table up where that is still to be done.
  abbrev started : Memory → Memory
  started m = if m.base_page == 0 then init_all m else m

  started-IsGuarded : (m : Memory) → IsGuarded c m → IsGuarded c (started m)
  started-IsGuarded m g = if-IsGuarded (m.base_page == 0) _ _ (init_all-IsGuarded c m g.running) g

  pub myallocate-IsGuarded :
      (fuel size : ℕ) (m : Memory) → IsGuarded c m → Keeps (myallocate fuel size thread_req m)
  unfolding myallocate
  myallocate-IsGuarded fuel size m g =
      let g₁ = started-IsGuarded m g in
      let g₂ = get_head-IsGuarded c malloc_flag _ g₁ in
      let (head, m₂) = get_head thread_req malloc_flag (started m) in
      OnOk-if (size == 0) (OnOk-ok (0, started m) g₁) (
        OnOk-if (ltb (user_size - sizeof_meta) size) (OnOk-ok (0, started m) g₁) (
          OnOk-if (head == 0) (OnOk-ok (0, m₂) g₂) (
            OnOk-bind (find_block fuel size head m₂) _
              (λ curr e. allocate_at-IsGuarded fuel size curr m₂ g₂))))

  join_next-IsGuarded : (a : Addr) (m : Memory) → IsGuarded c m → IsGuarded c (join_next a m)
  unfolding join_next
  join_next-IsGuarded a m g = cells-IsGuarded c m _ (ground arith) (ground arith) (ground arith) g

  join_previous-IsGuarded :
      (previous a : Addr) (m : Memory)
      → IsGuarded c m
      → OnOk (IsGuarded c) (join_previous previous a m)
  unfolding join_previous
  join_previous-IsGuarded previous a m g =
      OnOk-if (not (previous == 0) && ((m.cell previous).is_free == 1))
        (OnOk-if ((m.cell a).next == 0) OnOk-fault
          (OnOk-ok _ (cells-IsGuarded c m _ refl refl refl g)))
        (OnOk-ok _ g)

  free_block-IsGuarded :
      (a : Addr) (m : Memory) → IsGuarded c m → OnOk (IsGuarded c) (free_block a m)
  unfolding free_block
  free_block-IsGuarded a m g =
      OnOk-if ((m.cell a).is_free == 0)
        (join_previous-IsGuarded (m.cell a).prev a _ (join_next-IsGuarded a m g)) (OnOk-ok _ g)

  pub mydeallocate-IsGuarded :
      (fuel : ℕ) (ptr : Addr) (m : Memory)
      → IsGuarded c m
      → OnOk (IsGuarded c) (mydeallocate fuel ptr thread_req m)
  unfolding mydeallocate
  mydeallocate-IsGuarded fuel ptr m g =
      let g₁ = get_head-IsGuarded c free_flag m g in
      let (head, m₁) = get_head thread_req free_flag m in
      OnOk-if (head == 0) (OnOk-ok _ g₁) (
        OnOk-if ((ptr == 0) || is_outside ptr head thread_req) (OnOk-ok _ g₁) (
          OnOk-bind (is_block fuel (ptr - sizeof_meta) head m₁) _ (λ is_one e.
            OnOk-if is_one (free_block-IsGuarded (ptr - sizeof_meta) m₁ g₁) (OnOk-ok _ g₁))))
