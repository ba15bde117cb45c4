-- ===== src/Memory/Allocate.antt =====
-- organizeMem and myallocate of scheduler+virtualMemoryManager/submission/myallocate.c. Each loop runs
-- on fuel.
pub mod Split
pub mod FirstFit
pub mod Extend
pub mod Grow
pub mod Rounds
pub mod Request
pub mod Total
use rutgers_cs.Prelude.{
  ℕ, zero, suc, ◌+◌, ◌-◌, ◌*◌, ◌/◌, ◌%◌, ◌^◌, Bool, true, false, ◌&&◌, ◌||◌, if◌then◌else◌, ◌==◌,
  ltb, leb, update,
}
use rutgers_cs.Memory.Types.{
  Addr, page_size, user_size, memory_size, malloc_flag, sub32, sizeof_meta, Meta, Memory, addr_of,
  page_of, write_page_meta, write_meta, mprotect, Run, ok, fault, out_of_fuel, ◌>>=◌,
}
use rutgers_cs.Memory.Pages.{init_all, request_page, swap_empty_page}
use rutgers_cs.Memory.Head.{get_head}

-- Cuts the block at `curr` down to `size` bytes, with a free block over the rest.
unfoldable pub organize_mem : Addr → ℕ → Memory → Memory
organize_mem curr size m =
    let block = m.cell curr in
    let new = curr + sizeof_meta + size in
    let rest = record (m.cell new) {
      size = sub32 block.size (sizeof_meta + size);
      is_free = 1;
      next = block.next;
    } in
    let m' = write_meta new rest m in
    write_meta curr (record (m'.cell curr) { is_free = 0; size = size; next = new }) m'

-- A free block of at least `size` bytes.
abbrev pub fits : ℕ → Meta → Bool
fits size b = (b.is_free == 1) && leb size b.size

-- The walk to the first block that fits, or to the last one.
unfoldable pub find_block : ℕ → ℕ → Addr → Memory → Run Addr
find_block zero size curr m = out_of_fuel
find_block (suc fuel) size curr m =
    let b = m.cell curr in
    let rest = find_block fuel size b.next m in
    if b.next == 0 then ok curr else if fits size b then ok curr else rest

-- The tests that end a request before pages are asked for.
unfoldable pub is_insufficient : Addr → ℕ → Memory → Bool
is_insufficient curr size m =
    let b = m.cell curr in
    let in_memory = m.num_free_pages_mem * page_size in
    let in_swap = m.num_free_pages_sf * page_size in
    ((b.is_free == 0) && (ltb in_memory (size + sizeof_meta) && ltb in_swap (size + sizeof_meta)))
    || ((ltb b.size size && (ltb (b.size + in_memory) size && ltb (b.size + in_swap) size))
        || leb memory_size (curr + page_size))

-- Gives page `next` to the current thread; what it held is moved to the page `free` that was
-- requested, if that is another one.
unfoldable pub take_page : ℕ → ℕ → Memory → Memory
take_page free next m =
    let counter = (m.page_table (next - 1)).page_num in
    let moved = if free == next then m else write_page_meta free (m.page_table next) m in
    let given =
      write_page_meta next
        (record (moved.page_table next) { tid = m.current_tid; in_use = 1; page_num = counter + 1 })
        moved in
    if free == next
    then mprotect (addr_of next) true given
    else mprotect (addr_of free) false (
        swap_empty_page (addr_of free) (addr_of next)
          (mprotect (addr_of next) true (mprotect (addr_of free) true given)))

-- Marks the block as taken, with its rest cut off where that has room for a block of its own.
unfoldable pub finish : Addr → ℕ → Memory → Addr × Memory
finish curr size m =
    let cut = if ltb (size + sizeof_meta) (m.cell curr).size then organize_mem curr size m else m in
    (curr + sizeof_meta, write_meta curr (record (cut.cell curr) { is_free = 0 }) cut)

-- The last block, at `curr`, is in use: the new page begins or extends the block behind it.
unfoldable pub extend_next : Addr → ℕ → ℕ → Memory → Memory
extend_next curr pages next m =
    let fresh =
      write_meta (addr_of next)
        (record { next = 0; prev = curr; is_free = 1; size = page_size - sizeof_meta }) m in
    let behind = (m.cell curr).next in
    if pages == 1
    then write_meta curr (record (fresh.cell curr) { next = addr_of next }) fresh
    else write_meta behind (record (m.cell behind) { size = (m.cell behind).size + page_size }) m

-- The last block, at `curr`, is free and too small: the new page extends it.
unfoldable pub extend_last : Addr → Memory → Memory
extend_last curr m =
    write_meta curr (record (m.cell curr) { size = (m.cell curr).size + page_size }) m

-- The block that grows: the one behind `curr` or `curr` itself.
abbrev pub growing : Bool → Addr → Memory → Addr
growing used curr m = if used then (m.cell curr).next else curr

-- while (needPages), with `pages` rounds done.
unfoldable pub more_pages : ℕ → Addr → ℕ → ℕ → Memory → Run (Addr × Memory)
more_pages zero curr size pages m = out_of_fuel
more_pages (suc fuel) curr size pages m =
    let (free_page, m₁) = request_page m in
    let next = page_of curr + (pages + 1) in
    let m₂ = take_page (page_of free_page) next m₁ in
    let used = (m₂.cell curr).is_free == 0 in
    let m₃ = if used then extend_next curr (pages + 1) next m₂ else extend_last curr m₂ in
    let block = growing used curr m₃ in
    let rest = more_pages fuel curr size (pages + 1) m₃ in
    if free_page == 0
    then ok (0, m₁)
    else if ltb (m₃.cell block).size size
    then rest
    else ok (finish block size m₃)

-- What is done at the block where the walk has ended.
unfoldable pub allocate_at : ℕ → ℕ → Addr → Memory → Run (Addr × Memory)
allocate_at fuel size curr m =
    let b = m.cell curr in
    let whole = write_meta curr (record b { is_free = 0 }) m in
    let grown = more_pages fuel curr size 0 m in
    if fits size b && leb b.size (size + sizeof_meta)
    then ok (curr + sizeof_meta, whole)
    else if (b.is_free == 1) && leb (size + sizeof_meta) b.size
    then ok (curr + sizeof_meta, organize_mem curr size m)
    else if is_insufficient curr size m
    then ok (0, m)
    else if (b.is_free == 0) || ltb b.size (size + sizeof_meta)
    then grown
    else ok (0, m)

-- The address of `size` bytes, or 0.
unfoldable pub myallocate : ℕ → ℕ → ℕ → Memory → Run (Addr × Memory)
myallocate fuel size req m =
    let m₁ = if m.base_page == 0 then init_all m else m in
    let (head, m₂) = get_head req malloc_flag m₁ in
    let served = find_block fuel size head m₂ >>= λ curr. allocate_at fuel size curr m₂ in
    if size == 0
    then ok (0, m₁)
    else if ltb (user_size - sizeof_meta) size
    then ok (0, m₁)
    else if head == 0
    then ok (0, m₂)
    else served
