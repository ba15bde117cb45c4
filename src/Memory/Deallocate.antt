-- ===== src/Memory/Deallocate.antt =====
-- mydeallocate of scheduler+virtualMemoryManager/submission/myallocate.c.
pub mod Block
pub mod RoundTrip
pub mod Walk
pub mod Release
use rutgers_cs.Prelude.{
  ℕ, zero, suc, ◌+◌, ◌-◌, ◌*◌, Bool, true, false, ◌&&◌, ◌||◌, not, if◌then◌else◌, ◌==◌, ltb,
}
use rutgers_cs.Memory.Types.{
  Addr, page_size, os_size, free_flag, thread_req, sizeof_meta, Meta, Memory, write_meta, Run, ok,
  fault, out_of_fuel, ◌>>=◌,
}
use rutgers_cs.Memory.Head.{get_head}

-- The walk along the blocks from `curr` on, to the one at `target` or to the end.
unfoldable pub is_block : ℕ → Addr → Addr → Memory → Run Bool
is_block zero target curr m = out_of_fuel
is_block (suc fuel) target curr m =
    let rest = is_block fuel target (m.cell curr).next m in
    if target == curr then ok true else if (m.cell curr).next == 0 then ok false else rest

-- Joins a free block behind the block at `to_free` to it, and marks that as free; where the block
-- behind is in use nothing is done.
unfoldable pub join_next : Addr → Memory → Memory
join_next to_free m =
    let b = m.cell to_free in
    let n = m.cell b.next in
    let joined =
      write_meta to_free
        (record b { size = b.size + (sizeof_meta + n.size); next = n.next; is_free = 1 }) m in
    let last = write_meta to_free (record b { is_free = 1 }) m in
    if b.next == 0
    then last
    else if n.is_free == 1
    then (if n.next == 0
        then joined
        else write_meta n.next (record (joined.cell n.next) { prev = to_free }) joined)
    else m

-- Joins the block at `to_free` to the free block `previous`.
unfoldable pub join_previous : Addr → Addr → Memory → Run Memory
join_previous previous to_free m =
    let p = m.cell previous in
    let b = m.cell to_free in
    let joined =
      write_meta previous (record p { size = p.size + (sizeof_meta + b.size); next = b.next }) m in
    if not (previous == 0) && (p.is_free == 1)
    then (if b.next == 0
        then fault
        else ok (write_meta b.next (record (joined.cell b.next) { prev = previous }) joined))
    else ok m

-- A block of the list is freed; a block that is free stays as it is.
unfoldable pub free_block : Addr → Memory → Run Memory
unfolding join_next
free_block to_free m =
    if (m.cell to_free).is_free == 0
    then join_previous (m.cell to_free).prev to_free (join_next to_free m)
    else ok m

-- `ptr > (HEAD + uLimit)` counts in structs Meta.
abbrev pub is_outside : Addr → Addr → ℕ → Bool
is_outside ptr head req =
    ltb ptr head
    || ltb (head + sizeof_meta * (if req == thread_req then page_size else os_size)) ptr

unfoldable pub mydeallocate : ℕ → Addr → ℕ → Memory → Run Memory
mydeallocate fuel ptr req m =
    let (head, m₁) = get_head req free_flag m in
    let to_free = ptr - sizeof_meta in
    let freed =
      is_block fuel to_free head m₁ >>= λ is_one. if is_one then free_block to_free m₁ else ok m₁ in
    if head == 0 then ok m₁ else if (ptr == 0) || is_outside ptr head req then ok m₁ else freed
