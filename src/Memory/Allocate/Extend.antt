-- ===== src/Memory/Allocate/Extend.antt =====
-- How the last block of a thread grows by a page in myallocate of
-- scheduler+virtualMemoryManager/submission/myallocate.c.
use rutgers_cs.Prelude.{ℕ, ◌+◌, ◌-◌, ◌<◌, ◌≡◌, ◌≢◌, refl, false, arith, ◌==◌}
use rutgers_cs.Memory.Types.{Addr, Memory, sizeof_meta, page_size, addr_of}
use rutgers_cs.Memory.Allocate.{extend_next, extend_last}
use rutgers_cs.Memory.Pages.Count.{SamePages}

pub extend_last_lem :
    (curr : Addr) (m : Memory)
    → (((extend_last curr m).cell curr).size ≡ (m.cell curr).size + page_size)
      × (((extend_last curr m).cell curr).is_free ≡ (m.cell curr).is_free)
      × SamePages m (extend_last curr m)
unfolding extend_last
extend_last_lem curr m =
    (ground arith, ground arith, record { table = refl; mem = refl; sf = refl })

-- The first page that is taken becomes a block of its own.
pub extend_next-first :
    (curr : Addr) (next : ℕ) (m : Memory)
    → curr ≢ addr_of next
    → let g = extend_next curr 1 next m in
      ((g.cell curr).next ≡ addr_of next)
      × ((g.cell curr).is_free ≡ (m.cell curr).is_free)
      × ((g.cell (addr_of next)).size ≡ page_size - sizeof_meta)
      × SamePages m g
unfolding extend_next
extend_next-first curr next m apart =
    let other : (curr == addr_of next) ≡ false = ground (arith, apart) in
    (
      ground arith,
      ground (arith, other),
      ground (arith, other),
      record { table = refl; mem = refl; sf = refl },
    )

-- A further page makes that block longer.
pub extend_next-more :
    (curr block : Addr) (k next : ℕ) (m : Memory)
    → 0 < k
    → (m.cell curr).next ≡ block
    → curr ≢ block
    → let g = extend_next curr (k + 1) next m in
      (g.cell curr ≡ m.cell curr)
      × ((g.cell block).size ≡ (m.cell block).size + page_size)
      × SamePages m g
unfolding extend_next
extend_next-more curr block k next m pos e apart =
    let later : (k + 1 == 1) ≡ false = ground (arith, pos) in
    let other : (curr == block) ≡ false = ground (arith, apart) in
    (
      rw (later, e, other) refl,
      rw (later, e) (ground arith),
      rw later (record { table = refl; mem = refl; sf = refl }),
    )
