-- ===== src/Memory/Deallocate/Block.antt =====
-- mydeallocate of scheduler+virtualMemoryManager/submission/myallocate.c on one block.
use rutgers_cs.Prelude.{◌+◌, ◌≡◌, ◌≢◌, arith}
use rutgers_cs.Memory.Types.{Addr, Memory, sizeof_meta, ok}
use rutgers_cs.Memory.Deallocate.{free_block, join_next, join_previous}

-- mydeallocate does nothing at all with the first block, where it is in use and the block behind it is in
-- use too: the block stays in use.
pub free_block-stuck :
    (p : Addr) (m : Memory)
    → (m.cell p).is_free ≡ 0
    → (m.cell p).prev ≡ 0
    → (m.cell p).next ≢ 0
    → (m.cell (m.cell p).next).is_free ≡ 0
    → free_block p m ≡ ok m
unfolding free_block join_previous
free_block-stuck p m used first behind busy = ground arith

-- Where the first block is in use and the block behind it is free, mydeallocate joins the two: the block is free, has the bytes of both
-- and of the struct Meta between them, and is followed by what stood behind; no other block changes, but
-- for the back link of that one.
pub free_block-joins :
    (p : Addr) (m : Memory)
    → (m.cell p).is_free ≡ 0
    → (m.cell p).prev ≡ 0
    → (m.cell p).next ≢ 0
    → (m.cell (m.cell p).next).is_free ≡ 1
    → (m.cell (m.cell p).next).next ≢ p
    → (m' : Memory) × (free_block p m ≡ ok m')
      × ((m'.cell p).is_free ≡ 1)
      × ((m'.cell p).size ≡ (m.cell p).size + (sizeof_meta + (m.cell (m.cell p).next).size))
      × ((m'.cell p).next ≡ (m.cell (m.cell p).next).next)
      × ((a : Addr)
          → a ≢ p
          → ((m'.cell a).size ≡ (m.cell a).size)
            × ((m'.cell a).is_free ≡ (m.cell a).is_free)
            × ((m'.cell a).next ≡ (m.cell a).next))
unfolding free_block join_previous
free_block-joins p m used first behind free apart =
    (join_next p m, ground arith, ground arith, ground arith, ground arith, λ a ne. ground arith)
