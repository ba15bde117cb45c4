-- ===== src/Memory/Allocate/Total.antt =====
-- myallocate of scheduler+virtualMemoryManager/submission/myallocate.c always returns, for a thread whose first
-- page is in place, with space for the request or without it.
use rutgers_cs.Prelude.{
  ℕ, zero, suc, ◌+◌, ◌-◌, ◌*◌, ◌≤◌, ◌<◌, ◌≡◌, ◌≢◌, refl, Bool, true, false, arith, if◌then◌else◌,
  ◌==◌, ltb, leb, inl, inr, ◌⊎◌, Bool-cases, ◌∙◌, List, [], ◌∷◌, length,
}
use rutgers_cs.Memory.Types.{
  Addr, Meta, Memory, sizeof_meta, page_size, user_size, addr_of, page_of, first_user_page,
  thread_req, ok,
}
use rutgers_cs.Memory.Head.Own.{IsHome}
use rutgers_cs.Memory.Allocate.{find_block, allocate_at, is_insufficient, myallocate}
use rutgers_cs.Memory.Pages.Count.{IsCounted, SamePages-IsCounted}
use rutgers_cs.Memory.Types.{memory_size}
use rutgers_cs.Memory.Allocate.Split.{Blocks}
use rutgers_cs.Memory.Allocate.FirstFit.{
  first_fit-Blocks, has_space, some_space, first_fit, IsSmall, fits-has_space,
}
use rutgers_cs.Memory.Allocate.Request.{myallocate-serve_from, myallocate-first_fit}
use rutgers_cs.Memory.Allocate.Grow.{Met, met}
use rutgers_cs.Memory.Allocate.Rounds.{more_pages-last, more_pages-first}

-- The address of the last block, where the first one is at `a`.
abbrev pub last_block : Addr → List (ℕ × Bool) → Addr
last_block a [] = a
last_block a (b ∷ []) = a
last_block a ((n, used) ∷ b ∷ bs) = last_block (a + sizeof_meta + n) (b ∷ bs)

module _ (size : ℕ) (m : Memory) where
  -- The block at `a` is in use, or free and too small.
  abbrev IsShort : Addr → Type 0
  IsShort a = ((m.cell a).is_free ≡ 0) ⊎ (((m.cell a).is_free ≡ 1) × ((m.cell a).size < size))

  has_space-IsShort :
      (a n : ℕ) (used : Bool)
      → (m.cell a).size ≡ n
      → (m.cell a).is_free ≡ (if used then 0 else 1)
      → has_space size (n, used) ≡ false
      → IsShort a
  has_space-IsShort a n true s f h = inl f
  has_space-IsShort a n false s f h = inr (f, ground (arith, s, h))

  -- Where no block has space, the walk goes to the last one.
  find_block-last :
      (fuel a end : ℕ) (bs : List (ℕ × Bool))
      → Blocks m.cell a end bs
      → some_space size bs ≡ false
      → length bs ≤ fuel
      → (find_block fuel size a m ≡ ok (last_block a bs)) × IsShort (last_block a bs)
  unfolding find_block
  find_block-last fuel a end [] v full enough = absurd v
  find_block-last zero a end (b ∷ bs) v full enough = absurd (omega (arith, enough))
  find_block-last (suc fuel) a end ((n, used) ∷ []) v full enough =
      let (s, f, x, fin) = v in
      let none : has_space size (n, used) ≡ false = ground (arith, full) in
      (rw x refl, has_space-IsShort a n used s f none)
  find_block-last (suc fuel) a end ((n, used) ∷ b ∷ bs) v full enough =
      let (s, f, x, rest) = v in
      elim (Bool-cases (has_space size (n, used))) [
        | inl here ↦ absurd (let no : true ≡ false = rw here at full in cc)
        | inr there ↦
            let inner : ((m.cell a).next == 0) ≡ false = rw x (ground arith) in
            let same = fits-has_space size n used (m.cell a) s f in
            let (ran, short) =
              find_block-last fuel (a + sizeof_meta + n) end (b ∷ bs) rest (rw there at full)
                (omega (arith, enough)) in
            (rw (inner, same, there, x) ran, short)
      ]

  -- The outcome of a request that no block has space for: pages are asked for, or the tests of the code say that
  -- there are too few.
  abbrev Answer : Addr → Addr × Memory → Type 0
  Answer a r = Met size r ⊎ ((is_insufficient a size m ≡ true) × (r ≡ (0, m)))

  allocate_at-Met :
      (fuel : ℕ) (a : Addr)
      → IsShort a
      → (m.page_table (page_of a)).in_use ≢ 0
      → size + sizeof_meta ≤ page_size * fuel
      → IsCounted m
      → first_user_page ≤ page_of a
      → page_size * (page_of a + 1) + size + sizeof_meta ≤ page_size * 6_143
      → (r : Addr × Memory) × (allocate_at fuel size a m ≡ ok r) × Answer a r × IsCounted r.1
  unfolding allocate_at
  allocate_at-Met fuel a (inl in_use) own enough c low near =
      let used : ((m.cell a).is_free == 1) ≡ false = rw in_use refl in
      elim (Bool-cases (is_insufficient a size m)) [
        | inl refuses ↦ ((0, m), rw (used, refuses) refl, inr (refuses, refl), c)
        | inr goes ↦
            let (r, ran, w, c') = more_pages-first a size fuel m in_use own enough c low near in
            (r, rw (used, goes, in_use) ran, inl w, c')
      ]
  allocate_at-Met fuel a (inr (free, short)) own enough c low near =
      let small : leb size (m.cell a).size ≡ false = ground (arith, short) in
      let small' : leb (size + sizeof_meta) (m.cell a).size ≡ false = ground (arith, short) in
      let grows : ltb (m.cell a).size (size + sizeof_meta) ≡ true = ground (arith, short) in
      elim (Bool-cases (is_insufficient a size m)) [
        | inl refuses ↦ ((0, m), rw (small, small', free, refuses) refl, inr (refuses, refl), c)
        | inr goes ↦
            let (r, ran, w, c') =
              more_pages-last a size fuel 0 m (λ e. absurd (omega (arith, e, free))) own
                (omega (arith, enough)) c low (omega (arith, near)) short in
            (r, rw (small, small', free, goes, grows) ran, inl w, c')
      ]

-- The last block stands in the row.
last_block-within :
    (h : Addr → Meta) (a end : ℕ) (bs : List (ℕ × Bool))
    → Blocks h a end bs
    → (a ≤ last_block a bs) × (last_block a bs < end)
last_block-within h a end [] v = absurd v
last_block-within h a end ((n, used) ∷ []) v = (omega arith, omega (arith, v.3))
last_block-within h a end ((n, used) ∷ b ∷ bs) v =
    let w = last_block-within h (a + sizeof_meta + n) end (b ∷ bs) v.3 in (omega (arith, w.0), w.1)

answered :
    (m : Memory) (bs : List (ℕ × Bool)) (size : ℕ) (a : Addr) (r : Addr × Memory)
    → some_space size bs ≡ false
    → Answer size m a r
    → Met size r ⊎ ((some_space size bs ≡ false) × (is_insufficient a size m ≡ true) × (r ≡ (0, m)))
answered m bs size a r full (inl w) = inl w
answered m bs size a r full (inr (few, e)) = inr (full, few, e)

-- myallocate of a thread whose first page is in place and whose blocks stand one behind the other, the last one
-- in a page in use, returns, with a unit of fuel for each block and enough for the pages that the request
-- fills. The result is the address behind the struct Meta of a block that is in use and has at least the
-- bytes of the request, whether a block had space or pages were asked for; or it is 0, no block having space,
-- with every page in use or by the tests of the last block, which then leave the memory as it was. Where
-- the sum of the counters of free pages is, as an int, the number of pages that are not in use, it is so again.
pub myallocate-Met :
    (fuel size end : ℕ) (m : Memory) (bs : List (ℕ × Bool))
    → m.base_page ≢ 0
    → 0 < size
    → size ≤ user_size - sizeof_meta
    → IsHome m
    → Blocks m.cell (addr_of first_user_page) end bs
    → end ≤ memory_size
    → IsSmall bs
    → IsCounted m
    → (m.page_table (page_of (last_block (addr_of first_user_page) bs))).in_use ≢ 0
    → length bs ≤ fuel
    → size + sizeof_meta ≤ page_size * fuel
    → (r : Addr × Memory) × (myallocate fuel size thread_req m ≡ ok r)
      × (Met size r
          ⊎ ((some_space size bs ≡ false)
              × (is_insufficient (last_block (addr_of first_user_page) bs) size m ≡ true)
              × (r ≡ (0, m))))
      × IsCounted r.1
myallocate-Met fuel size end m bs set pos low home v inside small c own enough room =
    let a = addr_of first_user_page in
    elim (Bool-cases (some_space size bs)) [
      | inl space ↦
          let (m', ran, blocks, pages) =
            myallocate-first_fit fuel size end m bs set pos low home v small space enough in
          let (long, in_use) = first_fit-Blocks m'.cell size a end bs space blocks in
          (
            (first_fit size a bs + sizeof_meta, m'),
            ran,
            inl (met (first_fit size a bs) refl long in_use),
            SamePages-IsCounted pages c,
          )
      | inr full ↦
          let (walked, short) = find_block-last size m fuel a end bs v full enough in
          let (below, above) = last_block-within m.cell a end bs v in
          let (r, ran, w, c') =
            allocate_at-Met size m fuel (last_block a bs) short own room c (omega (arith, below))
              (omega (arith, above, inside, low)) in
          (
            r,
            myallocate-serve_from fuel size m set pos low home ∙ rw walked ran,
            answered m bs size _ r full w,
            c',
          )
    ]
