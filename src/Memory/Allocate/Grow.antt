-- ===== src/Memory/Allocate/Grow.antt =====
-- The loop of myallocate of scheduler+virtualMemoryManager/submission/myallocate.c that asks for pages: one round.
use rutgers_cs.Prelude.{
  ℕ, suc, ◌+◌, ◌≤◌, ◌<◌, ◌≡◌, ◌≢◌, refl, false, arith, if◌then◌else◌, ◌==◌, ltb, inl, inr,
  Bool-cases, ◌∙◌, sym, ap,
}
use rutgers_cs.Memory.Types.{
  Addr, Meta, PageMeta, Memory, sizeof_meta, addr_of, page_of, first_user_page, last_swap_page, ok,
}
use rutgers_cs.Memory.Pages.{request_page, swap_empty_page}
use rutgers_cs.Memory.Pages.Count.{
  IsCounted, free_pages, is_free_page, free_pages-Differ, SamePages, free_pages-moved,
}
use native.Mathlib.Decide.{ℕ_discrete}
use mathlib.Core.Path.{subst}
use rutgers_cs.Memory.Allocate.{
  take_page, organize_mem, finish, extend_next, extend_last, growing, more_pages,
}
use rutgers_cs.Memory.Pages.Fresh.{Fresh, IsFull}

pub take_page_lem :
    (y next : ℕ) (m : Memory)
    → ((a : Addr) → page_of a ≢ y → page_of a ≢ next → (take_page y next m).cell a ≡ m.cell a)
      × ((z : ℕ) → z ≢ y → z ≢ next → (take_page y next m).page_table z ≡ m.page_table z)
      × (((take_page y next m).page_table next).in_use ≡ 1)
unfolding take_page swap_empty_page
take_page_lem y next m = elim (Bool-cases (y == next)) [
  | inl e ↦ (λ a p q. ground (arith, e), λ z p q. ground (arith, e, p, q), ground (arith, e))
  | inr e ↦ (λ a p q. ground (arith, e, p, q), λ z p q. ground (arith, e, p, q), ground (arith, e))
]

take_page-moved :
    (y next : ℕ) (m : Memory)
    → ((take_page y next m).num_free_pages_mem ≡ m.num_free_pages_mem)
      × ((take_page y next m).num_free_pages_sf ≡ m.num_free_pages_sf)
      × (y ≢ next → (take_page y next m).page_table y ≡ m.page_table next)
unfolding take_page swap_empty_page
take_page-moved y next m = elim (Bool-cases (y == next)) [
  | inl e ↦ (ground (arith, e), ground (arith, e), λ ne. absurd (ne (ground (arith, e))))
  | inr e ↦ (ground (arith, e), ground (arith, e), λ ne. ground (arith, e))
]

-- The page that was asked for takes the entry of page `next`, which is the thread's then: as many pages are free.
take_page-IsCounted :
    (y next : ℕ) (m : Memory)
    → first_user_page ≤ y
    → y < last_swap_page
    → first_user_page ≤ next
    → next < last_swap_page
    → (m.page_table y).in_use ≡ 1
    → IsCounted m
    → IsCounted (take_page y next m)
take_page-IsCounted y next m low high low' high' used c =
    let (cells, table, given) = take_page_lem y next m in
    let (mem, sf, moved) = take_page-moved y next m in
    let same : free_pages (take_page y next m).page_table ≡ free_pages m.page_table =
      elim (ℕ_discrete y next) [
        | yes e ↦
            let one =
              free_pages-Differ y m.page_table (take_page y next m).page_table
                (λ z ne. table z ne (λ h. ne (h ∙ sym e))) low high in
            let before : is_free_page (m.page_table y) ≡ 0 = rw used refl in
            let after : is_free_page ((take_page y next m).page_table y) ≡ 0 =
              let here : ((take_page y next m).page_table y).in_use ≡ 1 =
                subst (λ z. ((take_page y next m).page_table z).in_use ≡ 1) (sym e) given in
              rw here refl in
            omega (arith, one, before, after)
        | no e ↦
            free_pages-moved y next m.page_table (take_page y next m).page_table table low high low'
              high' e used (moved e) given
      ] in
    record {
      small_mem = rw mem c.small_mem;
      small_sf = rw sf c.small_sf;
      total = rw (mem, sf) c.total ∙ sym same;
    }

-- What the loop reads of a page that it has given to the thread: the page stays in use, and its cells
-- stay.
pub record Spared (m m' : Memory) (p : ℕ) : Type 0 where
  pub in_use : (m'.page_table p).in_use ≢ 0
  pub cells : (a : Addr) → page_of a ≡ p → m'.cell a ≡ m.cell a

-- A round up to the test of the block's size: the page `next` is the thread's now.
pub taken-Spared :
    (m : Memory) (y next p : ℕ) (m' : Memory)
    → Fresh m y m'
    → p ≢ next
    → (m.page_table p).in_use ≢ 0
    → Spared m (take_page y next m') p
taken-Spared m y next p m' f apart used =
    let (cells, table, given) = take_page_lem y next m' in
    let other : p ≢ y = λ e. let z : (m.page_table p).in_use ≡ 0 = rw e f.unused in used z in
    record {
      in_use = λ e.
          used (ap (λ (t : PageMeta). t.in_use) (sym (table p other apart ∙ f.others p other)) ∙ e);
      cells = λ a here.
          cells a (λ e. other (sym here ∙ e)) (λ e. apart (sym here ∙ e))
          ∙ ap (λ (h : Addr → Meta). h a) f.cells;
    }

-- A round leaves the counters right.
pub taken-IsCounted :
    (m : Memory) (y next : ℕ) (m' : Memory)
    → Fresh m y m'
    → first_user_page ≤ next
    → next < last_swap_page
    → IsCounted m
    → IsCounted (take_page y next m')
taken-IsCounted m y next m' f low high c =
    take_page-IsCounted y next m' f.low f.high low high f.taken (f.counted c)

-- The loop as far as the test of a round that has got a page.
pub more_pages-round :
    (fuel : ℕ) (curr : Addr) (size k y : ℕ) (m m' : Memory)
    → Fresh m y m'
    → let next = page_of curr + (k + 1) in
      let g = take_page y next m' in
      let used = (g.cell curr).is_free == 0 in
      let g' = if used then extend_next curr (k + 1) next g else extend_last curr g in
      let block = growing used curr g' in
      more_pages (suc fuel) curr size k m ≡ (
        if ltb (g'.cell block).size size
        then more_pages fuel curr size (k + 1) g'
        else ok (finish block size g'))
unfolding more_pages
more_pages-round fuel curr size k y m m' f =
    let page : page_of (addr_of y) ≡ y = omega arith in
    let real : (addr_of y == 0) ≡ false = ground (arith, f.real) in rw (f.asked, page, real) refl

pub more_pages-none :
    (fuel : ℕ) (curr : Addr) (size k : ℕ) (m : Memory)
    → request_page m ≡ (0, m)
    → more_pages (suc fuel) curr size k m ≡ ok (0, m)
unfolding more_pages
more_pages-none fuel curr size k m e = rw e refl

-- The request is met by a block that is in use and has its bytes, or it is refused with every page in use.
pub data Met (size : ℕ) (r : Addr × Memory) : Type 0 where
  refused : r.0 ≡ 0 → IsFull r.1 → Met size r
  met :
      (a : Addr)
      → r.0 ≡ a + sizeof_meta
      → size ≤ (r.1.cell a).size
      → (r.1.cell a).is_free ≡ 0
      → Met size r

pub finish-Met :
    (a : Addr) (size : ℕ) (m : Memory) → size ≤ (m.cell a).size → Met size (finish a size m)
unfolding finish organize_mem
finish-Met a size m enough = elim (Bool-cases (ltb (size + sizeof_meta) (m.cell a).size)) [
  | inl cut ↦ met a refl (rw cut (ground arith)) (ground arith)
  | inr whole ↦ met a refl (rw whole (ground (arith, enough))) (ground arith)
]

pub finish-SamePages : (a : Addr) (size : ℕ) (m : Memory) → SamePages m (finish a size m).1
unfolding finish organize_mem
finish-SamePages a size m = elim (Bool-cases (ltb (size + sizeof_meta) (m.cell a).size)) [
  | inl cut ↦ rw cut (record { table = refl; mem = refl; sf = refl })
  | inr whole ↦ rw whole (record { table = refl; mem = refl; sf = refl })
]
