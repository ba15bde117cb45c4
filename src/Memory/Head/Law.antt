-- ===== src/Memory/Head/Law.antt =====
-- What getHead of scheduler+virtualMemoryManager/submission/paging.c promises a thread.
use rutgers_cs.Prelude.{
  ℕ, ◌≤◌, ◌<◌, ◌≡◌, ◌≢◌, refl, false, arith, ◌==◌, sym, ap, ◌∙◌, Option-cases, Bool-cases, inl, inr,
  none,
}
use native.Mathlib.Decide.{dec_lt}
use rutgers_cs.Memory.Types.{
  Addr, Memory, addr_of, first_user_page, first_swap_page, last_swap_page, user_pages, swap_pages,
  thread_req,
}
use rutgers_cs.Memory.Pages.{find_page, exchange, swap_empty_page}
use rutgers_cs.Memory.Pages.Swap.{aligned}
use rutgers_cs.Memory.Pages.Request.{free_at, all_used, find_free_lem}
use rutgers_cs.Memory.Head.{
  bring_first, move_first, init_mem, take_user_page, take_swap_page, new_first, thread_head,
  get_head,
}
use rutgers_cs.Memory.Head.Own.{IsHome, find_page-IsPage}
use rutgers_cs.Memory.Head.Carried.{Carried, bring_first-Carried, move_first-Carried, given-Carried}

-- No page is free, and the thread has no first page in memory.
pub record IsFull (m : Memory) : Type 0 where
  pub homeless : find_page user_pages first_user_page m.current_tid 0 m.page_table ≡ none
  pub taken : (z : ℕ) → first_user_page ≤ z → z < last_swap_page → (m.page_table z).in_use ≢ 0

-- What getHead comes to for a thread.
pub data Head (m : Memory) (r : Addr × Memory) : Type 0 where
  refused : IsFull m → r ≡ (0, m) → Head m r
  placed : r.0 ≡ addr_of first_user_page → IsHome r.1 → Carried m r.1 → Head m r

kept-Carried : (m : Memory) → Carried m m
kept-Carried m = record {
  to = λ z. z;
  entry = λ z u. (refl, refl, refl);
  contents = λ z o u h. refl;
  apart = λ z w u v e. e;
}

-- The counters of free pages do not matter.
counted-Carried :
    (a b : ℕ) (m m' : Memory)
    → Carried (record m { num_free_pages_mem = a; num_free_pages_sf = b }) m'
    → Carried m m'
counted-Carried a b m m' c = record {
  to = c.to;
  entry = c.entry;
  contents = c.contents;
  apart = c.apart;
}

init_mem-IsHome : (req : ℕ) (a : Addr) (m : Memory) → IsHome m → IsHome (init_mem req a m)
unfolding init_mem
init_mem-IsHome req a m h = record {
  owner = ground (arith, h.owner);
  number = ground (arith, h.number);
}

move_first-IsHome : (y : ℕ) (m : Memory) → IsHome (move_first y m)
unfolding move_first swap_empty_page
move_first-IsHome y m = rw (aligned y) (record { owner = ground arith; number = ground arith })

bring_first-IsHome :
    (y : ℕ) (m : Memory)
    → y ≢ first_user_page
    → (m.page_table y).tid ≡ m.current_tid
    → (m.page_table y).page_num ≡ 0
    → IsHome (bring_first y m)
unfolding bring_first exchange
bring_first-IsHome y m away owner number =
    rw (aligned y)
      (record { owner = ground (arith, owner, away); number = ground (arith, number, away) })

module _ (req : ℕ) (m : Memory) where
  -- Page `y` is free and is not the first user page.
  moved-Head :
      (y a b : ℕ)
      → first_user_page ≤ y
      → y ≢ first_user_page
      → (m.page_table y).in_use ≡ 0
      → Head m (
        addr_of first_user_page,
        init_mem req
            (addr_of first_user_page)
            (move_first y (record m { num_free_pages_mem = a; num_free_pages_sf = b })),
      )
  moved-Head y a b low away free =
      let counted = record m { num_free_pages_mem = a; num_free_pages_sf = b } in
      placed refl (init_mem-IsHome req (addr_of first_user_page) _ (move_first-IsHome y counted))
        (counted-Carried a b m _ (move_first-Carried y counted low away free req))

  take_user_page-Head :
      (y : ℕ) → first_user_page ≤ y → (m.page_table y).in_use ≡ 0 → Head m (take_user_page req y m)
  unfolding take_user_page
  take_user_page-Head y low free = elim (Bool-cases (y == first_user_page)) [
    | inl e ↦ rw e (
        placed refl
          (init_mem-IsHome req (addr_of first_user_page) _ (record { owner = refl; number = refl }))
          (given-Carried req m _ (ground (arith, e, free)) (λ z ne. ground (arith, ne)) refl))
    | inr e ↦ rw e (moved-Head y _ _ low (λ h. ground (arith, e, h)) free)
  ]

  new_first-Head :
      find_page user_pages first_user_page m.current_tid 0 m.page_table ≡ none
      → Head m (new_first req m)
  unfolding new_first take_swap_page
  new_first-Head homeless = elim (find_free_lem m.page_table user_pages first_user_page) [
    | free_at y first low e ↦ rw (new_first, e) (take_user_page-Head y first.above first.unused)
    | all_used h e ↦ elim (find_free_lem m.page_table swap_pages first_swap_page) [
      | free_at y first low e' ↦
          rw (new_first, e, e')
            (moved-Head y _ _ (omega (arith, first.above))
              (λ h. absurd (omega (arith, first.above, h))) first.unused)
      | all_used h' e' ↦
          rw (new_first, e, e')
            (refused
              (record {
                homeless = homeless;
                taken = λ z lo hi. elim (dec_lt z first_swap_page) [
                  | yes low ↦ h z lo (omega (arith, low))
                  | no high ↦ h' z (omega (arith, high)) (omega (arith, hi))
                ];
              })
              refl)
    ]
  ]

-- getHead for a thread, called by myallocate or mydeallocate, returns NULL and changes nothing where the thread has
-- no first page in memory and no page is free, and the address of the first user page otherwise: then
-- that page is the thread's first one, and every page in use is there, at one place or another,
-- with its contents and with its entry of the page table, no two at the same place.
pub get_head-Head : (flag : ℕ) (m : Memory) → flag ≢ 0 → Head m (get_head thread_req flag m)
unfolding get_head thread_head
get_head-Head flag m caller =
    elim (Option-cases (find_page user_pages first_user_page m.current_tid 0 m.page_table)) [
      | inl e ↦
          let other : (flag == 0) ≡ false = ground (arith, caller) in
          rw (thread_head, e, other) (new_first-Head thread_req m e)
      | inr (y, e) ↦
          let f = find_page-IsPage user_pages first_user_page m.current_tid 0 y m.page_table e in
          elim (Bool-cases (y == first_user_page)) [
            | inl here ↦
                let first : y ≡ first_user_page = ground (arith, here) in
                rw (thread_head, e, here)
                  (placed refl
                    (record {
                      owner = ap (λ z. (m.page_table z).tid) (sym first) ∙ f.owner;
                      number = ap (λ z. (m.page_table z).page_num) (sym first) ∙ f.number;
                    })
                    (kept-Carried m))
            | inr away ↦
                let other : y ≢ first_user_page = λ h. ground (arith, away, h) in
                rw (thread_head, e, away)
                  (placed refl (bring_first-IsHome y m other f.owner f.number)
                    (bring_first-Carried y m f.above other))
          ]
    ]
