-- ===== src/Memory/Guard.antt =====
-- The protection of pages against other threads, over paging.c and myallocate.c of
-- scheduler+virtualMemoryManager/submission: what the operations open and close.
pub mod Calls
pub mod System
use rutgers_cs.Prelude.{
  ℕ, zero, suc, ◌+◌, ◌*◌, ◌/◌, ◌%◌, ◌≤◌, ◌<◌, ◌≡◌, ◌≢◌, refl, true, false, arith, ◌==◌,
  if◌then◌else◌, Option-cases, ◌&&◌, sym, ap, ◌∙◌, Option, none, some, Bool-cases, inl, inr,
}
use rutgers_cs.Memory.Types.{
  Addr, page_size, Memory, Meta, PageMeta, addr_of, page_of, mprotect, first_user_page,
  first_swap_page, no_tid, thread_req, user_pages, swap_pages, sub32, ok, write_page_meta,
  write_meta, free_flag, malloc_flag, sizeof_meta,
}
use rutgers_cs.Memory.Pages.{
  init_all, initial_entry, find_free, find_page, claim, request_page, mprotect_setter, exchange,
  swap_empty_page,
}
use rutgers_cs.Memory.Pages.Request.{free_at, all_used, find_free_lem}
use rutgers_cs.Memory.Pages.Protect.{flag_after, mprotect_setter_lem}
use rutgers_cs.Memory.Head.Own.{find_page-IsPage}
use rutgers_cs.Memory.Head.{
  init_mem, bring_first, move_first, take_user_page, take_swap_page, new_first, thread_head,
  get_head, first_of,
}

-- The page `y` is closed where it belongs to a thread other than `tid`.
abbrev pub IsClosedTo : ℕ → Memory → ℕ → Type 0
IsClosedTo tid m y =
    (m.page_table y).tid ≢ tid → (m.page_table y).tid ≢ no_tid → m.open_page y ≡ false

-- Thread `tid` runs, and each page of memory that belongs to another thread is closed.
pub record IsGuarded (tid : ℕ) (m : Memory) : Type 0 where
  pub running : m.current_tid ≡ tid
  pub closed : (y : ℕ) → first_user_page ≤ y → y < first_swap_page → IsClosedTo tid m y

aligned : (y : ℕ) → addr_of y % page_size ≡ 0
aligned y = omega arith

page_of-addr_of : (y : ℕ) → page_of (addr_of y) ≡ y
page_of-addr_of y = omega arith

module _ (c : ℕ) where
  -- An operation that writes cells only.
  pub cells-IsGuarded :
      (m m' : Memory)
      → m'.current_tid ≡ m.current_tid
      → m'.page_table ≡ m.page_table
      → m'.open_page ≡ m.open_page
      → IsGuarded c m
      → IsGuarded c m'
  cells-IsGuarded m m' tid table flags g = record {
    running = tid ∙ g.running;
    closed = λ y lo hi. rw (table, flags) (g.closed y lo hi);
  }

  pub init_all-IsGuarded : (m : Memory) → m.current_tid ≡ c → IsGuarded c (init_all m)
  unfolding init_all initial_entry
  init_all-IsGuarded m run = record {
    running = run;
    closed = λ y lo hi other owned. ground (arith, lo, hi, owned);
  }

  claim-IsGuarded : (y : ℕ) (m : Memory) → IsGuarded c m → IsGuarded c (claim y m)
  unfolding claim
  claim-IsGuarded y m g =
      rw (aligned y, page_of-addr_of y)
        (record {
          running = g.running;
          closed = λ z lo hi other owned. ground (arith, other, owned, g.running, g.closed z lo hi);
        })

  pub request_page-IsGuarded : (m : Memory) → IsGuarded c m → IsGuarded c (request_page m).1
  unfolding request_page
  request_page-IsGuarded m g = elim (find_free_lem m.page_table user_pages first_user_page) [
    | free_at y first low e ↦
        rw (request_page, e) (claim-IsGuarded y _ (cells-IsGuarded m _ refl refl refl g))
    | all_used h e ↦ elim (find_free_lem m.page_table swap_pages first_swap_page) [
      | free_at y first low e' ↦
          rw (request_page, e, e') (claim-IsGuarded y _ (cells-IsGuarded m _ refl refl refl g))
      | all_used h' e' ↦ rw (request_page, e, e') g
    ]
  ]

  -- A block is begun on a page of the thread.
  init_mem-IsGuarded :
      (req y : ℕ) (m : Memory)
      → (m.page_table y).tid ≡ c
      → IsGuarded c m
      → IsGuarded c (init_mem req (addr_of y) m)
  unfolding init_mem
  init_mem-IsGuarded req y m own g =
      rw (aligned y, page_of-addr_of y)
        (record {
          running = g.running;
          closed = λ z lo hi other owned. ground (arith, other, owned, own, g.closed z lo hi);
        })

  bring_first-IsGuarded :
      (y : ℕ) (m : Memory)
      → (m.page_table y).tid ≡ c
      → IsGuarded c m
      → IsGuarded c (bring_first y m)
  unfolding bring_first exchange
  bring_first-IsGuarded y m own g =
      rw (aligned y, page_of-addr_of y)
        (record {
          running = g.running;
          closed = λ z lo hi other owned. ground (arith, other, owned, own, g.closed z lo hi);
        })

  move_first-IsGuarded :
      (y : ℕ) (m : Memory)
      → IsGuarded c m
      → IsGuarded c (move_first y m) × (((move_first y m).page_table first_user_page).tid ≡ c)
  unfolding move_first swap_empty_page
  move_first-IsGuarded y m g = (
    rw (aligned y, page_of-addr_of y)
        (record {
          running = g.running;
          closed = λ z lo hi other owned. ground (arith, other, owned, g.running, g.closed z lo hi);
        }),
    ground (arith, g.running),
  )

  -- Page `y` is given to the thread where it stands, or moved first.
  first_page-IsGuarded :
      (m : Memory)
      → IsGuarded c m
      → IsGuarded c (
          write_page_meta first_user_page (first_of m.current_tid (m.page_table first_user_page)) m)
  first_page-IsGuarded m g = record {
    running = g.running;
    closed = λ z lo hi other owned. ground (arith, other, owned, g.running, g.closed z lo hi);
  }

  take_user_page-IsGuarded :
      (req y : ℕ) (m : Memory) → IsGuarded c m → IsGuarded c (take_user_page req y m).1
  unfolding take_user_page
  take_user_page-IsGuarded req y m g =
      let counted = record m { num_free_pages_mem = sub32 m.num_free_pages_mem 1 } in
      let g' = cells-IsGuarded m counted refl refl refl g in
      elim (Bool-cases (y == first_user_page)) [
        | inl e ↦ rw e (
            init_mem-IsGuarded req first_user_page _ (ground (arith, g.running))
              (first_page-IsGuarded counted g'))
        | inr e ↦
            let (h, own) = move_first-IsGuarded y counted g' in
            rw e (init_mem-IsGuarded req first_user_page _ own h)
      ]

  new_first-IsGuarded : (req : ℕ) (m : Memory) → IsGuarded c m → IsGuarded c (new_first req m).1
  unfolding new_first take_swap_page
  new_first-IsGuarded req m g = elim (find_free_lem m.page_table user_pages first_user_page) [
    | free_at y first low e ↦ rw (new_first, e) (take_user_page-IsGuarded req y m g)
    | all_used h e ↦ elim (find_free_lem m.page_table swap_pages first_swap_page) [
      | free_at y first low e' ↦
          let (h, own) = move_first-IsGuarded y _ (cells-IsGuarded m _ refl refl refl g) in
          rw (new_first, e, e') (init_mem-IsGuarded req first_user_page _ own h)
      | all_used h' e' ↦ rw (new_first, e, e') g
    ]
  ]

  pub get_head-IsGuarded :
      (flag : ℕ) (m : Memory) → IsGuarded c m → IsGuarded c (get_head thread_req flag m).1
  unfolding get_head thread_head
  get_head-IsGuarded flag m g =
      elim (Option-cases (find_page user_pages first_user_page m.current_tid 0 m.page_table)) [
        | inl e ↦ elim (Bool-cases (flag == 0)) [
          | inl zero_flag ↦ rw (thread_head, e, zero_flag) g
          | inr other ↦ rw (thread_head, e, other) (new_first-IsGuarded thread_req m g)
        ]
        | inr (y, e) ↦ elim (Bool-cases (y == first_user_page)) [
          | inl here ↦ rw (thread_head, e, here) g
          | inr away ↦
              rw (thread_head, e, away)
                (bring_first-IsGuarded y m ((find_page-IsPage _ _ _ _ y _ e).owner ∙ g.running) g)
        ]
      ]
