-- ===== src/Memory/Pages/Protect.antt =====
-- mprotect_setter of scheduler+virtualMemoryManager/submission/paging.c: which pages a switch of threads
-- opens and closes.
use rutgers_cs.Prelude.{
  ℕ, zero, suc, ◌+◌, ◌%◌, ◌<◌, ◌≤◌, ◌≡◌, ◌≢◌, refl, Bool, true, false, ◌==◌, if◌then◌else◌, arith,
  ◌∙◌,
}
use native.Mathlib.Decide.{ℕ_discrete}
use rutgers_cs.Memory.Types.{
  page_size, Memory, addr_of, page_of, mprotect, first_user_page, first_swap_page, user_pages,
}
use rutgers_cs.Memory.Pages.{protect_from, mprotect_setter}

-- What the loop makes of the flag of page `y`.
abbrev pub flag_after : ℕ → ℕ → Memory → ℕ → Bool
flag_after c p m y =
    if (m.page_table y).tid == p
    then false
    else if (m.page_table y).tid == c
    then true
    else m.open_page y

-- One round of the loop.
abbrev round : ℕ → ℕ → ℕ → Memory → Memory
round i c p m =
    let m₁ = if (m.page_table i).tid == c then mprotect (addr_of i) true m else m in
    if (m.page_table i).tid == p then mprotect (addr_of i) false m₁ else m₁

aligned : (y : ℕ) → addr_of y % page_size ≡ 0
aligned y = omega arith

page_of-addr_of : (y : ℕ) → page_of (addr_of y) ≡ y
page_of-addr_of y = omega arith

module _ (c p : ℕ) where
  round-table : (i : ℕ) (m : Memory) → (round i c p m).page_table ≡ m.page_table
  round-table i m = ground (arith, aligned i)

  round-cell : (i : ℕ) (m : Memory) → (round i c p m).cell ≡ m.cell
  round-cell i m = ground (arith, aligned i)

  round-here : (i : ℕ) (m : Memory) → (round i c p m).open_page i ≡ flag_after c p m i
  round-here i m = rw (aligned i, page_of-addr_of i) (ground arith)

  round-there : (i y : ℕ) (m : Memory) → y ≢ i → (round i c p m).open_page y ≡ m.open_page y
  round-there i y m ne = rw (aligned i, page_of-addr_of i) (ground (arith, ne))

  -- The loop over the `n` pages from `i` on.
  protect-table : (n i : ℕ) (m : Memory) → (protect_from n i c p m).page_table ≡ m.page_table
  unfolding protect_from
  protect-table zero i m = refl
  protect-table (suc n) i m = protect-table n (i + 1) (round i c p m) ∙ round-table i m

  protect-cell : (n i : ℕ) (m : Memory) → (protect_from n i c p m).cell ≡ m.cell
  unfolding protect_from
  protect-cell zero i m = refl
  protect-cell (suc n) i m = protect-cell n (i + 1) (round i c p m) ∙ round-cell i m

  round-tid : (i : ℕ) (m : Memory) → (round i c p m).current_tid ≡ m.current_tid
  round-tid i m = ground (arith, aligned i)

  protect-tid : (n i : ℕ) (m : Memory) → (protect_from n i c p m).current_tid ≡ m.current_tid
  unfolding protect_from
  protect-tid zero i m = refl
  protect-tid (suc n) i m = protect-tid n (i + 1) (round i c p m) ∙ round-tid i m

  protect-outside :
      (n i y : ℕ) (m : Memory)
      → (i ≤ y → i + n ≤ y)
      → (protect_from n i c p m).open_page y ≡ m.open_page y
  unfolding protect_from
  protect-outside zero i y m out = refl
  protect-outside (suc n) i y m out =
      protect-outside n (i + 1) y (round i c p m) (λ h. omega (arith, out (omega (arith, h))))
      ∙ round-there i y m (λ e. absurd (omega (arith, e, out (omega (arith, e)))))

  protect-inside :
      (n i y : ℕ) (m : Memory)
      → i ≤ y
      → y < i + n
      → (protect_from n i c p m).open_page y ≡ flag_after c p m y
  unfolding protect_from
  protect-inside zero i y m above below = absurd (omega arith)
  protect-inside (suc n) i y m above below = elim (ℕ_discrete y i) [
    | yes here ↦ rw here (
        protect-outside n (i + 1) i (round i c p m) (λ h. absurd (omega (arith, h)))
        ∙ round-here i m)
    | no other ↦
        protect-inside n (i + 1) y (round i c p m) (omega arith) (omega arith)
        ∙ rw (round-table i m, round-there i y m other) refl
  ]

  -- mprotect_setter changes the flags of the pages of memory and nothing else that a thread reads: it
  -- closes each page of the previous thread, opens each page of the current one that is not the
  -- previous one's, and leaves all other pages, those of the swap file included, as they are.
  pub mprotect_setter_lem :
      (m : Memory)
      → ((y : ℕ)
          → first_user_page ≤ y
          → y < first_swap_page
          → (mprotect_setter c p m).open_page y ≡ flag_after c p m y)
        × ((y : ℕ)
            → (first_user_page ≤ y → first_swap_page ≤ y)
            → (mprotect_setter c p m).open_page y ≡ m.open_page y)
        × ((mprotect_setter c p m).page_table ≡ m.page_table)
        × ((mprotect_setter c p m).cell ≡ m.cell)
        × ((mprotect_setter c p m).current_tid ≡ m.current_tid)
  unfolding mprotect_setter
  mprotect_setter_lem m = (
    λ y above below. protect-inside user_pages first_user_page y m above (omega arith),
    λ y out. protect-outside user_pages first_user_page y m (λ h. omega (arith, out h)),
    protect-table user_pages first_user_page m,
    protect-cell user_pages first_user_page m,
    protect-tid user_pages first_user_page m,
  )
