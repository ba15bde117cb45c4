-- ===== src/Memory/Pages/Count.antt =====
-- The counters of free pages of scheduler+virtualMemoryManager/submission/paging.c against the page table.
use rutgers_cs.Prelude.{
  ℕ, zero, suc, ◌+◌, ◌%◌, ◌^◌, ◌≤◌, ◌<◌, ◌≡◌, ◌≢◌, refl, false, arith, if◌then◌else◌, ◌==◌, ap, sym,
  ◌∙◌, ◌⊎◌, inl, inr, update, ==_refl,
}
use native.Mathlib.Decide.{ℕ_discrete}
use rutgers_cs.Memory.Types.{
  PageMeta, Memory, first_user_page, last_swap_page, user_pages, swap_pages, sub32,
}
use rutgers_cs.Memory.Pages.{init_all, initial_entry}

abbrev pub is_free_page : PageMeta → ℕ
is_free_page e = if e.in_use == 0 then 1 else 0

-- How many of the `n` pages from `y` on are not in use.
unfoldable pub free_count : ℕ → ℕ → (ℕ → PageMeta) → ℕ
free_count zero y t = 0
free_count (suc n) y t = is_free_page (t y) + free_count n (y + 1) t

-- The two tables differ at page `z` at most.
abbrev pub Differ : ℕ → (ℕ → PageMeta) → (ℕ → PageMeta) → Type 0
Differ z t u = (y : ℕ) → y ≢ z → u y ≡ t y

free_count-same :
    (n lo z : ℕ) (t u : ℕ → PageMeta)
    → Differ z t u
    → z < lo
    → free_count n lo u ≡ free_count n lo t
unfolding free_count
free_count-same zero lo z t u d low = refl
free_count-same (suc n) lo z t u d low =
    let here : u lo ≡ t lo = d lo (λ e. absurd (omega (arith, e, low))) in
    let rest = free_count-same n (lo + 1) z t u d (omega (arith, low)) in rw (here, rest) refl

pub free_count-Differ :
    (n lo z : ℕ) (t u : ℕ → PageMeta)
    → Differ z t u
    → lo ≤ z
    → z < lo + n
    → free_count n lo u + is_free_page (t z) ≡ free_count n lo t + is_free_page (u z)
unfolding free_count
free_count-Differ zero lo z t u d low high = absurd (omega (arith, low, high))
free_count-Differ (suc n) lo z t u d low high = elim (ℕ_discrete lo z) [
  | yes same ↦
      let rest = free_count-same n (lo + 1) z t u d (omega (arith, same)) in
      rw same (rw (rw same at rest) (omega arith))
  | no other ↦
      let here : u lo ≡ t lo = d lo other in
      let rest =
        free_count-Differ n (lo + 1) z t u d (omega (arith, low, other)) (omega (arith, high)) in
      rw here (omega (arith, rest))
]

unfoldable pub free_pages : (ℕ → PageMeta) → ℕ
free_pages t = free_count (user_pages + swap_pages) first_user_page t

pub free_pages-Differ :
    (z : ℕ) (t u : ℕ → PageMeta)
    → Differ z t u
    → first_user_page ≤ z
    → z < last_swap_page
    → free_pages u + is_free_page (t z) ≡ free_pages t + is_free_page (u z)
unfolding free_pages
free_pages-Differ z t u d low high =
    free_count-Differ (user_pages + swap_pages) first_user_page z t u d low high

-- The sum of the two counters, as an int, is the number of pages that are not in use.
pub record IsCounted (m : Memory) : Type 0 where
  pub small_mem : m.num_free_pages_mem < 2 ^ 32
  pub small_sf : m.num_free_pages_sf < 2 ^ 32
  pub total : (m.num_free_pages_mem + m.num_free_pages_sf) % 2 ^ 32 ≡ free_pages m.page_table

-- What the counters depend on is as it was.
pub record SamePages (m m' : Memory) : Type 0 where
  pub table : m'.page_table ≡ m.page_table
  pub mem : m'.num_free_pages_mem ≡ m.num_free_pages_mem
  pub sf : m'.num_free_pages_sf ≡ m.num_free_pages_sf

pub SamePages-IsCounted : {m m' : Memory} → SamePages m m' → IsCounted m → IsCounted m'
SamePages-IsCounted s c = record {
  small_mem = rw s.mem c.small_mem;
  small_sf = rw s.sf c.small_sf;
  total = rw (s.mem, s.sf) c.total ∙ ap free_pages (sym s.table);
}

free_count-all :
    (n lo : ℕ) (t : ℕ → PageMeta)
    → ((y : ℕ) → lo ≤ y → y < lo + n → (t y).in_use ≡ 0)
    → free_count n lo t ≡ n
unfolding free_count
free_count-all zero lo t free = refl
free_count-all (suc n) lo t free =
    let rest =
      free_count-all n (lo + 1) t (λ y a b. free y (omega (arith, a)) (omega (arith, b))) in
    rw (free lo (omega arith) (omega arith), rest) (omega arith)

pub free_pages-all : (t : ℕ → PageMeta) → ((y : ℕ) → (t y).in_use ≡ 0) → free_pages t ≡ 5_144
unfolding free_pages
free_pages-all t free = free_count-all 5_144 1_000 t (λ y a b. free y)

-- initAll sets the counters right.
pub init_all-IsCounted : (m : Memory) → IsCounted (init_all m)
unfolding init_all initial_entry free_pages
init_all-IsCounted m = record {
  small_mem = omega arith;
  small_sf = omega arith;
  total = sym (free_count-all 5_144 1_000 (init_all m).page_table (λ y a b. ground (arith, a, b)));
}

-- One of the two counters is less by 1.
abbrev pub OneLess : Memory → Memory → Type 0
OneLess m m' =
    ((m'.num_free_pages_mem ≡ sub32 m.num_free_pages_mem 1)
      × (m'.num_free_pages_sf ≡ m.num_free_pages_sf))
    ⊎ ((m'.num_free_pages_mem ≡ m.num_free_pages_mem)
        × (m'.num_free_pages_sf ≡ sub32 m.num_free_pages_sf 1))

-- One page is taken into use.
pub OneLess-IsCounted :
    (m m' : Memory) (y : ℕ)
    → Differ y m.page_table m'.page_table
    → first_user_page ≤ y
    → y < last_swap_page
    → (m.page_table y).in_use ≡ 0
    → (m'.page_table y).in_use ≡ 1
    → OneLess m m'
    → IsCounted m
    → IsCounted m'
OneLess-IsCounted m m' y d low high unused used less c =
    let one = free_pages-Differ y m.page_table m'.page_table d low high in
    let before : is_free_page (m.page_table y) ≡ 1 = rw unused refl in
    let after : is_free_page (m'.page_table y) ≡ 0 = rw used refl in
    let total = c.total in
    elim less [
      | inl (a, b) ↦ record {
        small_mem = rw a (omega arith);
        small_sf = rw b c.small_sf;
        total = rw (a, b) (omega (arith, one, before, after, total, c.small_mem, c.small_sf));
      }
      | inr (a, b) ↦ record {
        small_mem = rw a c.small_mem;
        small_sf = rw b (omega arith);
        total = rw (a, b) (omega (arith, one, before, after, total, c.small_mem, c.small_sf));
      }
    ]

-- The entry of page `next` goes to page `y`, which is in use, and page `next` is in use then.
pub free_pages-moved :
    (y next : ℕ) (t u : ℕ → PageMeta)
    → ((z : ℕ) → z ≢ y → z ≢ next → u z ≡ t z)
    → first_user_page ≤ y
    → y < last_swap_page
    → first_user_page ≤ next
    → next < last_swap_page
    → y ≢ next
    → (t y).in_use ≡ 1
    → u y ≡ t next
    → (u next).in_use ≡ 1
    → free_pages u ≡ free_pages t
free_pages-moved y next t u same low high low' high' apart used moved given =
    let v = update t y (u y) in
    let other : (next == y) ≡ false = ground (arith, apart) in
    let one = free_pages-Differ y t v (λ z ne. ground (arith, ne)) low high in
    let two =
      free_pages-Differ next v u
        (λ z ne. elim (ℕ_discrete z y) [
          | yes e ↦ rw (e, ==_refl y) refl
          | no e ↦ let off : (z == y) ≡ false = ground (arith, e) in rw off (same z e ne)
        ])
        low' high' in
    let before : is_free_page (t y) ≡ 0 = rw used refl in
    let after : is_free_page (u next) ≡ 0 = rw given refl in
    let at_y : is_free_page (v y) ≡ is_free_page (t next) = rw (==_refl y, moved) refl in
    let at_next : is_free_page (v next) ≡ is_free_page (t next) = rw other refl in
    omega (arith, one, two, before, after, at_y, at_next)
