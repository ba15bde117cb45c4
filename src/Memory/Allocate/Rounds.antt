-- ===== src/Memory/Allocate/Rounds.antt =====
-- The loop of myallocate of scheduler+virtualMemoryManager/submission/myallocate.c that asks for pages ends.
use rutgers_cs.Prelude.{
  ℕ, zero, suc, ◌+◌, ◌*◌, ◌≤◌, ◌<◌, ◌≡◌, ◌≢◌, refl, true, false, arith, ◌==◌, ltb, inl, inr,
  Bool-cases, ◌∙◌, sym, ap,
}
use rutgers_cs.Memory.Types.{Addr, Meta, Memory, sizeof_meta, page_size, addr_of, page_of, ok}
use rutgers_cs.Memory.Allocate.{take_page, extend_next, extend_last, more_pages, finish}
use rutgers_cs.Memory.Pages.Count.{IsCounted, SamePages-IsCounted}
use rutgers_cs.Memory.Types.{first_user_page}
use rutgers_cs.Memory.Allocate.Grow.{taken-IsCounted, finish-SamePages}
use rutgers_cs.Memory.Pages.Fresh.{request_page-Fresh}
use rutgers_cs.Memory.Allocate.Grow.{
  taken-Spared, more_pages-round, more_pages-none, Met, refused, finish-Met, take_page_lem,
}
use rutgers_cs.Memory.Allocate.Extend.{extend_last_lem, extend_next-first, extend_next-more}

page_of-ne : (curr block : Addr) → page_of curr ≢ page_of block → curr ≢ block
page_of-ne curr block h e = h (ap page_of e)

module _ (curr : Addr) (size : ℕ) where
  -- The loop returns, has met the request or refused it, and has kept the counters right.
  abbrev pub Ends : ℕ → ℕ → Memory → Type 0
  Ends fuel k m =
      (r : Addr × Memory) × (more_pages fuel curr size k m ≡ ok r) × Met size r × IsCounted r.1

  -- The last block is free and grows.
  pub more_pages-last :
      (fuel k : ℕ) (m : Memory)
      → (m.cell curr).is_free ≢ 0
      → (m.page_table (page_of curr)).in_use ≢ 0
      → size ≤ (m.cell curr).size + page_size * fuel
      → IsCounted m
      → first_user_page ≤ page_of curr
      → page_size * (page_of curr + k + 1) + size ≤ page_size * 6_143 + (m.cell curr).size
      → (m.cell curr).size < size
      → Ends fuel k m
  more_pages-last zero k m free own enough c low near tight = absurd (omega (arith, enough, tight))
  more_pages-last (suc fuel) k m free own enough c low near tight = elim (request_page-Fresh m) [
    | inl (e, full) ↦ ((0, m), more_pages-none fuel curr size k m e, refused refl full, c)
    | inr (y, m', f) ↦
        let next = page_of curr + (k + 1) in
        let g = take_page y next m' in
        let s = taken-Spared m y next (page_of curr) m' f (λ e. absurd (omega (arith, e))) own in
        let same : g.cell curr ≡ m.cell curr = s.cells curr refl in
        let used : ((g.cell curr).is_free == 0) ≡ false = rw same (ground (arith, free)) in
        let (longer, still, table) = extend_last_lem curr g in
        let g' = extend_last curr g in
        let longer' : (g'.cell curr).size ≡ (m.cell curr).size + page_size =
          longer ∙ ap (λ (b : Meta). b.size + page_size) same in
        let d = SamePages-IsCounted table (
          taken-IsCounted m y next m' f (omega (arith, low)) (omega (arith, low, near, tight)) c) in
        let ran = rw used at (more_pages-round fuel curr size k y m m' f) in
        elim (Bool-cases (ltb (g'.cell curr).size size)) [
          | inl more ↦
              let short : (g'.cell curr).size < size = ground (arith, more) in
              let (r, rest, w, c') =
                more_pages-last fuel (k + 1) g'
                  (λ e. free (ap (λ (b : Meta). b.is_free) (sym same) ∙ sym still ∙ e))
                  (rw table.table s.in_use) (omega (arith, enough, longer')) d low
                  (omega (arith, near, longer')) short in
              (r, ran ∙ rw more rest, w, c')
          | inr done ↦ (
            finish curr size g',
            ran ∙ rw done refl,
            finish-Met curr size g' (ground (arith, done)),
            SamePages-IsCounted (finish-SamePages curr size g') d,
          )
        ]
  ]

  -- The last block is in use, and the one behind it, which began with the page behind, grows.
  abbrev behind : Addr
  behind = addr_of (page_of curr + 1)

  page_of-behind : page_of behind ≡ page_of curr + 1
  page_of-behind = omega arith

  apart_behind : curr ≢ behind
  apart_behind = page_of-ne curr behind (λ e. absurd (omega (arith, e, page_of-behind)))

  more_pages-behind :
      (fuel k : ℕ) (m : Memory)
      → 0 < k
      → (m.cell curr).is_free ≡ 0
      → (m.cell curr).next ≡ behind
      → (m.page_table (page_of curr)).in_use ≢ 0
      → (m.page_table (page_of curr + 1)).in_use ≢ 0
      → size ≤ (m.cell behind).size + page_size * fuel
      → IsCounted m
      → first_user_page ≤ page_of curr
      → page_size * (page_of curr + k + 1) + size ≤ page_size * 6_143 + (m.cell behind).size
      → (m.cell behind).size < size
      → Ends fuel k m
  more_pages-behind zero k m later taken link own own' enough c low near tight =
      absurd (omega (arith, enough, tight))
  more_pages-behind (suc fuel) k m later taken link own own' enough c low near tight =
      elim (request_page-Fresh m) [
        | inl (e, full) ↦ ((0, m), more_pages-none fuel curr size k m e, refused refl full, c)
        | inr (y, m', f) ↦
            let next = page_of curr + (k + 1) in
            let g = take_page y next m' in
            let s =
              taken-Spared m y next (page_of curr) m' f (λ e. absurd (omega (arith, e))) own in
            let s' =
              taken-Spared m y next (page_of curr + 1) m' f (λ e. absurd (omega (arith, e, later)))
                own' in
            let same : g.cell curr ≡ m.cell curr = s.cells curr refl in
            let same' : g.cell behind ≡ m.cell behind = s'.cells behind page_of-behind in
            let used : ((g.cell curr).is_free == 0) ≡ true = rw same (ground (arith, taken)) in
            let g' = extend_next curr (k + 1) next g in
            let (kept, longer, table) =
              extend_next-more curr behind k next g later (ap (λ (b : Meta). b.next) same ∙ link)
                apart_behind in
            let here : g'.cell curr ≡ m.cell curr = kept ∙ same in
            let longer' : (g'.cell behind).size ≡ (m.cell behind).size + page_size =
              longer ∙ ap (λ (b : Meta). b.size + page_size) same' in
            let leads : (g'.cell curr).next ≡ behind = ap (λ (b : Meta). b.next) here ∙ link in
            let d = SamePages-IsCounted table (
              taken-IsCounted m y next m' f (omega (arith, low)) (omega (arith, low, near, tight))
                c) in
            let ran = rw (used, leads) at (more_pages-round fuel curr size k y m m' f) in
            elim (Bool-cases (ltb (g'.cell behind).size size)) [
              | inl more ↦
                  let short : (g'.cell behind).size < size = ground (arith, more) in
                  let (r, rest, w, c') =
                    more_pages-behind fuel (k + 1) g' (omega arith)
                      (ap (λ (b : Meta). b.is_free) here ∙ taken) leads (rw table.table s.in_use)
                      (rw table.table s'.in_use) (omega (arith, enough, longer')) d low
                      (omega (arith, near, longer')) short in
                  (r, ran ∙ rw more rest, w, c')
              | inr done ↦ (
                finish behind size g',
                ran ∙ rw done refl,
                finish-Met behind size g' (ground (arith, done)),
                SamePages-IsCounted (finish-SamePages behind size g') d,
              )
            ]
      ]

  -- The first round, where the last block is in use.
  pub more_pages-first :
      (fuel : ℕ) (m : Memory)
      → (m.cell curr).is_free ≡ 0
      → (m.page_table (page_of curr)).in_use ≢ 0
      → size + sizeof_meta ≤ page_size * fuel
      → IsCounted m
      → first_user_page ≤ page_of curr
      → page_size * (page_of curr + 1) + size + sizeof_meta ≤ page_size * 6_143
      → Ends fuel 0 m
  more_pages-first zero m taken own enough c low near = absurd (omega (arith, enough))
  more_pages-first (suc fuel) m taken own enough c low near = elim (request_page-Fresh m) [
    | inl (e, full) ↦ ((0, m), more_pages-none fuel curr size 0 m e, refused refl full, c)
    | inr (y, m', f) ↦
        let next = page_of curr + 1 in
        let g = take_page y next m' in
        let s = taken-Spared m y next (page_of curr) m' f (λ e. absurd (omega (arith, e))) own in
        let same : g.cell curr ≡ m.cell curr = s.cells curr refl in
        let used : ((g.cell curr).is_free == 0) ≡ true = rw same (ground (arith, taken)) in
        let g' = extend_next curr 1 next g in
        let (leads, kept, long, table) = extend_next-first curr next g apart_behind in
        let d =
          SamePages-IsCounted table
            (taken-IsCounted m y next m' f (omega (arith, low)) (omega (arith, low, near)) c) in
        let ran = rw (used, leads) at (more_pages-round fuel curr size 0 y m m' f) in
        elim (Bool-cases (ltb (g'.cell behind).size size)) [
          | inl more ↦
              let short : (g'.cell behind).size < size = ground (arith, more) in
              let given : (g.page_table next).in_use ≡ 1 = (take_page_lem y next m').2 in
              let (r, rest, w, c') =
                more_pages-behind fuel 1 g' (omega arith)
                  (kept ∙ ap (λ (b : Meta). b.is_free) same ∙ taken) leads (rw table.table s.in_use)
                  (rw table.table (λ e. absurd (omega (arith, e, given))))
                  (omega (arith, enough, long)) d low (omega (arith, near, long)) short in
              (r, ran ∙ rw more rest, w, c')
          | inr done ↦ (
            finish behind size g',
            ran ∙ rw done refl,
            finish-Met behind size g' (ground (arith, done)),
            SamePages-IsCounted (finish-SamePages behind size g') d,
          )
        ]
  ]
