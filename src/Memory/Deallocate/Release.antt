-- ===== src/Memory/Deallocate/Release.antt =====
-- mydeallocate of scheduler+virtualMemoryManager/submission/myallocate.c on the list of the blocks.
use rutgers_cs.Prelude.{
  ℕ, ◌+◌, ◌*◌, ◌-◌, ◌≤◌, ◌<◌, ◌≡◌, ◌≢◌, refl, Bool, true, false, List, [], ◌∷◌, arith, ◌==◌, length,
  ◌∙◌, sym, ◌⊎◌, Bool-cases, inl, inr,
}
use mathlib.Core.Path.{subst}
use rutgers_cs.Memory.Types.{
  Addr, Memory, sizeof_meta, page_size, thread_req, free_flag, first_user_page, addr_of, ok,
}
use rutgers_cs.Memory.Head.Own.{IsHome, get_head-IsHome}
use rutgers_cs.Memory.Allocate.Split.{Blocks}
use rutgers_cs.Memory.Allocate.FirstFit.{cons-Blocks}
use rutgers_cs.Memory.Deallocate.{mydeallocate, free_block, join_next, join_previous, is_outside}
use rutgers_cs.Memory.Deallocate.Block.{free_block-stuck}
use rutgers_cs.Memory.Deallocate.RoundTrip.{Same, Blocks-Same}
use rutgers_cs.Memory.Deallocate.Walk.{
  give_back, release, is_at, is_at-above, release-absent, is_block-is_at,
}

module _ (m : Memory) where
  -- A block at the front.
  abbrev Freed : Addr → Addr → List (ℕ × Bool) → Type 0
  Freed p end bs =
      (m' : Memory) × (free_block p m ≡ ok m')
      × Blocks m'.cell p end bs
      × ((x : Addr) → x < p → m'.cell x ≡ m.cell x)

  -- The block at `p` takes in the free one at `q`.
  joined :
      (p q : Addr)
      → (m.cell p).next ≡ q
      → q ≢ 0
      → (m.cell q).is_free ≡ 1
      → ((m.cell q).next ≡ 0 ⊎ p < (m.cell q).next)
      → (((join_next p m).cell p).size ≡ (m.cell p).size + (sizeof_meta + (m.cell q).size))
        × (((join_next p m).cell p).is_free ≡ 1)
        × (((join_next p m).cell p).next ≡ (m.cell q).next)
        × ((x : Addr) → x ≢ p → Same m.cell (join_next p m).cell x)
        × ((x : Addr) → x < p → (join_next p m).cell x ≡ m.cell x)
  unfolding join_next
  joined p q next real free behind = (
    ground (arith, next, real, free, behind),
    ground (arith, next, real, free, behind),
    ground (arith, next, real, free, behind),
    λ x ne. (ground (arith, ne), ground (arith, ne), ground (arith, ne)),
    λ x low. ground (arith, low, next, behind),
  )

  -- The block at `p` is in use and its back link is empty.
  free_block-join_next :
      (p : Addr)
      → (m.cell p).is_free ≡ 0
      → (m.cell p).prev ≡ 0
      → free_block p m ≡ ok (join_next p m)
  unfolding free_block join_previous
  free_block-join_next p used first = rw (used, first) refl

  free_block-give_back :
      (p end : Addr) (n : ℕ) (used : Bool) (bs : List (ℕ × Bool))
      → Blocks m.cell p end ((n, used) ∷ bs)
      → (m.cell p).prev ≡ 0
      → Freed p end (give_back n used bs)
  unfolding free_block join_next join_previous
  free_block-give_back p end n false bs v first = (m, already (is_free_of n bs v), v, λ x low. refl)
    where
      is_free_of :
          (n : ℕ) (bs : List (ℕ × Bool))
          → Blocks m.cell p end ((n, false) ∷ bs)
          → (m.cell p).is_free ≡ 1
      is_free_of n [] v = v.1
      is_free_of n (b ∷ bs) v = v.1

      already : (m.cell p).is_free ≡ 1 → free_block p m ≡ ok m
      already f = rw f refl
  free_block-give_back p end n true [] v first = (
    join_next p m,
    rw (v.1, first) refl,
    (ground (arith, v.0), ground (arith, v.2), ground (arith, v.2), v.3),
    λ x low. ground (arith, low, v.2),
  )
  free_block-give_back p end n true ((k, true) ∷ bs) v first = (
    m,
    free_block-stuck p m v.1 first (rw v.2 (ground arith)) (rw v.2 (busy_of k bs v.3)),
    v,
    λ x low. refl,
  )
    where
      busy_of :
          (k : ℕ) (bs : List (ℕ × Bool))
          → Blocks m.cell (p + sizeof_meta + n) end ((k, true) ∷ bs)
          → (m.cell (p + sizeof_meta + n)).is_free ≡ 0
      busy_of k [] v = v.1
      busy_of k (b ∷ bs) v = v.1
  free_block-give_back p end n true ((k, false) ∷ []) v first =
      let (u, f, x, same, before) =
        joined p (p + sizeof_meta + n) v.2 (λ e. absurd (omega (arith, e))) v.3.1 (inl v.3.2) in
      (
        join_next p m,
        free_block-join_next p v.1 first,
        (u ∙ omega (arith, v.0, v.3.0), f, x ∙ v.3.2, omega (arith, v.3.3)),
        before,
      )
  free_block-give_back p end n true ((k, false) ∷ b ∷ bs) v first =
      let q = p + sizeof_meta + n in
      let (u, f, x, same, before) =
        joined p q v.2 (λ e. absurd (omega (arith, e))) v.3.1 (inr (omega (arith, v.3.2))) in
      let far : q + sizeof_meta + k ≡ p + sizeof_meta + (n + (sizeof_meta + k)) = omega arith in
      (
        join_next p m,
        free_block-join_next p v.1 first,
        (
          u ∙ omega (arith, v.0, v.3.0),
          f,
          x ∙ v.3.2 ∙ far,
          Blocks-Same m.cell (join_next p m).cell (p + sizeof_meta + (n + (sizeof_meta + k))) end
              (b ∷ bs) (λ y low. same y (λ e. absurd (omega (arith, e, low))))
              (subst (λ a. Blocks m.cell a end (b ∷ bs)) far v.3.3),
        ),
        before,
      )

  -- A block anywhere in the list.
  abbrev Released : Addr → Addr → Addr → List (ℕ × Bool) → Type 0
  Released p a end bs =
      (m' : Memory) × (free_block p m ≡ ok m')
      × Blocks m'.cell a end bs
      × ((x : Addr) → x < p → m'.cell x ≡ m.cell x)

  free_block-here :
      (p a end : Addr) (n : ℕ) (used : Bool) (bs : List (ℕ × Bool))
      → Blocks m.cell a end ((n, used) ∷ bs)
      → (p == a) ≡ true
      → (m.cell p).prev ≡ 0
      → Released p a end (release p a ((n, used) ∷ bs))
  free_block-here p a end n used bs v here first =
      let same : a ≡ p = ground (arith, here) in
      rw here (
        subst (λ y. Released p y end (give_back n used bs)) (sym same)
          (free_block-give_back p end n used bs
            (subst (λ y. Blocks m.cell y end ((n, used) ∷ bs)) same v) first))

  free_block-release :
      (p a end : Addr) (bs : List (ℕ × Bool))
      → Blocks m.cell a end bs
      → is_at p a bs ≡ true
      → (m.cell p).prev ≡ 0
      → Released p a end (release p a bs)
  free_block-release p a end [] v e first = absurd v
  free_block-release p a end ((n, used) ∷ []) v e first = elim (Bool-cases (p == a)) [
    | inl here ↦ free_block-here p a end n used [] v here first
    | inr away ↦ ground (arith, away, e)
  ]
  free_block-release p a end ((n, used) ∷ b ∷ bs) v e first = elim (Bool-cases (p == a)) [
    | inl here ↦ free_block-here p a end n used (b ∷ bs) v here first
    | inr away ↦
        let behind = rw away at e in
        let above = is_at-above p (a + sizeof_meta + n) (b ∷ bs) behind in
        let (m', ran, rest, before) =
          free_block-release p (a + sizeof_meta + n) end (b ∷ bs) v.3 behind first in
        let kept : m'.cell a ≡ m.cell a = before a (omega (arith, above)) in
        (
          m',
          ran,
          rw away (
              cons-Blocks m'.cell a end n used (release p (a + sizeof_meta + n) (b ∷ bs))
                (rw kept v.0) (rw kept v.1) (rw kept v.2) rest),
          before,
        )
  ]

-- mydeallocate of the address behind any place `p`, up to the limit that it sets, for a thread whose first page
-- is in place and whose blocks stand one behind the other, returns with a unit of fuel for each block, where the
-- struct at `p` has no back link. A block in use that stands there is given back: it is free if it is the last
-- one, joined to the free block behind it, and left in use where the block behind it is in use. A free block
-- stays, and where no block stands the list of the blocks stays too.
pub mydeallocate-release :
    (fuel p end : ℕ) (m : Memory) (bs : List (ℕ × Bool))
    → IsHome m
    → Blocks m.cell (addr_of first_user_page) end bs
    → length bs ≤ fuel
    → p + sizeof_meta ≤ addr_of first_user_page + sizeof_meta * page_size
    → (m.cell p).prev ≡ 0
    → (m' : Memory) × (mydeallocate fuel (p + sizeof_meta) thread_req m ≡ ok m')
      × Blocks m'.cell (addr_of first_user_page) end (release p (addr_of first_user_page) bs)
unfolding mydeallocate
mydeallocate-release fuel p end m bs home v enough near first =
    let head = addr_of first_user_page in
    let back : p + sizeof_meta - sizeof_meta ≡ p = omega arith in
    let walk = is_block-is_at m fuel p head end bs v enough in
    let real : (p + sizeof_meta == 0) ≡ false = ground arith in
    elim (Bool-cases (is_at p head bs)) [
      | inl there ↦
          let (m', ran, blocks, before) = free_block-release m p head end bs v there first in
          let above = is_at-above p head bs there in
          let inside : is_outside (p + sizeof_meta) head thread_req ≡ false =
            ground (arith, above, near) in
          (m', rw (get_head-IsHome free_flag m home, real, inside, back, walk, there) ran, blocks)
      | inr absent ↦ (
        m,
        elim (Bool-cases (is_outside (p + sizeof_meta) head thread_req)) [
          | inl outside ↦ rw (get_head-IsHome free_flag m home, outside) (ground arith)
          | inr inside ↦
              rw (get_head-IsHome free_flag m home, real, inside, back, walk, absent) refl
        ],
        rw (release-absent p head bs absent) v,
      )
    ]
