-- ===== src/Memory/Allocate/FirstFit.antt =====
-- The walk of myallocate of scheduler+virtualMemoryManager/submission/myallocate.c, and what it does at the
-- block where the walk ends, on the list of the blocks.
use rutgers_cs.Prelude.{
  ℕ, zero, suc, ◌+◌, ◌^◌, ◌≤◌, ◌<◌, ◌≡◌, refl, Bool, true, false, not, ◌&&◌, List, [], ◌∷◌, arith,
  if◌then◌else◌, ◌==◌, leb, inl, inr, Bool-cases, length,
}
use rutgers_cs.Memory.Types.{Addr, Meta, Memory, sizeof_meta, Run, ok, ◌>>=◌}
use rutgers_cs.Prelude.{◌-◌}
use rutgers_cs.Memory.Pages.Count.{SamePages}
use rutgers_cs.Memory.Allocate.{find_block, allocate_at, fits}
use rutgers_cs.Memory.Allocate.Split.{Blocks, taken, allocate_at-Blocks}

-- A free block of at least `size` bytes.
abbrev pub has_space : ℕ → ℕ × Bool → Bool
has_space size (n, used) = not used && leb size n

abbrev pub some_space : ℕ → List (ℕ × Bool) → Bool
some_space size [] = false
some_space size (b ∷ bs) = if has_space size b then true else some_space size bs

-- The address of the first block with space, where the first block of the list is at `a`.
abbrev pub first_fit : ℕ → Addr → List (ℕ × Bool) → Addr
first_fit size a [] = a
first_fit size a ((n, used) ∷ bs) =
    if has_space size (n, used) then a else first_fit size (a + sizeof_meta + n) bs

-- The list after the request is met there.
abbrev pub serve : ℕ → List (ℕ × Bool) → List (ℕ × Bool)
serve size [] = []
serve size ((n, used) ∷ bs) =
    if has_space size (n, used) then taken n size bs else (n, used) ∷ serve size bs

-- No block is so large that the int for its size overflows.
abbrev pub IsSmall : List (ℕ × Bool) → Type 0
IsSmall [] = Unit {0}
IsSmall ((n, used) ∷ bs) = (n < 2 ^ 31) × IsSmall bs

pub cons-Blocks :
    (h : Addr → Meta) (a end n : ℕ) (used : Bool) (bs : List (ℕ × Bool))
    → (h a).size ≡ n
    → (h a).is_free ≡ (if used then 0 else 1)
    → (h a).next ≡ a + sizeof_meta + n
    → Blocks h (a + sizeof_meta + n) end bs
    → Blocks h a end ((n, used) ∷ bs)
cons-Blocks h a end n used [] s f x v = absurd v
cons-Blocks h a end n used (b ∷ bs) s f x v = (s, f, x, v)

pub fits-has_space :
    (size n : ℕ) (used : Bool) (b : Meta)
    → b.size ≡ n
    → b.is_free ≡ (if used then 0 else 1)
    → fits size b ≡ has_space size (n, used)
fits-has_space size n true b s f = rw (s, f) refl
fits-has_space size n false b s f = rw (s, f) refl

unused : (size n : ℕ) (used : Bool) → has_space size (n, used) ≡ true → (used ≡ false) × (size ≤ n)
unused size n true h = cc
unused size n false h = (refl, ground (arith, h))

-- The walk and what follows it.
abbrev pub serve_from : ℕ → ℕ → ℕ → Addr → Memory → Run (Addr × Memory)
serve_from fuel pages size a m = find_block fuel size a m >>= λ curr. allocate_at pages size curr m

module _ (pages size : ℕ) (m : Memory) where
  -- What the walk from the address `a` comes to.
  abbrev pub Served : ℕ → Addr → Addr → List (ℕ × Bool) → Type 0
  Served fuel a end bs =
      (m' : Memory) × (serve_from fuel pages size a m ≡ ok (first_fit size a bs + sizeof_meta, m'))
      × Blocks m'.cell a end (serve size bs)
      × ((x : Addr) → x < a → m'.cell x ≡ m.cell x)
      × SamePages m m'

  serve_from-fits :
      (fuel a end n : ℕ) (used : Bool) (bs : List (ℕ × Bool))
      → find_block fuel size a m ≡ ok a
      → Blocks m.cell a end ((n, used) ∷ bs)
      → n < 2 ^ 31
      → has_space size (n, used) ≡ true
      → Served fuel a end ((n, used) ∷ bs)
  serve_from-fits fuel a end n true bs stop v small h = cc
  serve_from-fits fuel a end n false bs stop v small h =
      let (m', ran, blocks, before, pages_kept) =
        allocate_at-Blocks pages size a end n m bs v (unused size n false h).1 small in
      (m', rw (stop, h) ran, rw h blocks, before, pages_kept)

  -- The walk ends with a unit of fuel for each block.
  pub serve_from-Served :
      (fuel a end : ℕ) (bs : List (ℕ × Bool))
      → Blocks m.cell a end bs
      → IsSmall bs
      → some_space size bs ≡ true
      → length bs ≤ fuel
      → Served fuel a end bs
  unfolding find_block
  serve_from-Served zero a end [] v small h enough = absurd v
  serve_from-Served zero a end (b ∷ bs) v small h enough = absurd (omega arith)
  serve_from-Served (suc fuel) a end [] v small h enough = absurd v
  serve_from-Served (suc fuel) a end ((n, used) ∷ []) v small h enough =
      let (s, f, x, fin) = v in
      let last : ((m.cell a).next == 0) ≡ true = rw x refl in
      serve_from-fits (suc fuel) a end n used [] (rw last refl) v small.0 (ground (arith, h))
  serve_from-Served (suc fuel) a end ((n, used) ∷ b ∷ bs) v small h enough =
      let (s, f, x, rest) = v in
      let inner : ((m.cell a).next == 0) ≡ false = rw x (ground arith) in
      let same = fits-has_space size n used (m.cell a) s f in
      elim (Bool-cases (has_space size (n, used))) [
        | inl here ↦
            serve_from-fits (suc fuel) a end n used (b ∷ bs) (rw (inner, same, here) refl) v small.0
              here
        | inr there ↦
            let (m', ran, blocks, before, pages_kept) =
              serve_from-Served fuel (a + sizeof_meta + n) end (b ∷ bs) rest small.1 (rw there at h)
                (omega arith) in
            let old : m'.cell a ≡ m.cell a = before a (omega arith) in
            (
              m',
              rw (inner, same, there, x) ran,
              rw there (
                  cons-Blocks m'.cell a end n used (serve size (b ∷ bs)) (rw old s) (rw old f)
                    (rw old x) blocks),
              λ y low. before y (omega arith),
              pages_kept,
            )
      ]

Blocks-head :
    (h : Addr → Meta) (a end n : ℕ) (used : Bool) (bs : List (ℕ × Bool))
    → Blocks h a end ((n, used) ∷ bs)
    → ((h a).size ≡ n) × ((h a).is_free ≡ (if used then 0 else 1))
Blocks-head h a end n used [] v = (v.0, v.1)
Blocks-head h a end n used (b ∷ bs) v = (v.0, v.1)

-- The block that the request is met with.
Blocks-fit :
    (h : Addr → Meta) (size a end n : ℕ) (used : Bool) (bs : List (ℕ × Bool))
    → has_space size (n, used) ≡ true
    → Blocks h a end (taken n size bs)
    → (size ≤ (h a).size) × ((h a).is_free ≡ 0)
Blocks-fit h size a end n true bs fit v = cc
Blocks-fit h size a end n false bs fit v = elim (Bool-cases (leb n (size + sizeof_meta))) [
  | inl whole ↦
      let (s, f) = Blocks-head h a end n true bs (rw whole at v) in (ground (arith, s, fit), f)
  | inr cut ↦
      let w : Blocks h a end ((size, true) ∷ (n - (size + sizeof_meta), false) ∷ bs) =
        rw cut at v in
      (omega (arith, w.0), w.1)
]

Blocks-tail :
    (h : Addr → Meta) (a end n size : ℕ) (used : Bool) (bs : List (ℕ × Bool))
    → some_space size bs ≡ true
    → Blocks h a end ((n, used) ∷ serve size bs)
    → Blocks h (a + sizeof_meta + n) end (serve size bs)
Blocks-tail h a end n size used [] some v = cc
Blocks-tail h a end n size used ((k, b) ∷ bs) some v = elim (Bool-cases (has_space size (k, b))) [
  | inl here ↦ elim (Bool-cases (leb k (size + sizeof_meta))) [
    | inl whole ↦ rw (here, whole) (rw (here, whole) at v).3
    | inr cut ↦ rw (here, cut) (rw (here, cut) at v).3
  ]
  | inr there ↦ rw there (rw there at v).3
]

pub first_fit-Blocks :
    (h : Addr → Meta) (size a end : ℕ) (bs : List (ℕ × Bool))
    → some_space size bs ≡ true
    → Blocks h a end (serve size bs)
    → (size ≤ (h (first_fit size a bs)).size) × ((h (first_fit size a bs)).is_free ≡ 0)
first_fit-Blocks h size a end [] some v = cc
first_fit-Blocks h size a end ((n, used) ∷ bs) some v =
    elim (Bool-cases (has_space size (n, used))) [
      | inl here ↦ rw here (Blocks-fit h size a end n used bs here (rw here at v))
      | inr there ↦
          let rest = rw there at some in
          rw there (
            first_fit-Blocks h size (a + sizeof_meta + n) end bs rest
              (Blocks-tail h a end n size used bs rest (rw there at v)))
    ]
