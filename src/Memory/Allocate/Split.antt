-- ===== src/Memory/Allocate/Split.antt =====
-- The blocks that organizeMem and myallocate of
-- scheduler+virtualMemoryManager/submission/myallocate.c cut a region into.
use rutgers_cs.Prelude.{
  ◌∙◌, ℕ, ◌+◌, ◌-◌, ◌^◌, ◌≤◌, ◌<◌, ◌≡◌, Bool, true, false, List, [], ◌∷◌, arith, if◌then◌else◌,
  ◌==◌, update, ◌&&◌, leb, inl, inr, Bool-cases,
}
use rutgers_cs.Memory.Types.{Addr, Meta, Memory, sizeof_meta, ok, sub32}
use rutgers_cs.Prelude.{refl}
use rutgers_cs.Memory.Pages.Count.{SamePages}
use rutgers_cs.Memory.Allocate.{organize_mem, allocate_at, fits}

-- From `a` on the blocks stand one behind the other, without a gap, up to the address `end`: each
-- entry of the list is the size of a block, and true where it is in use.
abbrev pub Blocks : (Addr → Meta) → Addr → Addr → List (ℕ × Bool) → Type 0
Blocks h a end [] = ⊥
Blocks h a end ((n, used) ∷ []) =
    ((h a).size ≡ n)
    × ((h a).is_free ≡ (if used then 0 else 1))
    × ((h a).next ≡ 0)
    × (a + sizeof_meta + n ≡ end)
Blocks h a end ((n, used) ∷ b ∷ bs) =
    ((h a).size ≡ n)
    × ((h a).is_free ≡ (if used then 0 else 1))
    × ((h a).next ≡ a + sizeof_meta + n)
    × Blocks h (a + sizeof_meta + n) end (b ∷ bs)

Blocks-frame :
    (h g : Addr → Meta) (a end lo : Addr) (bs : List (ℕ × Bool))
    → ((x : Addr) → lo ≤ x → g x ≡ h x)
    → lo ≤ a
    → Blocks h a end bs
    → Blocks g a end bs
Blocks-frame h g a end lo [] same low v = v
Blocks-frame h g a end lo ((n, used) ∷ []) same low v = rw (same a low) v
Blocks-frame h g a end lo ((n, used) ∷ b ∷ bs) same low v =
    let rest : Blocks g (a + sizeof_meta + n) end (b ∷ bs) =
      Blocks-frame h g (a + sizeof_meta + n) end lo (b ∷ bs) same (omega arith) v.3 in
    rw (same a low) (v.0, v.1, v.2, rest)

pub organize_mem-cell :
    (m : Memory) (a size : ℕ)
    → let g = (organize_mem a size m).cell in
      ((g a).size ≡ size)
      × ((g a).is_free ≡ 0)
      × ((g a).next ≡ a + sizeof_meta + size)
      × ((g (a + sizeof_meta + size)).size ≡ sub32 (m.cell a).size (sizeof_meta + size))
      × ((g (a + sizeof_meta + size)).is_free ≡ 1)
      × ((g (a + sizeof_meta + size)).next ≡ (m.cell a).next)
      × ((x : Addr) → a + sizeof_meta + size < x → g x ≡ m.cell x)
unfolding organize_mem
organize_mem-cell m a size = (
  ground arith,
  ground arith,
  ground arith,
  ground arith,
  ground arith,
  ground arith,
  λ x h. ground arith,
)

organize_mem-before :
    (m : Memory) (a size x : ℕ) → x < a → (organize_mem a size m).cell x ≡ m.cell x
unfolding organize_mem
organize_mem-before m a size x low = ground arith

organize_mem-SamePages : (m : Memory) (a size : ℕ) → SamePages m (organize_mem a size m)
unfolding organize_mem
organize_mem-SamePages m a size = record { table = refl; mem = refl; sf = refl }

-- organizeMem cuts a free block in two, the front one in use, and keeps the others.
organize_mem-Blocks :
    (m : Memory) (a end n size : ℕ) (bs : List (ℕ × Bool))
    → Blocks m.cell a end ((n, false) ∷ bs)
    → size + sizeof_meta ≤ n
    → n < 2 ^ 31
    → Blocks
        (organize_mem a size m).cell
        a
        end
        ((size, true) ∷ (n - (size + sizeof_meta), false) ∷ bs)
organize_mem-Blocks m a end n size [] v room small =
    let (s, f, x, s', f', x', _) = organize_mem-cell m a size in
    (s, f, x, (s' ∙ rest v.0, f', x' ∙ v.2, omega (arith, v.3)))
  where
    rest :
        (m.cell a).size ≡ n → sub32 (m.cell a).size (sizeof_meta + size) ≡ n - (size + sizeof_meta)
    rest e = omega (arith, e)
organize_mem-Blocks m a end n size (b ∷ bs) v room small =
    let (s, f, x, s', f', x', same) = organize_mem-cell m a size in
    let here : a + sizeof_meta + size + sizeof_meta + (n - (size + sizeof_meta))
        ≡ a + sizeof_meta + n =
      omega arith in
    (
      s,
      f,
      x,
      (
        s' ∙ omega (arith, v.0),
        f',
        rw here (x' ∙ v.2),
        rw here (
            Blocks-frame _ _ _ end (a + sizeof_meta + n) (b ∷ bs) (λ y h. same y (omega arith))
              (omega arith) v.3),
      ),
    )

-- The sizes of the blocks after `size` bytes were taken from a free block of `n` bytes.
abbrev pub taken : ℕ → ℕ → List (ℕ × Bool) → List (ℕ × Bool)
taken n size bs =
    if leb n (size + sizeof_meta)
    then (n, true) ∷ bs
    else (size, true) ∷ (n - (size + sizeof_meta), false) ∷ bs

mark-Blocks :
    (h : Addr → Meta) (a end n : ℕ) (bs : List (ℕ × Bool))
    → Blocks h a end ((n, false) ∷ bs)
    → Blocks (update h a (record (h a) { is_free = 0 })) a end ((n, true) ∷ bs)
mark-Blocks h a end n [] v = (ground arith, ground arith, ground arith, v.3)
mark-Blocks h a end n (b ∷ bs) v = (
  ground arith,
  ground arith,
  ground arith,
  Blocks-frame h (update h a (record (h a) { is_free = 0 })) (a + sizeof_meta + n) end (a + 1)
      (b ∷ bs) (λ x low. ground arith) (omega arith) v.3,
)

front :
    (h : Addr → Meta) (a end n : ℕ) (bs : List (ℕ × Bool))
    → Blocks h a end ((n, false) ∷ bs)
    → ((h a).size ≡ n) × ((h a).is_free ≡ 1)
front h a end n [] v = (v.0, v.1)
front h a end n (b ∷ bs) v = (v.0, v.1)

-- Where the walk of myallocate has ended at a free block of at least `size` bytes, the request is met
-- there: it returns the address behind the struct Meta, the block is in use and has `size` bytes or, where
-- the rest has no room for a block of its own, all that it had; the rest becomes a free block, and the
-- blocks still stand one behind the other up to the same end. No struct Meta before the block changes, and no
-- page changes hands.
pub allocate_at-Blocks :
    (fuel size a end n : ℕ) (m : Memory) (bs : List (ℕ × Bool))
    → Blocks m.cell a end ((n, false) ∷ bs)
    → size ≤ n
    → n < 2 ^ 31
    → (m' : Memory) × (allocate_at fuel size a m ≡ ok (a + sizeof_meta, m'))
      × Blocks m'.cell a end (taken n size bs)
      × ((x : Addr) → x < a → m'.cell x ≡ m.cell x)
      × SamePages m m'
unfolding allocate_at
allocate_at-Blocks fuel size a end n m bs v enough small =
    let (s, f) = front m.cell a end n bs v in
    elim (Bool-cases (leb n (size + sizeof_meta))) [
      | inl whole ↦
          let test : (fits size (m.cell a) && leb (m.cell a).size (size + sizeof_meta)) ≡ true =
            ground arith in
          (
            record m { cell = update m.cell a (record (m.cell a) { is_free = 0 }) },
            rw test,
            rw whole (mark-Blocks m.cell a end n bs v),
            λ x low. ground arith,
            record { table = refl; mem = refl; sf = refl },
          )
      | inr more ↦
          let test : (fits size (m.cell a) && leb (m.cell a).size (size + sizeof_meta)) ≡ false =
            ground arith in
          let room : (((m.cell a).is_free == 1) && leb (size + sizeof_meta) (m.cell a).size)
              ≡ true =
            ground arith in
          (
            organize_mem a size m,
            rw (test, room),
            rw more (organize_mem-Blocks m a end n size bs v (ground arith) small),
            λ x low. organize_mem-before m a size x low,
            organize_mem-SamePages m a size,
          )
    ]
