-- ===== src/Memory/Deallocate/Walk.antt =====
-- The walk of mydeallocate of scheduler+virtualMemoryManager/submission/myallocate.c along the list of the
-- blocks, and the list that it is to leave.
use rutgers_cs.Prelude.{
  ℕ, zero, suc, ◌+◌, ◌≤◌, ◌≡◌, refl, Bool, true, false, List, [], ◌∷◌, arith, ◌==◌, if◌then◌else◌,
  length, ap, Bool-cases, inl, inr,
}
use rutgers_cs.Memory.Types.{Addr, Memory, sizeof_meta, ok}
use rutgers_cs.Memory.Allocate.Split.{Blocks}
use rutgers_cs.Memory.Deallocate.{is_block}

-- A block of `n` bytes at the front of the list is given back: it is free where it is the last one, joined
-- to a free block behind it, and stays in use where the block behind it is in use.
abbrev pub give_back : ℕ → Bool → List (ℕ × Bool) → List (ℕ × Bool)
give_back n false bs = (n, false) ∷ bs
give_back n true [] = (n, false) ∷ []
give_back n true ((k, true) ∷ bs) = (n, true) ∷ (k, true) ∷ bs
give_back n true ((k, false) ∷ bs) = (n + (sizeof_meta + k), false) ∷ bs

-- The block at `p`, where the first block of the list is at `a`.
abbrev pub release : Addr → Addr → List (ℕ × Bool) → List (ℕ × Bool)
release p a [] = []
release p a ((n, used) ∷ bs) =
    if p == a then give_back n used bs else (n, used) ∷ release p (a + sizeof_meta + n) bs

abbrev pub is_at : Addr → Addr → List (ℕ × Bool) → Bool
is_at p a [] = false
is_at p a ((n, used) ∷ bs) = if p == a then true else is_at p (a + sizeof_meta + n) bs

pub release-absent :
    (p a : Addr) (bs : List (ℕ × Bool)) → is_at p a bs ≡ false → release p a bs ≡ bs
release-absent p a [] e = refl
release-absent p a ((n, used) ∷ bs) e = elim (Bool-cases (p == a)) [
  | inl here ↦ ground (arith, here, e)
  | inr away ↦
      rw away (ap (λ xs. (n, used) ∷ xs) (release-absent p (a + sizeof_meta + n) bs (rw away at e)))
]

pub is_at-above : (p a : Addr) (bs : List (ℕ × Bool)) → is_at p a bs ≡ true → a ≤ p
is_at-above p a [] e = cc
is_at-above p a ((n, used) ∷ bs) e = elim (Bool-cases (p == a)) [
  | inl here ↦ ground (arith, here)
  | inr away ↦ omega (arith, is_at-above p (a + sizeof_meta + n) bs (rw away at e))
]

module _ (m : Memory) where
  -- The walk finds the blocks of the list and no other.
  pub is_block-is_at :
      (fuel : ℕ) (p a end : Addr) (bs : List (ℕ × Bool))
      → Blocks m.cell a end bs
      → length bs ≤ fuel
      → is_block fuel p a m ≡ ok (is_at p a bs)
  unfolding is_block
  is_block-is_at fuel p a end [] v enough = absurd v
  is_block-is_at zero p a end (b ∷ bs) v enough = absurd (omega (arith, enough))
  is_block-is_at (suc fuel) p a end ((n, used) ∷ []) v enough = rw v.2 (ground arith)
  is_block-is_at (suc fuel) p a end ((n, used) ∷ b ∷ bs) v enough =
      let more : ((m.cell a).next == 0) ≡ false = rw v.2 (ground arith) in
      rw
        (
          more,
          v.2,
          is_block-is_at fuel p (a + sizeof_meta + n) end (b ∷ bs) v.3 (omega (arith, enough)),
        )
        (ground arith)
