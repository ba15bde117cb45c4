-- ===== src/Scheduler/Maintenance/Growth.antt =====
-- How maintenance of scheduler+virtualMemoryManager/submission/my_pthread.c changes the run queues: the first
-- one grows at its end, and the others do not grow.
use rutgers_cs.Prelude.{
  ℕ, zero, suc, ◌+◌, ◌≤◌, ◌<◌, ◌≡◌, refl, Bool, false, List, [], ◌∷◌, ◌++◌, ◌==◌, arith, length,
  Bool-cases, inl, inr, ◌∙◌, ap, sym, ==_iff,
}
use mathlib.Core.List.{append-nil, append_assoc}
use rutgers_cs.Scheduler.Types.{Ptr, QueueAddr, run}
use rutgers_cs.Scheduler.Queues.Chain.{same_addr}
use rutgers_cs.Scheduler.Maintenance.Lists.{kept, promoted, rounds, sweep_list, sweep_lists}

module _ (old : ℕ → Ptr → Bool) where
  length-kept-le : (r : ℕ) (xs : List Ptr) → length (kept old r xs) ≤ length xs
  length-kept-le r [] = omega arith
  length-kept-le r (x ∷ []) = ground arith
  length-kept-le r (x ∷ y ∷ ys) = elim (Bool-cases (old r x)) [
    | inl e ↦ rw e (omega (arith, length-kept-le (r + 1) ys))
    | inr e ↦ rw e (omega (arith, length-kept-le (r + 1) (y ∷ ys)))
  ]

  sweep_list-first :
      (i r : ℕ) (ls : QueueAddr → List Ptr)
      → 0 < i
      → sweep_list old i r ls (run 0) ≡ ls (run 0) ++ promoted old r (ls (run i))
  unfolding same_addr
  sweep_list-first i r ls pos = let other : (0 == i) ≡ false = ground arith in rw other refl

  length-sweep_list-le :
      (i j r : ℕ) (ls : QueueAddr → List Ptr)
      → 0 < j
      → length (sweep_list old i r ls (run j)) ≤ length (ls (run j))
  unfolding same_addr
  length-sweep_list-le i j r ls pos =
      let other : (j == 0) ≡ false = ground arith in
      elim (Bool-cases (j == i)) [
        | inl e ↦
            let same : j ≡ i = (==_iff j i).0 e in rw (e, same) (length-kept-le r (ls (run i)))
        | inr e ↦ rw (e, other) (omega arith)
      ]

  -- The first run queue keeps what it had, in its order.
  pub sweep_lists-first :
      (n i r : ℕ) (ls : QueueAddr → List Ptr)
      → 0 < i
      → (zs : List Ptr) × (sweep_lists old n i r ls (run 0) ≡ ls (run 0) ++ zs)
  sweep_lists-first zero i r ls pos = ([], sym (append-nil (ls (run 0))))
  sweep_lists-first (suc n) i r ls pos =
      let (zs, e) =
        sweep_lists-first n (i + 1) (r + rounds old r (ls (run i))) (sweep_list old i r ls)
          (omega arith) in
      (
        promoted old r (ls (run i)) ++ zs,
        e
            ∙ ap (λ xs. xs ++ zs) (sweep_list-first i r ls pos)
            ∙ append_assoc (ls (run 0)) (promoted old r (ls (run i))) zs,
      )

  pub length-sweep_lists-le :
      (n i j r : ℕ) (ls : QueueAddr → List Ptr)
      → 0 < j
      → length (sweep_lists old n i r ls (run j)) ≤ length (ls (run j))
  length-sweep_lists-le zero i j r ls pos = omega arith
  length-sweep_lists-le (suc n) i j r ls pos = omega (
    arith,
    length-sweep_lists-le n (i + 1) j (r + rounds old r (ls (run i))) (sweep_list old i r ls) pos,
    length-sweep_list-le i j r ls pos,
  )
