-- ===== src/Scheduler/Maintenance/Lists.antt =====
-- What maintenance of scheduler+virtualMemoryManager/submission/my_pthread.c comes to on the lists of the
-- run queues. `old r p` says that thread `p` is old at reading `r` of the clock.
use rutgers_cs.Prelude.{
  ℕ, zero, suc, ◌+◌, ◌≡◌, refl, Bool, false, ◌||◌, List, [], ◌∷◌, ◌++◌, if◌then◌else◌, arith, has,
  Bool-cases, inl, inr,
}
use rutgers_cs.Scheduler.Types.{Ptr, QueueAddr, run}
use rutgers_cs.Scheduler.Queues.Chain.{put}

module _ (old : ℕ → Ptr → Bool) where
  -- The threads that stay in the queue: behind one that goes, the next is not looked at.
  abbrev pub kept : ℕ → List Ptr → List Ptr
  kept r [] = []
  kept r (x ∷ []) = if old r x then [] else x ∷ []
  kept r (x ∷ y ∷ ys) =
      let skipped = y ∷ kept (r + 1) ys in
      let all = x ∷ kept (r + 1) (y ∷ ys) in if old r x then skipped else all

  -- The threads that go to the queue of the highest priority.
  abbrev pub promoted : ℕ → List Ptr → List Ptr
  promoted r [] = []
  promoted r (x ∷ []) = if old r x then x ∷ [] else []
  promoted r (x ∷ y ∷ ys) =
      let more = x ∷ promoted (r + 1) ys in
      let none = promoted (r + 1) (y ∷ ys) in if old r x then more else none

  -- The rounds of the loop, each with one reading of the clock.
  abbrev pub rounds : ℕ → List Ptr → ℕ
  rounds r [] = 0
  rounds r (x ∷ []) = 1
  rounds r (x ∷ y ∷ ys) =
      let fewer = suc (rounds (r + 1) ys) in
      let all = suc (rounds (r + 1) (y ∷ ys)) in if old r x then fewer else all

  abbrev pub sweep_list : ℕ → ℕ → (QueueAddr → List Ptr) → QueueAddr → List Ptr
  sweep_list i r ls =
      put (run i) (kept r (ls (run i))) (put (run 0) (ls (run 0) ++ promoted r (ls (run i))) ls)

  -- The lists after the sweeps of the `n` queues from `i` on.
  abbrev pub sweep_lists : ℕ → ℕ → ℕ → (QueueAddr → List Ptr) → QueueAddr → List Ptr
  sweep_lists zero i r ls = ls
  sweep_lists (suc n) i r ls = sweep_lists n (i + 1) (r + rounds r (ls (run i))) (sweep_list i r ls)

  -- A thread is in the queue, once, exactly where it stays or goes.
  pub has-kept-promoted :
      (r : ℕ) (p : Ptr) (xs : List Ptr) → (has p (kept r xs) || has p (promoted r xs)) ≡ has p xs
  has-kept-promoted r p [] = refl
  has-kept-promoted r p (x ∷ []) = ground arith
  has-kept-promoted r p (x ∷ y ∷ ys) = elim (Bool-cases (old r x)) [
    | inl e ↦ rw e (ground (arith, has-kept-promoted (r + 1) p ys))
    | inr e ↦ rw e (ground (arith, has-kept-promoted (r + 1) p (y ∷ ys)))
  ]

  -- A thread that is not old stays.
  pub young_lem :
      (r : ℕ) (x : Ptr) (xs : List Ptr)
      → old r x ≡ false
      → (kept r (x ∷ xs) ≡ x ∷ kept (r + 1) xs)
        × (promoted r (x ∷ xs) ≡ promoted (r + 1) xs)
        × (rounds r (x ∷ xs) ≡ suc (rounds (r + 1) xs))
  young_lem r x [] e = (rw e refl, rw e refl, refl)
  young_lem r x (y ∷ ys) e = (rw e refl, rw e refl, rw e refl)
