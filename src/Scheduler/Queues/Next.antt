-- ===== src/Scheduler/Queues/Next.antt =====
-- getNextThread and checkNextThread of scheduler+virtualMemoryManager/submission/my_pthread.c.
use rutgers_cs.Prelude.{
  ℕ, zero, suc, ◌+◌, ◌≤◌, ◌<◌, ◌≡◌, ◌≢◌, refl, true, false, List, [], ◌∷◌, arith, ◌==◌,
}
use rutgers_cs.Scheduler.Types.{Ptr, null, QueueAddr, run, Machine, read_queue, run_queues}
use rutgers_cs.Scheduler.Queues.{dequeue, next_from, check_from}
use native.Mathlib.Decide.{ℕ_discrete}
use rutgers_cs.Scheduler.Queues.Chain.{Queues, IsQueue}
use rutgers_cs.Scheduler.Queues.Dequeue.{dequeue-nil, ptr-dequeue}

-- Queue `j` is the first from `i` on that is not empty.
pub record IsFirst (ls : QueueAddr → List Ptr) (i j : ℕ) (x : Ptr) (xs : List Ptr) : Type 0 where
  pub above : i ≤ j
  pub holds : ls (run j) ≡ x ∷ xs
  pub empty : (l : ℕ) → i ≤ l → l < j → ls (run l) ≡ []

module _ {m : Machine} {ls : QueueAddr → List Ptr} (v : Queues m ls) where
  front-nil : (i : ℕ) → ls (run i) ≡ [] → (m.run_queue i).front ≡ null
  unfolding read_queue
  front-nil i e = let q : IsQueue m.threads (m.run_queue i) [] = rw e at (v.each (run i)) in q.chain

  front-cons :
      (i : ℕ) {x : Ptr} {xs : List Ptr}
      → ls (run i) ≡ x ∷ xs
      → ((m.run_queue i).front ≡ x) × (x ≢ null)
  unfolding read_queue
  front-cons i {x} {xs} e =
      let q : IsQueue m.threads (m.run_queue i) (x ∷ xs) = rw e at (v.each (run i)) in
      (q.chain.0, q.chain.1)

  -- What the two loops come to on the `n` queues from `i` on.
  pub data Search (n i : ℕ) : Type 0 where
    found :
        (j x : ℕ) (xs : List Ptr)
        → IsFirst ls i j x xs
        → j < i + n
        → check_from n i m ≡ true
        → next_from n i m ≡ dequeue (run j) m
        → Search n i
    nothing :
        ((l : ℕ) → i ≤ l → l < i + n → ls (run l) ≡ [])
        → check_from n i m ≡ false
        → next_from n i m ≡ (null, m)
        → Search n i

  here : (n i x : ℕ) (xs : List Ptr) → ls (run i) ≡ x ∷ xs → Search (suc n) i
  unfolding check_from next_from read_queue
  here n i x xs e =
      let (front, live) = front-cons i e in
      let used : ((m.run_queue i).front == null) ≡ false = ground arith in
      let first : IsFirst ls i i x xs = record {
        above = omega arith;
        holds = e;
        empty = λ l a b. absurd (omega arith);
      } in
      found i x xs first (omega arith) (rw used) (rw (ptr-dequeue (run i) m, used))

  there : (n i : ℕ) → ls (run i) ≡ [] → Search n (i + 1) → Search (suc n) i
  unfolding check_from next_from
  there n i e (found j x xs first low check next) =
      found j x xs
        (record { above = omega (arith, first.above); holds = first.holds; empty = skip })
        (omega arith) (rw (front-nil i e) check) (rw (dequeue-nil (run i) m v e) next)
    where
      skip : (l : ℕ) → i ≤ l → l < j → ls (run l) ≡ []
      skip l a b = elim (ℕ_discrete l i) [
        | yes same ↦ rw same e
        | no other ↦ first.empty l (omega arith) b
      ]
  there n i e (nothing empty check next) =
      nothing skip (rw (front-nil i e) check) (rw (dequeue-nil (run i) m v e) next)
    where
      skip : (l : ℕ) → i ≤ l → l < i + suc n → ls (run l) ≡ []
      skip l a b = elim (ℕ_discrete l i) [
        | yes same ↦ rw same e
        | no other ↦ empty l (omega arith) (omega arith)
      ]

  find_first : (n i : ℕ) → Search n i
  unfolding check_from next_from
  find_first zero i = nothing (λ l a b. absurd (omega arith)) refl refl
  find_first (suc n) i = split (ls (run i)) refl (find_first n (i + 1))
    where
      split : (xs : List Ptr) → ls (run i) ≡ xs → Search n (i + 1) → Search (suc n) i
      split [] e r = there n i e r
      split (x ∷ xs) e r = here n i x xs e

  -- getNextThread dequeues from the first of the five run queues that is not empty, and
  -- checkNextThread is 1 exactly where there is one; where there is none, getNextThread gives NULL and
  -- changes nothing.
  pub get_next_thread_lem : Search run_queues 0
  get_next_thread_lem = find_first run_queues 0
