-- ===== src/Scheduler/System/Exited/Locks.antt =====
-- The calls of scheduler+virtualMemoryManager/submission/my_pthread.c that concern a mutex, where a thread has
-- exited before.
use rutgers_cs.Prelude.{
  ℕ, ◌≡◌, ◌≢◌, refl, Bool, true, false, List, [], ◌∷◌, ◌==◌, arith, has, Bool-cases, List-cases,
  inl, inr, ◌∙◌, ap,
}
use mathlib.Core.Path.{subst}
use rutgers_cs.Scheduler.Types.{Ptr, null, run, wait, Machine, ok, blocked}
use rutgers_cs.Scheduler.Queues.{check_next_thread}
use rutgers_cs.Scheduler.Queues.Chain.{IsFree-frame, Queues-frame, put, same_addr}
use rutgers_cs.Scheduler.Queues.Dequeue.{dequeue-Queues}
use rutgers_cs.Scheduler.Schedule.Spared.{Spared-trans, dequeue-Spared}
use rutgers_cs.Scheduler.Api.{set_state}
use rutgers_cs.Scheduler.Mutex.{
  Status, success, mutex_init, set_flag, block_on, lock_round, wake_one, unlock,
}
use rutgers_cs.Scheduler.Mutex.Waiting.{block_on-Queues, woken, wake_one_lem, dequeue_lem}
use rutgers_cs.Scheduler.System.{Enough}
use rutgers_cs.Scheduler.System.Invariant.{IsSound, ok-eq}
use rutgers_cs.Scheduler.System.Mutexes.{init-Queues, round_cases, waited, block_on-Scheduled}
use rutgers_cs.Scheduler.System.Wake.{has-rest, wake_one-nil}
use rutgers_cs.Scheduler.System.Exited.{
  IsGone, Spared-IsGone, out-IsNew, frame-IsGone, enqueue-IsGone, Scheduled-IsGone,
}

module _ (p v : Ptr) (m : Machine) (s : IsSound m) (i : IsGone p v m) where
  flag-IsGone : (x n : ℕ) → IsGone p v (set_flag x n m)
  flag-IsGone x n = frame-IsGone p v m _ refl refl refl (λ a. refl) refl refl i

  pub mutex_init-IsGone : (x : Ptr) (m' : Machine) → mutex_init x m ≡ (success, m') → IsGone p v m'
  unfolding mutex_init same_addr
  mutex_init-IsGone x m' e = elim (Bool-cases (x == null)) [
    | inl none ↦ absurd (cc (rw none at e))
    | inr some ↦
        let o = i.out s.ls s.ready.queues in
        subst (IsGone p v) (ap (λ (r : Status × Machine). r.1) (rw some at e)) (
          Spared-IsGone p v m _ (record { state = refl; value = refl; end = λ z. z })
            (out-IsNew _ (put (wait x) [] s.ls) p (init-Queues x m s.ls s.ready.queues)
              (o.0, λ k. ground (arith, o.1 k)))
            i.stopped i)
  ]

  pub takes-IsGone :
      (fuel x : ℕ) (m' : Machine) → lock_round fuel x m ≡ ok (true, m') → IsGone p v m'
  takes-IsGone fuel x m' e = elim (round_cases fuel x m (true, m') e) [
    | inl (free, same) ↦
        subst (IsGone p v) (ap (λ (r : Bool × Machine). r.1) same) (flag-IsGone x 1)
    | inr waits ↦ absurd (cc ((waited fuel x m true m' waits).0))
  ]

  block_on-IsGone : (x : Ptr) → IsGone p v (block_on x (set_flag x 1 m))
  unfolding block_on
  block_on-IsGone x =
      let g = set_state m.current_thread blocked (set_flag x 1 m) in
      enqueue-IsGone p v m.current_thread (wait x) g s.ls
        (Queues-frame m g s.ls refl refl (λ a. ground arith) s.ready.queues)
        (s.ready.current.live, s.ready.current.out) (ground (arith, s.ready.current.end)) i.stopped
        (frame-IsGone p v m g refl refl refl (λ a. ground arith) (ground (arith, i.stopped))
          (ground (arith, i.stopped)) i)

  pub blocks-IsGone :
      (fuel x : ℕ) (m' : Machine)
      → Enough fuel m
      → check_next_thread m ≡ true
      → lock_round fuel x m ≡ ok (false, m')
      → IsGone p v m'
  blocks-IsGone fuel x m' enough check e = elim (round_cases fuel x m (false, m') e) [
    | inl (free, same) ↦
        let wrong : true ≡ false = ap (λ (r : Bool × Machine). r.0) same in absurd (cc)
    | inr waits ↦
        Scheduled-IsGone p v fuel (block_on x (set_flag x 1 m)) m' _
          (block_on-Queues x (set_flag x 1 m) s.ls (record {
            queues = Queues-frame m _ s.ls refl refl (λ a. refl) s.ready.queues;
            current = IsFree-frame (set_flag x 1 m) refl s.ready.current;
          }))
          (block_on-Scheduled fuel x m s enough check) (waited fuel x m false m' waits).1
          (block_on-IsGone x)
  ]

  -- The first thread that waits, `y`, is taken off the queue of the mutex and put into its run queue.
  module _ (x y : Ptr) (ys : List Ptr) (first : s.ls (wait x) ≡ y ∷ ys) where
    other : p ≢ y
    other e = ground (arith, (i.out s.ls s.ready.queues).1 (wait x), ap (has p) first, e)

    woken-IsGone : IsGone p v (woken y x m)
    woken-IsGone =
        let (ptr, free, queues) = dequeue-Queues m s.ls (wait x) y ys s.ready.queues first in
        let d = dequeue-Spared p (wait x) m in
        let away : (p == y) ≡ false = ground (arith, other) in
        let o = i.out s.ls s.ready.queues in
        Spared-IsGone p v m (woken y x m)
          (Spared-trans p d
            (record { state = rw away refl; value = rw away refl; end = λ z. rw away z }))
          (out-IsNew _ (put (wait x) ys s.ls) p
            (Queues-frame _ _ _ refl refl (λ a. ground arith) queues)
            (o.0, λ k. has-rest x y ys m s first p k (o.1 k)))
          (λ e. i.stopped (e ∙ (dequeue_lem x y m).0)) i

    awake-IsGone : IsGone p v (wake_one x m)
    awake-IsGone =
        let (ptr, free, queues) = dequeue-Queues m s.ls (wait x) y ys s.ready.queues first in
        rw (wake_one_lem x m s.ls y ys s.ready first) (
          enqueue-IsGone p v y (run (m.threads y).priority) (woken y x m) (put (wait x) ys s.ls)
            (Queues-frame _ _ _ refl refl (λ a. ground arith) queues) (free.live, free.out)
            (ground (arith, free.end)) other woken-IsGone)

  wake_one-IsGone : (x : Ptr) → IsGone p v (wake_one x m)
  wake_one-IsGone x = elim (List-cases (s.ls (wait x))) [
    | inl e ↦ rw (wake_one-nil x m s e) i
    | inr (y, ys, e) ↦ awake-IsGone x y ys e
  ]

  pub unlock-IsGone : (x : Ptr) (m' : Machine) → unlock x m ≡ ok m' → IsGone p v m'
  unfolding unlock
  unlock-IsGone x m' e = elim (Bool-cases (x == null)) [
    | inl none ↦ absurd (cc (rw none at e))
    | inr some ↦
        subst (IsGone p v) (ok-eq (rw some at e)) (
          frame-IsGone p v (wake_one x m) _ refl refl refl (λ a. refl) refl refl
            (wake_one-IsGone x))
  ]
