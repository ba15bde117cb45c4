-- ===== src/Scheduler/Schedule/Spared.antt =====
-- What schedule of scheduler+virtualMemoryManager/submission/my_pthread.c leaves alone of a thread that is in no
-- queue and does not run.
use rutgers_cs.Prelude.{
  ℕ, zero, suc, ◌+◌, ◌*◌, leb, ◌≡◌, ◌≢◌, refl, false, List, ◌==◌, arith, ◌∙◌, sym, ap, Bool-cases,
  inl, inr,
}
use mathlib.Core.Path.{subst}
use rutgers_cs.Scheduler.Types.{
  Ptr, null, run, QueueAddr, wait, Machine, ok, ThreadState, queued, yielded, exited, joining,
  blocked, running, run_queues, time_slice, read_queue, write_thread, emit, free_stack,
}
use rutgers_cs.Scheduler.Queues.{enqueue, dequeue, next_from, get_next_thread, check_next_thread}
use rutgers_cs.Scheduler.Queues.Chain.{Queues, Queues-frame}
use rutgers_cs.Scheduler.Queues.Enqueue.{threads-enqueue}
use rutgers_cs.Scheduler.Maintenance.Promote.{ne-rear}
use rutgers_cs.Scheduler.Maintenance.Moved.{IsOut}
use rutgers_cs.Scheduler.Schedule.Swap.{charge-Queues, left}
use rutgers_cs.Scheduler.Schedule.{
  charge, start_slice, requeue, demote, switch, resumed, resume, dispatch, stay, schedule_current,
}

-- Nobody stands behind a thread that is in no queue, and no queue ends with it.
pub next-enqueue :
    (t a : Ptr) (k : QueueAddr) (m : Machine) (ls : QueueAddr → List Ptr)
    → Queues m ls
    → IsOut ls a
    → ((enqueue t k m).threads a).next ≡ (m.threads a).next
next-enqueue t a k m ls v o =
    let rear = ne-rear m.threads (read_queue k m) a (ls k) (v.each k) (o.1 k) o.0 in
    rw (threads-enqueue t k m) (ground (arith, rear))

pub state-enqueue :
    (t a : Ptr) (k : QueueAddr) (m : Machine)
    → ((enqueue t k m).threads a).state ≡ (m.threads a).state
state-enqueue t a k m = rw (threads-enqueue t k m) (ground arith)

-- The state and the value of the thread `a` are the same, and it is still linked to none.
pub record Spared (a : Ptr) (m g : Machine) : Type 0 where
  pub state : (g.threads a).state ≡ (m.threads a).state
  pub value : (g.threads a).retval ≡ (m.threads a).retval
  pub end : (m.threads a).next ≡ null → (g.threads a).next ≡ null

module _ (a : Ptr) where
  pub Spared-trans : {m g k : Machine} → Spared a m g → Spared a g k → Spared a m k
  Spared-trans s t = record {
    state = t.state ∙ s.state;
    value = t.value ∙ s.value;
    end = λ e. t.end (s.end e);
  }

  pub charge-Spared : (p : Ptr) (m : Machine) → Spared a m (charge p m)
  unfolding charge
  charge-Spared p m = record {
    state = ground arith;
    value = ground arith;
    end = λ e. ground (arith, e);
  }

  start_slice-Spared : (p : Ptr) (m : Machine) → Spared a m (start_slice p m)
  unfolding start_slice
  start_slice-Spared p m = record {
    state = ground arith;
    value = ground arith;
    end = λ e. ground (arith, e);
  }

  stay-Spared : (s : ThreadState) (p : Ptr) (m : Machine) → Spared a m (stay s p m)
  unfolding stay
  stay-Spared exited p m = record { state = refl; value = refl; end = λ e. e }
  stay-Spared queued p m = start_slice-Spared p m
  stay-Spared yielded p m = start_slice-Spared p m
  stay-Spared joining p m = start_slice-Spared p m
  stay-Spared blocked p m = start_slice-Spared p m
  stay-Spared running p m = start_slice-Spared p m

  pub enqueue-Spared :
      (t : Ptr) (k : QueueAddr) (m : Machine) (ls : QueueAddr → List Ptr)
      → Queues m ls
      → IsOut ls a
      → Spared a m (enqueue t k m)
  enqueue-Spared t k m ls v o = record {
    state = state-enqueue t a k m;
    value = rw (threads-enqueue t k m) (ground arith);
    end = λ e. next-enqueue t a k m ls v o ∙ e;
  }

  pub dequeue-Spared : (k : QueueAddr) (m : Machine) → Spared a m (dequeue k m).1
  unfolding dequeue
  dequeue-Spared (run i) m = record {
    state = ground arith;
    value = ground arith;
    end = λ e. ground (arith, e);
  }
  dequeue-Spared (wait x) m = record {
    state = ground arith;
    value = ground arith;
    end = λ e. ground (arith, e);
  }

  next_from-Spared : (n i : ℕ) (m : Machine) → Spared a m (next_from n i m).1
  unfolding next_from
  next_from-Spared zero i m = record { state = refl; value = refl; end = λ e. e }
  next_from-Spared (suc n) i m = elim (Bool-cases ((dequeue (run i) m).0 == null)) [
    | inl e ↦ rw e (Spared-trans (dequeue-Spared (run i) m) (next_from-Spared n (i + 1) _))
    | inr e ↦ rw e (dequeue-Spared (run i) m)
  ]

  module _ (p : Ptr) (ls : QueueAddr → List Ptr) (o : IsOut ls a) (other : a ≢ p) where
    requeue-Spared : (m : Machine) → Queues m ls → Spared a m (requeue p m)
    unfolding requeue
    requeue-Spared m v =
        let away : (a == p) ≡ false = ground (arith, other) in
        let g = write_thread p (record (m.threads p) { state = queued; time_run = 0 }) m in
        let e =
          enqueue-Spared p (run (m.threads p).priority) g ls
            (Queues-frame m g ls refl refl (λ b. ground arith) v) o in
        let s : Spared a m g = record {
          state = rw away refl;
          value = rw away refl;
          end = λ z. rw away z;
        } in
        Spared-trans s (record { state = e.state; value = e.value; end = e.end })

    demote-Spared : (m : Machine) → Queues m ls → Spared a m (demote p m)
    unfolding demote
    demote-Spared m v =
        let away : (a == p) ≡ false = ground (arith, other) in
        Spared-trans (record { state = rw away refl; value = rw away refl; end = λ z. rw away z })
          (requeue-Spared _ (Queues-frame m _ ls refl refl (λ b. ground arith) v))

    switch-Spared : (s : ThreadState) (m : Machine) → Queues m ls → Spared a m (switch s p m)
    unfolding switch
    switch-Spared queued m v = record { state = refl; value = refl; end = λ e. e }
    switch-Spared yielded m v = requeue-Spared m v
    switch-Spared exited m v = record { state = refl; value = refl; end = λ e. e }
    switch-Spared joining m v = requeue-Spared m v
    switch-Spared blocked m v = record { state = refl; value = refl; end = λ e. e }
    switch-Spared running m v =
        elim (Bool-cases (leb (((m.threads p).priority + 1) * time_slice) (m.threads p).time_run)) [
          | inl spent ↦ rw spent (demote-Spared m v)
          | inr left ↦ rw left (record { state = refl; value = refl; end = λ e. e })
        ]

  resumed-Spared : (p x : Ptr) (m : Machine) → a ≢ x → Spared a m (resumed p x m)
  unfolding resumed start_slice
  resumed-Spared p x m other =
      let away : (a == x) ≡ false = ground (arith, other) in
      record { state = rw away refl; value = rw away refl; end = λ z. rw away z }

  Spared-ok : {m g m' : Machine} → Spared a m g → ok g ≡ ok m' → Spared a m m'
  Spared-ok {m} s e = subst (Spared a m) (cc e) s

  resumed-current : (p x : Ptr) (m : Machine) → (resumed p x m).current_thread ≡ x
  unfolding resumed start_slice
  resumed-current p x m = refl

  pub dispatch-Spared :
      (p : Ptr) (m m' : Machine) → dispatch p m ≡ ok m' → a ≢ m'.current_thread → Spared a m m'
  unfolding dispatch resume get_next_thread
  dispatch-Spared p m m' e other =
      let n = next_from-Spared run_queues 0 m in
      let x = (next_from run_queues 0 m).0 in
      let g = (next_from run_queues 0 m).1 in
      elim (Bool-cases (x == null)) [
        | inl none ↦ absurd (cc (rw none at e))
        | inr some ↦
            let e' : ok (resumed p x g) ≡ ok m' = rw some at e in
            let current : m'.current_thread ≡ x =
              let same : resumed p x g ≡ m' = cc in
              ap (λ (k : Machine). k.current_thread) (sym same) ∙ resumed-current p x g in
            Spared-ok (Spared-trans n (resumed-Spared p x g (λ h. other (h ∙ sym current)))) e'
      ]

  -- schedule for the current thread `p`, where `a` is another thread that is in no queue and does not run afterwards.
  pub schedule_current-Spared :
      (p : Ptr) (m m' : Machine) (ls : QueueAddr → List Ptr)
      → Queues m ls
      → IsOut ls a
      → a ≢ p
      → a ≢ m'.current_thread
      → schedule_current p m ≡ ok m'
      → Spared a m m'
  unfolding schedule_current
  schedule_current-Spared p m m' ls v o other later e = elim (Bool-cases (check_next_thread m)) [
    | inr alone ↦
        Spared-ok (Spared-trans (charge-Spared p m) (stay-Spared (m.threads p).state p _))
          (rw alone at e)
    | inl check ↦
        let s =
          Spared-trans (charge-Spared p m)
            (switch-Spared p ls o other (m.threads p).state _ (charge-Queues p m v)) in
        elim (Bool-cases ((switch (m.threads p).state p (charge p m)).swap == 0)) [
          | inl goes ↦ Spared-ok (Spared-trans s (start_slice-Spared p _)) (rw (check, goes) at e)
          | inr swaps ↦ Spared-trans s (dispatch-Spared p _ m' (rw (check, swaps) at e) later)
        ]
  ]

-- A thread that has exited, and that another one follows.
pub exited-Spared :
    (p : Ptr) (m m' : Machine)
    → (m.threads p).state ≡ exited
    → p ≢ m'.current_thread
    → schedule_current p m ≡ ok m'
    → Spared p m m'
unfolding schedule_current switch
exited-Spared p m m' gone later e = elim (Bool-cases (check_next_thread m)) [
  | inr alone ↦
      Spared-ok p (Spared-trans p (charge-Spared p p m) (stay-Spared p (m.threads p).state p _))
        (rw alone at e)
  | inl check ↦
      let left = record (emit (free_stack ((charge p m).threads p).stack) (charge p m)) {
        swap = 1;
      } in
      let e' : dispatch p left ≡ ok m' = rw (check, gone) at e in
      Spared-trans p (charge-Spared p p m) (
        Spared-trans p {g = left} (record { state = refl; value = refl; end = λ z. z })
          (dispatch-Spared p p left m' e' later))
]
