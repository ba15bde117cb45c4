-- ===== src/Scheduler/Schedule/Stay.antt =====
-- schedule of scheduler+virtualMemoryManager/submission/my_pthread.c where the current thread goes on.
use rutgers_cs.Prelude.{
  ℕ, ◌+◌, ◌*◌, ◌<◌, ◌≡◌, ◌≢◌, refl, false, List, arith, ◌==◌, inl, inr, ◌⊎◌, Bool-cases, leb,
}
use rutgers_cs.Scheduler.Types.{
  Ptr, null, QueueAddr, Machine, ok, ThreadState, queued, yielded, exited, joining, blocked,
  running, maintenance_threshold, time_slice,
}
use rutgers_cs.Scheduler.Queues.{check_next_thread, check_from}
use rutgers_cs.Scheduler.Queues.Chain.{Queues, Queues-frame}
use rutgers_cs.Scheduler.Schedule.{
  charge, start_slice, switch, stay, schedule_current, maintenance_due, schedule,
}
use rutgers_cs.Scheduler.Schedule.Swap.{is_spent, leaves, charge_lem, counted}

-- The current thread goes on in the state `m'`: the queues and every thread's link, state and priority are as
-- before, and a signal is served again.
pub record Kept (m : Machine) (ls : QueueAddr → List Ptr) (m' : Machine) : Type 0 where
  pub queues : Queues m' ls
  pub current : m'.current_thread ≡ m.current_thread
  pub states : (a : Ptr) → (m'.threads a).state ≡ (m.threads a).state
  pub links : (a : Ptr) → (m'.threads a).next ≡ (m.threads a).next
  pub priorities : (a : Ptr) → (m'.threads a).priority ≡ (m.threads a).priority
  pub open_again : m'.in_scheduler ≡ 0

start_slice-Kept :
    (p : Ptr) (m : Machine) (ls : QueueAddr → List Ptr)
    → Queues m ls
    → Kept m ls (start_slice p (charge p m))
unfolding start_slice charge
start_slice-Kept p m ls v = record {
  queues = Queues-frame m _ ls refl refl (λ a. ground arith) v;
  current = refl;
  states = λ a. ground arith;
  links = λ a. ground arith;
  priorities = λ a. ground arith;
  open_again = refl;
}

stay-Kept :
    (s : ThreadState) (p : Ptr) (m : Machine) (ls : QueueAddr → List Ptr)
    → Queues m ls
    → Kept m ls (stay s p (charge p m))
unfolding stay charge
stay-Kept exited p m ls v = record {
  queues = Queues-frame m _ ls refl refl (λ a. ground arith) v;
  current = refl;
  states = λ a. ground arith;
  links = λ a. ground arith;
  priorities = λ a. ground arith;
  open_again = refl;
}
stay-Kept queued p m ls v = start_slice-Kept p m ls v
stay-Kept yielded p m ls v = start_slice-Kept p m ls v
stay-Kept joining p m ls v = start_slice-Kept p m ls v
stay-Kept blocked p m ls v = start_slice-Kept p m ls v
stay-Kept running p m ls v = start_slice-Kept p m ls v

-- The switch does nothing to a thread that does not give up the processor.
switch-keeps :
    (s : ThreadState) (p : Ptr) (m : Machine)
    → leaves s (leb (((m.threads p).priority + 1) * time_slice) (m.threads p).time_run) ≡ false
    → switch s p m ≡ m
unfolding switch
switch-keeps queued p m e = refl
switch-keeps yielded p m e = absurd (cc)
switch-keeps exited p m e = absurd (cc)
switch-keeps joining p m e = absurd (cc)
switch-keeps blocked p m e = absurd (cc)
switch-keeps running p m e = rw e refl

swap-charge : (p : Ptr) (m : Machine) → (charge p m).swap ≡ m.swap
unfolding charge
swap-charge p m = refl

pub schedule_current-Kept :
    (p : Ptr) (m : Machine) (ls : QueueAddr → List Ptr)
    → Queues m ls
    → m.swap ≡ 0
    → (check_next_thread m ≡ false) ⊎ (leaves (m.threads p).state (is_spent p m) ≡ false)
    → (m' : Machine) × (schedule_current p m ≡ ok m') × Kept m ls m'
unfolding schedule_current
schedule_current-Kept p m ls v none (inl alone) =
    (stay (m.threads p).state p (charge p m), rw alone refl, stay-Kept (m.threads p).state p m ls v)
schedule_current-Kept p m ls v none (inr goes) =
    let (prio, time, next) = charge_lem p m in
    let same = switch-keeps (m.threads p).state p (charge p m) (rw (prio, time) goes) in
    elim (Bool-cases (check_next_thread m)) [
      | inl check ↦ (
        start_slice p (charge p m),
        rw (check, same, swap-charge p m, none) refl,
        start_slice-Kept p m ls v,
      )
      | inr alone ↦ (
        stay (m.threads p).state p (charge p m),
        rw alone refl,
        stay-Kept (m.threads p).state p m ls v,
      )
    ]

-- In a cycle without maintenance, where no thread waits in a run queue, or the current thread does not give
-- up the processor (its slice is not used up, or it is marked as queued), schedule lets the current thread go
-- on: the lists of the queues and the state and the priority of every thread stay as they are.
pub schedule-Kept :
    (fuel : ℕ) (m : Machine) (ls : QueueAddr → List Ptr)
    → m.maintenance_cycle + 1 < maintenance_threshold
    → Queues m ls
    → m.current_thread ≢ null
    → (check_next_thread m ≡ false)
      ⊎ (leaves (m.threads m.current_thread).state (is_spent m.current_thread m) ≡ false)
    → (m' : Machine) × (schedule fuel m ≡ ok m') × Kept m ls m'
unfolding schedule maintenance_due check_next_thread check_from
schedule-Kept fuel m ls early v live why =
    let idle : leb maintenance_threshold (m.maintenance_cycle + 1) ≡ false = ground arith in
    let real : (m.current_thread == null) ≡ false = ground (arith, live) in
    let (m', ran, kept) =
      schedule_current-Kept m.current_thread (counted m) ls
        (Queues-frame m _ ls refl refl (λ a. refl) v) refl why in
    (
      m',
      rw (idle, real) ran,
      record {
        queues = kept.queues;
        current = kept.current;
        states = kept.states;
        links = kept.links;
        priorities = kept.priorities;
        open_again = kept.open_again;
      },
    )
