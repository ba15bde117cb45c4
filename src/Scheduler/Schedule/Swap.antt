-- ===== src/Scheduler/Schedule/Swap.antt =====
-- schedule of scheduler+virtualMemoryManager/submission/my_pthread.c as a step on the lists that the
-- queues stand for: where the current thread goes, and which thread runs next.
use rutgers_cs.Prelude.{
  ℕ, ◌+◌, ◌*◌, ◌%◌, ◌^◌, ◌<◌, ◌≡◌, ◌≢◌, refl, Bool, true, false, List, [], arith, ◌==◌, ◌∙◌, inl,
  inr, Bool-cases, leb, append_one-ne-nil,
}
use rutgers_cs.Scheduler.Types.{
  Ptr, null, QueueAddr, run, Machine, ThreadState, queued, yielded, exited, joining, blocked,
  running, sub64, now, time_slice, run_queues, maintenance_threshold,
}
use rutgers_cs.Scheduler.Queues.{check_next_thread, check_from}
use rutgers_cs.Scheduler.Queues.Chain.{Queues, same_addr, IsFree, IsFree-frame, Queues-frame}
use rutgers_cs.Scheduler.Queues.Next.{found, nothing, get_next_thread_lem}
use rutgers_cs.Scheduler.Schedule.{
  charge, switch, requeue, demote, schedule_current, maintenance_due, schedule,
}
use rutgers_cs.Scheduler.Schedule.Ready.{
  add, lower, requeue-Queues, demote-Queues, Swapped, dispatch-Swapped,
}

-- The time that the current thread has run once the call of schedule is counted.
abbrev pub charged_time : Ptr → Machine → ℕ
charged_time p m = ((m.threads p).time_run + sub64 (now m) (m.threads p).time_start) % 2 ^ 64

-- The slice of the thread's priority is used up.
abbrev pub is_spent : Ptr → Machine → Bool
is_spent p m = leb (((m.threads p).priority + 1) * time_slice) (charged_time p m)

-- A thread in this state gives up the processor; `spent` says that its slice is used up.
abbrev pub leaves : ThreadState → Bool → Bool
leaves queued spent = false
leaves yielded spent = true
leaves exited spent = true
leaves joining spent = true
leaves blocked spent = true
leaves running spent = spent

-- The lists after a thread of this state and this priority has given up the processor.
abbrev pub left : ThreadState → Ptr → ℕ → (QueueAddr → List Ptr) → QueueAddr → List Ptr
left queued p k ls = ls
left yielded p k ls = add p k ls
left exited p k ls = ls
left joining p k ls = add p k ls
left blocked p k ls = ls
left running p k ls = add p (lower k) ls

add-ne-nil : (p k : ℕ) (l : QueueAddr) (ls : QueueAddr → List Ptr) → ls l ≢ [] → add p k ls l ≢ []
add-ne-nil p k l ls used = elim (Bool-cases (same_addr l (run k))) [
  | inl s ↦ rw s (append_one-ne-nil (ls (run k)) p)
  | inr s ↦ rw s used
]

-- A queue in use stays in use when the current thread gives up the processor.
left-ne-nil :
    (s : ThreadState) (p k : ℕ) (l : QueueAddr) (ls : QueueAddr → List Ptr)
    → ls l ≢ []
    → left s p k ls l ≢ []
left-ne-nil queued p k l ls used = used
left-ne-nil yielded p k l ls used = add-ne-nil p k l ls used
left-ne-nil exited p k l ls used = used
left-ne-nil joining p k l ls used = add-ne-nil p k l ls used
left-ne-nil blocked p k l ls used = used
left-ne-nil running p k l ls used = add-ne-nil p (lower k) l ls used

module _ {m : Machine} {ls : QueueAddr → List Ptr} (v : Queues m ls) where
  pub check-of_used : (j : ℕ) → j < run_queues → ls (run j) ≢ [] → check_next_thread m ≡ true
  unfolding check_next_thread
  check-of_used j low used = elim (get_next_thread_lem v) [
    | found i x xs first below check next ↦ check
    | nothing empty check next ↦ absurd (used (empty j (omega arith) low))
  ]

  pub used_of_check : check_next_thread m ≡ true → (j : ℕ) × (j < run_queues) × (ls (run j) ≢ [])
  unfolding check_next_thread
  used_of_check h = elim (get_next_thread_lem v) [
    | found j x xs first low check next ↦ (j, low, λ e. cc (first.holds))
    | nothing empty check next ↦ absurd (cc)
  ]

switch-Queues :
    (s : ThreadState) (p : Ptr) (m : Machine) (ls : QueueAddr → List Ptr)
    → Queues m ls
    → (s ≢ blocked → IsFree m ls p)
    → leaves s (leb (((m.threads p).priority + 1) * time_slice) (m.threads p).time_run) ≡ true
    → Queues (switch s p m) (left s p (m.threads p).priority ls) × ((switch s p m).swap ≡ 1)
unfolding switch requeue demote
switch-Queues queued p m ls v f e = cc
switch-Queues yielded p m ls v f e = (requeue-Queues m ls p refl v (f λ h. cc), refl)
switch-Queues exited p m ls v f e = (Queues-frame m _ ls refl refl (λ a. refl) v, refl)
switch-Queues joining p m ls v f e = (requeue-Queues m ls p refl v (f λ h. cc), refl)
switch-Queues blocked p m ls v f e = (Queues-frame m _ ls refl refl (λ a. refl) v, refl)
switch-Queues running p m ls v f e = rw e (demote-Queues m ls p v (f λ h. cc), refl)

pub charge-Queues :
    (p : Ptr) (m : Machine) {ls : QueueAddr → List Ptr} → Queues m ls → Queues (charge p m) ls
unfolding charge
charge-Queues p m {ls} v = Queues-frame m _ ls refl refl (λ a. ground arith) v

pub charge_lem :
    (p : Ptr) (m : Machine)
    → (((charge p m).threads p).priority ≡ (m.threads p).priority)
      × (((charge p m).threads p).time_run ≡ charged_time p m)
      × (((charge p m).threads p).next ≡ (m.threads p).next)
unfolding charge
charge_lem p m = (ground arith, ground arith, ground arith)

-- Where a thread waits in a run queue and the current thread gives up the processor (it yields, joins,
-- has exited, is blocked, or its slice is used up), schedule puts the current thread at the end of the
-- run queue of its priority, one level down for a used-up slice and nowhere if it has exited or is
-- blocked, takes the first thread of the first run queue in use out, and lets that one run.
pub schedule_current-Swapped :
    (p : Ptr) (m : Machine) (ls : QueueAddr → List Ptr)
    → Queues m ls
    → ((m.threads p).state ≢ blocked → IsFree m ls p)
    → check_next_thread m ≡ true
    → leaves (m.threads p).state (is_spent p m) ≡ true
    → Swapped (left (m.threads p).state p (m.threads p).priority ls) (schedule_current p m)
unfolding schedule_current
schedule_current-Swapped p m ls v f check e =
    let state = (m.threads p).state in
    let (prio, time, next) = charge_lem p m in
    let (queues, swap) =
      switch-Queues state p (charge p m) ls (charge-Queues p m v) (λ h. IsFree-frame _ next (f h))
        (rw (prio, time) e) in
    let (j, low, used) = used_of_check v check in
    let queues' = rw prio at queues in
    let swaps : ((switch state p (charge p m)).swap == 0) ≡ false = ground (arith, swap) in
    rw (check, swaps)
      (dispatch-Swapped _ _ p queues'
        (check-of_used queues' j low (left-ne-nil state p _ (run j) ls used)))

-- The state that a call of schedule works on, where it does no maintenance.
abbrev pub counted : Machine → Machine
counted m = record m { in_scheduler = 1; maintenance_cycle = m.maintenance_cycle + 1; swap = 0 }

-- In a cycle without maintenance, where the queues stand for lists, a thread waits in a run queue, and the
-- current thread is in no queue, unless it is blocked, and gives up
-- the processor (it yields, joins, has exited, is blocked, or its slice is used up), schedule puts the
-- current thread at the end of the run queue of its priority, one level down for a used-up slice and
-- nowhere if it has exited or is blocked, takes the first thread of the first run queue in use out, and
-- lets that one run.
pub schedule-Swapped :
    (fuel : ℕ) (m : Machine) (ls : QueueAddr → List Ptr)
    → m.maintenance_cycle + 1 < maintenance_threshold
    → Queues m ls
    → m.current_thread ≢ null
    → ((m.threads m.current_thread).state ≢ blocked → IsFree m ls m.current_thread)
    → check_next_thread m ≡ true
    → leaves (m.threads m.current_thread).state (is_spent m.current_thread m) ≡ true
    → Swapped
        (left
          (m.threads m.current_thread).state
          m.current_thread
          (m.threads m.current_thread).priority
          ls)
        (schedule fuel m)
unfolding schedule maintenance_due check_next_thread check_from
schedule-Swapped fuel m ls early v live f check e =
    let idle : leb maintenance_threshold (m.maintenance_cycle + 1) ≡ false = ground arith in
    let real : (m.current_thread == null) ≡ false = ground (arith, live) in
    rw (idle, real)
      (schedule_current-Swapped m.current_thread (counted m) ls
        (Queues-frame m _ ls refl refl (λ a. refl) v) (λ h. IsFree-frame _ refl (f h)) check e)

-- The same for a thread whose state and priority are known.
pub leaving-Swapped :
    (fuel : ℕ) (m : Machine) (ls : QueueAddr → List Ptr) {s : ThreadState} {k : ℕ}
    → (m.threads m.current_thread).state ≡ s
    → (m.threads m.current_thread).priority ≡ k
    → m.maintenance_cycle + 1 < maintenance_threshold
    → Queues m ls
    → m.current_thread ≢ null
    → (s ≢ blocked → IsFree m ls m.current_thread)
    → check_next_thread m ≡ true
    → leaves s (is_spent m.current_thread m) ≡ true
    → Swapped (left s m.current_thread k ls) (schedule fuel m)
leaving-Swapped fuel m ls {s} {k} is prio early v live f check e =
    rw (← is, ← prio)
      (schedule-Swapped fuel m ls early v live (λ h. f (λ b. h (is ∙ b))) check (rw is e))
