-- ===== src/Scheduler/Api/Leave.antt =====
-- my_pthread_exit of
-- scheduler+virtualMemoryManager/submission/my_pthread.c on the lists of the run queues.
use rutgers_cs.Prelude.{ℕ, ◌+◌, ◌<◌, ◌≡◌, refl, true, false, List, arith, ◌==◌}
use rutgers_cs.Scheduler.Types.{Ptr, null, QueueAddr, Machine, exited, maintenance_threshold}
use rutgers_cs.Scheduler.Queues.{check_next_thread, check_from}
use rutgers_cs.Scheduler.Queues.Chain.{IsFree-frame, Queues-frame}
use rutgers_cs.Scheduler.Schedule.Ready.{IsReady, Swapped}
use rutgers_cs.Scheduler.Schedule.Swap.{leaving-Swapped}
use rutgers_cs.Scheduler.Api.{exit, set_exited}

-- A cycle of the scheduler without maintenance, with a thread waiting in a run queue.
pub record CanSwap (m : Machine) (ls : QueueAddr → List Ptr) : Type 0 where
  pub ready : IsReady m ls
  pub early : m.maintenance_cycle + 1 < maintenance_threshold
  pub check : check_next_thread m ≡ true

-- my_pthread_exit, in a cycle without maintenance and with a thread waiting in a run queue, leaves the
-- queues as they are, the calling thread in none, and the first thread of the first run queue in use
-- runs next.
pub exit-Swapped :
    (fuel value_ptr : ℕ) (m : Machine) (ls : QueueAddr → List Ptr)
    → CanSwap m ls
    → Swapped ls (exit fuel value_ptr m)
unfolding exit check_next_thread check_from
exit-Swapped fuel value_ptr m ls c =
    let real : (m.current_thread == null) ≡ false = ground (arith, c.ready.current.live) in
    rw real (
      leaving-Swapped fuel (set_exited m.current_thread value_ptr m) ls {s = exited} (ground arith)
        refl c.early (Queues-frame m _ ls refl refl (λ a. ground arith) c.ready.queues)
        c.ready.current.live (λ h. IsFree-frame _ (ground arith) c.ready.current) c.check refl)
