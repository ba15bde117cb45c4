-- ===== src/Scheduler/Schedule/Aside.antt =====
-- Threads that wait in no queue while schedule of scheduler+virtualMemoryManager/submission/my_pthread.c runs, such as
-- those that are blocked or have exited.
use rutgers_cs.Prelude.{◌≡◌, ◌≢◌, false, List, ◌∷◌, arith, ◌∙◌, sym, ap, Bool-cases, inl, inr, has}
use rutgers_cs.Scheduler.Types.{
  Ptr, run, QueueAddr, Machine, ok, ThreadState, queued, yielded, exited, joining, blocked, running,
}
use rutgers_cs.Scheduler.Queues.Chain.{IsFree, same_addr, Queues}
use rutgers_cs.Scheduler.Queues.Enqueue.{has-put-append_one}
use rutgers_cs.Scheduler.Schedule.Swap.{left}
use rutgers_cs.Scheduler.Schedule.Ready.{Taken, lower}
use rutgers_cs.Scheduler.Schedule.{schedule_current}
use rutgers_cs.Scheduler.Schedule.Spared.{schedule_current-Spared}

-- The current thread's leaving puts no other thread into a queue.
pub left-out :
    (s : ThreadState) (p k a : Ptr) (ls : QueueAddr → List Ptr)
    → a ≢ p
    → ((l : QueueAddr) → has a (ls l) ≡ false)
    → (l : QueueAddr) → has a (left s p k ls l) ≡ false
left-out queued p k a ls other out l = out l
left-out yielded p k a ls other out l =
    ground (arith, has-put-append_one ls p (run k) l a, out l, other)
left-out exited p k a ls other out l = out l
left-out joining p k a ls other out l =
    ground (arith, has-put-append_one ls p (run k) l a, out l, other)
left-out blocked p k a ls other out l = out l
left-out running p k a ls other out l =
    ground (arith, has-put-append_one ls p (run (lower k)) l a, out l, other)

-- The thread that is taken out was in a queue, and the others stay where they are.
pub Taken-out :
    (x a : Ptr) (ls ls' : QueueAddr → List Ptr)
    → Taken ls x ls'
    → ((l : QueueAddr) → has a (ls l) ≡ false)
    → (a ≢ x) × ((l : QueueAddr) → has a (ls' l) ≡ false)
unfolding same_addr
Taken-out x a ls ls' t out =
    let front : has a (x ∷ t.xs) ≡ false = ap (has a) (sym t.first.holds) ∙ out (run t.j) in
    (
      λ e. ground (arith, front, e),
      λ l. rw t.lists (elim (Bool-cases (same_addr l (run t.j))) [
        | inl same ↦ rw same (ground (arith, front))
        | inr apart ↦ rw apart (out l)
      ]),
    )

-- The thread `a` stays in no queue, does not run, and keeps its state and its value.
pub record Aside (m m' : Machine) (ls' : QueueAddr → List Ptr) (a : Ptr) : Type 0 where
  pub free : IsFree m' ls' a
  pub waits : a ≢ m'.current_thread
  pub state : (m'.threads a).state ≡ (m.threads a).state
  pub value : (m'.threads a).retval ≡ (m.threads a).retval

-- schedule, where the lists afterwards do not have the thread.
pub schedule_current-Aside :
    (p a : Ptr) (m m' : Machine) (ls ls' : QueueAddr → List Ptr)
    → Queues m ls
    → schedule_current p m ≡ ok m'
    → a ≢ p
    → IsFree m ls a
    → (a ≢ m'.current_thread) × ((l : QueueAddr) → has a (ls' l) ≡ false)
    → Aside m m' ls' a
schedule_current-Aside p a m m' ls ls' v ran other f (later, out) =
    let s = schedule_current-Spared a p m m' ls v (f.live, f.out) other later ran in
    record {
      free = record { live = f.live; out = out; end = s.end f.end };
      waits = later;
      state = s.state;
      value = s.value;
    }
