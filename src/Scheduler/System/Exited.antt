-- ===== src/Scheduler/System/Exited.antt =====
-- A thread that has called my_pthread_exit of scheduler+virtualMemoryManager/submission/my_pthread.c, in the
-- states that follow.
pub mod Calls
pub mod Locks
pub mod Join
use rutgers_cs.Prelude.{
  ℕ, ◌<◌, length, ◌≡◌, ◌≢◌, refl, Bool, true, false, List, [], ◌∷◌, ◌==◌, arith, has, Bool-cases,
  inl, inr, ◌∙◌, sym, ap,
}
use mathlib.Core.Path.{subst}
use rutgers_cs.Scheduler.Types.{Ptr, null, QueueAddr, run, Machine, ok, exited, read_queue}
use rutgers_cs.Scheduler.Queues.{enqueue}
use rutgers_cs.Scheduler.Queues.Chain.{Threads, Chain, Queues, Queues-frame, IsFree}
use rutgers_cs.Scheduler.Queues.Enqueue.{enqueue-Queues, has-put-append_one}
use rutgers_cs.Scheduler.Maintenance.Whole.{IsEnough}
use rutgers_cs.Scheduler.Maintenance.Moved.{IsOut}
use rutgers_cs.Scheduler.Schedule.{schedule}
use rutgers_cs.Scheduler.Schedule.Spared.{Spared, enqueue-Spared}
use rutgers_cs.Scheduler.Schedule.Total.{Scheduled, schedule-IsReady}
use rutgers_cs.Scheduler.System.{Enough, IsNew}
use rutgers_cs.Scheduler.System.Invariant.{IsSound, ok-eq, current-enqueue}

-- A queue stands for one list only.
Chain-unique : (h : Threads) (p : Ptr) (xs ys : List Ptr) → Chain h p xs → Chain h p ys → xs ≡ ys
Chain-unique h p [] [] c d = refl
Chain-unique h p [] (y ∷ ys) c d = absurd (d.1 (sym d.0 ∙ c))
Chain-unique h p (x ∷ xs) [] c d = absurd (c.1 (sym c.0 ∙ d))
Chain-unique h p (x ∷ xs) (y ∷ ys) c d =
    let same : x ≡ y = sym c.0 ∙ d.0 in
    let rest = Chain-unique h _ xs ys c.2 (rw (← same) at d.2) in rw (same, rest) refl

Queues-unique :
    (m : Machine) (ls ls' : QueueAddr → List Ptr)
    → Queues m ls
    → Queues m ls'
    → (k : QueueAddr) → ls' k ≡ ls k
Queues-unique m ls ls' v w k =
    Chain-unique m.threads _ (ls' k) (ls k) (w.each k).chain (v.each k).chain

pub out-IsNew :
    (m : Machine) (ls : QueueAddr → List Ptr) (p : Ptr) → Queues m ls → IsOut ls p → IsNew m p
out-IsNew m ls p v o ls' w = (o.0, λ k. ap (has p) (Queues-unique m ls ls' v w k) ∙ o.1 k)

-- Fuel that is enough for the lists is enough.
pub IsEnough-Enough :
    (fuel : ℕ) (m : Machine) (ls : QueueAddr → List Ptr)
    → Queues m ls
    → IsEnough fuel ls
    → Enough fuel m
IsEnough-Enough fuel m ls v enough ls' w j =
    subst (λ xs. 0 < j → length xs < fuel) (sym (Queues-unique m ls ls' v w (run j))) (enough j)

-- The thread `p` has exited with the value `v`, runs no more and is in no queue.
pub record IsGone (p v : Ptr) (m : Machine) : Type 0 where
  pub out : IsNew m p
  pub end : (m.threads p).next ≡ null
  pub stopped : p ≢ m.current_thread
  pub state : (m.threads p).state ≡ exited
  pub value : (m.threads p).retval ≡ v

module _ (p v : Ptr) where
  -- The part that changes tells where the thread is afterwards.
  pub Spared-IsGone :
      (m g : Machine)
      → Spared p m g
      → IsNew g p
      → p ≢ g.current_thread
      → IsGone p v m
      → IsGone p v g
  Spared-IsGone m g s out stopped i = record {
    out = out;
    end = s.end i.end;
    stopped = stopped;
    state = s.state ∙ i.state;
    value = s.value ∙ i.value;
  }

  -- A change of other threads that leaves the links alone.
  pub frame-IsGone :
      (m g : Machine)
      → g.run_queue ≡ m.run_queue
      → g.wait_queue ≡ m.wait_queue
      → g.current_thread ≡ m.current_thread
      → ((a : Ptr) → (g.threads a).next ≡ (m.threads a).next)
      → (g.threads p).state ≡ (m.threads p).state
      → (g.threads p).retval ≡ (m.threads p).retval
      → IsGone p v m
      → IsGone p v g
  frame-IsGone m g runs waits cur next state value i =
      Spared-IsGone m g (record { state = state; value = value; end = λ e. next p ∙ e })
        (λ ls w. i.out ls (Queues-frame g m ls (sym runs) (sym waits) (λ a. sym (next a)) w))
        (λ e. i.stopped (e ∙ cur)) i

  pub enqueue-IsGone :
      (t : Ptr) (k : QueueAddr) (m : Machine) (ls : QueueAddr → List Ptr)
      → Queues m ls
      → IsOut ls t
      → (m.threads t).next ≡ null
      → p ≢ t
      → IsGone p v m
      → IsGone p v (enqueue t k m)
  enqueue-IsGone t k m ls w o end other i =
      Spared-IsGone m (enqueue t k m) (enqueue-Spared p t k m ls w (i.out ls w))
        (out-IsNew _ _ p (enqueue-Queues m ls t k w o.0 o.1 end) (
          (i.out ls w).0,
          λ l. ground (arith, has-put-append_one ls t k l p, (i.out ls w).1 l, other),
        ))
        (λ e. i.stopped (e ∙ current-enqueue t k m)) i

  pub Scheduled-IsGone :
      (fuel : ℕ) (m m' : Machine) (ls : QueueAddr → List Ptr)
      → Queues m ls
      → Scheduled fuel m ls
      → schedule fuel m ≡ ok m'
      → IsGone p v m
      → IsGone p v m'
  Scheduled-IsGone fuel m m' ls w s e i =
      let o = i.out ls w in
      let a = s.others p i.stopped (record { live = o.0; out = o.1; end = i.end }) in
      subst (IsGone p v) (ok-eq (sym s.ran ∙ e)) (record {
        out = out-IsNew s.m' s.ls' p s.ready.queues (a.free.live, a.free.out);
        end = a.free.end;
        stopped = a.waits;
        state = a.state ∙ i.state;
        value = a.value ∙ i.value;
      })

  pub schedule-IsGone :
      (fuel : ℕ) (m m' : Machine)
      → IsSound m
      → Enough fuel m
      → schedule fuel m ≡ ok m'
      → IsGone p v m
      → IsGone p v m'
  schedule-IsGone fuel m m' s enough e i =
      Scheduled-IsGone fuel m m' s.ls s.ready.queues
        (schedule-IsReady fuel m s.ls s.ready.queues (enough s.ls s.ready.queues)
          s.ready.current.live (λ h. s.ready.current) (λ h. absurd (s.alive h)))
        e i
