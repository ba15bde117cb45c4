-- ===== src/Scheduler/System/Invariant.antt =====
-- The queues of scheduler+virtualMemoryManager/submission/my_pthread.c in every state that is reached.
use rutgers_cs.Prelude.{ℕ, ◌≡◌, ◌≢◌, Bool, false, List, [], ◌∷◌, ◌++◌, ◌==◌, arith, ◌∙◌, sym, ap}
use mathlib.Core.Path.{subst}
use rutgers_cs.Scheduler.Types.{Ptr, null, QueueAddr, run, wait, Machine, ok, blocked}
use rutgers_cs.Scheduler.Queues.{enqueue}
use rutgers_cs.Scheduler.Queues.Chain.{put, Queues-frame, IsFree, IsFree-frame}
use rutgers_cs.Scheduler.Queues.Enqueue.{enqueue-Queues, has-put-append_one}
use rutgers_cs.Scheduler.Maintenance.Moved.{IsOut}
use rutgers_cs.Scheduler.Schedule.{schedule}
use rutgers_cs.Scheduler.Schedule.Ready.{IsReady}
use rutgers_cs.Scheduler.Schedule.Spared.{next-enqueue, state-enqueue}
use rutgers_cs.Scheduler.Schedule.Flags.{Steady}
use rutgers_cs.Scheduler.Schedule.Total.{Scheduled, schedule-IsReady}
use rutgers_cs.Scheduler.System.{Enough}

-- The queues stand for lists, and the current thread is in none of them and not blocked.
pub record IsSound (m : Machine) : Type 0 where
  pub ls : QueueAddr → List Ptr
  pub ready : IsReady m ls
  pub alive : (m.threads m.current_thread).state ≢ blocked

-- What a call comes to: the state is sound, and no flag has changed.
pub record Kept (m m' : Machine) : Type 0 where
  pub sound : IsSound m'
  pub steady : Steady m m'

pub ok-eq : {m g : Machine} → ok m ≡ ok g → m ≡ g
ok-eq e = cc

-- The same of a state with results.
pub ok-state : (r r' : Bool × Ptr × Machine) → ok r ≡ ok r' → r.2 ≡ r'.2
ok-state r r' e = let same : r ≡ r' = cc in ap (λ (t : Bool × Ptr × Machine). t.2) same

pub Scheduled-Kept :
    (fuel : ℕ) (m m' : Machine) {ls : QueueAddr → List Ptr}
    → Scheduled fuel m ls
    → schedule fuel m ≡ ok m'
    → Kept m m'
Scheduled-Kept fuel m m' s e =
    subst (Kept m) (ok-eq (sym s.ran ∙ e)) (record {
      sound = record { ls = s.ls'; ready = s.ready; alive = s.alive };
      steady = s.steady;
    })

-- schedule called by a thread that is not blocked.
pub schedule-Kept_sound :
    (fuel : ℕ) (m m' : Machine) → IsSound m → Enough fuel m → schedule fuel m ≡ ok m' → Kept m m'
schedule-Kept_sound fuel m m' s enough e =
    Scheduled-Kept fuel m m'
      (schedule-IsReady fuel m s.ls s.ready.queues (enough s.ls s.ready.queues) s.ready.current.live
        (λ h. s.ready.current) (λ h. absurd (s.alive h)))
      e

-- A change of the threads that leaves their links alone.
module _ (m g : Machine) (runs : g.run_queue ≡ m.run_queue) (waits : g.wait_queue ≡ m.wait_queue)
    (cur : g.current_thread ≡ m.current_thread)
    (next : (a : Ptr) → (g.threads a).next ≡ (m.threads a).next) where
  pub IsSound-frame : (g.threads m.current_thread).state ≢ blocked → IsSound m → IsSound g
  IsSound-frame alive s = record {
    ls = s.ls;
    ready = record {
      queues = Queues-frame m g s.ls runs waits next s.ready.queues;
      current =
          subst (IsFree g s.ls) (sym cur) (IsFree-frame g (next m.current_thread) s.ready.current);
    };
    alive = rw cur alive;
  }

  pub Enough-frame : (fuel : ℕ) → Enough fuel m → Enough fuel g
  Enough-frame fuel enough ls v =
      enough ls (Queues-frame g m ls (sym runs) (sym waits) (λ a. sym (next a)) v)

pub real : (p : Ptr) → p ≢ null → (p == null) ≡ false
real p h = ground arith

pub current-enqueue :
    (t : Ptr) (k : QueueAddr) (m : Machine) → (enqueue t k m).current_thread ≡ m.current_thread
unfolding enqueue
current-enqueue t (run i) m = ground arith
current-enqueue t (wait p) m = ground arith

-- A thread of no queue, other than the current one, is put into a queue.
pub enqueue-IsSound :
    (t : Ptr) (k : QueueAddr) (m : Machine)
    → (s : IsSound m) → IsOut s.ls t
    → (m.threads t).next ≡ null
    → t ≢ m.current_thread
    → IsSound (enqueue t k m)
enqueue-IsSound t k m s o end other = record {
  ls = put k (s.ls k ++ t ∷ []) s.ls;
  ready = record {
    queues = enqueue-Queues m s.ls t k s.ready.queues o.0 o.1 end;
    current = subst (IsFree _ _) (sym (current-enqueue t k m)) (record {
      live = s.ready.current.live;
      out = λ l.
          ground
            (arith, has-put-append_one s.ls t k l m.current_thread, s.ready.current.out l, other);
      end =
          next-enqueue t m.current_thread k m s.ls s.ready.queues
            (s.ready.current.live, s.ready.current.out)
          ∙ s.ready.current.end;
    });
  };
  alive = rw (current-enqueue t k m, state-enqueue t m.current_thread k m) s.alive;
}
