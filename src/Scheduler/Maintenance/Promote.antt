-- ===== src/Scheduler/Maintenance/Promote.antt =====
-- One thread is put into the first run queue by maintenance of
-- scheduler+virtualMemoryManager/submission/my_pthread.c.
use rutgers_cs.Prelude.{◌≡◌, ◌≢◌, refl, false, List, [], ◌∷◌, ◌++◌, ◌==◌, arith, has, has-last}
use rutgers_cs.Scheduler.Types.{Ptr, null, Queue, QueueAddr, run, Machine, read_queue}
use rutgers_cs.Scheduler.Alike.{Alike}
use rutgers_cs.Scheduler.Queues.{enqueue}
use rutgers_cs.Scheduler.Queues.Chain.{Threads, IsQueue, put, Queues, Queues-frame_in}
use rutgers_cs.Scheduler.Queues.Enqueue.{enqueue-Queues}
use rutgers_cs.Scheduler.Maintenance.{promote}

pub promote-Queues :
    (x : Ptr) (m : Machine) (ls : QueueAddr → List Ptr)
    → Queues m ls
    → x ≢ null
    → ((k : QueueAddr) → has x (ls k) ≡ false)
    → Queues (promote x m) (put (run 0) (ls (run 0) ++ x ∷ []) ls)
unfolding promote
promote-Queues x m ls v live out =
    enqueue-Queues _ ls x (run 0)
      (Queues-frame_in m _ ls refl refl
        (λ k a h. let other : (a == x) ≡ false = ground (arith, out k, h) in rw other refl) v)
      live out (ground arith)

pub promote-Alike :
    (x : Ptr) (m : Machine) → Alike m (promote x m) × ((promote x m).readings ≡ m.readings)
unfolding promote enqueue
promote-Alike x m = (
  record {
    current = ground arith;
    flags = ground arith;
    clocks = ground arith;
    cycle = ground arith;
    within = ground arith;
    swaps = ground arith;
    first = ground arith;
    states = λ a. ground arith;
    lives = λ a. ground arith;
    values = λ a. ground arith;
  },
  ground arith,
)

pub ne-rear :
    (h : Threads) (q : Queue) (a : Ptr) (xs : List Ptr)
    → IsQueue h q xs
    → has a xs ≡ false
    → a ≢ null
    → (a == q.rear) ≡ false
ne-rear h q a [] v out live = ground (arith, v.rear, live)
ne-rear h q a (x ∷ xs) v out live = ground (arith, v.rear, has-last null x xs, out)

-- enqueue writes the `next` of the rear alone, which is on the list.
pub next-promote :
    (x a : Ptr) (m : Machine) (ls : QueueAddr → List Ptr)
    → Queues m ls
    → a ≢ x
    → has a (ls (run 0)) ≡ false
    → a ≢ null
    → ((promote x m).threads a).next ≡ (m.threads a).next
unfolding promote enqueue read_queue
next-promote x a m ls v other out live =
    let rear = ne-rear m.threads (m.run_queue 0) a (ls (run 0)) (v.each (run 0)) out live in
    ground (arith, rear, other)
