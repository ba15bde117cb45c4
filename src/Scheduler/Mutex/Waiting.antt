-- ===== src/Scheduler/Mutex/Waiting.antt =====
-- my_pthread_mutex_lock and my_pthread_mutex_unlock of
-- scheduler+virtualMemoryManager/submission/my_pthread.c on the lists of the queues.
use rutgers_cs.Prelude.{
  ℕ, ◌≡◌, ◌≢◌, refl, true, false, List, [], ◌∷◌, ◌++◌, arith, ◌==◌, ◌∙◌, ==_refl,
}
use rutgers_cs.Scheduler.Types.{
  Ptr, null, QueueAddr, run, wait, Machine, ok, blocked, queued, read_queue,
}
use rutgers_cs.Scheduler.Queues.{check_next_thread, check_from, enqueue, dequeue}
use rutgers_cs.Scheduler.Queues.Chain.{Queues, IsQueue, IsFree-frame, Queues-frame, put, same_addr}
use rutgers_cs.Scheduler.Queues.Enqueue.{enqueue-Queues}
use rutgers_cs.Scheduler.Queues.Dequeue.{dequeue-Queues}
use rutgers_cs.Scheduler.Schedule.{schedule}
use rutgers_cs.Scheduler.Schedule.Ready.{IsReady, add, Swapped}
use rutgers_cs.Scheduler.Schedule.Swap.{leaving-Swapped, check-of_used, used_of_check}
use rutgers_cs.Scheduler.Api.{set_state}
use rutgers_cs.Scheduler.Api.Leave.{CanSwap}
use rutgers_cs.Scheduler.Mutex.{lock_round, block_on, set_flag, unlock, wake_one}

ne_null : (p : Ptr) → p ≢ null → (p == null) ≡ false
ne_null p live = ground arith

-- The lists with the thread `p` at the end of the queue of the mutex.
abbrev pub add_waiter : Ptr → Ptr → (QueueAddr → List Ptr) → QueueAddr → List Ptr
add_waiter p mutex ls = put (wait mutex) (ls (wait mutex) ++ p ∷ []) ls

pub block_on-Queues :
    (mutex : Ptr) (m : Machine) (ls : QueueAddr → List Ptr)
    → IsReady m ls
    → Queues (block_on mutex m) (add_waiter m.current_thread mutex ls)
unfolding block_on
block_on-Queues mutex m ls r =
    enqueue-Queues _ ls m.current_thread (wait mutex)
      (Queues-frame m _ ls refl refl (λ a. ground arith) r.queues) r.current.live r.current.out
      (ground (arith, r.current.end))

-- What block_on leaves alone.
pub block_on_lem :
    (mutex : Ptr) (m : Machine) (ls : QueueAddr → List Ptr)
    → IsReady m ls
    → ((block_on mutex m).current_thread ≡ m.current_thread)
      × ((block_on mutex m).maintenance_cycle ≡ m.maintenance_cycle)
      × (((block_on mutex m).threads m.current_thread).state ≡ blocked)
unfolding block_on enqueue
block_on_lem mutex m ls r = (ground arith, ground arith, ground arith)

waits-Swapped :
    (fuel mutex : ℕ) (m : Machine) (ls : QueueAddr → List Ptr)
    → CanSwap m ls
    → Swapped (add_waiter m.current_thread mutex ls) (schedule fuel (block_on mutex m))
unfolding same_addr
waits-Swapped fuel mutex m ls c =
    let (cur, cycle, state) = block_on_lem mutex m ls c.ready in
    let queues = block_on-Queues mutex m ls c.ready in
    let (j, low, used) = used_of_check c.ready.queues c.check in
    leaving-Swapped fuel (block_on mutex m) (add_waiter m.current_thread mutex ls) {s = blocked}
      (rw cur state) refl (rw cycle c.early) queues (rw cur c.ready.current.live)
      (λ h. absurd (h refl)) (check-of_used queues j low used) refl

-- Where the mutex is taken, a round of my_pthread_mutex_lock, in a cycle without maintenance and with
-- a thread waiting in a run queue, puts the calling thread at the end of the queue of the mutex, and
-- the first thread of the first run queue in use runs next; the loop goes on when the caller runs again.
pub lock_round-Swapped :
    (fuel mutex : ℕ) (m : Machine) (ls : QueueAddr → List Ptr)
    → CanSwap m ls
    → mutex ≢ null
    → m.flag mutex ≡ 1
    → (s : Swapped
        (add_waiter m.current_thread mutex ls)
        (schedule fuel (block_on mutex (set_flag mutex 1 m))))
      × (lock_round fuel mutex m ≡ ok (false, s.m'))
unfolding lock_round check_next_thread check_from
lock_round-Swapped fuel mutex m ls c live taken = (s, rw (real, held, cur) (rw s.ran))
  where
    g : Machine
    g = set_flag mutex 1 m

    ready : IsReady g ls
    ready = record {
      queues = Queues-frame m g ls refl refl (λ a. refl) c.ready.queues;
      current = IsFree-frame g refl c.ready.current;
    }

    real : (mutex == null) ≡ false
    real = ground (arith, live)

    held : (m.flag mutex == 1) ≡ true
    held = ground (arith, taken)

    cur : (m.current_thread == null) ≡ false
    cur = ground (arith, c.ready.current.live)

    s : Swapped (add_waiter m.current_thread mutex ls) (schedule fuel (block_on mutex g))
    s = waits-Swapped fuel mutex g ls (record { ready = ready; early = c.early; check = c.check })

-- The state in which the thread `x`, taken off the queue of the mutex, is put back.
abbrev pub woken : Ptr → Ptr → Machine → Machine
woken x mutex m = set_state x queued (dequeue (wait mutex) m).1

pub dequeue_lem :
    (mutex x : Ptr) (m : Machine)
    → ((dequeue (wait mutex) m).1.current_thread ≡ m.current_thread)
      × (((dequeue (wait mutex) m).1.threads x).priority ≡ (m.threads x).priority)
unfolding dequeue
dequeue_lem mutex x m = (ground arith, ground arith)

pub wake_one_lem :
    (mutex : Ptr) (m : Machine) (ls : QueueAddr → List Ptr) (x : Ptr) (xs : List Ptr)
    → IsReady m ls
    → ls (wait mutex) ≡ x ∷ xs
    → wake_one mutex m ≡ enqueue x (run (m.threads x).priority) (woken x mutex m)
unfolding wake_one read_queue
wake_one_lem mutex m ls x xs r e =
    let q : IsQueue m.threads (m.wait_queue mutex) (x ∷ xs) =
      rw e at (r.queues.each (wait mutex)) in
    let used : ((m.wait_queue mutex).front == null) ≡ false =
      ground (arith, q.chain.0, q.chain.1) in
    rw (
      used,
      (dequeue-Queues m ls (wait mutex) x xs r.queues e).0,
      ==_refl x,
      (dequeue_lem mutex x m).1,
    )

enqueue_lem :
    (x i : ℕ) (m : Machine)
    → ((enqueue x (run i) m).current_thread ≡ m.current_thread)
      × (((enqueue x (run i) m).threads x).state ≡ (m.threads x).state)
unfolding enqueue
enqueue_lem x i m = (ground arith, ground arith)

-- Where the queues stand for lists, the current thread is in none of them and `x` is the first thread that
-- waits for the mutex, my_pthread_mutex_unlock moves the first thread that waits, `x`, to the end of the run queue of its
-- priority, and clears the flag; the calling thread goes on.
pub unlock-Queues :
    (mutex : Ptr) (m : Machine) (ls : QueueAddr → List Ptr) (x : Ptr) (xs : List Ptr)
    → IsReady m ls
    → mutex ≢ null
    → ls (wait mutex) ≡ x ∷ xs
    → (m' : Machine) × (unlock mutex m ≡ ok m')
      × Queues m' (add x (m.threads x).priority (put (wait mutex) xs ls))
      × (m'.flag mutex ≡ 0)
      × ((m'.threads x).state ≡ queued)
      × (m'.current_thread ≡ m.current_thread)
unfolding unlock
unlock-Queues mutex m ls x xs r live e =
    let woke = wake_one_lem mutex m ls x xs r e in
    let (cur, _) = dequeue_lem mutex x m in
    let (ptr, free, queues) = dequeue-Queues m ls (wait mutex) x xs r.queues e in
    let (same, state) = enqueue_lem x (m.threads x).priority (woken x mutex m) in
    (
      set_flag mutex 0 (wake_one mutex m),
      rw (ne_null mutex live),
      Queues-frame (wake_one mutex m) _ _ refl refl (λ a. refl)
          (rw woke (
            enqueue-Queues _ _ x _ (Queues-frame _ _ _ refl refl (λ a. ground arith) queues)
              free.live free.out (ground (arith, free.end)))),
      ground arith,
      rw woke (state ∙ ground arith),
      rw woke (same ∙ cur),
    )
