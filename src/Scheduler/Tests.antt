-- ===== src/Scheduler/Tests.antt =====
-- Runs of the thread library, and its theorems, at concrete states.
use rutgers_cs.Prelude.{◌*◌, ◌≡◌, refl, false, List, [], ◌∷◌, ◌==◌, arith, has}
use rutgers_cs.Scheduler.Types.{
  Machine, Thread, empty_queue, running, queued, QueueAddr, run, wait, ok, read_queue, Ptr, micros,
}
use rutgers_cs.Scheduler.Queues.{enqueue, dequeue, check_next_thread, check_from}
use rutgers_cs.Scheduler.Queues.Chain.{Queues, IsQueue, IsFree, put, same_addr}
use rutgers_cs.Scheduler.Queues.Enqueue.{enqueue-Queues}
use rutgers_cs.Scheduler.Queues.Dequeue.{dequeue-Queues}
use rutgers_cs.Scheduler.Schedule.{schedule}
use rutgers_cs.Scheduler.Schedule.Ready.{IsReady, add, Swapped}
use rutgers_cs.Scheduler.Schedule.Swap.{schedule-Swapped, left}
use rutgers_cs.Prelude.{inl}
use rutgers_cs.Scheduler.Schedule.Stay.{Kept, schedule-Kept}
use rutgers_cs.Scheduler.Api.Leave.{CanSwap}
use rutgers_cs.Scheduler.Mutex.{lock_round, unlock, block_on, set_flag}
use rutgers_cs.Scheduler.Mutex.Waiting.{add_waiter, lock_round-Swapped, unlock-Queues}

abbrev blank : Thread
blank = record {
  id = 0;
  next = 0;
  priority = 0;
  state = running;
  address = 0;
  retval = 0;
  stack = 0;
  time_run = 50_000;
  time_start = 0;
  time_end = 0;
  time_life = 0;
}

-- Thread 300 runs, all queues are empty, and the clock goes on by 10 ms at each reading.
abbrev idle : Machine
idle = record {
  threads = λ p. blank;
  run_queue = λ i. empty_queue;
  wait_queue = λ p. empty_queue;
  flag = λ p. 1;
  current_thread = 300;
  in_scheduler = 0;
  swap = 0;
  maintenance_cycle = 3;
  current_tid = 0;
  prev_tid = 0;
  thread_id = 1;
  first_call = 0;
  clock = λ n. record { sec = 0; usec = n * 10_000 };
  readings = 0;
  effects = [];
}

abbrev no_lists : QueueAddr → List Ptr
no_lists k = []

abbrev pub one_list : QueueAddr → List Ptr
one_list = put (run 0) (100 ∷ []) no_lists

abbrev pub two_lists : QueueAddr → List Ptr
two_lists = put (run 0) (100 ∷ 200 ∷ []) one_list

abbrev pub one : Machine
one = enqueue 100 (run 0) idle

abbrev pub two : Machine
two = enqueue 200 (run 0) one

idle-Queues : Queues idle no_lists
unfolding read_queue
idle-Queues = record { each = each; apart = λ k l p a b. cc }
  where
    each : (k : QueueAddr) → IsQueue idle.threads (read_queue k idle) []
    each (run i) = record { chain = refl; rear = refl; distinct = tt }
    each (wait p) = record { chain = refl; rear = refl; distinct = tt }

enqueue-Queues_example : Queues one one_list
enqueue-Queues_example =
    enqueue-Queues idle no_lists 100 (run 0) idle-Queues (λ e. absurd (omega (arith, e)))
      (λ l. refl) refl

pub one-Queues : Queues one one_list
one-Queues =
    enqueue-Queues idle no_lists 100 (run 0) idle-Queues (λ e. absurd (omega (arith, e)))
      (λ l. refl) refl

pub not-has_one : (p : Ptr) → (p == 100) ≡ false → (k : QueueAddr) → has p (one_list k) ≡ false
unfolding same_addr
not-has_one p e (run i) = ground arith
not-has_one p e (wait q) = refl

pub two-Queues : Queues two two_lists
unfolding same_addr enqueue
two-Queues =
    enqueue-Queues one one_list 200 (run 0) one-Queues (λ e. absurd (omega (arith, e)))
      (not-has_one 200 refl) refl

pub two-IsReady : IsReady two two_lists
unfolding same_addr enqueue
two-IsReady = record {
  queues = two-Queues;
  current = record { live = λ e. absurd (omega (arith, e)); out = out; end = refl };
}
  where
    out : (k : QueueAddr) → has 300 (two_lists k) ≡ false
    out (run i) = ground arith
    out (wait q) = refl

two-CanSwap : CanSwap two two_lists
unfolding enqueue check_next_thread check_from
two-CanSwap = record { ready = two-IsReady; early = omega arith; check = refl }

schedule-Swapped_example : Swapped (left running 300 0 two_lists) (schedule 9 two)
unfolding enqueue check_next_thread check_from micros
schedule-Swapped_example =
    schedule-Swapped 9 two two_lists (omega arith) two-Queues (λ e. absurd (omega (arith, e)))
      (λ h. two-IsReady.current) refl refl

lock_round-Swapped_example :
    (s : Swapped (add_waiter 300 9 two_lists) (schedule 9 (block_on 9 (set_flag 9 1 two))))
    × (lock_round 9 9 two ≡ ok (false, s.m'))
unfolding enqueue
lock_round-Swapped_example =
    lock_round-Swapped 9 9 two two_lists two-CanSwap (λ e. absurd (omega (arith, e))) refl

-- Thread 400 waits for the mutex at 9.
abbrev three_lists : QueueAddr → List Ptr
three_lists = put (wait 9) (400 ∷ []) two_lists

abbrev three : Machine
three = enqueue 400 (wait 9) two

not-has_two :
    (p : Ptr)
    → (p == 100) ≡ false
    → (p == 200) ≡ false
    → (k : QueueAddr) → has p (two_lists k) ≡ false
unfolding same_addr
not-has_two p e e' (run i) = ground arith
not-has_two p e e' (wait q) = refl

three-IsReady : IsReady three three_lists
unfolding same_addr enqueue
three-IsReady = record {
  queues =
      enqueue-Queues two two_lists 400 (wait 9) two-Queues (λ e. absurd (omega (arith, e)))
        (not-has_two 400 refl refl) refl;
  current = record { live = λ e. absurd (omega (arith, e)); out = out; end = refl };
}
  where
    out : (k : QueueAddr) → has 300 (three_lists k) ≡ false
    out (run i) = ground arith
    out (wait q) = ground arith

unlock-Queues_example :
    (m' : Machine) × (unlock 9 three ≡ ok m')
    × Queues m' (add 400 0 (put (wait 9) [] three_lists))
    × (m'.flag 9 ≡ 0)
    × ((m'.threads 400).state ≡ queued)
    × (m'.current_thread ≡ 300)
unfolding enqueue same_addr
unlock-Queues_example =
    unlock-Queues 9 three three_lists 400 [] three-IsReady (λ e. absurd (omega (arith, e))) refl

dequeue-Queues_example :
    ((dequeue (run 0) two).0 ≡ 100)
    × IsFree (dequeue (run 0) two).1 (put (run 0) (200 ∷ []) two_lists) 100
    × Queues (dequeue (run 0) two).1 (put (run 0) (200 ∷ []) two_lists)
unfolding same_addr
dequeue-Queues_example = dequeue-Queues two two_lists (run 0) 100 (200 ∷ []) two-Queues refl

schedule-Kept_example : (m' : Machine) × (schedule 9 idle ≡ ok m') × Kept idle no_lists m'
unfolding check_next_thread check_from
schedule-Kept_example =
    schedule-Kept 9 idle no_lists (omega arith) idle-Queues (λ e. absurd (omega (arith, e)))
      (inl refl)
