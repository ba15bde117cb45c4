-- ===== src/Scheduler/Queues.antt =====
-- enqueue, dequeue, getNextThread and checkNextThread of
-- scheduler+virtualMemoryManager/submission/my_pthread.c.
pub mod Chain
pub mod Enqueue
pub mod Dequeue
pub mod Next
use rutgers_cs.Prelude.{ℕ, zero, suc, ◌+◌, Bool, true, false, if◌then◌else◌, ◌==◌}
use rutgers_cs.Scheduler.Types.{
  Ptr, null, run_queues, empty_queue, QueueAddr, run, Machine, read_queue, write_queue,
  write_thread,
}

unfoldable pub enqueue : Ptr → QueueAddr → Machine → Machine
unfolding read_queue write_queue
enqueue thread q m =
    let old = read_queue q m in
    if old.rear == null
    then write_queue q (record { front = thread; rear = thread }) m
    else write_queue q (record old { rear = thread })
        (write_thread old.rear (record (m.threads old.rear) { next = thread }) m)

-- The result is null if the queue is empty.
unfoldable pub dequeue : QueueAddr → Machine → Ptr × Machine
unfolding read_queue write_queue
dequeue q m =
    let old = read_queue q m in
    let temp = old.front in
    let front = (m.threads temp).next in
    if temp == null then (null, m) else (
      temp,
      write_queue q (if front == null then empty_queue else record old { front = front })
          (write_thread temp (record (m.threads temp) { next = null }) m),
    )

-- The loop of getNextThread from queue `i` on, with `n` queues left.
unfoldable pub next_from : ℕ → ℕ → Machine → Ptr × Machine
next_from zero i m = (null, m)
next_from (suc n) i m =
    let (ptr, m') = dequeue (run i) m in
    let rest = next_from n (i + 1) m' in if ptr == null then rest else (ptr, m')

unfoldable pub get_next_thread : Machine → Ptr × Machine
get_next_thread m = next_from run_queues 0 m

-- The loop of checkNextThread.
unfoldable pub check_from : ℕ → ℕ → Machine → Bool
check_from zero i m = false
check_from (suc n) i m =
    let rest = check_from n (i + 1) m in if (m.run_queue i).front == null then rest else true

unfoldable pub check_next_thread : Machine → Bool
check_next_thread m = check_from run_queues 0 m
