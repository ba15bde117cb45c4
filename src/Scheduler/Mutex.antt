-- ===== src/Scheduler/Mutex.antt =====
-- my_pthread_mutex_init, _lock, _unlock and _destroy of
-- scheduler+virtualMemoryManager/submission/my_pthread.c. A mutex stands at an address.
pub mod Waiting
use rutgers_cs.Prelude.{ℕ, Bool, true, false, if◌then◌else◌, ◌==◌, update}
use rutgers_cs.Scheduler.Types.{
  Ptr, null, queued, blocked, empty_queue, run, wait, Machine, Run, ok, fault, ◌>>=◌,
}
use rutgers_cs.Scheduler.Queues.{enqueue, dequeue}
use rutgers_cs.Scheduler.Schedule.{schedule}
use rutgers_cs.Scheduler.Api.{set_state}

-- The int that a call returns: 0, or -1.
pub data Status : Type 0 where
  success failure : Status

unfoldable pub mutex_init : Ptr → Machine → Status × Machine
mutex_init mutex m = if mutex == null then (failure, m) else (
  success,
  record m { wait_queue = update m.wait_queue mutex empty_queue; flag = update m.flag mutex 0 },
)

abbrev pub set_flag : Ptr → ℕ → Machine → Machine
set_flag mutex v m = record m { flag = update m.flag mutex v }

-- __sync_lock_test_and_set(&(mutex->flag), 1), one instruction: whether the flag was 1.
unfoldable pub test_and_set : Ptr → Machine → Bool × Machine
test_and_set mutex m = (m.flag mutex == 1, set_flag mutex 1 m)

-- mutex->flag = 0, at the end of unlock.
unfoldable pub clear : Ptr → Machine → Machine
clear mutex m = set_flag mutex 0 m

-- The current thread waits in the queue of the mutex.
unfoldable pub block_on : Ptr → Machine → Machine
block_on mutex m = enqueue m.current_thread (wait mutex) (set_state m.current_thread blocked m)

-- One round of the loop of lock: true where the mutex is taken, false after schedule.
unfoldable pub lock_round : ℕ → Ptr → Machine → Run (Bool × Machine)
unfolding test_and_set
lock_round fuel mutex m =
    let (held, set) = test_and_set mutex m in
    let waits = schedule fuel (block_on mutex set) >>= λ m'. ok (false, m') in
    if mutex == null
    then fault
    else if held
    then (if m.current_thread == null then fault else waits)
    else ok (true, set)

-- Moves the first thread that waits, if there is one, to the run queue of its priority.
unfoldable pub wake_one : Ptr → Machine → Machine
wake_one mutex m =
    let (ptr, m') = dequeue (wait mutex) m in
    let ready = set_state ptr queued m' in
    if (m.wait_queue mutex).front == null
    then m
    else enqueue ptr (run (ready.threads ptr).priority) ready

unfoldable pub unlock : Ptr → Machine → Run Machine
unfolding clear
unlock mutex m = if mutex == null then fault else ok (clear mutex (wake_one mutex m))

unfoldable pub mutex_destroy : Ptr → Machine → Status
mutex_destroy mutex m =
    if mutex == null then failure else if m.flag mutex == 0 then success else failure
