-- ===== src/Scheduler/Schedule.antt =====
-- schedule and timer_handler of scheduler+virtualMemoryManager/submission/my_pthread.c. The state
-- after schedule is the one at the swapcontext, or at the return where no swap takes place.
pub mod Ready
pub mod Swap
pub mod Stay
pub mod Flags
pub mod Spared
pub mod Aside
pub mod Upkeep
pub mod Total
use rutgers_cs.Prelude.{ℕ, ◌+◌, ◌-◌, ◌*◌, ◌%◌, ◌^◌, if◌then◌else◌, ◌==◌, leb}
use rutgers_cs.Scheduler.Types.{
  Ptr, null, run_queues, time_slice, maintenance_threshold, ThreadState, queued, yielded, exited,
  joining, blocked, running, run, Machine, write_thread, now, after_reading, emit, set_timer,
  free_stack, mprotect_setter, swap_context, sub64, Run, ok, fault, ◌>>=◌,
}
use rutgers_cs.Scheduler.Queues.{enqueue, get_next_thread, check_next_thread}
use rutgers_cs.Scheduler.Maintenance.{maintenance}

-- Counts the cycle, and does the maintenance in every twentieth.
unfoldable pub maintenance_due : ℕ → Machine → Run Machine
maintenance_due fuel m =
    let cycle = m.maintenance_cycle + 1 in
    if leb maintenance_threshold cycle
    then maintenance fuel (record m { in_scheduler = 1; maintenance_cycle = 0 })
    else ok (record m { in_scheduler = 1; maintenance_cycle = cycle })

-- Adds the time since the slice began to the time that the thread `ptr` has run.
unfoldable pub charge : Ptr → Machine → Machine
charge ptr m =
    let t = m.threads ptr in
    let ended = now m in
    after_reading (
      write_thread ptr
        (record t { time_end = ended; time_run = (t.time_run + sub64 ended t.time_start) % 2 ^ 64 })
        m)

-- Begins a time slice of the thread `ptr`.
unfoldable pub start_slice : Ptr → Machine → Machine
start_slice ptr m =
    let started =
      after_reading (write_thread ptr (record (m.threads ptr) { time_start = now m }) m) in
    record (emit (set_timer time_slice) started) { in_scheduler = 0 }

-- Puts the thread `ptr` back into the queue of its priority, to be swapped out.
unfoldable pub requeue : Ptr → Machine → Machine
requeue ptr m =
    let t = record (m.threads ptr) { state = queued; time_run = 0 } in
    record (enqueue ptr (run t.priority) (write_thread ptr t m)) { swap = 1 }

-- The slice of the thread's priority is used up: one level down, and to the end of its queue.
unfoldable pub demote : Ptr → Machine → Machine
demote ptr m =
    let t = m.threads ptr in
    let lower = if leb run_queues (t.priority + 1) then run_queues - 1 else t.priority + 1 in
    requeue ptr (write_thread ptr (record t { priority = lower }) m)

-- switch(ptr->state)
unfoldable pub switch : ThreadState → Ptr → Machine → Machine
switch queued ptr m = m
switch yielded ptr m = requeue ptr m
switch exited ptr m = record (emit (free_stack (m.threads ptr).stack) m) { swap = 1 }
switch joining ptr m = requeue ptr m
switch blocked ptr m = record m { swap = 1 }
switch running ptr m =
    if leb (((m.threads ptr).priority + 1) * time_slice) (m.threads ptr).time_run
    then demote ptr m
    else m

-- Lets the thread `next` run in the place of the thread `ptr`.
unfoldable pub resumed : Ptr → Ptr → Machine → Machine
resumed ptr next m =
    let woken = write_thread next (record (m.threads next) { state = running }) m in
    let started = start_slice next (record woken { current_thread = next }) in
    let prev = (started.threads ptr).id in
    let current = (started.threads next).id in
    emit (swap_context ptr next) (
      emit (mprotect_setter current prev)
        (record started { prev_tid = prev; current_tid = current }))

unfoldable pub resume : Ptr → Ptr → Machine → Run Machine
unfolding resumed
resume ptr next m = if next == null then fault else ok (resumed ptr next m)

-- Swaps the thread `ptr` out for the next thread of the run queues.
unfoldable pub dispatch : Ptr → Machine → Run Machine
dispatch ptr m = let (next, m') = get_next_thread m in resume ptr next m'

-- No thread is in the run queues: the current thread goes on, unless it has exited.
unfoldable pub stay : ThreadState → Ptr → Machine → Machine
stay exited ptr m = record m { in_scheduler = 0 }
stay _ ptr m = start_slice ptr m

unfoldable pub schedule_current : Ptr → Machine → Run Machine
schedule_current ptr m =
    let charged = charge ptr m in
    let state = (m.threads ptr).state in
    let switched = switch state ptr charged in
    let swapped = dispatch ptr switched in
    if check_next_thread m
    then (if switched.swap == 0 then ok (start_slice ptr switched) else swapped)
    else ok (stay state ptr charged)

unfoldable pub schedule : ℕ → Machine → Run Machine
schedule fuel m = maintenance_due fuel m >>= λ m'.
    if m'.current_thread == null
    then fault
    else schedule_current m'.current_thread (record m' { swap = 0 })

-- The signal handler: nothing, if the signal came inside the scheduler.
unfoldable pub timer_handler : ℕ → Machine → Run Machine
timer_handler fuel m = if m.in_scheduler == 1 then ok m else schedule fuel m
