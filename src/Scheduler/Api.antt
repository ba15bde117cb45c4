-- ===== src/Scheduler/Api.antt =====
-- scheduler_init, my_pthread_create, my_pthread_yield, my_pthread_exit and my_pthread_join of
-- scheduler+virtualMemoryManager/submission/my_pthread.c. Memory that myallocate gives is an
-- argument: an address, 0 where it fails.
pub mod Leave
use rutgers_cs.Prelude.{ℕ, ◌+◌, Bool, true, false, if◌then◌else◌, ◌==◌, ltb}
use rutgers_cs.Scheduler.Types.{
  Ptr, null, run_queues, time_slice, queued, yielded, exited, joining, running, ThreadState,
  empty_queue, run, Machine, write_thread, now, after_reading, emit, set_timer, install_handler,
  get_context, make_context, Run, ok, fault, ◌>>=◌,
}
use rutgers_cs.Scheduler.Queues.{enqueue}
use rutgers_cs.Scheduler.Schedule.{schedule}

unfoldable pub scheduler_init : Machine → Machine
scheduler_init m = emit install_handler (record m {
  run_queue = λ i. if ltb i run_queues then empty_queue else m.run_queue i;
  current_thread = null;
  in_scheduler = 0;
  maintenance_cycle = 0;
})

-- The control block of the main thread, `main`, with its stack.
unfoldable pub init_main : Ptr → Ptr → Machine → Machine
init_main main stack m =
    let t = record (m.threads main) {
      id = m.thread_id;
      next = null;
      priority = 0;
      state = running;
      address = main;
      retval = null;
      stack = stack;
      time_start = now m;
      time_life = now m;
      time_run = 0;
    } in
    emit (get_context main) (
      after_reading (
        write_thread main t (record m {
          current_thread = main;
          thread_id = m.thread_id + 1;
          current_tid = m.thread_id;
        })))

unfoldable pub init_thread : Ptr → Ptr → Machine → Machine
init_thread thread stack m =
    let t = record (m.threads thread) {
      id = m.thread_id;
      next = null;
      priority = 0;
      state = queued;
      address = thread;
      retval = null;
      stack = stack;
      time_life = now m;
      time_run = 0;
    } in
    emit (get_context thread)
      (after_reading (write_thread thread t (record m { thread_id = m.thread_id + 1 })))

unfoldable pub start_timer : Machine → Machine
start_timer m = emit (set_timer time_slice) (record m { first_call = 0 })

-- What only the first call of my_pthread_create does first.
unfoldable pub first_create : Ptr → Ptr → Machine → Run Machine
first_create main main_stack m =
    if main == null then fault else ok (init_main main main_stack (scheduler_init m))

unfoldable pub create : Ptr → Ptr → Ptr → Ptr → Ptr → Machine → Run Machine
create main main_stack thread stack function m =
    let first = m.first_call == 1 in
    (if first then first_create main main_stack m else ok m) >>= λ m'.
    let made = emit (make_context thread function) (init_thread thread stack m') in
    let added = enqueue thread (run (made.threads thread).priority) made in
    if thread == null then fault else ok (if first then start_timer added else added)

abbrev pub set_state : Ptr → ThreadState → Machine → Machine
set_state p s m = write_thread p (record (m.threads p) { state = s }) m

unfoldable pub yield : ℕ → Machine → Run Machine
yield fuel m =
    if m.current_thread == null then fault else schedule fuel (set_state m.current_thread yielded m)

-- The current thread `p` has exited; a NULL `value_ptr` keeps the value that is there.
abbrev pub set_exited : Ptr → Ptr → Machine → Machine
set_exited p value_ptr m =
    let t = m.threads p in
    let value = if value_ptr == null then t.retval else value_ptr in
    write_thread p (record t { state = exited; retval = value }) m

unfoldable pub exit : ℕ → Ptr → Machine → Run Machine
exit fuel value_ptr m =
    if m.current_thread == null
    then fault
    else schedule fuel (set_exited m.current_thread value_ptr m)

-- my_pthread_join of a thread whose own `address` is `target`: its start, the test of its loop, whose
-- body is a call of schedule, and its end, with what it stores through `value_ptr`.
unfoldable pub join_start : Machine → Run Machine
join_start m = if m.current_thread == null then fault else ok (set_state m.current_thread joining m)

unfoldable pub has_exited : Ptr → Machine → Bool
has_exited target m = elim (m.threads target).state [ exited ↦ true | _ ↦ false ]

unfoldable pub join_end : Ptr → Machine → Ptr × Machine
join_end target m = ((m.threads target).retval, set_state m.current_thread running m)

-- One round of the loop: true, with the returned value, where it is left; false after schedule.
unfoldable pub join_round : ℕ → Ptr → Machine → Run (Bool × Ptr × Machine)
join_round fuel target m =
    let (value, joined) = join_end target m in
    let again = schedule fuel m >>= λ m'. ok (false, null, m') in
    if target == null
    then fault
    else if has_exited target m
    then ok (true, value, joined)
    else again
