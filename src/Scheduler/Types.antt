-- ===== src/Scheduler/Types.antt =====
-- The structs and constants of scheduler+virtualMemoryManager/submission/my_pthread_t.h, and the
-- state that my_pthread.c keeps. A control block lives at an address; the address 0 is NULL.
pub use rutgers_cs.Prelude.Run.{Run, ok, fault, out_of_fuel, ◌>>=◌}
use rutgers_cs.Prelude.{ℕ, ◌+◌, ◌-◌, ◌*◌, ◌%◌, ◌^◌, List, ◌∷◌, update}

abbrev pub Ptr : Type 0
Ptr = ℕ

abbrev pub null : Ptr
null = 0

-- RUN_QUEUES, STACK_SIZE, MAINTENANCE_THRESHOLD and LIFETIME_THRESHOLD.
abbrev pub run_queues : ℕ
run_queues = 5

abbrev pub stack_size : ℕ
stack_size = 4096

abbrev pub maintenance_threshold : ℕ
maintenance_threshold = 20

abbrev pub lifetime_threshold : ℕ
lifetime_threshold = 1_000_000

-- The interval timer of 50 ms, and the slice of the highest priority.
abbrev pub time_slice : ℕ
time_slice = 50_000

pub data ThreadState : Type 0 where
  queued yielded exited joining blocked running : ThreadState

-- `struct my_pthread_t`. Of the machine context the code itself reads only the stack's address.
pub record Thread : Type 0 where
  pub id : ℕ
  pub next : Ptr
  pub priority : ℕ
  pub state : ThreadState
  pub address : Ptr
  pub retval : Ptr
  pub stack : Ptr
  pub time_run : ℕ
  pub time_start : ℕ
  pub time_end : ℕ
  pub time_life : ℕ

pub record Queue : Type 0 where
  pub front : Ptr
  pub rear : Ptr

abbrev pub empty_queue : Queue
empty_queue = record { front = null; rear = null }

-- What a `queue*` points at: `&(myScheduler->runQueues[i])`, or `&(mutex->waitQueue)`.
pub data QueueAddr : Type 0 where
  run : ℕ → QueueAddr
  wait : Ptr → QueueAddr

-- What gettimeofday stores.
pub record Timeval : Type 0 where
  pub sec : ℕ
  pub usec : ℕ

-- What the code asks of the kernel and of the memory manager, in order.
pub data Effect : Type 0 where
  install_handler : Effect
  get_context : Ptr → Effect
  make_context : Ptr → Ptr → Effect
  set_timer : ℕ → Effect
  free_stack : Ptr → Effect
  mprotect_setter : ℕ → ℕ → Effect
  swap_context : Ptr → Ptr → Effect

-- Everything that my_pthread.c reads and writes. `clock` holds the times that gettimeofday gives,
-- `readings` counts the calls made so far, and `effects` has the latest call first. Before the first
-- my_pthread_create the scheduler is NULL: `current_thread` is null then, and reading it faults too.
pub record Machine : Type 0 where
  pub threads : Ptr → Thread
  pub run_queue : ℕ → Queue
  pub wait_queue : Ptr → Queue
  pub flag : Ptr → ℕ
  pub current_thread : Ptr
  pub in_scheduler : ℕ
  pub swap : ℕ
  pub maintenance_cycle : ℕ
  pub current_tid : ℕ
  pub prev_tid : ℕ
  pub thread_id : ℕ
  pub first_call : ℕ
  pub clock : ℕ → Timeval
  pub readings : ℕ
  pub effects : List Effect

-- `*q` and `*q = v`.
unfoldable pub read_queue : QueueAddr → Machine → Queue
read_queue (run i) m = m.run_queue i
read_queue (wait p) m = m.wait_queue p

unfoldable pub write_queue : QueueAddr → Queue → Machine → Machine
write_queue (run i) v m = record m { run_queue = update m.run_queue i v }
write_queue (wait p) v m = record m { wait_queue = update m.wait_queue p v }

-- `*p = t`.
abbrev pub write_thread : Ptr → Thread → Machine → Machine
write_thread p t m = record m { threads = update m.threads p t }

-- (time.tv_sec * 1000000) + time.tv_usec, in an unsigned long.
unfoldable pub micros : Timeval → ℕ
micros t = (t.sec * 1_000_000 + t.usec) % 2 ^ 64

-- The time of the next gettimeofday, and the state after it.
abbrev pub now : Machine → ℕ
now m = micros (m.clock m.readings)

abbrev pub after_reading : Machine → Machine
after_reading m = record m { readings = m.readings + 1 }

-- `a - b` in an unsigned long.
abbrev pub sub64 : ℕ → ℕ → ℕ
sub64 a b = (a + 2 ^ 64 - b) % 2 ^ 64

abbrev pub emit : Effect → Machine → Machine
emit e m = record m { effects = e ∷ m.effects }
