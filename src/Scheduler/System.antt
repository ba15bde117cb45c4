-- ===== src/Scheduler/System.antt =====
-- The thread library of scheduler+virtualMemoryManager/submission/my_pthread.c under its callers: in each
-- step the thread that runs makes one call, or the timer interrupts it between two calls. The code lets SIGALRM
-- interrupt a call as well, everywhere but in schedule; that is left out here, and is in Signals for the flags
-- of the mutexes.
pub mod Invariant
pub mod Start
pub mod Exited
pub mod Sound
pub mod Mutexes
pub mod Wake
pub mod Exclusion
pub mod Signals
pub mod Turns
pub mod Tests
use rutgers_cs.Prelude.{ℕ, ◌≡◌, ◌≢◌, Bool, true, false, if◌then◌else◌, ◌==◌, ◌&&◌, update, List}
use rutgers_cs.Scheduler.Types.{Ptr, null, QueueAddr, Machine, ok}
use rutgers_cs.Scheduler.Queues.{check_next_thread}
use rutgers_cs.Scheduler.Queues.Chain.{Queues}
use rutgers_cs.Scheduler.Maintenance.Whole.{IsEnough}
use rutgers_cs.Scheduler.Maintenance.Moved.{IsOut}
use rutgers_cs.Scheduler.Schedule.{timer_handler}
use rutgers_cs.Scheduler.Api.{create, yield, exit, join_start, join_round}
use rutgers_cs.Scheduler.Mutex.{success, mutex_init, lock_round, unlock}

-- Fuel for each thread of a run queue, and one more.
abbrev pub Enough : ℕ → Machine → Type 0
Enough fuel m = (ls : QueueAddr → List Ptr) → Queues m ls → IsEnough fuel ls

-- The control block at `p` is in no queue.
abbrev pub IsNew : Machine → Ptr → Type 0
IsNew m p = (ls : QueueAddr → List Ptr) → Queues m ls → IsOut ls p

-- The calls that do not concern a mutex. A created thread has a control block of its own; a first call of
-- my_pthread_create comes before the system starts.
pub data Call (m m' : Machine) : Type 0 where
  yields : (fuel : ℕ) → Enough fuel m → yield fuel m ≡ ok m' → Call m m'
  exits : (fuel : ℕ) (value : Ptr) → Enough fuel m → exit fuel value m ≡ ok m' → Call m m'
  interrupts : (fuel : ℕ) → Enough fuel m → timer_handler fuel m ≡ ok m' → Call m m'
  creates :
      (main main_stack thread stack function : Ptr)
      → m.first_call ≡ 0
      → IsNew m thread
      → thread ≢ m.current_thread
      → create main main_stack thread stack function m ≡ ok m'
      → Call m m'
  joins : join_start m ≡ ok m' → Call m m'
  waits_for :
      (fuel : ℕ) (target value : Ptr) (done : Bool)
      → Enough fuel m
      → join_round fuel target m ≡ ok (done, value, m')
      → Call m m'

-- The machine, and which thread holds which mutex: that is known to the callers alone.
pub record System : Type 0 where
  pub machine : Machine
  pub holds : Ptr → Ptr → Bool

abbrev set_holds : Ptr → Ptr → Bool → (Ptr → Ptr → Bool) → Ptr → Ptr → Bool
set_holds p x v h q y = if (q == p) && (y == x) then v else h q y

-- One call, or the timer between two calls. A thread unlocks only what it holds, and initialises no mutex that is
-- held. A thread blocks only where another one can run.
pub data Step (s : System) : System → Type 0 where
  calls : {m' : Machine} → Call s.machine m' → Step s (record s { machine = m' })
  initialises :
      {m' : Machine} (x : Ptr)
      → ((p : Ptr) → s.holds p x ≡ false)
      → mutex_init x s.machine ≡ (success, m')
      → Step s (record s { machine = m' })
  takes :
      {m' : Machine} (fuel : ℕ) (x : Ptr)
      → lock_round fuel x s.machine ≡ ok (true, m')
      → Step s (record { machine = m'; holds = set_holds s.machine.current_thread x true s.holds })
  blocks :
      {m' : Machine} (fuel : ℕ) (x : Ptr)
      → Enough fuel s.machine
      → check_next_thread s.machine ≡ true
      → lock_round fuel x s.machine ≡ ok (false, m')
      → Step s (record s { machine = m' })
  releases :
      {m' : Machine} (x : Ptr)
      → s.holds s.machine.current_thread x ≡ true
      → unlock x s.machine ≡ ok m'
      → Step s (record { machine = m'; holds = set_holds s.machine.current_thread x false s.holds })

pub data Reach (s : System) : System → Type 0 where
  here : Reach s s
  later : {t u : System} → Reach s t → Step t u → Reach s u
