-- ===== src/Scheduler/System/Tests.antt =====
-- The theorems on maintenance, schedule and the system of threads, at concrete states.
use rutgers_cs.Prelude.{◌≡◌, ◌≢◌, update, refl, true, false, List, [], ◌∷◌, arith, has}
use rutgers_cs.Scheduler.Types.{
  null, empty_queue, running, queued, Machine, QueueAddr, run, wait, ok, Ptr,
}
use rutgers_cs.Scheduler.Queues.{
  enqueue, dequeue, get_next_thread, next_from, check_next_thread, check_from,
}
use rutgers_cs.Scheduler.Api.{exit, create, join_round, set_state, set_exited}
use rutgers_cs.Scheduler.Api.Leave.{CanSwap}
use rutgers_cs.Scheduler.Schedule.Ready.{add}
use rutgers_cs.Scheduler.System.Start.{create-starts, no_lists}
use rutgers_cs.Scheduler.System.Exited.{IsEnough-Enough}
use rutgers_cs.Scheduler.System.Exited.Join.{at_once, onward, join_round-exit}
use rutgers_cs.Scheduler.Queues.Chain.{Queues, Queues-frame, put, same_addr, IsFree, IsFree-frame}
use rutgers_cs.Scheduler.Queues.Enqueue.{enqueue-Queues}
use rutgers_cs.Scheduler.Maintenance.{maintenance}
use rutgers_cs.Scheduler.Maintenance.Lists.{sweep_lists}
use rutgers_cs.Scheduler.Maintenance.Moved.{Moved}
use rutgers_cs.Scheduler.Maintenance.Whole.{old_at, IsEnough, maintenance-sweep_lists}
use rutgers_cs.Scheduler.Schedule.Total.{Scheduled, schedule-IsReady}
use rutgers_cs.Scheduler.Schedule.{
  schedule, maintenance_due, schedule_current, switch, charge, dispatch, resume, resumed,
  start_slice,
}
use rutgers_cs.Scheduler.Mutex.{test_and_set, mutex_init, lock_round, set_flag}
use rutgers_cs.Scheduler.System.{
  Enough, initialises, System, Step, takes, Reach, here, later, set_holds,
}
use rutgers_cs.Scheduler.System.Invariant.{IsSound}
use rutgers_cs.Scheduler.System.Exclusion.{IsExclusive-start, Reach-IsSound}
use rutgers_cs.Scheduler.System.Signals.{
  Instants, none_yet, one_more, wins, works, loses, mutual_exclusion,
}
use rutgers_cs.Scheduler.System.Turns.{by_yield, by_exit, turns, turns-runs, HasFuel}
use rutgers_cs.Scheduler.Schedule.Ready.{IsReady}
use rutgers_cs.Scheduler.Tests.{one, one_list, one-Queues, not-has_one, two, two_lists, two-IsReady}

-- Thread 100 waits in the first run queue and thread 200 in the second; maintenance is due.
abbrev late : Machine
late = record (enqueue 200 (run 1) one) { maintenance_cycle = 10 }

abbrev late_lists : QueueAddr → List Ptr
late_lists = put (run 1) (200 ∷ []) one_list

late-Queues : Queues late late_lists
unfolding same_addr enqueue
late-Queues =
    Queues-frame (enqueue 200 (run 1) one) late late_lists refl refl (λ a. refl)
      (enqueue-Queues one one_list 200 (run 1) one-Queues (λ e. absurd (omega (arith, e)))
        (not-has_one 200 refl) refl)

late-IsEnough : IsEnough 3 late_lists
unfolding same_addr
late-IsEnough j h = ground arith

maintenance-sweep_lists_example :
    (m' : Machine) × (maintenance 3 late ≡ ok m')
    × Moved late late_lists (sweep_lists (old_at late) 4 1 late.readings late_lists) m'
maintenance-sweep_lists_example =
    maintenance-sweep_lists 3 late late_lists late-Queues late-IsEnough

late-IsFree : IsFree late late_lists 300
unfolding same_addr enqueue
late-IsFree = record { live = λ e. absurd (omega (arith, e)); out = out; end = refl }
  where
    out : (k : QueueAddr) → has 300 (late_lists k) ≡ false
    out (run i) = ground arith
    out (wait q) = refl

schedule-IsReady_example : Scheduled 3 late late_lists
unfolding enqueue
schedule-IsReady_example =
    schedule-IsReady 3 late late_lists late-Queues late-IsEnough (λ e. absurd (omega (arith, e)))
      (λ h. late-IsFree) (λ h. absurd (cc))

-- Thread 300 runs, and nobody holds a mutex.
abbrev start : System
start = record { machine = record two { flag = λ x. 0 }; holds = λ p x. false }

start-IsSound : IsSound start.machine
unfolding enqueue
start-IsSound = record {
  ls = two_lists;
  ready = record {
    queues = Queues-frame two start.machine two_lists refl refl (λ a. refl) two-IsReady.queues;
    current = IsFree-frame start.machine refl two-IsReady.current;
  };
  alive = λ h. absurd (cc);
}

abbrev locked : System
locked = record { machine = set_flag 9 1 start.machine; holds = set_holds 300 9 true start.holds }

locked-Step : Step start locked
unfolding lock_round enqueue
locked-Step = takes 5 9 refl

abbrev both : System
both = record { machine = set_flag 7 1 locked.machine; holds = set_holds 300 7 true locked.holds }

both-Step : Step locked both
unfolding lock_round enqueue
both-Step = takes 5 7 refl

both_reached : Reach start both
both_reached = later (later here locked-Step) both-Step

-- Thread 300 takes the mutex 9, a signal arrives before the next instruction, and thread 200 finds it taken.
abbrev won : System
won = record { machine = set_flag 9 1 start.machine; holds = set_holds 300 9 true start.holds }

abbrev signalled : System
signalled = record won { machine = record won.machine { current_thread = 200; in_scheduler = 1 } }

abbrev refused : System
refused = record signalled { machine = set_flag 9 1 signalled.machine }

interleaved : Instants start refused
unfolding test_and_set enqueue
interleaved =
    one_more (one_more (one_more none_yet (wins 300 9 refl)) (works refl)) (loses 200 9 refl)

abbrev holder : Ptr
holder = 300

mutual_exclusion_example : holder ≡ holder
mutual_exclusion_example = mutual_exclusion interleaved (λ p x. refl) holder holder 9 refl refl

Reach-IsSound_example : IsSound both.machine
Reach-IsSound_example = Reach-IsSound both_reached (λ p x. refl) start-IsSound

two-HasFuel : HasFuel 3 2 two_lists
unfolding same_addr
two-HasFuel j h = ground arith

-- Maintenance falls in the first of the two calls.
abbrev two_late : Machine
two_late = record two { maintenance_cycle = 19 }

turns-runs_example :
    (m' : Machine) × (ls' : QueueAddr → List Ptr) × (zs : List Ptr) × (turns 3
        (by_exit 7 ∷ by_yield ∷ [])
        two_late
      ≡ ok m')
    × IsReady m' ls'
    × (m'.current_thread ≡ 200)
    × (ls' (run 0) ≡ zs)
unfolding same_addr
turns-runs_example =
    turns-runs 3 (by_exit 7 ∷ by_yield ∷ []) two_late two_lists (100 ∷ []) 200 [] refl
      (record {
        queues = Queues-frame two two_late two_lists refl refl (λ a. refl) two-IsReady.queues;
        current = IsFree-frame two_late refl two-IsReady.current;
      })
      two-HasFuel refl

start-CanSwap : CanSwap start.machine two_lists
unfolding check_next_thread check_from enqueue
start-CanSwap = record {
  ready = record {
    queues = Queues-frame two start.machine two_lists refl refl (λ a. refl) two-IsReady.queues;
    current = IsFree-frame start.machine refl two-IsReady.current;
  };
  early = omega arith;
  check = refl;
}

start-Enough : Enough 3 start.machine
unfolding same_addr
start-Enough =
    IsEnough-Enough 3 start.machine two_lists start-CanSwap.ready.queues (λ j h. ground arith)

-- Thread 300 has exited with the value 7, and the mutex 4 is initialised.
abbrev after_exit : Machine
after_exit = elim (exit 3 7 start.machine) [ ok m ↦ m | _ ↦ start.machine ]

abbrev initialised : Machine
initialised = record after_exit {
  wait_queue = update after_exit.wait_queue 4 empty_queue;
  flag = update after_exit.flag 4 0;
}

join_round-exit_example :
    (start.machine.current_thread ≢ initialised.current_thread)
    × (join_round 5 300 initialised
        ≡ ok (true, 7, set_state initialised.current_thread running initialised))
unfolding mutex_init enqueue exit set_exited schedule maintenance_due schedule_current switch charge
    dispatch resume resumed start_slice get_next_thread next_from dequeue check_next_thread
    check_from
join_round-exit_example =
    join_round-exit 3 5 7 start {m' = after_exit} two_lists
      (IsExclusive-start start (λ p x. refl) start-IsSound) start-CanSwap start-Enough
      (λ e. absurd (omega (arith, e))) refl (onward at_once (initialises 4 (λ p. refl) refl) tt)

-- No call was made yet.
abbrev unused : Machine
unused = record two {
  threads = λ p. record (two.threads p) { next = null };
  run_queue = λ i. empty_queue;
  wait_queue = λ x. empty_queue;
  current_thread = null;
  first_call = 1;
}

create-starts_example :
    (m' : Machine) × (create 300 700 400 800 11 unused ≡ ok m')
    × IsReady m' (add 400 0 no_lists)
    × (m'.current_thread ≡ 300)
    × ((m'.threads 300).state ≡ running)
    × ((m'.threads 400).state ≡ queued)
    × (m'.first_call ≡ 0)
create-starts_example =
    create-starts 300 700 400 800 11 unused
      (record { first = refl; waits = λ x. refl; runs = λ i h. refl })
      (λ e. absurd (omega (arith, e))) (λ e. absurd (omega (arith, e)))
      (λ e. absurd (omega (arith, e)))
