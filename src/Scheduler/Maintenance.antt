-- ===== src/Scheduler/Maintenance.antt =====
-- maintenance of scheduler+virtualMemoryManager/submission/my_pthread.c.
pub mod Lists
pub mod Remove
pub mod Removal
pub mod Promote
pub mod Moved
pub mod Promotion
pub mod Sweep
pub mod Whole
pub mod Growth
use rutgers_cs.Prelude.{ℕ, zero, suc, ◌+◌, Bool, if◌then◌else◌, ◌==◌, leb, update}
use rutgers_cs.Scheduler.Types.{
  Ptr, null, lifetime_threshold, Queue, empty_queue, run, Machine, write_thread, now, after_reading,
  sub64, Run, ok, fault, out_of_fuel, ◌>>=◌,
}
use rutgers_cs.Scheduler.Queues.{enqueue}

-- timeNow - ptr->timeLife >= LIFETIME_THRESHOLD
abbrev pub is_old : ℕ → ℕ → Bool
is_old time_now time_life = leb lifetime_threshold (sub64 time_now time_life)

abbrev pub set_run_queue : ℕ → Queue → Machine → Machine
set_run_queue i q m = record m { run_queue = update m.run_queue i q }

-- Takes the thread `ptr` out of queue `i`; `prev` is the thread before it, if it is not the front.
unfoldable pub remove_from : ℕ → Ptr → Ptr → Machine → Run Machine
remove_from i ptr prev m =
    let q = m.run_queue i in
    let front = (m.threads q.front).next in
    let next = (m.threads ptr).next in
    let linked = write_thread prev (record (m.threads prev) { next = next }) m in
    if ptr == q.front
    then ok (set_run_queue i (if front == null then empty_queue else record q { front = front }) m)
    else if prev == null
    then fault
    else if next == null
    then ok (set_run_queue i (record q { rear = prev }) linked)
    else ok linked

-- Adds the thread `temp`, taken out of its queue, to the queue of the highest priority.
unfoldable pub promote : Ptr → Machine → Machine
promote temp m =
    enqueue temp (run 0)
      (write_thread temp (record (m.threads temp) { priority = 0; next = null }) m)

-- The body of the loop up to its last `if`: the new `ptr`, and the state.
unfoldable pub sweep_one : ℕ → Ptr → Ptr → Machine → Run (Ptr × Machine)
sweep_one i ptr prev m =
    let time_now = now m in
    let m' = after_reading m in
    let removed = remove_from i ptr prev m' >>= λ r. ok ((r.threads ptr).next, promote ptr r) in
    if is_old time_now (m.threads ptr).time_life then removed else ok (ptr, m')

-- while(ptr != NULL)
unfoldable pub sweep : ℕ → ℕ → Ptr → Ptr → Machine → Run Machine
sweep zero i ptr prev m = out_of_fuel
sweep (suc fuel) i ptr prev m =
    let rest = sweep_one i ptr prev m >>= λ (p, m').
    sweep fuel i (if p == null then null else (m'.threads p).next) (if p == null then prev else p)
      m' in
    if ptr == null then ok m else rest

-- The loop over the queues from `i` on, with `n` queues left.
unfoldable pub sweep_from : ℕ → ℕ → ℕ → Machine → Run Machine
sweep_from fuel zero i m = ok m
sweep_from fuel (suc n) i m =
    sweep fuel i (m.run_queue i).front null m >>= λ m'. sweep_from fuel n (i + 1) m'

unfoldable pub maintenance : ℕ → Machine → Run Machine
maintenance fuel m = sweep_from fuel 4 1 m
