-- ===== src/Scheduler/Schedule/Ready.antt =====
-- The state between two calls of the thread library, and the parts of schedule that put a thread back
-- or take the next one, of scheduler+virtualMemoryManager/submission/my_pthread.c.
use rutgers_cs.Prelude.{
  ℕ, ◌+◌, ◌<◌, ◌≡◌, refl, true, List, [], ◌∷◌, ◌++◌, arith, if◌then◌else◌, ltb,
}
use rutgers_cs.Scheduler.Types.{Ptr, QueueAddr, run, Machine, run_queues, running, Run, ok}
use rutgers_cs.Scheduler.Queues.{dequeue, get_next_thread, check_next_thread}
use rutgers_cs.Scheduler.Queues.Chain.{Queues, put, Queues-frame, IsFree, IsFree-frame}
use rutgers_cs.Scheduler.Queues.Enqueue.{enqueue-Queues}
use rutgers_cs.Scheduler.Queues.Dequeue.{dequeue-Queues}
use rutgers_cs.Scheduler.Queues.Next.{IsFirst, found, nothing, get_next_thread_lem}
use rutgers_cs.Scheduler.Schedule.{requeue, demote, dispatch, resume, resumed, start_slice}

-- The queues stand for `ls`, and the current thread is in none of them.
pub record IsReady (m : Machine) (ls : QueueAddr → List Ptr) : Type 0 where
  pub queues : Queues m ls
  pub current : IsFree m ls m.current_thread

-- The lists with the thread `p` at the end of run queue `i`.
abbrev pub add : Ptr → ℕ → (QueueAddr → List Ptr) → QueueAddr → List Ptr
add p i ls = put (run i) (ls (run i) ++ p ∷ []) ls

pub requeue-Queues :
    (m : Machine) (ls : QueueAddr → List Ptr) (p : Ptr) {k : ℕ}
    → (m.threads p).priority ≡ k
    → Queues m ls
    → IsFree m ls p
    → Queues (requeue p m) (add p k ls)
unfolding requeue
requeue-Queues m ls p e v f = rw (← e) (
    Queues-frame _ _ _ refl refl (λ a. refl)
      (enqueue-Queues _ ls p _ (Queues-frame m _ ls refl refl (λ a. ground arith) v) f.live f.out
        (ground (arith, f.end))))

-- The level that a thread falls to when its slice is used up.
abbrev pub lower : ℕ → ℕ
lower p = if ltb p 4 then p + 1 else 4

pub demote-Queues :
    (m : Machine) (ls : QueueAddr → List Ptr) (p : Ptr)
    → Queues m ls
    → IsFree m ls p
    → Queues (demote p m) (add p (lower (m.threads p).priority) ls)
unfolding demote
demote-Queues m ls p v f =
    requeue-Queues _ ls p (ground arith) (Queues-frame m _ ls refl refl (λ a. ground arith) v)
      (IsFree-frame _ (ground arith) f)

-- The lists after the first thread in use, `x`, was taken from run queue `j`.
pub record Taken (ls : QueueAddr → List Ptr) (x : Ptr) (ls' : QueueAddr → List Ptr) : Type 0 where
  pub j : ℕ
  pub xs : List Ptr
  pub below : j < run_queues
  pub first : IsFirst ls 0 j x xs
  pub lists : ls' ≡ put (run j) xs ls

-- What schedule comes to where it swaps the current thread for another: the queues stood for `ls`
-- once the current thread was put back.
pub record Swapped (ls : QueueAddr → List Ptr) (r : Run Machine) : Type 0 where
  pub m' : Machine
  pub ls' : QueueAddr → List Ptr
  pub ran : r ≡ ok m'
  pub taken : Taken ls m'.current_thread ls'
  pub ready : IsReady m' ls'
  pub state : (m'.threads m'.current_thread).state ≡ running
  pub open_again : m'.in_scheduler ≡ 0

check-dequeue :
    (m : Machine) (ls : QueueAddr → List Ptr)
    → Queues m ls
    → check_next_thread m ≡ true
    → (j x : ℕ) × (xs : List Ptr) × (j < run_queues)
      × IsFirst ls 0 j x xs
      × (get_next_thread m ≡ dequeue (run j) m)
unfolding check_next_thread get_next_thread
check-dequeue m ls v h = elim (get_next_thread_lem v) [
  | found j x xs first low check next ↦ (j, x, xs, low, first, next)
  | nothing empty check next ↦ cc
]

resume-Swapped :
    (g : Machine) {ls ls' : QueueAddr → List Ptr} (p x : Ptr)
    → Taken ls x ls'
    → Queues g ls'
    → IsFree g ls' x
    → Swapped ls (resume p x g)
unfolding resume start_slice
resume-Swapped g {ls} {ls'} p x taken v f = record {
  m' = resumed p x g;
  ls' = ls';
  ran = ground (arith, f.live);
  taken = taken;
  ready = record {
    queues = Queues-frame g _ ls' refl refl (λ a. ground arith) v;
    current = IsFree-frame _ (ground arith) f;
  };
  state = ground arith;
  open_again = refl;
}

-- dispatch goes on with the first thread of the first run queue in use.
pub dispatch-Swapped :
    (m : Machine) (ls : QueueAddr → List Ptr) (p : Ptr)
    → Queues m ls
    → check_next_thread m ≡ true
    → Swapped ls (dispatch p m)
unfolding dispatch
dispatch-Swapped m ls p v h =
    let (j, x, xs, low, first, next) = check-dequeue m ls v h in
    let (ptr, free, queues) = dequeue-Queues m ls (run j) x xs v first.holds in
    let taken : Taken ls x (put (run j) xs ls) = record {
      j = j;
      xs = xs;
      below = low;
      first = first;
      lists = refl;
    } in
    rw (next, ptr) (resume-Swapped _ p x taken queues free)
