-- ===== src/Scheduler/System/Wake.antt =====
-- my_pthread_mutex_unlock of scheduler+virtualMemoryManager/submission/my_pthread.c from a sound state, and the
-- thread that it wakes up.
use rutgers_cs.Prelude.{
  ◌≡◌, ◌≢◌, refl, true, false, List, [], ◌∷◌, ◌==◌, arith, has, Bool-cases, List-cases, inl, inr,
  ◌∙◌, ap, update,
}
use mathlib.Core.Path.{subst}
use rutgers_cs.Scheduler.Types.{Ptr, null, QueueAddr, run, wait, Machine, ok, read_queue}
use rutgers_cs.Scheduler.Queues.{enqueue, dequeue}
use rutgers_cs.Scheduler.Queues.Chain.{same_addr, eq_of_same_addr, put, Queues-frame, IsQueue}
use rutgers_cs.Scheduler.Queues.Dequeue.{dequeue-Queues, threads-dequeue}
use rutgers_cs.Scheduler.Schedule.Flags.{enqueue-Steady, dequeue-Steady}
use rutgers_cs.Scheduler.Mutex.{wake_one, unlock}
use rutgers_cs.Scheduler.Mutex.Waiting.{woken, wake_one_lem, dequeue_lem}
use rutgers_cs.Scheduler.System.Invariant.{IsSound, Kept, ok-eq, enqueue-IsSound, current-enqueue}
use rutgers_cs.Scheduler.System.Mutexes.{Flagged, set_flag-IsSound}

-- The state after the first thread that waits, `y`, was taken off the queue of the mutex.
module _ (x y : Ptr) (ys : List Ptr) (m : Machine) (s : IsSound m)
    (first : s.ls (wait x) ≡ y ∷ ys) where
  other : y ≢ m.current_thread
  other e = ground (arith, e, s.ready.current.out (wait x), ap (has m.current_thread) first)

  pub has-rest :
      (p : Ptr) (k : QueueAddr) → has p (s.ls k) ≡ false → has p (put (wait x) ys s.ls k) ≡ false
  has-rest p k out = elim (Bool-cases (same_addr k (wait x))) [
    | inl e ↦
        let same : has p (s.ls (wait x)) ≡ false =
          subst (λ l. has p (s.ls l) ≡ false) (eq_of_same_addr k (wait x) e) out in
        rw e (ground (arith, ap (has p) first, same))
    | inr e ↦ rw e out
  ]

  front : (read_queue (wait x) m).front ≢ null
  front =
      let q : IsQueue m.threads (read_queue (wait x) m) (y ∷ ys) =
        rw first at (s.ready.queues.each (wait x)) in
      ground (arith, q.chain.0, q.chain.1)

  thread_other : ((dequeue (wait x) m).1.threads m.current_thread) ≡ m.threads m.current_thread
  thread_other =
      let q : IsQueue m.threads (read_queue (wait x) m) (y ∷ ys) =
        rw first at (s.ready.queues.each (wait x)) in
      rw (threads-dequeue (wait x) m front) (ground (arith, other, q.chain.0))

  pub woken-IsSound : IsSound (woken y x m)
  woken-IsSound =
      let (ptr, free, queues) = dequeue-Queues m s.ls (wait x) y ys s.ready.queues first in
      let (cur, _) = dequeue_lem x y m in
      let apart : (m.current_thread == y) ≡ false = ground (arith, other) in
      record {
        ls = put (wait x) ys s.ls;
        ready = record {
          queues = Queues-frame _ _ _ refl refl (λ a. ground arith) queues;
          current = record {
            live = rw cur s.ready.current.live;
            out = λ k. rw cur (has-rest m.current_thread k (s.ready.current.out k));
            end = rw (cur, apart) (ap (λ t. t.next) thread_other ∙ s.ready.current.end);
          };
        };
        alive = rw (cur, apart, thread_other) s.alive;
      }

  abbrev pub awake : Machine
  awake = enqueue y (run (m.threads y).priority) (woken y x m)

  pub awake-Kept : Kept m awake × (awake.current_thread ≡ m.current_thread)
  unfolding woken-IsSound
  awake-Kept =
      let (ptr, free, queues) = dequeue-Queues m s.ls (wait x) y ys s.ready.queues first in
      let (cur, _) = dequeue_lem x y m in
      let a = dequeue-Steady (wait x) m in
      let b = enqueue-Steady y (run (m.threads y).priority) (woken y x m) in
      (
        record {
          sound =
              enqueue-IsSound y (run (m.threads y).priority) (woken y x m) woken-IsSound
                (free.live, free.out) (ground (arith, free.end)) (rw cur other);
          steady = record { flags = b.flags ∙ a.flags; first = b.first ∙ a.first };
        },
        current-enqueue y (run (m.threads y).priority) (woken y x m) ∙ cur,
      )

pub wake_one-nil : (x : Ptr) (m : Machine) (s : IsSound m) → s.ls (wait x) ≡ [] → wake_one x m ≡ m
unfolding wake_one read_queue
wake_one-nil x m s e =
    let q : IsQueue m.threads (m.wait_queue x) [] = rw e at (s.ready.queues.each (wait x)) in
    let used : ((m.wait_queue x).front == null) ≡ true = ground (arith, q.chain) in rw used refl

wake_one-Kept :
    (x : Ptr) (m : Machine)
    → IsSound m
    → Kept m (wake_one x m) × ((wake_one x m).current_thread ≡ m.current_thread)
wake_one-Kept x m s = elim (List-cases (s.ls (wait x))) [
  | inl e ↦
      rw (wake_one-nil x m s e)
        (record { sound = s; steady = record { flags = refl; first = refl } }, refl)
  | inr (y, ys, e) ↦ rw (wake_one_lem x m s.ls y ys s.ready e) (awake-Kept x y ys m s e)
]

-- The thread that unlocks goes on.
pub unlock-Flagged :
    (x : Ptr) (m m' : Machine)
    → IsSound m
    → unlock x m ≡ ok m'
    → Flagged x 0 m m' × (m'.current_thread ≡ m.current_thread)
unfolding unlock
unlock-Flagged x m m' s e = elim (Bool-cases (x == null)) [
  | inl none ↦ absurd (cc (rw none at e))
  | inr some ↦
      let (k, cur) = wake_one-Kept x m s in
      subst (λ g. Flagged x 0 m g × (g.current_thread ≡ m.current_thread)) (ok-eq (rw some at e))
        (
          record {
            sound = set_flag-IsSound x 0 _ k.sound;
            flags = ap (λ f. update f x 0) k.steady.flags;
          },
          cur,
        )
]
