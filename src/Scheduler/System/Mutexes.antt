-- ===== src/Scheduler/System/Mutexes.antt =====
-- The calls of scheduler+virtualMemoryManager/submission/my_pthread.c that concern a mutex, from a sound
-- state.
use rutgers_cs.Prelude.{
  ℕ, ◌≡◌, ◌≢◌, refl, Bool, true, false, List, [], ◌∷◌, ◌==◌, arith, has, Bool-cases, inl, inr, ◌⊎◌,
  ◌∙◌, sym, ap, update,
}
use mathlib.Core.Path.{subst}
use rutgers_cs.Prelude.Run.{first_ran}
use rutgers_cs.Scheduler.Types.{
  Ptr, null, QueueAddr, run, wait, Machine, Run, ok, blocked, ◌>>=◌, read_queue, empty_queue,
}
use rutgers_cs.Scheduler.Queues.{check_next_thread, check_from}
use rutgers_cs.Scheduler.Queues.Chain.{same_addr, put, Queues, Queues-frame, IsQueue, IsFree-frame}
use rutgers_cs.Scheduler.Schedule.{schedule}
use rutgers_cs.Scheduler.Schedule.Swap.{used_of_check}
use rutgers_cs.Scheduler.Schedule.Flags.{enqueue-Steady}
use rutgers_cs.Scheduler.Schedule.Total.{Scheduled, schedule-IsReady}
use rutgers_cs.Scheduler.Api.{set_state}
use rutgers_cs.Scheduler.Mutex.{Status, success, mutex_init, set_flag, block_on, lock_round}
use rutgers_cs.Scheduler.Mutex.Waiting.{block_on-Queues, block_on_lem, add_waiter}
use rutgers_cs.Scheduler.System.{Enough}
use rutgers_cs.Scheduler.System.Invariant.{IsSound, Scheduled-Kept}

-- A call on the mutex `x` leaves a sound state, the flag of `x` at `v` and all other flags as they were.
pub record Flagged (x v : ℕ) (m m' : Machine) : Type 0 where
  pub sound : IsSound m'
  pub flags : m'.flag ≡ update m.flag x v

ok-pair : (r r' : Bool × Machine) → ok r ≡ ok r' → r ≡ r'
ok-pair r r' e = cc

pub init-Queues :
    (x : Ptr) (m : Machine) (ls : QueueAddr → List Ptr)
    → Queues m ls
    → Queues
        (record m { wait_queue = update m.wait_queue x empty_queue; flag = update m.flag x 0 })
        (put (wait x) [] ls)
unfolding same_addr read_queue
init-Queues x m ls v = record {
  each = each;
  apart = λ k l p a b. v.apart k l p (old k p a) (old l p b);
}
  where
    old : (k : QueueAddr) (p : Ptr) → has p (put (wait x) [] ls k) ≡ true → has p (ls k) ≡ true
    old (run i) p h = h
    old (wait y) p h = ground (arith, h)

    each :
        (k : QueueAddr)
        → IsQueue m.threads
            (read_queue k (record m {
              wait_queue = update m.wait_queue x empty_queue;
              flag = update m.flag x 0;
            }))
            (put (wait x) [] ls k)
    each (run i) = v.each (run i)
    each (wait y) = elim (Bool-cases (y == x)) [
      | inl e ↦ rw e (record { chain = refl; rear = refl; distinct = tt })
      | inr e ↦ rw e (v.each (wait y))
    ]

pub mutex_init-Flagged :
    (x : Ptr) (m m' : Machine) → IsSound m → mutex_init x m ≡ (success, m') → Flagged x 0 m m'
unfolding mutex_init
mutex_init-Flagged x m m' s e = elim (Bool-cases (x == null)) [
  | inl none ↦ absurd (cc (rw none at e))
  | inr some ↦ subst (Flagged x 0 m) (ap (λ (r : Status × Machine). r.1) (rw some at e)) (record {
    sound = record {
      ls = put (wait x) [] s.ls;
      ready = record {
        queues = init-Queues x m s.ls s.ready.queues;
        current = record {
          live = s.ready.current.live;
          out = λ k. ground (arith, s.ready.current.out k);
          end = s.ready.current.end;
        };
      };
      alive = s.alive;
    };
    flags = refl;
  })
]

pub set_flag-IsSound : (x v : ℕ) (m : Machine) → IsSound m → IsSound (set_flag x v m)
set_flag-IsSound x v m s = record {
  ls = s.ls;
  ready = record {
    queues = Queues-frame m _ s.ls refl refl (λ a. refl) s.ready.queues;
    current = IsFree-frame (set_flag x v m) refl s.ready.current;
  };
  alive = s.alive;
}

-- What lock_round comes to where it returns.
module _ (fuel x : ℕ) (m : Machine) where
  abbrev waiting : Run (Bool × Machine)
  waiting =
      let answer : Machine → Run (Bool × Machine) = λ g. ok (false, g) in
      schedule fuel (block_on x (set_flag x 1 m)) >>= answer

  pub round_cases :
      (r : Bool × Machine)
      → lock_round fuel x m ≡ ok r
      → ((m.flag x ≢ 1) × ((true, set_flag x 1 m) ≡ r)) ⊎ (waiting ≡ ok r)
  unfolding lock_round
  round_cases r e = elim (Bool-cases (x == null)) [
    | inl none ↦ absurd (cc (rw none at e))
    | inr some ↦ elim (Bool-cases (m.flag x == 1)) [
      | inr free ↦ inl (ground (arith, free), ok-pair _ _ (rw (some, free) at e))
      | inl held ↦ elim (Bool-cases (m.current_thread == null)) [
        | inl gone ↦ absurd (cc (rw (some, held, gone) at e))
        | inr runs ↦ inr (rw (some, held, runs) at e)
      ]
    ]
  ]

  pub waited :
      (b : Bool) (m' : Machine)
      → waiting ≡ ok (b, m')
      → (b ≡ false) × (schedule fuel (block_on x (set_flag x 1 m)) ≡ ok m')
  waited b m' e =
      let answer : Machine → Run (Bool × Machine) = λ g. ok (false, g) in
      let (g, ran, h) = first_ran (schedule fuel (block_on x (set_flag x 1 m))) answer e in
      let same : (false, g) ≡ (b, m') = ok-pair _ _ h in
      (
        sym (ap (λ (r : Bool × Machine). r.0) same),
        ran ∙ ap ok (ap (λ (r : Bool × Machine). r.1) same),
      )

-- The round that takes the mutex finds it free.
pub lock_round-takes :
    (fuel x : ℕ) (m m' : Machine)
    → IsSound m
    → lock_round fuel x m ≡ ok (true, m')
    → Flagged x 1 m m' × (m.flag x ≢ 1) × (m'.current_thread ≡ m.current_thread)
lock_round-takes fuel x m m' s e = elim (round_cases fuel x m (true, m') e) [
  | inl (free, same) ↦
      let last : set_flag x 1 m ≡ m' = ap (λ (r : Bool × Machine). r.1) same in
      subst (λ g. Flagged x 1 m g × (m.flag x ≢ 1) × (g.current_thread ≡ m.current_thread)) last
        (record { sound = set_flag-IsSound x 1 m s; flags = refl }, free, refl)
  | inr waits ↦ absurd (cc ((waited fuel x m true m' waits).0))
]

head_waits : (xs : List Ptr) → xs ≢ [] → (p : Ptr) × (has p xs ≡ true)
head_waits [] h = absurd (h refl)
head_waits (x ∷ xs) h = (x, ground arith)

block_on-flag : (x : Ptr) (m : Machine) → (block_on x m).flag ≡ m.flag
unfolding block_on
block_on-flag x m =
    let e = enqueue-Steady m.current_thread (wait x) (set_state m.current_thread blocked m) in
    e.flags

-- schedule, called by the thread that waits.
pub block_on-Scheduled :
    (fuel x : ℕ) (m : Machine) (s : IsSound m)
    → Enough fuel m
    → check_next_thread m ≡ true
    → Scheduled fuel (block_on x (set_flag x 1 m)) (add_waiter m.current_thread x s.ls)
unfolding same_addr check_next_thread check_from set_flag-IsSound
block_on-Scheduled fuel x m s enough check =
    let g = set_flag x 1 m in
    let sg = set_flag-IsSound x 1 m s in
    let (cur, cycle, state) = block_on_lem x g s.ls sg.ready in
    let (j, low, used) = used_of_check s.ready.queues check in
    let (p, h) = head_waits (s.ls (run j)) used in
    let run_state : ((block_on x g).threads (block_on x g).current_thread).state ≡ blocked =
      rw cur state in
    schedule-IsReady fuel (block_on x g) (add_waiter m.current_thread x s.ls)
      (block_on-Queues x g s.ls sg.ready) (enough s.ls s.ready.queues) (rw cur s.ready.current.live)
      (λ no. absurd (no run_state)) (λ _. (p, j, low, h))

-- The round that waits: another thread runs when it returns, and the mutex is taken as before.
pub lock_round-blocks :
    (fuel x : ℕ) (m m' : Machine)
    → IsSound m
    → Enough fuel m
    → check_next_thread m ≡ true
    → lock_round fuel x m ≡ ok (false, m')
    → Flagged x 1 m m'
lock_round-blocks fuel x m m' s enough check e = elim (round_cases fuel x m (false, m') e) [
  | inl (free, same) ↦
      let wrong : true ≡ false = ap (λ (r : Bool × Machine). r.0) same in absurd (cc)
  | inr waits ↦
      let k =
        Scheduled-Kept fuel (block_on x (set_flag x 1 m)) m'
          (block_on-Scheduled fuel x m s enough check) (waited fuel x m false m' waits).1 in
      record { sound = k.sound; flags = k.steady.flags ∙ block_on-flag x (set_flag x 1 m) }
]
