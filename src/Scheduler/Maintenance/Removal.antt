-- ===== src/Scheduler/Maintenance/Removal.antt =====
-- One thread is taken out of its run queue by maintenance of
-- scheduler+virtualMemoryManager/submission/my_pthread.c.
use rutgers_cs.Prelude.{
  ℕ, ◌≡◌, ◌≢◌, refl, true, false, List, [], ◌∷◌, ◌++◌, if◌then◌else◌, ◌==◌, arith, has, last,
  has-append, Bool-cases, inl, inr, ◌∙◌, update, ap,
}
use rutgers_cs.Scheduler.Types.{
  Ptr, null, Queue, empty_queue, QueueAddr, run, wait, Machine, ok, read_queue, write_thread,
}
use rutgers_cs.Scheduler.Alike.{Alike}
use rutgers_cs.Scheduler.Queues.Chain.{
  Threads, Chain, IsQueue, IsQueue-frame, same_addr, eq_of_same_addr, put, Queues, not-has-null,
}
use rutgers_cs.Scheduler.Queues.Enqueue.{not-has-both}
use rutgers_cs.Scheduler.Maintenance.{remove_from}
use rutgers_cs.Scheduler.Maintenance.Remove.{
  cut_queue, cut_threads, IsQueue-cut, next-cut_threads, has-last_append, Distinct-remove,
  Chain-behind,
}

-- The state after `x`, behind `prev`, was taken out of run queue `i`.
pub record Removed (i : ℕ) (x prev : Ptr) (m m' : Machine) : Type 0 where
  pub ran : remove_from i x prev m ≡ ok m'
  pub threads : m'.threads ≡ cut_threads m.threads (m.run_queue i) x prev
  pub queue :
      (k : QueueAddr)
      → read_queue k m' ≡ (
          if same_addr k (run i)
          then cut_queue m.threads (m.run_queue i) x prev
          else read_queue k m)
  pub alike : Alike m m'
  pub readings : m'.readings ≡ m.readings

read_queue-set :
    (i : ℕ) (q : Queue) (h : Threads) (m : Machine) (k : QueueAddr)
    → read_queue k (record m { threads = h; run_queue = update m.run_queue i q })
      ≡ (if same_addr k (run i) then q else read_queue k m)
unfolding read_queue same_addr
read_queue-set i q h m (run j) = refl
read_queue-set i q h m (wait p) = refl

read_queue-same :
    (i : ℕ) (m : Machine) (k : QueueAddr)
    → read_queue k m ≡ (if same_addr k (run i) then m.run_queue i else read_queue k m)
unfolding read_queue same_addr
read_queue-same i m (run j) = ground arith
read_queue-same i m (wait p) = refl

read_queue-link :
    (h : Threads) (m : Machine) (k : QueueAddr)
    → read_queue k (record m { threads = h }) ≡ read_queue k m
unfolding read_queue
read_queue-link h m (run j) = refl
read_queue-link h m (wait a) = refl

module _ (i : ℕ) (x prev : Ptr) (m : Machine) where
  remove_front : (x == (m.run_queue i).front) ≡ true → (m' : Machine) × Removed i x prev m m'
  unfolding remove_from
  remove_front e = (
    record m {
      run_queue = update m.run_queue i (
          if (m.threads (m.run_queue i).front).next == null
          then empty_queue
          else record (m.run_queue i) { front = (m.threads (m.run_queue i).front).next });
    },
    record {
      ran = rw e refl;
      threads = rw e refl;
      queue = λ k. rw e (read_queue-set i _ m.threads m k);
      alike = record {
        current = refl;
        flags = refl;
        clocks = refl;
        cycle = refl;
        within = refl;
        swaps = refl;
        first = refl;
        states = λ a. refl;
        lives = λ a. refl;
        values = λ a. refl;
      };
      readings = refl;
    },
  )

  remove_behind :
      (x == (m.run_queue i).front) ≡ false → prev ≢ null → (m' : Machine) × Removed i x prev m m'
  unfolding remove_from
  remove_behind e live =
      let real : (prev == null) ≡ false = ground (arith, live) in
      let linked = write_thread prev (record (m.threads prev) { next = (m.threads x).next }) m in
      elim (Bool-cases ((m.threads x).next == null)) [
        | inl end ↦ (
          record linked {
            run_queue = update m.run_queue i (record (m.run_queue i) { rear = prev });
          },
          record {
            ran = rw (e, real, end) refl;
            threads = rw e refl;
            queue = λ k. rw (e, end) (read_queue-set i _ linked.threads m k);
            alike = record {
              current = refl;
              flags = refl;
              clocks = refl;
              cycle = refl;
              within = refl;
              swaps = refl;
              first = refl;
              states = λ a. ground arith;
              lives = λ a. ground arith;
              values = λ a. ground arith;
            };
            readings = refl;
          },
        )
        | inr more ↦ (
          linked,
          record {
            ran = rw (e, real, more) refl;
            threads = rw e refl;
            queue = λ k. rw (e, more) (read_queue-link linked.threads m k ∙ read_queue-same i m k);
            alike = record {
              current = refl;
              flags = refl;
              clocks = refl;
              cycle = refl;
              within = refl;
              swaps = refl;
              first = refl;
              states = λ a. ground arith;
              lives = λ a. ground arith;
              values = λ a. ground arith;
            };
            readings = refl;
          },
        )
      ]

  -- The thread is taken out of the list of its queue, and is in no queue then.
  module _ {ls : QueueAddr → List Ptr} (v : Queues m ls) (pre post : List Ptr)
      (here : ls (run i) ≡ pre ++ x ∷ post) (before : prev ≡ last null pre) where
    front_IsQueue : IsQueue m.threads (read_queue (run i) m) (pre ++ x ∷ post)
    front_IsQueue = rw here at (v.each (run i))

    has-before : (a : Ptr) → has a (pre ++ post) ≡ true → has a (ls (run i)) ≡ true
    has-before a h = rw here (ground (arith, h, has-append a pre post, has-append a pre (x ∷ post)))

    has-remove :
        (k : QueueAddr) (a : Ptr)
        → has a (put (run i) (pre ++ post) ls k) ≡ true
        → has a (ls k) ≡ true
    has-remove k a h = elim (Bool-cases (same_addr k (run i))) [
      | inl e ↦ rw (eq_of_same_addr k (run i) e) (has-before a (rw e at h))
      | inr e ↦ rw e at h
    ]

    apart :
        (k : QueueAddr)
        → same_addr k (run i) ≡ false
        → (a : Ptr) → has a (ls (run i)) ≡ true
        → has a (ls k) ≡ false
    apart k e a h = elim (Bool-cases (has a (ls k))) [
      | inl both ↦ absurd (not-has-both v (run i) k e a h both)
      | inr out ↦ out
    ]

    -- The thread stands in no list then.
    pub not-has_removed : (k : QueueAddr) → has x (put (run i) (pre ++ post) ls k) ≡ false
    not-has_removed k = elim (Bool-cases (same_addr k (run i))) [
      | inl e ↦ rw e (Distinct-remove x pre post front_IsQueue.distinct).1
      | inr e ↦ rw e (apart k e x (rw here (ground (arith, has-append x pre (x ∷ post)))))
    ]

    IsQueue-remove_from :
        {m' : Machine}
        → Removed i x prev m m'
        → (k : QueueAddr) → IsQueue m'.threads (read_queue k m') (put (run i) (pre ++ post) ls k)
    unfolding read_queue
    IsQueue-remove_from r k =
        rw (r.queue k, r.threads, before)
          (elim (Bool-cases (same_addr k (run i))) [
            | inl e ↦ rw e (IsQueue-cut m.threads (m.run_queue i) x pre post front_IsQueue)
            | inr e ↦ rw e (
                IsQueue-frame m.threads _ _ (ls k)
                  (λ a h. next-cut_threads m.threads (m.run_queue i) x pre post a front_IsQueue (
                    inl (elim (Bool-cases (has a (pre ++ x ∷ post))) [
                      | inl both ↦ absurd (cc (apart k e a (rw here both), h))
                      | inr out ↦ out
                    ])))
                  (v.each k))
          ])

    pub Removed-Queues :
        {m' : Machine} → Removed i x prev m m' → Queues m' (put (run i) (pre ++ post) ls)
    Removed-Queues r = record {
      each = IsQueue-remove_from r;
      apart = λ k l a h j. v.apart k l a (has-remove k a h) (has-remove l a j);
    }

    pub next-remove_from :
        {m' : Machine} → Removed i x prev m m' → (m'.threads x).next ≡ (m.threads x).next
    unfolding read_queue
    next-remove_from r =
        rw (r.threads, before)
          (next-cut_threads m.threads (m.run_queue i) x pre post x front_IsQueue (inr refl))

    pub next-remove_from_out :
        {m' : Machine}
        → Removed i x prev m m'
        → (a : Ptr) → has a (ls (run i)) ≡ false
        → (m'.threads a).next ≡ (m.threads a).next
    unfolding read_queue
    next-remove_from_out r a out =
        rw (r.threads, before)
          (next-cut_threads m.threads (m.run_queue i) x pre post a front_IsQueue
            (inl (rw here at out)))

    pub next_after : Chain m.threads (m.threads x).next post
    next_after = Chain-behind m.threads _ x pre post front_IsQueue.chain

    pub removal : (m' : Machine) × Removed i x prev m m'
    unfolding read_queue
    removal = split pre refl front_IsQueue
      where
        split :
            (ps : List Ptr)
            → pre ≡ ps
            → IsQueue m.threads (m.run_queue i) (ps ++ x ∷ post)
            → (m' : Machine) × Removed i x prev m m'
        split [] e q = remove_front (ground (arith, q.chain.0))
        split (a ∷ ps) e q =
            let last_of : prev ≡ last a ps = before ∙ ap (last null) e in
            remove_behind (ground (arith, q.chain.0, q.distinct.0, has-append a ps (x ∷ post)))
              (λ z. cc (
                not-has-null m.threads _ (a ∷ ps ++ x ∷ post) q.chain,
                has-last_append a x ps post,
                last_of,
                z,
              ))
