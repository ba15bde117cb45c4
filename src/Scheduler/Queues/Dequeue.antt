-- ===== src/Scheduler/Queues/Dequeue.antt =====
-- dequeue of scheduler+virtualMemoryManager/submission/my_pthread.c takes the thread at the front.
use rutgers_cs.Prelude.{
  ◌≡◌, ◌≢◌, refl, true, false, List, [], ◌∷◌, arith, ◌==◌, if◌then◌else◌, has, Bool-cases, inl, inr,
  sym, ◌∙◌,
}
use rutgers_cs.Scheduler.Types.{
  Ptr, null, Queue, empty_queue, QueueAddr, run, wait, Machine, read_queue,
}
use rutgers_cs.Scheduler.Queues.{dequeue}
use rutgers_cs.Scheduler.Queues.Chain.{
  Threads, IsQueue, link, same_addr, eq_of_same_addr, put, Queues, IsFree, IsQueue-frame,
  Chain-frame,
}
use rutgers_cs.Scheduler.Queues.Enqueue.{not-has-both}

-- The queue and the control blocks after the call, where the queue is not empty.
abbrev pub rest_queue : Threads → Queue → Queue
rest_queue h q =
    if (h q.front).next == null then empty_queue else record q { front = (h q.front).next }

abbrev pub rest_threads : Threads → Queue → Threads
rest_threads h q = link h q.front null

-- On the empty queue nothing changes and the result is null.
pub dequeue-nil :
    (k : QueueAddr) (m : Machine) {ls : QueueAddr → List Ptr}
    → Queues m ls
    → ls k ≡ []
    → dequeue k m ≡ (null, m)
unfolding dequeue
dequeue-nil k m {ls} v e =
    let q : IsQueue m.threads (read_queue k m) [] = rw e at (v.each k) in rw (q.chain)

pub ptr-dequeue : (k : QueueAddr) (m : Machine) → (dequeue k m).0 ≡ (read_queue k m).front
unfolding dequeue
ptr-dequeue (run i) m = ground arith
ptr-dequeue (wait p) m = ground arith

pub threads-dequeue :
    (k : QueueAddr) (m : Machine)
    → (read_queue k m).front ≢ null
    → (dequeue k m).1.threads ≡ rest_threads m.threads (read_queue k m)
unfolding dequeue
threads-dequeue (run i) m live = ground arith
threads-dequeue (wait p) m live = ground arith

pub read_queue-dequeue :
    (k l : QueueAddr) (m : Machine)
    → (read_queue k m).front ≢ null
    → read_queue l (dequeue k m).1
      ≡ (if same_addr l k then rest_queue m.threads (read_queue k m) else read_queue l m)
unfolding dequeue same_addr
read_queue-dequeue (run i) (run j) m live = ground arith
read_queue-dequeue (run i) (wait q) m live = ground arith
read_queue-dequeue (wait p) (run j) m live = ground arith
read_queue-dequeue (wait p) (wait q) m live = ground arith

IsQueue-rest :
    (h : Threads) (q : Queue) (x : Ptr) (xs : List Ptr)
    → IsQueue h q (x ∷ xs)
    → IsQueue (rest_threads h q) (rest_queue h q) xs
IsQueue-rest h q x [] v =
    rw (v.chain.0, v.chain.2) (record { chain = refl; rear = refl; distinct = tt })
IsQueue-rest h q x (y ∷ ys) v =
    let next : ((h q.front).next == null) ≡ false = ground arith in
    rw next (record {
      chain =
          Chain-frame h (rest_threads h q) _ (y ∷ ys) (λ a i. ground arith)
            (ground arith, v.chain.2.1, v.chain.2.2);
      rear = v.rear;
      distinct = v.distinct.1;
    })

-- The thread taken off stands in no queue but its own.
IsQueue-other :
    (h : Threads) (q r : Queue) (x : Ptr) (ys : List Ptr)
    → q.front ≡ x
    → has x ys ≡ false
    → IsQueue h r ys
    → IsQueue (rest_threads h q) r ys
IsQueue-other h q r x ys e out v = IsQueue-frame h (rest_threads h q) r ys (λ a i. ground arith) v

has-put :
    (ls : QueueAddr → List Ptr) (x : Ptr) (xs : List Ptr) (k l : QueueAddr) (p : Ptr)
    → ls k ≡ x ∷ xs
    → has p (put k xs ls l) ≡ true
    → has p (ls l) ≡ true
has-put ls x xs k l p e i = elim (Bool-cases (same_addr l k)) [
  | inl s ↦ rw (eq_of_same_addr l k s, e) (ground arith)
  | inr s ↦ ground arith
]

-- dequeue returns the first thread of the list, which is in no queue and linked to none from then on,
-- and keeps the rest.
pub dequeue-Queues :
    (m : Machine) (ls : QueueAddr → List Ptr) (k : QueueAddr) (x : Ptr) (xs : List Ptr)
    → Queues m ls
    → ls k ≡ x ∷ xs
    → ((dequeue k m).0 ≡ x)
      × IsFree (dequeue k m).1 (put k xs ls) x
      × Queues (dequeue k m).1 (put k xs ls)
dequeue-Queues m ls k x xs v e = (
  rw (ptr-dequeue k m) front,
  free,
  record {
    each = each;
    apart = λ l j p a b. v.apart l j p (has-put ls x xs k l p e a) (has-put ls x xs k j p e b);
  },
)
  where
    old : IsQueue m.threads (read_queue k m) (x ∷ xs)
    old = rw e at (v.each k)

    front : (read_queue k m).front ≡ x
    front = old.chain.0

    live : (read_queue k m).front ≢ null
    live = λ z. old.chain.1 (sym front ∙ z)

    out : (l : QueueAddr) → same_addr l k ≡ false → has x (ls l) ≡ false
    out l s = elim (Bool-cases (has x (ls l))) [
      | inl i ↦ absurd (not-has-both v k l s x (rw e (ground arith)) i)
      | inr i ↦ i
    ]

    free : IsFree (dequeue k m).1 (put k xs ls) x
    free = record {
      live = old.chain.1;
      out = λ l. elim (Bool-cases (same_addr l k)) [
        | inl s ↦ rw s old.distinct.0
        | inr s ↦ rw s (out l s)
      ];
      end = rw (threads-dequeue k m live) (ground (arith, front));
    }

    each :
        (l : QueueAddr)
        → IsQueue (dequeue k m).1.threads (read_queue l (dequeue k m).1) (put k xs ls l)
    each l =
        rw (read_queue-dequeue k l m live, threads-dequeue k m live)
          (elim (Bool-cases (same_addr l k)) [
            | inl s ↦ rw s (IsQueue-rest m.threads (read_queue k m) x xs old)
            | inr s ↦ rw s (
                IsQueue-other m.threads (read_queue k m) (read_queue l m) x (ls l) front (out l s)
                  (v.each l))
          ])
