-- ===== src/Scheduler/Queues/Enqueue.antt =====
-- enqueue of scheduler+virtualMemoryManager/submission/my_pthread.c puts the thread at the end.
use rutgers_cs.Prelude.{
  ◌≡◌, ◌≢◌, refl, true, false, List, [], ◌∷◌, ◌++◌, arith, ◌==◌, if◌then◌else◌, has, Bool-cases,
  inl, inr, Distinct-append_one, last-append_one, has-last, has-append, ap, sym, ◌&&◌, ◌||◌,
}
use mathlib.Core.Path.{subst}
use rutgers_cs.Scheduler.Types.{Ptr, null, Queue, QueueAddr, run, wait, Machine, read_queue}
use rutgers_cs.Scheduler.Queues.{enqueue}
use rutgers_cs.Scheduler.Queues.Chain.{
  Threads, Chain, IsQueue, link, Chain-append_one, not-has-null, same_addr, eq_of_same_addr,
  same_addr_refl, put, Queues, IsQueue-frame,
}

-- The queue and the control blocks after the call.
abbrev pub new_queue : Ptr → Queue → Queue
new_queue t q = if q.rear == null then record { front = t; rear = t } else record q { rear = t }

abbrev pub new_threads : Ptr → Queue → Threads → Threads
new_threads t q h = if q.rear == null then h else link h q.rear t

pub threads-enqueue :
    (t : Ptr) (k : QueueAddr) (m : Machine)
    → (enqueue t k m).threads ≡ new_threads t (read_queue k m) m.threads
unfolding enqueue
threads-enqueue t (run i) m = ground arith
threads-enqueue t (wait p) m = ground arith

pub read_queue-enqueue :
    (t : Ptr) (k l : QueueAddr) (m : Machine)
    → read_queue l (enqueue t k m)
      ≡ (if same_addr l k then new_queue t (read_queue k m) else read_queue l m)
unfolding enqueue same_addr
read_queue-enqueue t (run i) (run j) m = ground arith
read_queue-enqueue t (run i) (wait q) m = ground arith
read_queue-enqueue t (wait p) (run j) m = ground arith
read_queue-enqueue t (wait p) (wait q) m = ground arith

-- On one queue.
IsQueue-append_one :
    (h : Threads) (q : Queue) (t : Ptr) (xs : List Ptr)
    → IsQueue h q xs
    → has t xs ≡ false
    → t ≢ null
    → (h t).next ≡ null
    → IsQueue (new_threads t q h) (new_queue t q) (xs ++ t ∷ [])
IsQueue-append_one h q t [] v new live end =
    rw v.rear (record { chain = (refl, live, end); rear = refl; distinct = (refl, tt) })
IsQueue-append_one h q t (x ∷ xs) v new live end =
    let used : (q.rear == null) ≡ false =
      ground (arith, not-has-null h q.front (x ∷ xs) v.chain, has-last null x xs, v.rear) in
    rw used (record {
      chain =
          subst (λ r. Chain (link h r t) q.front (x ∷ xs ++ t ∷ [])) (sym v.rear)
            (Chain-append_one h q.front t x xs v.chain v.distinct new live end);
      rear = rw (last-append_one null t (x ∷ xs));
      distinct = Distinct-append_one t (x ∷ xs) v.distinct new;
    })

-- On another queue, whose list shares no thread with the one that is written.
IsQueue-spared :
    (h : Threads) (q r : Queue) (t : Ptr) (xs ys : List Ptr)
    → IsQueue h q xs
    → IsQueue h r ys
    → ((p : Ptr) → has p xs ≡ true → has p ys ≡ true → ⊥)
    → IsQueue (new_threads t q h) r ys
IsQueue-spared h q r t [] ys v w apart = rw v.rear w
IsQueue-spared h q r t (x ∷ xs) ys v w apart =
    IsQueue-frame h (new_threads t q h) r ys
      (λ a i. ground (arith, apart a, has-last null x xs, v.rear)) w

-- The list of one queue shares no thread with that of another.
pub not-has-both :
    {m : Machine} {ls : QueueAddr → List Ptr} (v : Queues m ls) (k l : QueueAddr)
    → same_addr l k ≡ false
    → (p : Ptr) → has p (ls k) ≡ true
    → has p (ls l) ≡ true
    → ⊥
not-has-both v k l ne p i j =
    let same : l ≡ k = v.apart l k p j i in cc (same_addr_refl k, ap (λ a. same_addr a k) same)

pub has-put-append_one :
    (ls : QueueAddr → List Ptr) (t : Ptr) (k l : QueueAddr) (p : Ptr)
    → has p (put k (ls k ++ t ∷ []) ls l) ≡ ((same_addr l k && (p == t)) || has p (ls l))
has-put-append_one ls t k l p = elim (Bool-cases (same_addr l k)) [
  | inl e ↦ rw (e, eq_of_same_addr l k e) (ground (arith, has-append p (ls k) (t ∷ [])))
  | inr e ↦ rw e
]

-- enqueue appends the thread to the list of its queue and leaves the other queues as they are. The
-- thread must be in no queue, and its `next` must be NULL.
pub enqueue-Queues :
    (m : Machine) (ls : QueueAddr → List Ptr) (t : Ptr) (k : QueueAddr)
    → Queues m ls
    → t ≢ null
    → ((l : QueueAddr) → has t (ls l) ≡ false)
    → (m.threads t).next ≡ null
    → Queues (enqueue t k m) (put k (ls k ++ t ∷ []) ls)
enqueue-Queues m ls t k v live new end = record { each = each; apart = apart }
  where
    each :
        (l : QueueAddr)
        → IsQueue
            (enqueue t k m).threads
            (read_queue l (enqueue t k m))
            (put k (ls k ++ t ∷ []) ls l)
    each l =
        rw (read_queue-enqueue t k l m, threads-enqueue t k m)
          (elim (Bool-cases (same_addr l k)) [
            | inl e ↦ rw e (IsQueue-append_one m.threads _ t (ls k) (v.each k) (new k) live end)
            | inr e ↦ rw e (
                IsQueue-spared m.threads _ _ t (ls k) (ls l) (v.each k) (v.each l)
                  (not-has-both v k l e))
          ])

    apart :
        (l j : QueueAddr) (p : Ptr)
        → has p (put k (ls k ++ t ∷ []) ls l) ≡ true
        → has p (put k (ls k ++ t ∷ []) ls j) ≡ true
        → l ≡ j
    apart l j p a b = ground (
      arith,
      has-put-append_one ls t k l p,
      has-put-append_one ls t k j p,
      v.apart l j p,
      new l,
      new j,
      eq_of_same_addr l k,
      eq_of_same_addr j k,
    )
