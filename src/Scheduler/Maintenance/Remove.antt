-- ===== src/Scheduler/Maintenance/Remove.antt =====
-- The removal of a thread from the middle of its queue, and its promotion, of maintenance in
-- scheduler+virtualMemoryManager/submission/my_pthread.c.
use rutgers_cs.Prelude.{
  ◌≡◌, refl, true, false, List, [], ◌∷◌, ◌++◌, if◌then◌else◌, ◌⊎◌, ◌==◌, arith, has, last,
  has-append, has-last, Distinct, inl, inr, ◌∙◌,
}
use mathlib.Core.List.{append-nil}
use rutgers_cs.Scheduler.Types.{Ptr, null, Queue, empty_queue}
use rutgers_cs.Scheduler.Queues.Chain.{Threads, Chain, Chain-frame, IsQueue, link}

-- The parts of a list without repetitions have none, and share nothing.
pub Distinct-remove :
    (x : Ptr) (pre post : List Ptr)
    → Distinct (pre ++ x ∷ post)
    → Distinct (pre ++ post) × (has x (pre ++ post) ≡ false)
Distinct-remove x [] post d = (d.1, d.0)
Distinct-remove x (a ∷ pre) post d =
    let (rest, out) = Distinct-remove x pre post d.1 in
    (
      (ground (arith, d.0, has-append a pre (x ∷ post), has-append a pre post), rest),
      ground (arith, d.0, out, has-append a pre (x ∷ post)),
    )

pub has-last_append :
    (a x : Ptr) (pre post : List Ptr) → has (last a pre) (a ∷ pre ++ x ∷ post) ≡ true
has-last_append a x pre post =
    ground (arith, has-last 0 a pre, has-append (last a pre) pre (x ∷ post))

-- The thread before `x` is linked to the one behind it.
Chain-remove :
    (h : Threads) (p a x : Ptr) (pre post : List Ptr)
    → Chain h p (a ∷ pre ++ x ∷ post)
    → Distinct (a ∷ pre ++ x ∷ post)
    → Chain (link h (last a pre) (h x).next) p (a ∷ pre ++ post)
Chain-remove h p a x [] post c d = (
  c.0,
  c.1,
  Chain-frame h (link h a (h x).next) _ post (λ b i. ground arith) (ground (arith, c.2.2)),
)
Chain-remove h p a x (b ∷ pre) post c d =
    let other : (a == last b pre) ≡ false = ground (arith, has-last_append b x pre post) in
    (c.0, c.1, rw other (Chain-remove h _ b x pre post c.2 d.1))

last-append : (d y : Ptr) (xs ys : List Ptr) → last d (xs ++ y ∷ ys) ≡ last y ys
last-append d y [] ys = refl
last-append d y (x ∷ xs) ys = last-append x y xs ys

-- The queue and the control blocks after `x` was taken out, `prev` being the thread before it.
abbrev pub cut_queue : Threads → Queue → Ptr → Ptr → Queue
cut_queue h q x prev =
    if x == q.front
    then (if (h q.front).next == null then empty_queue else record q { front = (h q.front).next })
    else if (h x).next == null
    then record q { rear = prev }
    else q

abbrev pub cut_threads : Threads → Queue → Ptr → Ptr → Threads
cut_threads h q x prev = if x == q.front then h else link h prev (h x).next

IsQueue-cut_front :
    (h : Threads) (q : Queue) (x : Ptr) (post : List Ptr)
    → IsQueue h q (x ∷ post)
    → IsQueue (cut_threads h q x null) (cut_queue h q x null) post
IsQueue-cut_front h q x [] v =
    let front : (x == q.front) ≡ true = ground (arith, v.chain.0) in
    let end : ((h q.front).next == null) ≡ true = ground (arith, v.chain.0, v.chain.2) in
    rw (front, end) (record { chain = refl; rear = refl; distinct = tt })
IsQueue-cut_front h q x (y ∷ ys) v =
    let front : (x == q.front) ≡ true = ground (arith, v.chain.0) in
    let more : ((h q.front).next == null) ≡ false =
      ground (arith, v.chain.0, v.chain.2.0, v.chain.2.1) in
    rw (front, more)
      (record { chain = rw (v.chain.0) (v.chain.2); rear = v.rear; distinct = v.distinct.1 })

pub Chain-behind :
    (h : Threads) (p x : Ptr) (pre post : List Ptr)
    → Chain h p (pre ++ x ∷ post)
    → Chain h (h x).next post
Chain-behind h p x [] post c = c.2
Chain-behind h p x (a ∷ pre) post c = Chain-behind h _ x pre post c.2

rear-cut :
    (h : Threads) (q : Queue) (a x : Ptr) (pre post : List Ptr)
    → IsQueue h q (a ∷ pre ++ x ∷ post)
    → (if (h x).next == null then record q { rear = last a pre } else q).rear ≡ last a (pre ++ post)
rear-cut h q a x pre [] v =
    let end : (h x).next ≡ null = Chain-behind h q.front x (a ∷ pre) [] v.chain in
    rw (end, append-nil pre) refl
rear-cut h q a x pre (y ∷ ys) v =
    let c = Chain-behind h q.front x (a ∷ pre) (y ∷ ys) v.chain in
    let more : ((h x).next == null) ≡ false = ground (arith, c.0, c.1) in
    rw (more, last-append a y pre ys) (v.rear ∙ last-append null x (a ∷ pre) (y ∷ ys))

IsQueue-cut_behind :
    (h : Threads) (q : Queue) (a x : Ptr) (pre post : List Ptr)
    → IsQueue h q (a ∷ pre ++ x ∷ post)
    → IsQueue (cut_threads h q x (last a pre)) (cut_queue h q x (last a pre)) (a ∷ pre ++ post)
IsQueue-cut_behind h q a x pre post v =
    let behind : (x == q.front) ≡ false =
      ground (arith, v.chain.0, v.distinct.0, has-append a pre (x ∷ post)) in
    rw behind (record {
      chain = rw ends (Chain-remove h q.front a x pre post v.chain v.distinct);
      rear = rear-cut h q a x pre post v;
      distinct = (Distinct-remove x (a ∷ pre) post v.distinct).0;
    })
  where
    ends : (if (h x).next == null then record q { rear = last a pre } else q).front ≡ q.front
    ends = ground arith

pub IsQueue-cut :
    (h : Threads) (q : Queue) (x : Ptr) (pre post : List Ptr)
    → IsQueue h q (pre ++ x ∷ post)
    → IsQueue (cut_threads h q x (last null pre)) (cut_queue h q x (last null pre)) (pre ++ post)
IsQueue-cut h q x [] post v = IsQueue-cut_front h q x post v
IsQueue-cut h q x (a ∷ pre) post v = IsQueue-cut_behind h q a x pre post v

-- Only threads of the queue are written, and `x` itself is not.
pub next-cut_threads :
    (h : Threads) (q : Queue) (x : Ptr) (pre post : List Ptr) (b : Ptr)
    → IsQueue h q (pre ++ x ∷ post)
    → (has b (pre ++ x ∷ post) ≡ false) ⊎ (b ≡ x)
    → (cut_threads h q x (last null pre) b).next ≡ (h b).next
next-cut_threads h q x [] post b v out =
    let e : (x == q.front) ≡ true = ground (arith, v.chain.0) in rw e refl
next-cut_threads h q x (a ∷ pre) post b v (inl out) =
    ground (arith, out, has-last_append a x pre post)
next-cut_threads h q x (a ∷ pre) post b v (inr same) =
    let other : (b == last a pre) ≡ false = ground (
      arith,
      (Distinct-remove x (a ∷ pre) post v.distinct).1,
      has-append x (a ∷ pre) post,
      has-last 0 a pre,
    ) in
    ground (arith, other)
