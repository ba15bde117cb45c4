-- ===== src/Scheduler/Queues/Chain.antt =====
-- What a queue stands for: the list of the threads that the `next` pointers lead through, from its
-- front to NULL, and what all the queues of the thread library stand for together.
use rutgers_cs.Prelude.{
  ◌≡◌, ◌≢◌, ◌∙◌, refl, Bool, true, false, List, [], ◌∷◌, ◌++◌, arith, ◌==◌, if◌then◌else◌, has,
  last, update, Distinct, has-last,
}
use rutgers_cs.Scheduler.Types.{Ptr, null, Thread, Queue, QueueAddr, run, wait, Machine, read_queue}

abbrev pub Threads : Type 0
Threads = Ptr → Thread

abbrev pub Chain : Threads → Ptr → List Ptr → Type 0
Chain h p [] = p ≡ null
Chain h p (x ∷ xs) = (p ≡ x) × (x ≢ null) × Chain h (h x).next xs

pub record IsQueue (h : Threads) (q : Queue) (xs : List Ptr) : Type 0 where
  pub chain : Chain h q.front xs
  pub rear : q.rear ≡ last null xs
  pub distinct : Distinct xs

-- A chain survives any change that spares the `next` pointers on it.
pub Chain-frame :
    (h g : Threads) (p : Ptr) (xs : List Ptr)
    → ((a : Ptr) → has a xs ≡ true → (g a).next ≡ (h a).next)
    → Chain h p xs
    → Chain g p xs
Chain-frame h g p [] same c = c
Chain-frame h g p (x ∷ xs) same c =
    (c.0, c.1, rw (same x (ground arith)) (Chain-frame h g _ xs (λ a i. same a (ground arith)) c.2))

-- The null pointer is on no chain.
pub not-has-null : (h : Threads) (p : Ptr) (xs : List Ptr) → Chain h p xs → has null xs ≡ false
not-has-null h p [] c = refl
not-has-null h p (x ∷ xs) c = ground (arith, not-has-null h _ xs c.2)

abbrev pub link : Threads → Ptr → Ptr → Threads
link h p q = update h p (record (h p) { next = q })

-- Linking a thread behind the last one.
pub Chain-append_one :
    (h : Threads) (p t x : Ptr) (xs : List Ptr)
    → Chain h p (x ∷ xs)
    → Distinct (x ∷ xs)
    → has t (x ∷ xs) ≡ false
    → t ≢ null
    → (h t).next ≡ null
    → Chain (link h (last x xs) t) p (x ∷ xs ++ t ∷ [])
Chain-append_one h p t x [] c d new live end = (c.0, c.1, (ground arith, live, ground arith))
Chain-append_one h p t x (y ∷ ys) c d new live end =
    let other : (x == last y ys) ≡ false = ground (arith, has-last x y ys) in
    (c.0, c.1, rw other (Chain-append_one h _ t y ys c.2 d.1 (ground arith) live end))

-- Two addresses of queues are equal or not.
unfoldable pub same_addr : QueueAddr → QueueAddr → Bool
same_addr (run i) (run j) = i == j
same_addr (run i) (wait p) = false
same_addr (wait p) (run i) = false
same_addr (wait p) (wait q) = p == q

pub eq_of_same_addr : (k l : QueueAddr) → same_addr k l ≡ true → k ≡ l
unfolding same_addr
eq_of_same_addr (run i) (run j) e = ground arith
eq_of_same_addr (run i) (wait p) e = cc
eq_of_same_addr (wait p) (run i) e = cc
eq_of_same_addr (wait p) (wait q) e = ground arith

pub same_addr_refl : (k : QueueAddr) → same_addr k k ≡ true
unfolding same_addr
same_addr_refl (run i) = ground arith
same_addr_refl (wait p) = ground arith

-- The lists with the list of one queue replaced.
abbrev pub put : QueueAddr → List Ptr → (QueueAddr → List Ptr) → QueueAddr → List Ptr
put k xs ls l = if same_addr l k then xs else ls l

-- Each queue stands for its list, and no thread is in two queues.
pub record Queues (m : Machine) (ls : QueueAddr → List Ptr) : Type 0 where
  pub each : (k : QueueAddr) → IsQueue m.threads (read_queue k m) (ls k)
  pub apart : (k l : QueueAddr) (p : Ptr) → has p (ls k) ≡ true → has p (ls l) ≡ true → k ≡ l

pub IsQueue-frame :
    (h g : Threads) (q : Queue) (xs : List Ptr)
    → ((a : Ptr) → has a xs ≡ true → (g a).next ≡ (h a).next)
    → IsQueue h q xs
    → IsQueue g q xs
IsQueue-frame h g q xs same v = record {
  chain = Chain-frame h g q.front xs same v.chain;
  rear = v.rear;
  distinct = v.distinct;
}

-- What the queues stand for hangs on the queues and on the `next` pointers alone.
pub Queues-frame :
    (m g : Machine) (ls : QueueAddr → List Ptr)
    → g.run_queue ≡ m.run_queue
    → g.wait_queue ≡ m.wait_queue
    → ((a : Ptr) → (g.threads a).next ≡ (m.threads a).next)
    → Queues m ls
    → Queues g ls
unfolding read_queue
Queues-frame m g ls runs waits same v = record { each = each; apart = v.apart }
  where
    each : (k : QueueAddr) → IsQueue g.threads (read_queue k g) (ls k)
    each (run i) =
        rw runs (IsQueue-frame m.threads g.threads _ (ls (run i)) (λ a _. same a) (v.each (run i)))
    each (wait p) =
        rw waits
          (IsQueue-frame m.threads g.threads _ (ls (wait p)) (λ a _. same a) (v.each (wait p)))

-- The same where other `next` pointers than those of the threads in the queues may change.
pub Queues-frame_in :
    (m g : Machine) (ls : QueueAddr → List Ptr)
    → g.run_queue ≡ m.run_queue
    → g.wait_queue ≡ m.wait_queue
    → ((k : QueueAddr) (a : Ptr) → has a (ls k) ≡ true → (g.threads a).next ≡ (m.threads a).next)
    → Queues m ls
    → Queues g ls
unfolding read_queue
Queues-frame_in m g ls runs waits same v = record { each = each; apart = v.apart }
  where
    each : (k : QueueAddr) → IsQueue g.threads (read_queue k g) (ls k)
    each (run i) =
        rw runs (IsQueue-frame m.threads g.threads _ (ls (run i)) (same (run i)) (v.each (run i)))
    each (wait p) =
        rw waits
          (IsQueue-frame m.threads g.threads _ (ls (wait p)) (same (wait p)) (v.each (wait p)))

-- The thread `p` is in no queue and is linked to none.
pub record IsFree (m : Machine) (ls : QueueAddr → List Ptr) (p : Ptr) : Type 0 where
  pub live : p ≢ null
  pub out : (k : QueueAddr) → has p (ls k) ≡ false
  pub end : (m.threads p).next ≡ null

pub IsFree-frame :
    {m : Machine} {ls : QueueAddr → List Ptr} {p : Ptr} (g : Machine)
    → (g.threads p).next ≡ (m.threads p).next
    → IsFree m ls p
    → IsFree g ls p
IsFree-frame g same f = record { live = f.live; out = f.out; end = same ∙ f.end }
