-- ===== src/Scheduler/Maintenance/Moved.antt =====
-- What parts of maintenance in scheduler+virtualMemoryManager/submission/my_pthread.c come to.
use rutgers_cs.Prelude.{◌≡◌, ◌≢◌, false, List, [], ◌∷◌, ◌++◌, has}
use rutgers_cs.Scheduler.Types.{Ptr, null, QueueAddr, Machine, after_reading}
use rutgers_cs.Scheduler.Alike.{Alike}
use rutgers_cs.Scheduler.Queues.Chain.{Threads, Chain, Queues}

abbrev pub first : List Ptr → Ptr
first [] = null
first (x ∷ xs) = x

pub first_is : (h : Threads) (p : Ptr) (xs : List Ptr) → Chain h p xs → p ≡ first xs
first_is h p [] c = c
first_is h p (x ∷ xs) c = c.0

pub live_of :
    (h : Threads) (p x : Ptr) (pre post : List Ptr) → Chain h p (pre ++ x ∷ post) → x ≢ null
live_of h p x [] post c = c.1
live_of h p x (a ∷ pre) post c = live_of h _ x pre post c.2

-- No list has the thread `a`.
abbrev pub IsOut : (QueueAddr → List Ptr) → Ptr → Type 0
IsOut ls a = (a ≢ null) × ((k : QueueAddr) → has a (ls k) ≡ false)

-- What a part of the loop comes to: the queues stand for `ls'`, and nothing else that counts has changed.
pub record Moved (m : Machine) (ls ls' : QueueAddr → List Ptr) (m' : Machine) : Type 0 where
  pub queues : Queues m' ls'
  pub alike : Alike m m'
  pub outside : (a : Ptr) → IsOut ls a → (m'.threads a).next ≡ (m.threads a).next

pub Alike-reading : (m m' : Machine) → Alike (after_reading m) m' → Alike m m'
Alike-reading m m' a = record {
  current = a.current;
  flags = a.flags;
  clocks = a.clocks;
  cycle = a.cycle;
  within = a.within;
  swaps = a.swaps;
  first = a.first;
  states = a.states;
  lives = a.lives;
  values = a.values;
}

pub Moved-reading :
    (m m' : Machine) (ls ls' : QueueAddr → List Ptr)
    → Moved (after_reading m) ls ls' m'
    → Moved m ls ls' m'
Moved-reading m m' ls ls' v = record {
  queues = v.queues;
  alike = Alike-reading m m' v.alike;
  outside = v.outside;
}
