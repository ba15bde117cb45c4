-- ===== src/Scheduler/System/Exclusion.antt =====
-- The invariant of the calls of scheduler+virtualMemoryManager/submission/my_pthread.c, one after the other.
use rutgers_cs.Prelude.{◌≡◌, true, false, ◌==◌, arith, ap, ◌∙◌}
use rutgers_cs.Scheduler.Types.{Ptr, Machine}
use rutgers_cs.Scheduler.System.{
  System, Step, calls, initialises, takes, blocks, releases, Reach, here, later,
}
use rutgers_cs.Scheduler.System.Invariant.{IsSound}
use rutgers_cs.Scheduler.System.Sound.{Call-Kept}
use rutgers_cs.Scheduler.System.Wake.{unlock-Flagged}
use rutgers_cs.Scheduler.System.Mutexes.{mutex_init-Flagged, lock_round-takes, lock_round-blocks}

-- The state is sound, the flag of a mutex that is held is 1, and one thread at most holds it.
pub record IsExclusive (s : System) : Type 0 where
  pub sound : IsSound s.machine
  pub taken : (p x : Ptr) → s.holds p x ≡ true → s.machine.flag x ≡ 1
  pub single : (p q x : Ptr) → s.holds p x ≡ true → s.holds q x ≡ true → p ≡ q

-- The holders stay, and so do the flags of what they hold.
same_holds :
    (s : System) (m' : Machine)
    → IsExclusive s
    → IsSound m'
    → ((p x : Ptr) → s.holds p x ≡ true → m'.flag x ≡ 1)
    → IsExclusive (record s { machine = m' })
same_holds s m' i sound taken = record { sound = sound; taken = taken; single = i.single }

pub Step-IsExclusive : {s t : System} → Step s t → IsExclusive s → IsExclusive t
Step-IsExclusive {s} (calls {m'} c) i =
    let k = Call-Kept c i.sound in
    same_holds s m' i k.sound (λ p x h. ap (λ f. f x) k.steady.flags ∙ i.taken p x h)
Step-IsExclusive {s} (initialises {m'} x nobody e) i =
    let f = mutex_init-Flagged x s.machine m' i.sound e in
    same_holds s m' i f.sound (λ p y h.
      let other : (y == x) ≡ false = ground (arith, nobody p, h) in
      ap (λ g. g y) f.flags ∙ rw other (i.taken p y h))
Step-IsExclusive {s} (takes {m'} fuel x e) i =
    let (f, free, cur) = lock_round-takes fuel x s.machine m' i.sound e in
    record {
      sound = f.sound;
      taken = λ p y h. ap (λ g. g y) f.flags ∙ ground (arith, h, i.taken p y);
      single =
          λ p q y hp hq. ground (arith, hp, hq, free, i.taken p y, i.taken q y, i.single p q y);
    }
Step-IsExclusive {s} (blocks {m'} fuel x enough check e) i =
    let f = lock_round-blocks fuel x s.machine m' i.sound enough check e in
    same_holds s m' i f.sound (λ p y h. ap (λ g. g y) f.flags ∙ ground (arith, i.taken p y h))
Step-IsExclusive {s} (releases {m'} x held e) i =
    let (f, cur) = unlock-Flagged x s.machine m' i.sound e in
    record {
      sound = f.sound;
      taken = λ p y h.
          ap (λ g. g y) f.flags
          ∙ ground (arith, h, held, i.taken p y, i.single p s.machine.current_thread y);
      single = λ p q y hp hq. ground (arith, hp, hq, i.single p q y);
    }

pub Reach-IsExclusive : {s t : System} → Reach s t → IsExclusive s → IsExclusive t
Reach-IsExclusive here i = i
Reach-IsExclusive (later r step) i = Step-IsExclusive step (Reach-IsExclusive r i)

-- A sound state in which nobody holds a mutex.
pub IsExclusive-start :
    (s : System) → ((p x : Ptr) → s.holds p x ≡ false) → IsSound s.machine → IsExclusive s
IsExclusive-start s nobody sound = record {
  sound = sound;
  taken = λ p x h. absurd (ground (arith, nobody p x, h));
  single = λ p q x h k. absurd (ground (arith, nobody p x, h));
}

-- In every state that the calls of the threads and the timer lead to, from a state where that holds and
-- nobody holds a mutex, the queues of the library stand for lists, without a thread in two places, and the
-- current thread is in none of them and not blocked. SIGALRM arrives between two calls only: the handler is kept out
-- of schedule, but not out of the rest of a call, where it may tear a queue. A thread unlocks only what it holds,
-- initialises no mutex that is held, and waits for a mutex only where another thread can run; a created thread has a
-- control block of its own, the first call of my_pthread_create is over, and schedule has enough fuel.
pub Reach-IsSound :
    {s t : System}
    → Reach s t
    → ((p x : Ptr) → s.holds p x ≡ false)
    → IsSound s.machine
    → IsSound t.machine
Reach-IsSound {s} r nobody sound = (Reach-IsExclusive r (IsExclusive-start s nobody sound)).sound
