-- ===== src/Scheduler/System/Signals.antt =====
-- Mutual exclusion by the mutexes of scheduler+virtualMemoryManager/submission/my_pthread.c where SIGALRM may arrive at
-- any instruction, also inside a call.
use rutgers_cs.Prelude.{
  ◌≡◌, Bool, true, false, ◌==◌, arith, ap, sym, ◌∙◌, Bool-cases, inl, inr, update,
}
use rutgers_cs.Scheduler.Types.{Ptr, null, Machine}
use rutgers_cs.Scheduler.Mutex.{Status, success, test_and_set, clear, mutex_init}
use rutgers_cs.Scheduler.System.{System, set_holds}

-- One access to the flags, by the thread `p`, or anything that the library and the timer do between two of them.
-- Only test_and_set, the end of unlock, and init write to a flag; what stands between two of these accesses, a piece of
-- a call, schedule, or the timer's handler in the midst of a call, may change the queues, the states and the
-- current thread in any way. A thread unlocks only what it holds, and initialises no mutex that is held.
pub data Instant (s : System) : System → Type 0 where
  works : {m' : Machine} → m'.flag ≡ s.machine.flag → Instant s (record s { machine = m' })
  wins :
      {m' : Machine} (p x : Ptr)
      → test_and_set x s.machine ≡ (false, m')
      → Instant s (record { machine = m'; holds = set_holds p x true s.holds })
  loses :
      {m' : Machine} (p x : Ptr)
      → test_and_set x s.machine ≡ (true, m')
      → Instant s (record s { machine = m' })
  clears :
      (p x : Ptr)
      → s.holds p x ≡ true
      → Instant s (record { machine = clear x s.machine; holds = set_holds p x false s.holds })
  resets :
      {m' : Machine} (x : Ptr)
      → ((p : Ptr) → s.holds p x ≡ false)
      → mutex_init x s.machine ≡ (success, m')
      → Instant s (record s { machine = m' })

pub data Instants (s : System) : System → Type 0 where
  none_yet : Instants s s
  one_more : {t u : System} → Instants s t → Instant t u → Instants s u

-- The flag of a mutex that is held is 1, and one thread at most holds it.
record IsHeldByOne (s : System) : Type 0 where
  taken : (p x : Ptr) → s.holds p x ≡ true → s.machine.flag x ≡ 1
  single : (p q x : Ptr) → s.holds p x ≡ true → s.holds q x ≡ true → p ≡ q

flag_of_test :
    (x : Ptr) (m m' : Machine) (b : Bool)
    → test_and_set x m ≡ (b, m')
    → ((m.flag x == 1) ≡ b) × (m'.flag ≡ update m.flag x 1)
unfolding test_and_set
flag_of_test x m m' b e =
    (ap (λ (r : Bool × Machine). r.0) e, sym (ap (λ (r : Bool × Machine). r.1.flag) e))

flag_of_init :
    (x : Ptr) (m m' : Machine) → mutex_init x m ≡ (success, m') → m'.flag ≡ update m.flag x 0
unfolding mutex_init
flag_of_init x m m' e = elim (Bool-cases (x == null)) [
  | inl none ↦ absurd (cc (rw none at e))
  | inr some ↦ sym (ap (λ (r : Status × Machine). r.1.flag) (rw some at e))
]

Instant-IsHeldByOne : {s t : System} → Instant s t → IsHeldByOne s → IsHeldByOne t
unfolding clear
Instant-IsHeldByOne (works e) i = record {
  taken = λ p x h. ap (λ f. f x) e ∙ i.taken p x h;
  single = i.single;
}
Instant-IsHeldByOne {s} (wins {m'} p x e) i =
    let (free, flags) = flag_of_test x s.machine m' false e in
    record {
      taken = λ q y h. ap (λ g. g y) flags ∙ ground (arith, h, i.taken q y);
      single =
          λ q r y hq hr. ground (arith, hq, hr, free, i.taken q y, i.taken r y, i.single q r y);
    }
Instant-IsHeldByOne {s} (loses {m'} p x e) i =
    let (held, flags) = flag_of_test x s.machine m' true e in
    record {
      taken = λ q y h. ap (λ g. g y) flags ∙ ground (arith, i.taken q y h);
      single = i.single;
    }
Instant-IsHeldByOne {s} (clears p x held) i = record {
  taken = λ q y h. ground (arith, h, held, i.taken q y, i.single q p y);
  single = λ q r y hq hr. ground (arith, hq, hr, i.single q r y);
}
Instant-IsHeldByOne {s} (resets {m'} x nobody e) i = record {
  taken = λ q y h.
      let other : (y == x) ≡ false = ground (arith, nobody q, h) in
      ap (λ g. g y) (flag_of_init x s.machine m' e) ∙ rw other (i.taken q y h);
  single = i.single;
}

Instants-IsHeldByOne : {s t : System} → Instants s t → IsHeldByOne s → IsHeldByOne t
Instants-IsHeldByOne none_yet i = i
Instants-IsHeldByOne (one_more r c) i = Instant-IsHeldByOne c (Instants-IsHeldByOne r i)

-- Mutual exclusion: two threads never hold one mutex, whenever SIGALRM arrives, inside a call as well as between two. A
-- thread holds a mutex from its test_and_set that finds the flag not 1, one instruction, to its store of 0 at the end of
-- unlock. Between these accesses to the flags, everything else may happen to the queues, the states and the current
-- thread. At the start nobody holds a mutex; a thread unlocks only what it holds, and initialises no mutex that is held.
pub mutual_exclusion :
    {s t : System}
    → Instants s t
    → ((p x : Ptr) → s.holds p x ≡ false)
    → (p q x : Ptr) → t.holds p x ≡ true
    → t.holds q x ≡ true
    → p ≡ q
mutual_exclusion {s} r nobody =
    let start : IsHeldByOne s = record {
      taken = λ p x h. absurd (ground (arith, nobody p x, h));
      single = λ p q x h k. absurd (ground (arith, nobody p x, h));
    } in
    (Instants-IsHeldByOne r start).single
