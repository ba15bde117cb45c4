-- ===== src/Scheduler/System/Exited/Join.antt =====
-- my_pthread_exit and my_pthread_join of scheduler+virtualMemoryManager/submission/my_pthread.c, with other calls
-- between them.
use rutgers_cs.Prelude.{ℕ, ◌+◌, ◌<◌, leb, ◌≡◌, ◌≢◌, refl, true, false, List, ◌==◌, arith, ◌∙◌, sym}
use mathlib.Core.Path.{subst}
use rutgers_cs.Scheduler.Types.{
  maintenance_threshold, Ptr, null, QueueAddr, Machine, ok, exited, running,
}
use rutgers_cs.Scheduler.Schedule.{schedule, schedule_current, switch, maintenance_due}
use rutgers_cs.Scheduler.Schedule.Swap.{counted}
use rutgers_cs.Scheduler.Schedule.Spared.{Spared, exited-Spared}
use rutgers_cs.Scheduler.Schedule.Aside.{Taken-out}
use rutgers_cs.Scheduler.Api.{exit, join_round, join_end, has_exited, set_exited, set_state}
use rutgers_cs.Scheduler.Api.Leave.{CanSwap, exit-Swapped}
use rutgers_cs.Scheduler.System.{
  Enough, exits, System, Step, calls, initialises, takes, blocks, releases,
}
use rutgers_cs.Scheduler.System.Invariant.{ok-eq}
use rutgers_cs.Scheduler.System.Exclusion.{IsExclusive, Step-IsExclusive}
use rutgers_cs.Scheduler.System.Exited.{IsGone, out-IsNew}
use rutgers_cs.Scheduler.System.Exited.Calls.{IsApartFrom, Call-IsGone}
use rutgers_cs.Scheduler.System.Exited.Locks.{
  mutex_init-IsGone, takes-IsGone, blocks-IsGone, unlock-IsGone,
}

-- The step gives the control block at `p` to no new thread.
abbrev pub Spares : (p : Ptr) {s t : System} → Step s t → Type 0
Spares p (calls c) = IsApartFrom p c
Spares p (initialises x nobody e) = Unit {0}
Spares p (takes fuel x e) = Unit {0}
Spares p (blocks fuel x enough check e) = Unit {0}
Spares p (releases x held e) = Unit {0}

-- Steps none of which gives that control block to a new thread.
pub data Onward (p : Ptr) (s : System) : System → Type 0 where
  at_once : Onward p s s
  onward : {t u : System} → Onward p s t → (c : Step t u) → Spares p c → Onward p s u

Step-IsGone :
    (p v : Ptr) {s t : System} (c : Step s t)
    → Spares p c
    → IsExclusive s
    → IsGone p v s.machine
    → IsGone p v t.machine
Step-IsGone p v (calls c) a x i = Call-IsGone p v c a x.sound i
Step-IsGone p v {s} (initialises {m'} y nobody e) a x i =
    mutex_init-IsGone p v s.machine x.sound i y m' e
Step-IsGone p v {s} (takes {m'} fuel y e) a x i = takes-IsGone p v s.machine x.sound i fuel y m' e
Step-IsGone p v {s} (blocks {m'} fuel y enough check e) a x i =
    blocks-IsGone p v s.machine x.sound i fuel y m' enough check e
Step-IsGone p v {s} (releases {m'} y held e) a x i = unlock-IsGone p v s.machine x.sound i y m' e

Onward-IsGone :
    (p v : Ptr) {s t : System}
    → Onward p s t
    → IsExclusive s
    → IsGone p v s.machine
    → IsExclusive t × IsGone p v t.machine
Onward-IsGone p v at_once x i = (x, i)
Onward-IsGone p v (onward r c a) x i =
    let (x', i') = Onward-IsGone p v r x i in (Step-IsExclusive c x', Step-IsGone p v c a x' i')

has_exited-exited : (p : Ptr) (m : Machine) → (m.threads p).state ≡ exited → has_exited p m ≡ true
unfolding has_exited
has_exited-exited p m e = rw (has_exited, e) refl

-- A round of my_pthread_join for a thread that has exited returns its value at once.
join_round-IsGone :
    (fuel p v : Ptr) (m : Machine)
    → IsGone p v m
    → p ≢ null
    → join_round fuel p m ≡ ok (true, v, set_state m.current_thread running m)
unfolding join_round join_end
join_round-IsGone fuel p v m i live =
    let real : (p == null) ≡ false = ground (arith, live) in
    rw (real, has_exited-exited p m i.state, i.value) refl

-- schedule of a thread that has exited.
schedule-exited :
    (fuel : ℕ) (m m' : Machine)
    → m.maintenance_cycle + 1 < maintenance_threshold
    → m.current_thread ≢ null
    → (m.threads m.current_thread).state ≡ exited
    → m.current_thread ≢ m'.current_thread
    → schedule fuel m ≡ ok m'
    → Spared m.current_thread m m'
unfolding schedule maintenance_due schedule_current switch
schedule-exited fuel m m' early live gone away e =
    let p = m.current_thread in
    let idle : leb maintenance_threshold (m.maintenance_cycle + 1) ≡ false =
      ground (arith, early) in
    let real : (p == null) ≡ false = ground (arith, live) in
    let e' : schedule_current p (counted m) ≡ ok m' = rw (idle, real) at e in
    let s = exited-Spared p (counted m) m' gone away e' in
    record { state = s.state; value = s.value; end = s.end }

-- The thread that calls my_pthread_exit, where another one waits.
exit-IsGone :
    (fuel value : ℕ) (m m' : Machine) (ls : QueueAddr → List Ptr)
    → CanSwap m ls
    → value ≢ null
    → exit fuel value m ≡ ok m'
    → IsGone m.current_thread value m'
unfolding exit
exit-IsGone fuel value m m' ls c given e =
    let p = m.current_thread in
    let g = set_exited p value m in
    let s = exit-Swapped fuel value m ls c in
    let same : s.m' ≡ m' = ok-eq (sym s.ran ∙ e) in
    let (away, out) = Taken-out s.m'.current_thread p ls s.ls' s.taken c.ready.current.out in
    let real : (p == null) ≡ false = ground (arith, c.ready.current.live) in
    let gone : (g.threads p).state ≡ exited = ground arith in
    let kept : Spared p g s.m' =
      schedule-exited fuel g s.m' c.early c.ready.current.live gone away (rw real at s.ran) in
    subst (IsGone p value) same (record {
      out = out-IsNew s.m' s.ls' p s.ready.queues (c.ready.current.live, out);
      end = kept.end (ground (arith, c.ready.current.end));
      stopped = away;
      state = kept.state ∙ gone;
      value = kept.value ∙ ground (arith, given);
    })

-- A thread that has called my_pthread_exit with a value that is not NULL, in a cycle without maintenance and
-- with a thread waiting in a run queue, runs no more, in every state that the calls of the threads and the
-- timer lead to from there, SIGALRM arriving between two calls only, as long as its control block is given to no
-- new thread: a round of my_pthread_join for it returns that value at once in each of these states. Before the exit
-- the state is sound and mutexes exclude, as they do in every state that is reached, and schedule has enough fuel.
pub join_round-exit :
    (fuel fuel' value : ℕ) (s : System) {m' : Machine} {t : System} (ls : QueueAddr → List Ptr)
    → IsExclusive s
    → CanSwap s.machine ls
    → Enough fuel s.machine
    → value ≢ null
    → exit fuel value s.machine ≡ ok m'
    → Onward s.machine.current_thread (record s { machine = m' }) t
    → (s.machine.current_thread ≢ t.machine.current_thread)
      × (join_round fuel' s.machine.current_thread t.machine
          ≡ ok (true, value, set_state t.machine.current_thread running t.machine))
join_round-exit fuel fuel' value s {m'} {t} ls x c enough given e r =
    let p = s.machine.current_thread in
    let x' = Step-IsExclusive (calls (exits fuel value enough e)) x in
    let (_, i) = Onward-IsGone p value r x' (exit-IsGone fuel value s.machine m' ls c given e) in
    (i.stopped, join_round-IsGone fuel' p value t.machine i c.ready.current.live)
