-- ===== src/Scheduler/Schedule/Total.antt =====
-- schedule of scheduler+virtualMemoryManager/submission/my_pthread.c in every cycle, with maintenance or
-- without it.
use rutgers_cs.Prelude.{
  ℕ, ◌≡◌, ◌≢◌, refl, true, false, List, [], ◌==◌, arith, has, Bool-cases, inl, inr, ◌⊎◌, ◌∙◌, sym,
}
use mathlib.Core.Path.{subst}
use rutgers_cs.Scheduler.Types.{Ptr, null, QueueAddr, Machine, ok, blocked}
use rutgers_cs.Scheduler.Queues.{check_next_thread}
use rutgers_cs.Scheduler.Queues.Chain.{Queues, Queues-frame, IsFree, IsFree-frame}
use rutgers_cs.Scheduler.Maintenance.Whole.{IsEnough}
use rutgers_cs.Scheduler.Schedule.{schedule_current, maintenance_due, schedule}
use rutgers_cs.Scheduler.Schedule.Ready.{IsReady}
use rutgers_cs.Scheduler.Schedule.Swap.{leaves, is_spent, check-of_used, schedule_current-Swapped}
use rutgers_cs.Scheduler.Schedule.Stay.{schedule_current-Kept}
use rutgers_cs.Scheduler.Schedule.Flags.{Steady, Steady-trans, schedule_current-Steady}
use rutgers_cs.Scheduler.Schedule.Aside.{Aside, schedule_current-Aside, Taken-out, left-out}
use rutgers_cs.Scheduler.Schedule.Upkeep.{Waits, maintenance_due-Upkept}

-- schedule returns, the queues stand for lists again, and the thread that goes on is in none of them.
pub record Scheduled (fuel : ℕ) (m : Machine) (ls : QueueAddr → List Ptr) : Type 0 where
  pub m' : Machine
  pub ls' : QueueAddr → List Ptr
  pub ran : schedule fuel m ≡ ok m'
  pub ready : IsReady m' ls'
  pub alive : (m'.threads m'.current_thread).state ≢ blocked
  pub steady : Steady m m'
  pub others : (a : Ptr) → a ≢ m.current_thread → IsFree m ls a → Aside m m' ls' a

Waits-check :
    (m : Machine) (ls : QueueAddr → List Ptr) → Queues m ls → Waits ls → check_next_thread m ≡ true
Waits-check m ls v (p, j, low, h) =
    check-of_used v j low (λ e. let none : has p [] ≡ true = rw e at h in cc)

module _ (m : Machine) (ls : QueueAddr → List Ptr) (v : Queues m ls) (zero_swap : m.swap ≡ 0)
    (p : Ptr) (cur : m.current_thread ≡ p) (free : (m.threads p).state ≢ blocked → IsFree m ls p)
    (waits : (m.threads p).state ≡ blocked → Waits ls) where
  abbrev Comes : Type 0
  Comes =
      (m' : Machine) × (ls' : QueueAddr → List Ptr) × (schedule_current p m ≡ ok m')
      × IsReady m' ls'
      × ((m'.threads m'.current_thread).state ≢ blocked)
      × ((a : Ptr) → a ≢ p → IsFree m ls a → Aside m m' ls' a)

  goes_on :
      (m.threads p).state ≢ blocked
      → (check_next_thread m ≡ false) ⊎ (leaves (m.threads p).state (is_spent p m) ≡ false)
      → Comes
  goes_on other why =
      let (m', ran, k) = schedule_current-Kept p m ls v zero_swap why in
      (
        m',
        ls,
        ran,
        record {
          queues = k.queues;
          current = rw (k.current, cur) (IsFree-frame m' (k.links p) (free other));
        },
        rw (k.current, cur) (λ e. other (sym (k.states p) ∙ e)),
        λ a apart f.
            schedule_current-Aside p a m m' ls ls v ran apart f
              (λ e. apart (e ∙ k.current ∙ cur), f.out),
      )

  comes : Comes
  comes = elim (Bool-cases (check_next_thread m)) [
    | inr alone ↦ goes_on (λ e. cc (Waits-check m ls v (waits e), alone)) (inl alone)
    | inl check ↦ elim (Bool-cases (leaves (m.threads p).state (is_spent p m))) [
      | inr stays ↦
          goes_on (λ e. let no : leaves blocked (is_spent p m) ≡ false = rw e at stays in cc)
            (inr stays)
      | inl leave ↦
          let s = schedule_current-Swapped p m ls v free check leave in
          (
            s.m',
            s.ls',
            s.ran,
            s.ready,
            λ e. cc (s.state, e),
            λ a apart f. schedule_current-Aside p a m s.m' ls s.ls' v s.ran apart f (
                Taken-out s.m'.current_thread a _ s.ls' s.taken
                  (left-out (m.threads p).state p (m.threads p).priority a ls apart f.out)),
          )
    ]
  ]

pub schedule-after :
    (fuel : ℕ) (m g m' : Machine)
    → maintenance_due fuel m ≡ ok g
    → g.current_thread ≢ null
    → schedule_current g.current_thread (record g { swap = 0 }) ≡ ok m'
    → schedule fuel m ≡ ok m'
unfolding schedule
schedule-after fuel m g m' due live ran =
    let real : (g.current_thread == null) ≡ false = ground (arith, live) in rw (due, real) ran

-- schedule always returns, with fuel for each thread of a run queue and one more: whatever the state of the
-- current thread, the queues stand for lists again, and the thread that runs then is in none of them and not blocked. Only a
-- thread that is blocked may be in a queue when it calls schedule, and then another one must wait in a run
-- queue. No flag of a mutex changes. A thread other than the one that called, which is in no queue, stays
-- in none, does not run, and keeps its state and its value.
pub schedule-IsReady :
    (fuel : ℕ) (m : Machine) (ls : QueueAddr → List Ptr)
    → Queues m ls
    → IsEnough fuel ls
    → m.current_thread ≢ null
    → ((m.threads m.current_thread).state ≢ blocked → IsFree m ls m.current_thread)
    → ((m.threads m.current_thread).state ≡ blocked → Waits ls)
    → Scheduled fuel m ls
schedule-IsReady fuel m ls v enough live free waits =
    let d = maintenance_due-Upkept fuel m ls v enough in
    let g = record d.m' { swap = 0 } in
    let here = d.current in
    let same = d.states m.current_thread in
    let (m', ls', ran, ready, alive, others) =
      comes g d.ls' (Queues-frame d.m' g d.ls' refl refl (λ a. refl) d.queues) refl m.current_thread
        here (λ h. IsFree-frame g refl (d.free m.current_thread (free (λ e. h (same ∙ e)))))
        (λ e. d.waits (waits (sym same ∙ e))) in
    let s = schedule_current-Steady m.current_thread g m' ran in
    record {
      m' = m';
      ls' = ls';
      ran =
          schedule-after fuel m d.m' m' d.ran (λ e. live (sym here ∙ e))
            (subst (λ q. schedule_current q g ≡ ok m') (sym here) ran);
      ready = ready;
      alive = alive;
      steady = Steady-trans d.steady (record { flags = s.flags; first = s.first });
      others = λ a apart f.
          let o = others a apart (IsFree-frame g refl (d.free a f)) in
          record {
            free = o.free;
            waits = o.waits;
            state = o.state ∙ d.states a;
            value = o.value ∙ d.values a;
          };
    }
