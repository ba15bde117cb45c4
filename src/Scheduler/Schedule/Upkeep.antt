-- ===== src/Scheduler/Schedule/Upkeep.antt =====
-- The part of schedule of scheduler+virtualMemoryManager/submission/my_pthread.c before the current thread is
-- looked at: maintenance, if it is due.
use rutgers_cs.Prelude.{
  ℕ, zero, suc, ◌+◌, ◌<◌, ◌≡◌, refl, Bool, true, false, List, [], ◌==◌, leb, arith, has, has-append,
  ==_iff, Bool-cases, inl, inr, ◌∙◌, sym,
}
use mathlib.Core.List.{append-nil}
use rutgers_cs.Prelude.{◌++◌, ◌≤◌, length}
use rutgers_cs.Scheduler.Maintenance.Growth.{sweep_lists-first, length-sweep_lists-le}
use rutgers_cs.Scheduler.Types.{Ptr, QueueAddr, run, Machine, ok, run_queues, maintenance_threshold}
use rutgers_cs.Scheduler.Queues.Chain.{same_addr, Queues, Queues-frame, IsFree, IsFree-frame}
use rutgers_cs.Scheduler.Maintenance.Lists.{
  kept, promoted, sweep_list, sweep_lists, has-kept-promoted,
}
use rutgers_cs.Scheduler.Maintenance.Whole.{
  old_at, IsEnough, IsOut-sweep_lists, maintenance-sweep_lists,
}
use rutgers_cs.Scheduler.Schedule.{maintenance_due}
use rutgers_cs.Scheduler.Schedule.Flags.{Steady}

-- A thread waits in a run queue.
abbrev pub Waits : (QueueAddr → List Ptr) → Type 0
Waits ls = (p j : ℕ) × (j < run_queues) × (has p (ls (run j)) ≡ true)

Waits-sweep_list :
    (old : ℕ → Ptr → Bool) (i r : ℕ) (ls : QueueAddr → List Ptr)
    → 0 < i
    → Waits ls
    → Waits (sweep_list old i r ls)
unfolding same_addr
Waits-sweep_list old i r ls pos (p, j, low, h) = elim (Bool-cases (j == i)) [
  | inl here ↦
      let same : j ≡ i = (==_iff j i).0 here in
      let held : has p (ls (run i)) ≡ true = rw same at h in
      let zeroth : (0 == i) ≡ false = ground arith in
      elim (Bool-cases (has p (kept old r (ls (run i))))) [
        | inl stays ↦ (p, j, low, rw here stays)
        | inr goes ↦ (
          p,
          0,
          omega arith,
          rw zeroth (
              ground (
                arith,
                held,
                goes,
                has-kept-promoted old r p (ls (run i)),
                has-append p (ls (run 0)) (promoted old r (ls (run i))),
              )),
        )
      ]
  | inr other ↦ elim (Bool-cases (j == 0)) [
    | inl z ↦
        let same : j ≡ 0 = (==_iff j 0).0 z in
        let held : has p (ls (run 0)) ≡ true = rw same at h in
        (
          p,
          j,
          low,
          rw (other, z)
              (ground (arith, held, has-append p (ls (run 0)) (promoted old r (ls (run i))))),
        )
    | inr z ↦ (p, j, low, rw (other, z) h)
  ]
]

Waits-sweep_lists :
    (old : ℕ → Ptr → Bool) (n i r : ℕ) (ls : QueueAddr → List Ptr)
    → 0 < i
    → Waits ls
    → Waits (sweep_lists old n i r ls)
Waits-sweep_lists old zero i r ls pos w = w
Waits-sweep_lists old (suc n) i r ls pos w =
    Waits-sweep_lists old n (i + 1) _ _ (omega arith) (Waits-sweep_list old i r ls pos w)

-- The state that schedule works on once maintenance, if it is due, is done.
pub record Upkept (m : Machine) (ls : QueueAddr → List Ptr) (fuel : ℕ) : Type 0 where
  pub m' : Machine
  pub ls' : QueueAddr → List Ptr
  pub ran : maintenance_due fuel m ≡ ok m'
  pub queues : Queues m' ls'
  pub current : m'.current_thread ≡ m.current_thread
  pub states : (a : Ptr) → (m'.threads a).state ≡ (m.threads a).state
  pub values : (a : Ptr) → (m'.threads a).retval ≡ (m.threads a).retval
  pub steady : Steady m m'
  pub free : (a : Ptr) → IsFree m ls a → IsFree m' ls' a
  pub waits : Waits ls → Waits ls'
  pub first : (zs : List Ptr) × (ls' (run 0) ≡ ls (run 0) ++ zs)
  pub shrinks : (j : ℕ) → 0 < j → length (ls' (run j)) ≤ length (ls (run j))

pub maintenance_due-Upkept :
    (fuel : ℕ) (m : Machine) (ls : QueueAddr → List Ptr)
    → Queues m ls
    → IsEnough fuel ls
    → Upkept m ls fuel
unfolding maintenance_due
maintenance_due-Upkept fuel m ls v enough =
    elim (Bool-cases (leb maintenance_threshold (m.maintenance_cycle + 1))) [
      | inl due ↦
          let start = record m { in_scheduler = 1; maintenance_cycle = 0 } in
          let (m', ran, w) =
            maintenance-sweep_lists fuel start ls (Queues-frame m start ls refl refl (λ a. refl) v)
              enough in
          record {
            m' = m';
            ls' = sweep_lists (old_at start) 4 1 m.readings ls;
            ran = rw due ran;
            queues = w.queues;
            current = w.alike.current;
            states = w.alike.states;
            values = w.alike.values;
            steady = record { flags = w.alike.flags; first = w.alike.first };
            free = λ a f. record {
              live = f.live;
              out = (IsOut-sweep_lists (old_at start) 4 1 m.readings ls a (f.live, f.out)).1;
              end = w.outside a (f.live, f.out) ∙ f.end;
            };
            waits = Waits-sweep_lists (old_at start) 4 1 m.readings ls (omega arith);
            first = sweep_lists-first (old_at start) 4 1 m.readings ls (omega arith);
            shrinks = λ j. length-sweep_lists-le (old_at start) 4 1 j m.readings ls;
          }
      | inr early ↦ record {
        m' = record m { in_scheduler = 1; maintenance_cycle = m.maintenance_cycle + 1 };
        ls' = ls;
        ran = rw early refl;
        queues = Queues-frame m _ ls refl refl (λ a. refl) v;
        current = refl;
        states = λ a. refl;
        values = λ a. refl;
        steady = record { flags = refl; first = refl };
        free = λ a f. IsFree-frame _ refl f;
        waits = λ w. w;
        first = ([], sym (append-nil (ls (run 0))));
        shrinks = λ j h. omega arith;
      }
    ]
