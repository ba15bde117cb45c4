-- ===== src/Scheduler/Schedule/Flags.antt =====
-- schedule of scheduler+virtualMemoryManager/submission/my_pthread.c writes no flag of a mutex.
use rutgers_cs.Prelude.{
  ℕ, zero, suc, ◌+◌, ◌*◌, leb, ◌≡◌, refl, ◌==◌, arith, Bool-cases, inl, inr, ◌∙◌,
}
use mathlib.Core.Path.{subst}
use rutgers_cs.Scheduler.Types.{
  Ptr, null, run, QueueAddr, wait, Machine, ok, ThreadState, queued, yielded, exited, joining,
  blocked, running, run_queues, time_slice,
}
use rutgers_cs.Scheduler.Queues.{enqueue, dequeue, next_from, get_next_thread, check_next_thread}
use rutgers_cs.Scheduler.Schedule.{
  charge, start_slice, requeue, demote, switch, resumed, resume, dispatch, stay, schedule_current,
}

-- The flags, and whether my_pthread_create was called.
pub record Steady (m g : Machine) : Type 0 where
  pub flags : g.flag ≡ m.flag
  pub first : g.first_call ≡ m.first_call

pub Steady-trans : {m g k : Machine} → Steady m g → Steady g k → Steady m k
Steady-trans a b = record { flags = b.flags ∙ a.flags; first = b.first ∙ a.first }

pub enqueue-Steady : (t : Ptr) (k : QueueAddr) (m : Machine) → Steady m (enqueue t k m)
unfolding enqueue
enqueue-Steady t (run i) m = ground arith
enqueue-Steady t (wait p) m = ground arith

pub dequeue-Steady : (k : QueueAddr) (m : Machine) → Steady m (dequeue k m).1
unfolding dequeue
dequeue-Steady (run i) m = ground arith
dequeue-Steady (wait p) m = ground arith

next_from-Steady : (n i : ℕ) (m : Machine) → Steady m (next_from n i m).1
unfolding next_from
next_from-Steady zero i m = record { flags = refl; first = refl }
next_from-Steady (suc n) i m = elim (Bool-cases ((dequeue (run i) m).0 == null)) [
  | inl e ↦ rw e (Steady-trans (dequeue-Steady (run i) m) (next_from-Steady n (i + 1) _))
  | inr e ↦ rw e (dequeue-Steady (run i) m)
]

requeue-Steady : (p : Ptr) (m : Machine) → Steady m (requeue p m)
unfolding requeue
requeue-Steady p m =
    let e = enqueue-Steady p (run (m.threads p).priority) _ in
    record { flags = e.flags; first = e.first }

demote-Steady : (p : Ptr) (m : Machine) → Steady m (demote p m)
unfolding demote
demote-Steady p m = let e = requeue-Steady p _ in record { flags = e.flags; first = e.first }

switch-Steady : (s : ThreadState) (p : Ptr) (m : Machine) → Steady m (switch s p m)
unfolding switch
switch-Steady queued p m = record { flags = refl; first = refl }
switch-Steady yielded p m = requeue-Steady p m
switch-Steady exited p m = record { flags = refl; first = refl }
switch-Steady joining p m = requeue-Steady p m
switch-Steady blocked p m = record { flags = refl; first = refl }
switch-Steady running p m =
    elim (Bool-cases (leb (((m.threads p).priority + 1) * time_slice) (m.threads p).time_run)) [
      | inl spent ↦ rw spent (demote-Steady p m)
      | inr left ↦ rw left (record { flags = refl; first = refl })
    ]

stay-Steady : (s : ThreadState) (p : Ptr) (m : Machine) → Steady m (stay s p m)
unfolding stay start_slice
stay-Steady queued p m = record { flags = refl; first = refl }
stay-Steady yielded p m = record { flags = refl; first = refl }
stay-Steady exited p m = record { flags = refl; first = refl }
stay-Steady joining p m = record { flags = refl; first = refl }
stay-Steady blocked p m = record { flags = refl; first = refl }
stay-Steady running p m = record { flags = refl; first = refl }

charge-Steady : (p : Ptr) (m : Machine) → Steady m (charge p m)
unfolding charge
charge-Steady p m = record { flags = refl; first = refl }

dispatch-Steady : (p : Ptr) (m m' : Machine) → dispatch p m ≡ ok m' → Steady m m'
unfolding dispatch resume resumed start_slice get_next_thread
dispatch-Steady p m m' e =
    let n = next_from-Steady run_queues 0 m in
    elim (Bool-cases ((next_from run_queues 0 m).0 == null)) [
      | inl none ↦ absurd (cc (rw none at e))
      | inr some ↦
          let e' = rw some at e in record { flags = cc (n.flags, e'); first = cc (n.first, e') }
    ]

Steady-ok : {m g m' : Machine} → Steady m g → ok g ≡ ok m' → Steady m m'
Steady-ok {m} s e = subst (Steady m) (cc e) s

-- Where schedule returns, every flag is as it was.
pub schedule_current-Steady :
    (p : Ptr) (m m' : Machine) → schedule_current p m ≡ ok m' → Steady m m'
unfolding schedule_current stay
schedule_current-Steady p m m' e = elim (Bool-cases (check_next_thread m)) [
  | inr alone ↦
      Steady-ok (Steady-trans (charge-Steady p m) (stay-Steady (m.threads p).state p _))
        (rw alone at e)
  | inl check ↦ elim (Bool-cases ((switch (m.threads p).state p (charge p m)).swap == 0)) [
    | inl goes ↦
        Steady-ok
          (Steady-trans (charge-Steady p m)
            (Steady-trans (switch-Steady (m.threads p).state p _) (stay-Steady running p _)))
          (rw (check, goes) at e)
    | inr swaps ↦ Steady-trans (charge-Steady p m) (
        Steady-trans (switch-Steady (m.threads p).state p _)
          (dispatch-Steady p _ m' (rw (check, swaps) at e)))
  ]
]
