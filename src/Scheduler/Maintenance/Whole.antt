-- ===== src/Scheduler/Maintenance/Whole.antt =====
-- maintenance of scheduler+virtualMemoryManager/submission/my_pthread.c as a whole, on the lists that the
-- queues stand for.
use rutgers_cs.Prelude.{
  ℕ, zero, suc, ◌+◌, ◌<◌, ◌≤◌, ◌≡◌, refl, Bool, List, [], arith, has-append, Bool-cases, inl, inr,
  ◌∙◌, length,
}
use rutgers_cs.Scheduler.Types.{Ptr, QueueAddr, run, Machine, ok, read_queue, micros}
use rutgers_cs.Scheduler.Alike.{Alike-refl, Alike-trans}
use rutgers_cs.Scheduler.Queues.Chain.{same_addr, Queues}
use rutgers_cs.Scheduler.Maintenance.{is_old, sweep_from, maintenance}
use rutgers_cs.Scheduler.Maintenance.Lists.{promoted, sweep_list, sweep_lists, has-kept-promoted}
use rutgers_cs.Scheduler.Maintenance.Moved.{first_is, IsOut, Moved}
use rutgers_cs.Scheduler.Maintenance.Sweep.{Agrees, Agrees-Alike, sweep-Swept}

-- Thread `p` is old at reading `r` of the clock.
abbrev pub old_at : Machine → ℕ → Ptr → Bool
old_at m r p = is_old (micros (m.clock r)) (m.threads p).time_life

-- Fuel for each thread of a run queue, and one more.
abbrev pub IsEnough : ℕ → (QueueAddr → List Ptr) → Type 0
IsEnough fuel ls = (j : ℕ) → 0 < j → length (ls (run j)) < fuel

module _ (old : ℕ → Ptr → Bool) where
  IsOut-sweep_list :
      (i r : ℕ) (ls : QueueAddr → List Ptr) (a : Ptr) → IsOut ls a → IsOut (sweep_list old i r ls) a
  IsOut-sweep_list i r ls a o = (
    o.0,
    λ k. elim (Bool-cases (same_addr k (run i))) [
      | inl s ↦ rw s (ground (arith, o.1 (run i), has-kept-promoted old r a (ls (run i))))
      | inr s ↦ elim (Bool-cases (same_addr k (run 0))) [
        | inl z ↦
            rw (s, z)
              (ground (
                arith,
                o.1 (run i),
                o.1 (run 0),
                has-kept-promoted old r a (ls (run i)),
                has-append a (ls (run 0)) (promoted old r (ls (run i))),
              ))
        | inr z ↦ rw (s, z) (o.1 k)
      ]
    ],
  )

  pub IsOut-sweep_lists :
      (n i r : ℕ) (ls : QueueAddr → List Ptr) (a : Ptr)
      → IsOut ls a
      → IsOut (sweep_lists old n i r ls) a
  IsOut-sweep_lists zero i r ls a o = o
  IsOut-sweep_lists (suc n) i r ls a o =
      IsOut-sweep_lists n (i + 1) _ _ a (IsOut-sweep_list i r ls a o)

  -- The queues behind are not touched.
  sweep_list-behind :
      (i j r : ℕ) (ls : QueueAddr → List Ptr) → i < j → sweep_list old i r ls (run j) ≡ ls (run j)
  unfolding same_addr
  sweep_list-behind i j r ls h = ground arith

  sweep_from-Moved :
      (fuel n i : ℕ) (m : Machine) (ls : QueueAddr → List Ptr)
      → (low : 0 < i) → Queues m ls
      → Agrees i low old m
      → ((j : ℕ) → i ≤ j → length (ls (run j)) < fuel)
      → (m' : Machine) × (sweep_from fuel n i m ≡ ok m')
        × Moved m ls (sweep_lists old n i m.readings ls) m'
  unfolding sweep_from read_queue
  sweep_from-Moved fuel zero i m ls low v agree enough =
      (m, refl, record { queues = v; alike = Alike-refl m; outside = λ a o. refl })
  sweep_from-Moved fuel (suc n) i m ls low v agree enough =
      let front = first_is m.threads _ (ls (run i)) (v.each (run i)).chain in
      let s =
        sweep-Swept i low old fuel [] (ls (run i)) m ls v refl agree (enough i (omega arith)) in
      let (m', ran, w) =
        sweep_from-Moved fuel n (i + 1) s.m' (sweep_list old i m.readings ls) (omega arith)
          s.moved.queues (Agrees-Alike i low old m s.m' s.moved.alike agree)
          (λ j h.
            rw (sweep_list-behind i j m.readings ls (omega arith)) (enough j (omega arith))) in
      (
        m',
        rw (front, s.ran) ran,
        record {
          queues = rw (s.readings) at w.queues;
          alike = Alike-trans s.moved.alike w.alike;
          outside = λ a o. w.outside a (IsOut-sweep_list i m.readings ls a o) ∙ s.moved.outside a o;
        },
      )

-- maintenance takes one turn through each of the four lower run queues: a thread that is old when its turn
-- comes goes to the end of the queue of the highest priority, and the one right behind it gets no turn; the
-- others stay in their order. It ends with fuel for each thread of a queue and one more. The wait queues, the
-- flags of the mutexes, the current thread and the states of the threads stay as they are, and the links of
-- the threads that are in no queue.
pub maintenance-sweep_lists :
    (fuel : ℕ) (m : Machine) (ls : QueueAddr → List Ptr)
    → Queues m ls
    → IsEnough fuel ls
    → (m' : Machine) × (maintenance fuel m ≡ ok m')
      × Moved m ls (sweep_lists (old_at m) 4 1 m.readings ls) m'
unfolding maintenance
maintenance-sweep_lists fuel m ls v enough =
    sweep_from-Moved (old_at m) fuel 4 1 m ls (omega arith) v (λ r p. refl)
      (λ j h. enough j (omega arith))
