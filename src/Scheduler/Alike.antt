-- ===== src/Scheduler/Alike.antt =====
-- What the queue operations of scheduler+virtualMemoryManager/submission/my_pthread.c leave alone.
use rutgers_cs.Prelude.{◌≡◌, refl, ◌∙◌}
use rutgers_cs.Scheduler.Types.{Ptr, Machine}

pub record Alike (m g : Machine) : Type 0 where
  pub current : g.current_thread ≡ m.current_thread
  pub flags : g.flag ≡ m.flag
  pub clocks : g.clock ≡ m.clock
  pub cycle : g.maintenance_cycle ≡ m.maintenance_cycle
  pub within : g.in_scheduler ≡ m.in_scheduler
  pub swaps : g.swap ≡ m.swap
  pub first : g.first_call ≡ m.first_call
  pub states : (a : Ptr) → (g.threads a).state ≡ (m.threads a).state
  pub lives : (a : Ptr) → (g.threads a).time_life ≡ (m.threads a).time_life
  pub values : (a : Ptr) → (g.threads a).retval ≡ (m.threads a).retval

pub Alike-refl : (m : Machine) → Alike m m
Alike-refl m = record {
  current = refl;
  flags = refl;
  clocks = refl;
  cycle = refl;
  within = refl;
  swaps = refl;
  first = refl;
  states = λ a. refl;
  lives = λ a. refl;
  values = λ a. refl;
}

pub Alike-trans : {m g k : Machine} → Alike m g → Alike g k → Alike m k
Alike-trans a b = record {
  current = b.current ∙ a.current;
  flags = b.flags ∙ a.flags;
  clocks = b.clocks ∙ a.clocks;
  cycle = b.cycle ∙ a.cycle;
  within = b.within ∙ a.within;
  swaps = b.swaps ∙ a.swaps;
  first = b.first ∙ a.first;
  states = λ p. b.states p ∙ a.states p;
  lives = λ p. b.lives p ∙ a.lives p;
  values = λ p. b.values p ∙ a.values p;
}
