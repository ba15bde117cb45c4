-- ===== src/Scheduler/System/Sound.antt =====
-- Every call of scheduler+virtualMemoryManager/submission/my_pthread.c that does not concern a mutex leads from a
-- sound state to a sound state.
use rutgers_cs.Prelude.{
  ℕ, ◌≡◌, ◌≢◌, refl, Bool, false, List, ◌==◌, arith, Bool-cases, inl, inr, ◌∙◌, ap,
}
use mathlib.Core.Path.{subst}
use rutgers_cs.Prelude.Run.{first_ran}
use rutgers_cs.Scheduler.Types.{
  Ptr, null, QueueAddr, run, Machine, Run, ok, yielded, joining, running, emit, make_context,
}
use rutgers_cs.Scheduler.Queues.Chain.{Queues, Queues-frame_in, IsFree-frame}
use rutgers_cs.Scheduler.Maintenance.Moved.{IsOut}
use rutgers_cs.Scheduler.Schedule.{schedule, timer_handler}
use rutgers_cs.Scheduler.Schedule.Flags.{enqueue-Steady}
use rutgers_cs.Scheduler.Api.{
  create, yield, exit, join_start, join_round, join_end, has_exited, set_state, set_exited,
  init_thread,
}
use rutgers_cs.Scheduler.System.{
  Enough, IsNew, Call, yields, exits, interrupts, creates, joins, waits_for,
}
use rutgers_cs.Scheduler.System.Invariant.{
  IsSound, Kept, ok-eq, ok-state, schedule-Kept_sound, IsSound-frame, Enough-frame, real,
  enqueue-IsSound,
}

yields-Kept :
    (fuel : ℕ) (m m' : Machine) → IsSound m → Enough fuel m → yield fuel m ≡ ok m' → Kept m m'
unfolding yield
yields-Kept fuel m m' s enough e =
    let g = set_state m.current_thread yielded m in
    let k =
      schedule-Kept_sound fuel g m'
        (IsSound-frame m g refl refl refl (λ a. ground arith) (ground arith) s)
        (Enough-frame m g refl refl refl (λ a. ground arith) fuel enough)
        (rw (real _ s.ready.current.live) at e) in
    record { sound = k.sound; steady = record { flags = k.steady.flags; first = k.steady.first } }

exits-Kept :
    (fuel value : ℕ) (m m' : Machine)
    → IsSound m
    → Enough fuel m
    → exit fuel value m ≡ ok m'
    → Kept m m'
unfolding exit
exits-Kept fuel value m m' s enough e =
    let g = set_exited m.current_thread value m in
    let k =
      schedule-Kept_sound fuel g m'
        (IsSound-frame m g refl refl refl (λ a. ground arith) (ground arith) s)
        (Enough-frame m g refl refl refl (λ a. ground arith) fuel enough)
        (rw (real _ s.ready.current.live) at e) in
    record { sound = k.sound; steady = record { flags = k.steady.flags; first = k.steady.first } }

same-Kept : (m m' : Machine) → IsSound m → ok m ≡ ok m' → Kept m m'
same-Kept m m' s e =
    subst (Kept m) (ok-eq e) (record { sound = s; steady = record { flags = refl; first = refl } })

interrupts-Kept :
    (fuel : ℕ) (m m' : Machine)
    → IsSound m
    → Enough fuel m
    → timer_handler fuel m ≡ ok m'
    → Kept m m'
unfolding timer_handler
interrupts-Kept fuel m m' s enough e = elim (Bool-cases (m.in_scheduler == 1)) [
  | inl inside ↦ same-Kept m m' s (rw inside at e)
  | inr outside ↦ schedule-Kept_sound fuel m m' s enough (rw outside at e)
]

joins-Kept : (m m' : Machine) → IsSound m → join_start m ≡ ok m' → Kept m m'
unfolding join_start
joins-Kept m m' s e =
    let g = set_state m.current_thread joining m in
    let k =
      same-Kept g m' (IsSound-frame m g refl refl refl (λ a. ground arith) (ground arith) s)
        (rw (real _ s.ready.current.live) at e) in
    record { sound = k.sound; steady = record { flags = k.steady.flags; first = k.steady.first } }

-- The round of my_pthread_join that returns, and the one that goes on.
waits_for-Kept :
    (fuel target value : ℕ) (done : Bool) (m m' : Machine)
    → IsSound m
    → Enough fuel m
    → join_round fuel target m ≡ ok (done, value, m')
    → Kept m m'
unfolding join_round join_end
waits_for-Kept fuel target value done m m' s enough e = elim (Bool-cases (target == null)) [
  | inl none ↦ absurd (cc (rw none at e))
  | inr some ↦ elim (Bool-cases (has_exited target m)) [
    | inl over ↦
        let g = set_state m.current_thread running m in
        let k =
          same-Kept g m' (IsSound-frame m g refl refl refl (λ a. ground arith) (ground arith) s)
            (ap ok (ok-state _ _ (rw (some, over) at e))) in
        record {
          sound = k.sound;
          steady = record { flags = k.steady.flags; first = k.steady.first };
        }
    | inr more ↦
        let again : Machine → Run (Bool × Ptr × Machine) = λ g. ok (false, null, g) in
        let (g, ran, h) = first_ran (schedule fuel m) again (rw (some, more) at e) in
        schedule-Kept_sound fuel m m' s enough (ran ∙ ap ok (ok-state _ _ h))
  ]
]

module _ (thread stack function : Ptr) (m : Machine) where
  abbrev pub made : Machine
  unfolding init_thread
  made = emit (make_context thread function) (init_thread thread stack m)

  -- The control block that is set up is in no queue.
  pub made-Queues : (ls : QueueAddr → List Ptr) → IsOut ls thread → Queues m ls → Queues made ls
  unfolding init_thread
  made-Queues ls o v =
      Queues-frame_in m made ls refl refl
        (λ k a h. let apart : (a == thread) ≡ false = ground (arith, o.1 k, h) in rw apart refl) v

  made-IsSound : (s : IsSound m) → IsOut s.ls thread → thread ≢ m.current_thread → IsSound made
  unfolding init_thread
  made-IsSound s o other = record {
    ls = s.ls;
    ready = record {
      queues = made-Queues s.ls o s.ready.queues;
      current = IsFree-frame made (ground (arith, other)) s.ready.current;
    };
    alive = λ h. s.alive (ground (arith, other, h));
  }

creates-Kept :
    (main main_stack thread stack function : Ptr) (m m' : Machine)
    → IsSound m
    → m.first_call ≡ 0
    → IsNew m thread
    → thread ≢ m.current_thread
    → create main main_stack thread stack function m ≡ ok m'
    → Kept m m'
unfolding create init_thread made-IsSound
creates-Kept main main_stack thread stack function m m' s again new other e =
    let o = new s.ls s.ready.queues in
    let g = made thread stack function m in
    let known : (m.first_call == 1) ≡ false = ground (arith, again) in
    let sound =
      enqueue-IsSound thread (run (g.threads thread).priority) g
        (made-IsSound thread stack function m s o other) o (ground arith) other in
    let st = enqueue-Steady thread (run (g.threads thread).priority) g in
    subst (Kept m) (ok-eq (rw (known, real thread o.0) at e))
      (record { sound = sound; steady = record { flags = st.flags; first = st.first } })

-- Every call that does not concern a mutex leaves a sound state, and the flags as they were.
pub Call-Kept : {m m' : Machine} → Call m m' → IsSound m → Kept m m'
Call-Kept {m} {m'} (yields fuel enough e) s = yields-Kept fuel m m' s enough e
Call-Kept {m} {m'} (exits fuel value enough e) s = exits-Kept fuel value m m' s enough e
Call-Kept {m} {m'} (interrupts fuel enough e) s = interrupts-Kept fuel m m' s enough e
Call-Kept {m} {m'} (creates main main_stack thread stack function again new other e) s =
    creates-Kept main main_stack thread stack function m m' s again new other e
Call-Kept {m} {m'} (joins e) s = joins-Kept m m' s e
Call-Kept {m} {m'} (waits_for fuel target value done enough e) s =
    waits_for-Kept fuel target value done m m' s enough e
