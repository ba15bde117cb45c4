-- ===== src/Scheduler/System/Exited/Calls.antt =====
-- The calls of scheduler+virtualMemoryManager/submission/my_pthread.c that do not concern a mutex, where a
-- thread has exited before.
use rutgers_cs.Prelude.{
  ℕ, ◌≡◌, ◌≢◌, refl, Bool, false, ◌==◌, arith, Bool-cases, inl, inr, ◌∙◌, sym, ap,
}
use mathlib.Core.Path.{subst}
use rutgers_cs.Prelude.Run.{first_ran}
use rutgers_cs.Scheduler.Types.{
  Ptr, null, run, Machine, Run, ok, yielded, joining, running, ThreadState,
}
use rutgers_cs.Scheduler.Schedule.{schedule, timer_handler}
use rutgers_cs.Scheduler.Api.{
  create, yield, exit, join_start, join_round, join_end, has_exited, set_state, set_exited,
  init_thread,
}
use rutgers_cs.Scheduler.System.{
  Enough, IsNew, Call, yields, exits, interrupts, creates, joins, waits_for,
}
use rutgers_cs.Scheduler.System.Invariant.{
  IsSound, ok-eq, ok-state, IsSound-frame, Enough-frame, real,
}
use rutgers_cs.Scheduler.System.Sound.{made, made-Queues}
use rutgers_cs.Scheduler.System.Exited.{
  IsGone, Spared-IsGone, out-IsNew, frame-IsGone, enqueue-IsGone, schedule-IsGone,
}

-- The call gives the control block at `p` to no new thread.
abbrev pub IsApartFrom : (p : Ptr) {m m' : Machine} → Call m m' → Type 0
IsApartFrom p (creates main main_stack thread stack function first new other e) = thread ≢ p
IsApartFrom p c = Unit {0}

module _ (p v : Ptr) (m m' : Machine) (s : IsSound m) (i : IsGone p v m) where
  -- The current thread, which is another one, changes its own state, and calls schedule.
  state-IsGone : (st : ThreadState) → IsGone p v (set_state m.current_thread st m)
  state-IsGone st =
      frame-IsGone p v m _ refl refl refl (λ a. ground arith) (ground (arith, i.stopped))
        (ground (arith, i.stopped)) i

  exit-IsGone : (value : Ptr) → IsGone p v (set_exited m.current_thread value m)
  exit-IsGone value =
      frame-IsGone p v m _ refl refl refl (λ a. ground arith) (ground (arith, i.stopped))
        (ground (arith, i.stopped)) i

  yields-IsGone : (fuel : ℕ) → Enough fuel m → yield fuel m ≡ ok m' → IsGone p v m'
  unfolding yield
  yields-IsGone fuel enough e =
      let g = set_state m.current_thread yielded m in
      schedule-IsGone p v fuel g m'
        (IsSound-frame m g refl refl refl (λ a. ground arith) (ground arith) s)
        (Enough-frame m g refl refl refl (λ a. ground arith) fuel enough)
        (rw (real _ s.ready.current.live) at e) (state-IsGone yielded)

  exits-IsGone : (fuel value : ℕ) → Enough fuel m → exit fuel value m ≡ ok m' → IsGone p v m'
  unfolding exit
  exits-IsGone fuel value enough e =
      let g = set_exited m.current_thread value m in
      schedule-IsGone p v fuel g m'
        (IsSound-frame m g refl refl refl (λ a. ground arith) (ground arith) s)
        (Enough-frame m g refl refl refl (λ a. ground arith) fuel enough)
        (rw (real _ s.ready.current.live) at e) (exit-IsGone value)

  interrupts-IsGone : (fuel : ℕ) → Enough fuel m → timer_handler fuel m ≡ ok m' → IsGone p v m'
  unfolding timer_handler
  interrupts-IsGone fuel enough e = elim (Bool-cases (m.in_scheduler == 1)) [
    | inl inside ↦ subst (IsGone p v) (ok-eq (rw inside at e)) i
    | inr outside ↦ schedule-IsGone p v fuel m m' s enough (rw outside at e) i
  ]

  joins-IsGone : join_start m ≡ ok m' → IsGone p v m'
  unfolding join_start
  joins-IsGone e =
      subst (IsGone p v) (ok-eq (rw (real _ s.ready.current.live) at e)) (state-IsGone joining)

  waits_for-IsGone :
      (fuel target value : ℕ) (done : Bool)
      → Enough fuel m
      → join_round fuel target m ≡ ok (done, value, m')
      → IsGone p v m'
  unfolding join_round join_end
  waits_for-IsGone fuel target value done enough e = elim (Bool-cases (target == null)) [
    | inl none ↦ absurd (cc (rw none at e))
    | inr some ↦ elim (Bool-cases (has_exited target m)) [
      | inl over ↦ subst (IsGone p v) (ok-state _ _ (rw (some, over) at e)) (state-IsGone running)
      | inr more ↦
          let again : Machine → Run (Bool × Ptr × Machine) = λ g. ok (false, null, g) in
          let (g, ran, h) = first_ran (schedule fuel m) again (rw (some, more) at e) in
          schedule-IsGone p v fuel m m' s enough (ran ∙ ap ok (ok-state _ _ h)) i
    ]
  ]

  creates-IsGone :
      (main main_stack thread stack function : Ptr)
      → m.first_call ≡ 0
      → IsNew m thread
      → thread ≢ m.current_thread
      → thread ≢ p
      → create main main_stack thread stack function m ≡ ok m'
      → IsGone p v m'
  unfolding create init_thread
  creates-IsGone main main_stack thread stack function again new other apart e =
      let o = new s.ls s.ready.queues in
      let g = made thread stack function m in
      let known : (m.first_call == 1) ≡ false = ground (arith, again) in
      let w = made-Queues thread stack function m s.ls o s.ready.queues in
      let away : (p == thread) ≡ false = ground (arith, apart) in
      let set_up : IsGone p v g =
        Spared-IsGone p v m g
          (record { state = rw away refl; value = rw away refl; end = λ z. rw away z })
          (out-IsNew g s.ls p w (i.out s.ls s.ready.queues)) i.stopped i in
      let added =
        enqueue-IsGone p v thread (run (g.threads thread).priority) g s.ls w o (ground arith)
          (λ h. apart (sym h)) set_up in
      subst (IsGone p v) (ok-eq (rw (known, real thread o.0) at e)) added

-- Every call that does not concern a mutex, and takes no exited thread's control block, leaves the thread as it is.
pub Call-IsGone :
    (p v : Ptr) {m m' : Machine} (c : Call m m')
    → IsApartFrom p c
    → IsSound m
    → IsGone p v m
    → IsGone p v m'
Call-IsGone p v {m} {m'} (yields fuel enough e) a s i = yields-IsGone p v m m' s i fuel enough e
Call-IsGone p v {m} {m'} (exits fuel value enough e) a s i =
    exits-IsGone p v m m' s i fuel value enough e
Call-IsGone p v {m} {m'} (interrupts fuel enough e) a s i =
    interrupts-IsGone p v m m' s i fuel enough e
Call-IsGone p v {m} {m'} (creates main main_stack thread stack function again new other e) a s i =
    creates-IsGone p v m m' s i main main_stack thread stack function again new other a e
Call-IsGone p v {m} {m'} (joins e) a s i = joins-IsGone p v m m' s i e
Call-IsGone p v {m} {m'} (waits_for fuel target value done enough e) a s i =
    waits_for-IsGone p v m m' s i fuel target value done enough e
