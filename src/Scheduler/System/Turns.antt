-- ===== src/Scheduler/System/Turns.antt =====
-- The threads of the first run queue of scheduler+virtualMemoryManager/submission/my_pthread.c take their
-- turns while those that run give up the processor of their own will.
use rutgers_cs.Prelude.{
  ℕ, ◌+◌, ◌≤◌, ◌<◌, ◌≡◌, refl, Bool, true, false, List, [], ◌∷◌, ◌++◌, ◌==◌, arith, length, ◌∙◌, ap,
  sym, length-append,
}
use mathlib.Core.Path.{subst}
use mathlib.Core.List.{append-nil, append_assoc}
use native.Mathlib.Decide.{ℕ_discrete}
use rutgers_cs.Scheduler.Types.{
  Ptr, null, QueueAddr, run, Machine, Run, ok, ◌>>=◌, ThreadState, queued, yielded, exited, joining,
  blocked, running,
}
use rutgers_cs.Scheduler.Queues.Chain.{same_addr, put, Queues-frame, IsFree-frame}
use rutgers_cs.Scheduler.Maintenance.Whole.{IsEnough}
use rutgers_cs.Scheduler.Schedule.{schedule_current, schedule}
use rutgers_cs.Scheduler.Schedule.Ready.{IsReady, Taken, add, lower}
use rutgers_cs.Scheduler.Schedule.Swap.{
  left, leaves, is_spent, check-of_used, schedule_current-Swapped,
}
use rutgers_cs.Scheduler.Schedule.Upkeep.{maintenance_due-Upkept}
use rutgers_cs.Scheduler.Schedule.Total.{schedule-after}
use rutgers_cs.Scheduler.Api.{yield, exit, set_state, set_exited}

add-grows :
    (p k : ℕ) (ls : QueueAddr → List Ptr)
    → ((ws : List Ptr) × (add p k ls (run 0) ≡ ls (run 0) ++ ws))
      × ((j : ℕ) → length (add p k ls (run j)) ≤ length (ls (run j)) + 1)
unfolding same_addr
add-grows p k ls = (
  elim (ℕ_discrete 0 k) [
    | yes e ↦ (p ∷ [], rw (← e) refl)
    | no e ↦
        let other : (0 == k) ≡ false = ground (arith, e) in
        ([], rw other (sym (append-nil (ls (run 0)))))
  ],
  λ j. elim (ℕ_discrete j k) [
    | yes e ↦
        let same : (j == k) ≡ true = ground (arith, e) in
        rw (same, e, length-append (ls (run k)) (p ∷ [])) (omega arith)
    | no e ↦ let other : (j == k) ≡ false = ground (arith, e) in rw other (omega arith)
  ],
)

-- Where a thread of this state and this priority goes: at most one run queue grows, at its end.
left-grows :
    (s : ThreadState) (p k : ℕ) (ls : QueueAddr → List Ptr)
    → ((ws : List Ptr) × (left s p k ls (run 0) ≡ ls (run 0) ++ ws))
      × ((j : ℕ) → length (left s p k ls (run j)) ≤ length (ls (run j)) + 1)
left-grows queued p k ls = (([], sym (append-nil (ls (run 0)))), λ j. omega arith)
left-grows yielded p k ls = add-grows p k ls
left-grows exited p k ls = (([], sym (append-nil (ls (run 0)))), λ j. omega arith)
left-grows joining p k ls = add-grows p k ls
left-grows blocked p k ls = (([], sym (append-nil (ls (run 0)))), λ j. omega arith)
left-grows running p k ls = add-grows p (lower k) ls

-- A thread at the head of the first run queue is the one that is taken.
taken_first :
    {ls ls' : QueueAddr → List Ptr} {x y : Ptr} {ys : List Ptr}
    → ls (run 0) ≡ y ∷ ys
    → Taken ls x ls'
    → (x ≡ y) × (ls' ≡ put (run 0) ys ls)
taken_first {ls} {ls'} {x} {y} {ys} e t = elim (ℕ_discrete t.j 0) [
  | yes z ↦
      let held : ls (run 0) ≡ x ∷ t.xs = rw z at t.first.holds in
      let same : y ∷ ys ≡ x ∷ t.xs = sym e ∙ held in
      let lists : ls' ≡ put (run 0) t.xs ls = rw z at t.lists in
      let tail : t.xs ≡ ys = cc in (cc, lists ∙ ap (λ zs. put (run 0) zs ls) tail)
  | no z ↦
      let none : ls (run 0) ≡ [] = t.first.empty 0 (omega arith) (ground (arith, z)) in absurd (cc)
]

-- The thread `y` at the head of the first run queue runs; those behind it keep their places, and no other run
-- queue grows by more than one thread.
record Turned (ls : QueueAddr → List Ptr) (y : Ptr) (ys : List Ptr) (r : Run Machine) : Type 0 where
  m' : Machine
  ls' : QueueAddr → List Ptr
  zs : List Ptr
  ran : r ≡ ok m'
  ready : IsReady m' ls'
  current : m'.current_thread ≡ y
  rest : ls' (run 0) ≡ ys ++ zs
  grows : (j : ℕ) → 0 < j → length (ls' (run j)) ≤ length (ls (run j)) + 1

leaving-Turned :
    (fuel : ℕ) (m : Machine) (ls : QueueAddr → List Ptr) {s : ThreadState} {y : Ptr} {ys : List Ptr}
    → (m.threads m.current_thread).state ≡ s
    → ((b : Bool) → leaves s b ≡ true)
    → IsReady m ls
    → IsEnough fuel ls
    → ls (run 0) ≡ y ∷ ys
    → Turned ls y ys (schedule fuel m)
unfolding same_addr
leaving-Turned fuel m ls {s} {y} {ys} is leave v enough e =
    let d = maintenance_due-Upkept fuel m ls v.queues enough in
    let p = m.current_thread in
    let g = record d.m' { swap = 0 } in
    let (zs, first) = d.first in
    let state : (g.threads p).state ≡ s = d.states p ∙ is in
    let queues = Queues-frame d.m' g d.ls' refl refl (λ a. refl) d.queues in
    let held : d.ls' (run 0) ≡ y ∷ ys ++ zs = first ∙ ap (λ xs. xs ++ zs) e in
    let check = check-of_used queues 0 (omega arith) (λ z. cc) in
    let w =
      schedule_current-Swapped p g d.ls' queues (λ h. IsFree-frame g refl (d.free p v.current))
        check (rw state (leave (is_spent p g))) in
    let ((ws, at_end), longer) = left-grows (g.threads p).state p (g.threads p).priority d.ls' in
    let (same, lists) = taken_first (at_end ∙ ap (λ xs. xs ++ ws) held) w.taken in
    record {
      m' = w.m';
      ls' = w.ls';
      zs = zs ++ ws;
      ran =
          schedule-after fuel m d.m' w.m' d.ran (λ z. v.current.live (sym d.current ∙ z))
            (subst (λ q. schedule_current q g ≡ ok w.m') (sym d.current) w.ran);
      ready = w.ready;
      current = same;
      rest = rw lists (append_assoc ys zs ws);
      grows = λ j h.
          let other : (j == 0) ≡ false = ground (arith, h) in
          rw (lists, other) (omega (arith, longer j, d.shrinks j h));
    }

-- How the thread that runs gives up the processor of its own will.
pub data Move : Type 0 where
  by_yield : Move
  by_exit : Ptr → Move

unfoldable pub turn : ℕ → Move → Machine → Run Machine
turn fuel by_yield m = yield fuel m
turn fuel (by_exit value) m = exit fuel value m

-- One move after the other, each by the thread that runs then.
unfoldable pub turns : ℕ → List Move → Machine → Run Machine
turns fuel [] m = ok m
turns fuel (v ∷ vs) m = turn fuel v m >>= λ m'. turns fuel vs m'

-- Fuel for the lower run queues, when each of `n` moves adds a thread to them.
abbrev pub HasFuel : ℕ → ℕ → (QueueAddr → List Ptr) → Type 0
HasFuel fuel n ls = (j : ℕ) → 0 < j → length (ls (run j)) + n < fuel

turn-Turned :
    (fuel : ℕ) (v : Move) (m : Machine) (ls : QueueAddr → List Ptr) {y : Ptr} {ys : List Ptr}
    → IsReady m ls
    → IsEnough fuel ls
    → ls (run 0) ≡ y ∷ ys
    → Turned ls y ys (turn fuel v m)
unfolding turn yield exit
turn-Turned fuel by_yield m ls w enough e =
    let real : (m.current_thread == null) ≡ false = ground (arith, w.current.live) in
    rw real (
      leaving-Turned fuel (set_state m.current_thread yielded m) ls {s = yielded} (ground arith)
        (λ b. refl)
        (record {
          queues = Queues-frame m _ ls refl refl (λ a. ground arith) w.queues;
          current = IsFree-frame _ (ground arith) w.current;
        })
        enough e)
turn-Turned fuel (by_exit value) m ls w enough e =
    let real : (m.current_thread == null) ≡ false = ground (arith, w.current.live) in
    rw real (
      leaving-Turned fuel (set_exited m.current_thread value m) ls {s = exited} (ground arith)
        (λ b. refl)
        (record {
          queues = Queues-frame m _ ls refl refl (λ a. ground arith) w.queues;
          current = IsFree-frame _ (ground arith) w.current;
        })
        enough e)

-- Every thread of the first run queue gets its turn: where the queues stand for lists, the current thread is in
-- none of them, and the thread `x` has the threads `xs` before it in the first run queue, each sequence of calls
-- of my_pthread_yield and my_pthread_exit, one more than there are threads in `xs`, each by the thread that runs
-- then, returns, whether or not maintenance falls in it, with fuel for the lower run queues and those calls; `x`
-- runs at its end, and the threads behind `x` are at the head of the first run queue in their order.
pub turns-runs :
    (fuel : ℕ) (vs : List Move) (m : Machine) (ls : QueueAddr → List Ptr) (xs : List Ptr) (x : Ptr)
    (ys : List Ptr)
    → length vs ≡ length xs + 1
    → IsReady m ls
    → HasFuel fuel (length vs) ls
    → ls (run 0) ≡ xs ++ x ∷ ys
    → (m' : Machine) × (ls' : QueueAddr → List Ptr) × (zs : List Ptr) × (turns fuel vs m ≡ ok m')
      × IsReady m' ls'
      × (m'.current_thread ≡ x)
      × (ls' (run 0) ≡ ys ++ zs)
unfolding turns
turns-runs fuel [] m ls xs x ys count w enough e = absurd (omega (arith, count))
turns-runs fuel (v ∷ []) m ls [] x ys count w enough e =
    let t = turn-Turned fuel v m ls w (λ j h. omega (arith, enough j h)) e in
    (t.m', t.ls', t.zs, rw t.ran refl, t.ready, t.current, t.rest)
turns-runs fuel (v ∷ u ∷ us) m ls [] x ys count w enough e = absurd (omega (arith, count))
turns-runs fuel (v ∷ vs) m ls (z ∷ zs) x ys count w enough e =
    let t = turn-Turned fuel v m ls w (λ j h. omega (arith, enough j h)) e in
    let (m', ls', ws, ran, ready, current, rest) =
      turns-runs fuel vs t.m' t.ls' zs x (ys ++ t.zs) (omega (arith, count)) t.ready
        (λ j h. omega (arith, enough j h, t.grows j h)) (t.rest ∙ append_assoc zs (x ∷ ys) t.zs) in
    (m', ls', t.zs ++ ws, rw t.ran ran, ready, current, rest ∙ append_assoc ys t.zs ws)
