-- ===== src/Scheduler/System/Start.antt =====
-- The first call of my_pthread_create of scheduler+virtualMemoryManager/submission/my_pthread.c.
use rutgers_cs.Prelude.{
  ℕ, ◌≤◌, ◌≡◌, ◌≢◌, refl, true, List, [], ◌==◌, ltb, arith, ◌∙◌, sym, Bool-cases, inl, inr,
}
use mathlib.Core.Path.{subst}
use rutgers_cs.Scheduler.Types.{
  Ptr, null, empty_queue, QueueAddr, run, wait, Machine, ok, running, queued, run_queues, emit,
  make_context, read_queue,
}
use rutgers_cs.Scheduler.Queues.{enqueue}
use rutgers_cs.Scheduler.Queues.Chain.{IsFree, Queues, Queues-frame_in, Queues-frame, IsQueue}
use rutgers_cs.Scheduler.Queues.Enqueue.{enqueue-Queues}
use rutgers_cs.Scheduler.Schedule.Ready.{IsReady, add}
use rutgers_cs.Scheduler.Api.{
  create, first_create, init_main, init_thread, scheduler_init, start_timer,
}
use rutgers_cs.Scheduler.System.Invariant.{real, current-enqueue}
use rutgers_cs.Scheduler.Schedule.Spared.{next-enqueue, state-enqueue}

-- Nothing was called yet: the wait queues are empty, and there are no more run queues than the five.
pub record IsUnused (m : Machine) : Type 0 where
  pub first : m.first_call ≡ 1
  pub waits : (x : Ptr) → m.wait_queue x ≡ empty_queue
  pub runs : (i : ℕ) → run_queues ≤ i → m.run_queue i ≡ empty_queue

abbrev pub no_lists : QueueAddr → List Ptr
no_lists k = []

-- The main thread runs, and all queues are empty.
abbrev started : Ptr → Ptr → Machine → Machine
started main stack m = init_main main stack (scheduler_init m)

started-Queues :
    (main stack : Ptr) (m : Machine) → IsUnused m → Queues (started main stack m) no_lists
unfolding init_main scheduler_init read_queue
started-Queues main stack m u = record { each = each; apart = λ k l p h h'. absurd (cc (h)) }
  where
    each :
        (k : QueueAddr)
        → IsQueue (started main stack m).threads (read_queue k (started main stack m)) []
    each (run i) = elim (Bool-cases (ltb i run_queues)) [
      | inl low ↦ rw low (record { chain = refl; rear = refl; distinct = tt })
      | inr high ↦
          rw (high, u.runs i (ground (arith, high)))
            (record { chain = refl; rear = refl; distinct = tt })
    ]
    each (wait x) = rw (u.waits x) (record { chain = refl; rear = refl; distinct = tt })

module _ (main main_stack thread stack function : Ptr) (m : Machine) (u : IsUnused m)
    (live : main ≢ null) (new : thread ≢ null) (other : thread ≢ main) where
  -- The new thread's control block is set up, and it is in no queue yet.
  abbrev made : Machine
  made = emit (make_context thread function) (init_thread thread stack (started main main_stack m))

  made-Queues : Queues made no_lists
  unfolding init_thread
  made-Queues =
      Queues-frame_in (started main main_stack m) made no_lists refl refl (λ k a h. absurd (cc (h)))
        (started-Queues main main_stack m u)

  made-current : made.current_thread ≡ main
  unfolding init_thread init_main
  made-current = refl

  made-main : ((made.threads main).state ≡ running) × ((made.threads main).next ≡ null)
  unfolding init_thread init_main
  made-main = (ground (arith, other), ground (arith, other))

  made-thread : ((made.threads thread).state ≡ queued) × ((made.threads thread).next ≡ null)
  unfolding init_thread
  made-thread = (ground arith, ground arith)

  abbrev begun : Machine
  begun = start_timer (enqueue thread (run 0) made)

  create-begun : create main main_stack thread stack function m ≡ ok begun
  unfolding create first_create init_thread
  create-begun =
      let first : (m.first_call == 1) ≡ true = ground (arith, u.first) in
      rw (first, real main live, real thread new) (ground arith)

  -- The first call of my_pthread_create, with control blocks that are not NULL and not the same, returns: the main
  -- thread runs, the new thread waits at the highest priority, no other thread is in a queue, and the queues
  -- stand for lists. From then on no call is the first one.
  pub create-starts :
      (m' : Machine) × (create main main_stack thread stack function m ≡ ok m')
      × IsReady m' (add thread 0 no_lists)
      × (m'.current_thread ≡ main)
      × ((m'.threads main).state ≡ running)
      × ((m'.threads thread).state ≡ queued)
      × (m'.first_call ≡ 0)
  unfolding start_timer
  create-starts =
      let v =
        enqueue-Queues made no_lists thread (run 0) made-Queues new (λ k. refl) made-thread.1 in
      let current = current-enqueue thread (run 0) made ∙ made-current in
      let ready : IsFree begun (add thread 0 no_lists) main = record {
        live = live;
        out = λ l. ground (arith, other);
        end =
            next-enqueue thread main (run 0) made no_lists made-Queues (live, λ k. refl)
            ∙ made-main.1;
      } in
      (
        begun,
        create-begun,
        record {
          queues = Queues-frame (enqueue thread (run 0) made) begun _ refl refl (λ a. refl) v;
          current = subst (IsFree begun (add thread 0 no_lists)) (sym current) ready;
        },
        current,
        state-enqueue thread main (run 0) made ∙ made-main.0,
        state-enqueue thread thread (run 0) made ∙ made-thread.0,
        refl,
      )
