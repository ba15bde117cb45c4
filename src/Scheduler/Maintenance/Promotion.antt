-- ===== src/Scheduler/Maintenance/Promotion.antt =====
-- One round of maintenance in scheduler+virtualMemoryManager/submission/my_pthread.c that promotes a thread.
use rutgers_cs.Prelude.{
  ℕ, ◌<◌, ◌≡◌, ◌≢◌, refl, false, List, [], ◌∷◌, ◌++◌, arith, has, last, has-append, ◌∙◌, ap,
}
use rutgers_cs.Scheduler.Types.{Ptr, null, QueueAddr, run, Machine, ok, read_queue}
use rutgers_cs.Scheduler.Alike.{Alike-trans}
use rutgers_cs.Scheduler.Queues.Chain.{IsQueue, same_addr, put, Queues}
use rutgers_cs.Scheduler.Maintenance.{remove_from, promote}
use rutgers_cs.Scheduler.Maintenance.Removal.{
  removal, Removed-Queues, not-has_removed, next-remove_from, next-remove_from_out, next_after,
}
use rutgers_cs.Scheduler.Maintenance.Promote.{promote-Queues, promote-Alike, next-promote}
use rutgers_cs.Scheduler.Maintenance.Moved.{first, first_is, live_of, Moved}

module _ (i : ℕ) (low : 0 < i) where
  pub other_queue : same_addr (run 0) (run i) ≡ false
  unfolding same_addr
  other_queue = ground arith

  pub same_addr_sym : same_addr (run i) (run 0) ≡ false
  unfolding same_addr
  same_addr_sym = ground arith

  -- The lists after `x` has gone to the queue of the highest priority, with `rest` left in its own.
  abbrev pub moved_lists : Ptr → List Ptr → (QueueAddr → List Ptr) → QueueAddr → List Ptr
  moved_lists x rest ls = put (run 0) (ls (run 0) ++ x ∷ []) (put (run i) rest ls)

  module _ (x : Ptr) (pre post : List Ptr) (m : Machine) {ls : QueueAddr → List Ptr}
      (v : Queues m ls) (here : ls (run i) ≡ pre ++ x ∷ post) where
    pub live : x ≢ null
    live =
        let q : IsQueue m.threads (read_queue (run i) m) (pre ++ x ∷ post) =
          rw here at (v.each (run i)) in
        live_of m.threads _ x pre post q.chain

    pub promotion :
        (m' : Machine) × (remove_from i x (last null pre) m ≡ ok m')
        × ((m'.threads x).next ≡ first post)
        × Moved m ls (moved_lists x (pre ++ post) ls) (promote x m')
        × ((promote x m').readings ≡ m.readings)
    promotion =
        let (m', r) = removal i x (last null pre) m v pre post here refl in
        let out = not-has_removed i x (last null pre) m v pre post here refl in
        let queues = Removed-Queues i x (last null pre) m v pre post here refl r in
        let next = next-remove_from i x (last null pre) m v pre post here refl r in
        let (alike, readings) = promote-Alike x m' in
        let zeroth : put (run i) (pre ++ post) ls (run 0) ≡ ls (run 0) = rw other_queue refl in
        (
          m',
          r.ran,
          next ∙ first_is m.threads _ post (next_after i x (last null pre) m v pre post here refl),
          record {
            queues = rw zeroth at (promote-Queues x m' _ queues live out);
            alike = Alike-trans r.alike alike;
            outside = λ a o.
                next-promote x a m' _ queues
                  (λ e. ground (arith, o.1 (run i), ap (has a) here, has-append a pre (x ∷ post)))
                  (rw zeroth (o.1 (run 0))) o.0
                ∙ next-remove_from_out i x (last null pre) m v pre post here refl r a (o.1 (run i));
          },
          readings ∙ r.readings,
        )
