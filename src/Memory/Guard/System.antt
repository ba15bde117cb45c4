-- ===== src/Memory/Guard/System.antt =====
-- The memory of the threads, scheduler+virtualMemoryManager/submission/paging.c and myallocate.c, under
-- their requests and the switches between them.
use rutgers_cs.Prelude.{ℕ, ◌≡◌, ◌≢◌, refl, arith, sym, ◌∙◌}
use rutgers_cs.Memory.Types.{Addr, Memory, thread_req, ok, no_tid}
use rutgers_cs.Memory.Pages.{init_all, mprotect_setter}
use rutgers_cs.Memory.Pages.Protect.{mprotect_setter_lem}
use rutgers_cs.Memory.Allocate.{myallocate}
use rutgers_cs.Memory.Deallocate.{mydeallocate}
use rutgers_cs.Memory.Guard.{IsGuarded, init_all-IsGuarded}
use rutgers_cs.Memory.Guard.Calls.{myallocate-IsGuarded, mydeallocate-IsGuarded}

-- Thread `tid` is given the processor in the place of the one that runs.
abbrev pub switch_to : ℕ → Memory → Memory
switch_to tid m = mprotect_setter tid m.current_tid (record m { current_tid = tid })

-- The thread that runs asks for memory, gives some back, or is switched out. Page faults are not among
-- the steps.
pub data Step (m : Memory) : Memory → Type 0 where
  allocates :
      {m' : Memory} (fuel size : ℕ) (a : Addr)
      → myallocate fuel size thread_req m ≡ ok (a, m')
      → Step m m'
  deallocates :
      {m' : Memory} (fuel : ℕ) (ptr : Addr) → mydeallocate fuel ptr thread_req m ≡ ok m' → Step m m'
  switches : (tid : ℕ) → Step m (switch_to tid m)

pub data Reach (m : Memory) : Memory → Type 0 where
  here : Reach m m
  later : {m' m'' : Memory} → Reach m m' → Step m' m'' → Reach m m''

switch_to-IsGuarded :
    (tid : ℕ) (m : Memory) → IsGuarded m.current_tid m → IsGuarded tid (switch_to tid m)
switch_to-IsGuarded tid m g =
    let (inside, outside, table, cells, running) =
      mprotect_setter_lem tid m.current_tid (record m { current_tid = tid }) in
    record {
      running = running;
      closed = λ y lo hi other owned.
          let other' : (m.page_table y).tid ≢ tid = rw (← table) other in
          let owned' : (m.page_table y).tid ≢ no_tid = rw (← table) owned in
          inside y lo hi ∙ ground (arith, other', owned', g.closed y lo hi);
    }

abbrev Guarded : Memory → Type 0
Guarded m = IsGuarded m.current_tid m

rename : (c : ℕ) (m : Memory) → IsGuarded c m → Guarded m
rename c m g = record {
  running = refl;
  closed = λ y lo hi other owned. g.closed y lo hi (λ e. other (e ∙ sym g.running)) owned;
}

Step-Guarded : {m m' : Memory} → Step m m' → Guarded m → Guarded m'
Step-Guarded {m} (allocates fuel size a e) g =
    rename m.current_tid _ ((myallocate-IsGuarded m.current_tid fuel size m g).ends _ e)
Step-Guarded {m} (deallocates fuel ptr e) g =
    rename m.current_tid _ ((mydeallocate-IsGuarded m.current_tid fuel ptr m g).ends _ e)
Step-Guarded {m} (switches tid) g = rename tid _ (switch_to-IsGuarded tid m g)

-- From the page table that initAll writes, whatever requests the threads make of myallocate and
-- mydeallocate, and however they take turns, each page of memory that belongs to a thread other than
-- the one that runs is closed to reads and writes, as long as no page fault is handled.
pub Reach-IsGuarded :
    (m : Memory) {m' : Memory} → Reach (init_all m) m' → IsGuarded m'.current_tid m'
Reach-IsGuarded m here = rename m.current_tid _ (init_all-IsGuarded m.current_tid m refl)
Reach-IsGuarded m (later r step) = Step-Guarded step (Reach-IsGuarded m r)
