-- ===== src/Scheduler/Maintenance/Sweep.antt =====
-- The loop of maintenance in scheduler+virtualMemoryManager/submission/my_pthread.c over one run queue.
use rutgers_cs.Prelude.{
  ℕ, zero, suc, ◌+◌, ◌<◌, ◌≡◌, ◌≢◌, refl, Bool, true, false, List, [], ◌∷◌, ◌++◌, if◌then◌else◌,
  ◌==◌, arith, has, last, has-append, Bool-cases, inl, inr, sym, ◌∙◌, length, last-append_one, ap,
}
use mathlib.Core.List.{append_assoc, append-nil}
use mathlib.Core.Path.{subst, fun_ext}
use rutgers_cs.Scheduler.Types.{
  Ptr, null, QueueAddr, run, Machine, ok, read_queue, after_reading, micros,
}
use rutgers_cs.Scheduler.Alike.{Alike, Alike-refl, Alike-trans}
use rutgers_cs.Scheduler.Queues.Chain.{
  IsQueue, same_addr, same_addr_refl, eq_of_same_addr, put, Queues, Queues-frame,
}
use rutgers_cs.Scheduler.Maintenance.{is_old, remove_from, promote, sweep_one, sweep}
use rutgers_cs.Scheduler.Maintenance.Lists.{kept, promoted, rounds, young_lem}
use rutgers_cs.Scheduler.Maintenance.Remove.{Chain-behind}
use rutgers_cs.Scheduler.Maintenance.Moved.{
  first, first_is, live_of, IsOut, Moved, Alike-reading, Moved-reading,
}
use rutgers_cs.Scheduler.Maintenance.Promotion.{same_addr_sym, moved_lists, live, promotion}

module _ (i : ℕ) (low : 0 < i) where
  -- The lists where `ks` stays behind `pre` in queue `i`, and `ps` has gone.
  abbrev pub spread : List Ptr → List Ptr → List Ptr → (QueueAddr → List Ptr) → QueueAddr → List Ptr
  spread pre ks ps ls = put (run i) (pre ++ ks) (put (run 0) (ls (run 0) ++ ps) ls)

  module _ (old : ℕ → Ptr → Bool) where
    -- `old` says what the clock and the threads of `m` come to.
    abbrev pub Agrees : Machine → Type 0
    Agrees m = (r : ℕ) (p : Ptr) → is_old (micros (m.clock r)) (m.threads p).time_life ≡ old r p

    pub Agrees-Alike : (m g : Machine) → Alike m g → Agrees m → Agrees g
    Agrees-Alike m g a h r p = rw (a.clocks, a.lives p) (h r p)

    -- The loop at the front of `xs`, behind `pre`, ends with the list that `kept` and `promoted` say.
    pub record Swept (fuel : ℕ) (pre xs : List Ptr) (m : Machine) (ls : QueueAddr → List Ptr)
        : Type 0 where
      pub m' : Machine
      pub ran : sweep fuel i (first xs) (last null pre) m ≡ ok m'
      pub moved :
          Moved m ls (spread pre (kept old m.readings xs) (promoted old m.readings xs) ls) m'
      pub readings : m'.readings ≡ m.readings + rounds old m.readings xs

    spread-nil :
        (pre : List Ptr) (ls : QueueAddr → List Ptr) (k : QueueAddr)
        → ls (run i) ≡ pre
        → ls k ≡ spread pre [] [] ls k
    spread-nil pre ls k e = elim (Bool-cases (same_addr k (run i))) [
      | inl s ↦ rw (s, eq_of_same_addr k (run i) s, e, append-nil) refl
      | inr s ↦ elim (Bool-cases (same_addr k (run 0))) [
        | inl z ↦ rw (s, z, eq_of_same_addr k (run 0) z, append-nil) refl
        | inr z ↦ rw (s, z) refl
      ]
    ]

    spread_behind :
        (x : Ptr) (pre ks ps : List Ptr) (ls : QueueAddr → List Ptr)
        → spread (pre ++ x ∷ []) ks ps ls ≡ spread pre (x ∷ ks) ps ls
    spread_behind x pre ks ps ls = rw (append_assoc pre (x ∷ []) ks) refl

    spread-put :
        (pre ks ps : List Ptr) (ls : QueueAddr → List Ptr)
        → spread pre ks ps ls ≡ put (run 0) (ls (run 0) ++ ps) (put (run i) (pre ++ ks) ls)
    spread-put pre ks ps ls = fun_ext (λ k. elim (Bool-cases (same_addr k (run i))) [
      | inl s ↦ rw (s, eq_of_same_addr k (run i) s, same_addr_sym i low) refl
      | inr s ↦ rw s refl
    ])

    spread_moved :
        (x y : Ptr) (pre zs ks ps : List Ptr) (m : Machine) (ls : QueueAddr → List Ptr)
        → spread
            (pre ++ y ∷ [])
            ks
            ps
            (put (run 0) (ls (run 0) ++ x ∷ []) (put (run i) (pre ++ y ∷ zs) ls))
          ≡ spread pre (y ∷ ks) (x ∷ ps) ls
    spread_moved x y pre zs ks ps m ls = fun_ext (λ k. elim (Bool-cases (same_addr k (run i))) [
      | inl s ↦ rw (s, append_assoc pre (y ∷ []) ks) refl
      | inr s ↦ elim (Bool-cases (same_addr k (run 0))) [
        | inl z ↦ rw (s, z, same_addr_refl (run 0), append_assoc (ls (run 0)) (x ∷ []) ps) refl
        | inr z ↦ rw (s, z) refl
      ]
    ])

    sweep-null : (fuel : ℕ) (prev : Ptr) (m : Machine) → 0 < fuel → sweep fuel i null prev m ≡ ok m
    unfolding sweep
    sweep-null zero prev m h = absurd (omega arith)
    sweep-null (suc fuel) prev m h = refl

    sweep_young :
        (fuel : ℕ) (x prev : Ptr) (m : Machine)
        → x ≢ null
        → old m.readings x ≡ false
        → Agrees m
        → sweep (suc fuel) i x prev m ≡ sweep fuel i (m.threads x).next x (after_reading m)
    unfolding sweep sweep_one
    sweep_young fuel x prev m live young agree =
        let real : (x == null) ≡ false = ground (arith, live) in
        rw (real, agree m.readings x, young, real) refl

    sweep_old :
        (fuel : ℕ) (x prev : Ptr) (m m' : Machine)
        → x ≢ null
        → old m.readings x ≡ true
        → Agrees m
        → remove_from i x prev (after_reading m) ≡ ok m'
        → sweep (suc fuel) i x prev m ≡ (
            let p = (m'.threads x).next in
            let g = promote x m' in
            sweep fuel i
              (if p == null then null else (g.threads p).next)
              (if p == null then prev else p)
              g)
    unfolding sweep sweep_one
    sweep_old fuel x prev m m' live is agree ran =
        let real : (x == null) ≡ false = ground (arith, live) in
        rw (real, agree m.readings x, is, ran) refl

    young_step :
        (fuel : ℕ) (x : Ptr) (pre post : List Ptr) (m : Machine) (ls : QueueAddr → List Ptr)
        → Queues m ls
        → ls (run i) ≡ pre ++ x ∷ post
        → Agrees m
        → old m.readings x ≡ false
        → Swept fuel (pre ++ x ∷ []) post (after_reading m) ls
        → Swept (suc fuel) pre (x ∷ post) m ls
    young_step fuel x pre post m ls v here agree young s =
        let q : IsQueue m.threads (read_queue (run i) m) (pre ++ x ∷ post) =
          rw here at (v.each (run i)) in
        let next = first_is m.threads _ post (Chain-behind m.threads _ x pre post q.chain) in
        let (ks, ps, rs) = young_lem old m.readings x post young in
        record {
          m' = s.m';
          ran =
              sweep_young fuel x _ m (live_of m.threads _ x pre post q.chain) young agree
              ∙ rw (next, ← last-append_one null x pre) s.ran;
          moved = rw (ks, ps, ← spread_behind x pre _ _ ls) (Moved-reading m s.m' ls _ s.moved);
          readings = rw rs (s.readings ∙ omega arith);
        }

    old_end :
        (fuel : ℕ) (x : Ptr) (pre : List Ptr) (m : Machine) (ls : QueueAddr → List Ptr)
        → Queues m ls
        → ls (run i) ≡ pre ++ x ∷ []
        → Agrees m
        → old m.readings x ≡ true
        → 0 < fuel
        → Swept (suc fuel) pre (x ∷ []) m ls
    old_end fuel x pre m ls v here agree is enough =
        let g = after_reading m in
        let vg = Queues-frame m g ls refl refl (λ a. refl) v in
        let (m', ran, next, moved, readings) = promotion i low x pre [] g vg here in
        record {
          m' = promote x m';
          ran =
              sweep_old fuel x _ m m' (live i low x pre [] m v here) is agree ran
              ∙ rw next (sweep-null fuel _ _ enough);
          moved =
              rw is
                (rw (spread-put pre [] (x ∷ []) ls) (Moved-reading m (promote x m') ls _ moved));
          readings = readings;
        }

    IsOut-moved :
        (x : Ptr) (pre post : List Ptr) (ls : QueueAddr → List Ptr) (a : Ptr)
        → ls (run i) ≡ pre ++ x ∷ post
        → IsOut ls a
        → IsOut (put (run 0) (ls (run 0) ++ x ∷ []) (put (run i) (pre ++ post) ls)) a
    IsOut-moved x pre post ls a here o = (
      o.0,
      λ k. elim (Bool-cases (same_addr k (run 0))) [
        | inl z ↦ rw z (
            ground (
              arith,
              o.1 (run 0),
              o.1 (run i),
              ap (has a) here,
              has-append a pre (x ∷ post),
              has-append a (ls (run 0)) (x ∷ []),
            ))
        | inr z ↦ elim (Bool-cases (same_addr k (run i))) [
          | inl s ↦
              rw (z, s)
                (ground (
                  arith,
                  o.1 (run i),
                  ap (has a) here,
                  has-append a pre (x ∷ post),
                  has-append a pre post,
                ))
          | inr s ↦ rw (z, s) (o.1 k)
        ]
      ],
    )

    Moved-join :
        (x y : Ptr) (pre zs : List Ptr) (m g k : Machine) (ls : QueueAddr → List Ptr) (r : ℕ)
        → ls (run i) ≡ pre ++ x ∷ y ∷ zs
        → g.readings ≡ r
        → Moved m ls (moved_lists i low x (pre ++ y ∷ zs) ls) g
        → Moved g
            (moved_lists i low x (pre ++ y ∷ zs) ls)
            (spread
              (pre ++ y ∷ [])
              (kept old g.readings zs)
              (promoted old g.readings zs)
              (moved_lists i low x (pre ++ y ∷ zs) ls))
            k
        → Moved m ls (spread pre (y ∷ kept old r zs) (x ∷ promoted old r zs) ls) k
    Moved-join x y pre zs m g k ls r here at_r v w = record {
      queues = rw (at_r, spread_moved x y pre zs _ _ m ls) at w.queues;
      alike = Alike-trans v.alike w.alike;
      outside = λ a o. w.outside a (IsOut-moved x pre (y ∷ zs) ls a here o) ∙ v.outside a o;
    }

    old_step :
        (fuel : ℕ) (x y : Ptr) (pre zs : List Ptr) (m : Machine) (ls : QueueAddr → List Ptr)
        → Queues m ls
        → ls (run i) ≡ pre ++ x ∷ y ∷ zs
        → Agrees m
        → old m.readings x ≡ true
        → ((g : Machine)
            → Alike m g
            → Queues g (moved_lists i low x (pre ++ y ∷ zs) ls)
            → Swept fuel (pre ++ y ∷ []) zs g (moved_lists i low x (pre ++ y ∷ zs) ls))
        → Swept (suc fuel) pre (x ∷ y ∷ zs) m ls
    old_step fuel x y pre zs m ls v here agree is rest =
        let vg = Queues-frame m (after_reading m) ls refl refl (λ a. refl) v in
        let (m', ran, next, moved, readings) =
          promotion i low x pre (y ∷ zs) (after_reading m) vg here in
        let s = rest (promote x m') (Alike-reading m (promote x m') moved.alike) moved.queues in
        let (next', real) = behind (promote x m') moved.queues in
        record {
          m' = s.m';
          ran =
              sweep_old fuel x _ m m' (live i low x pre (y ∷ zs) m v here) is agree ran
              ∙ rw (next, real, next', ← last-append_one null y pre) s.ran;
          moved = rw is (
              Moved-join x y pre zs m (promote x m') s.m' ls (m.readings + 1) here readings
                (Moved-reading m (promote x m') ls _ moved) s.moved);
          readings = rw is (s.readings ∙ rw readings (omega arith));
        }
      where
        behind :
            (g : Machine)
            → Queues g (moved_lists i low x (pre ++ y ∷ zs) ls)
            → ((g.threads y).next ≡ first zs) × ((y == null) ≡ false)
        behind g w =
            let at_i : moved_lists i low x (pre ++ y ∷ zs) ls (run i) ≡ pre ++ y ∷ zs =
              rw (same_addr_sym i low, same_addr_refl (run i)) refl in
            let q : IsQueue g.threads (read_queue (run i) g) (pre ++ y ∷ zs) =
              rw at_i at (w.each (run i)) in
            (
              first_is g.threads _ zs (Chain-behind g.threads _ y pre zs q.chain),
              ground (arith, live_of g.threads _ y pre zs q.chain),
            )

    pub sweep-Swept :
        (fuel : ℕ) (pre xs : List Ptr) (m : Machine) (ls : QueueAddr → List Ptr)
        → Queues m ls
        → ls (run i) ≡ pre ++ xs
        → Agrees m
        → length xs < fuel
        → Swept fuel pre xs m ls
    sweep-Swept zero pre xs m ls v here agree enough = absurd (omega arith)
    sweep-Swept (suc fuel) pre [] m ls v here agree enough = record {
      m' = m;
      ran = sweep-null (suc fuel) _ m (omega arith);
      moved = record {
        queues = subst (Queues m) (fun_ext (λ k. spread-nil pre ls k (here ∙ append-nil pre))) v;
        alike = Alike-refl m;
        outside = λ a o. refl;
      };
      readings = omega arith;
    }
    sweep-Swept (suc fuel) pre (x ∷ []) m ls v here agree enough =
        elim (Bool-cases (old m.readings x)) [
          | inl is ↦ old_end fuel x pre m ls v here agree is (omega arith)
          | inr young ↦ young_step fuel x pre [] m ls v here agree young (
              sweep-Swept fuel (pre ++ x ∷ []) [] (after_reading m) ls
                (Queues-frame m _ ls refl refl (λ a. refl) v)
                (here ∙ sym (append-nil (pre ++ x ∷ []))) agree (omega arith))
        ]
    sweep-Swept (suc fuel) pre (x ∷ y ∷ zs) m ls v here agree enough =
        elim (Bool-cases (old m.readings x)) [
          | inl is ↦ old_step fuel x y pre zs m ls v here agree is (λ g a w.
              sweep-Swept fuel (pre ++ y ∷ []) zs g _ w
                (rw (same_addr_sym i low, same_addr_refl (run i))
                  (sym (append_assoc pre (y ∷ []) zs)))
                (Agrees-Alike m g a agree) (omega arith))
          | inr young ↦ young_step fuel x pre (y ∷ zs) m ls v here agree young (
              sweep-Swept fuel (pre ++ x ∷ []) (y ∷ zs) (after_reading m) ls
                (Queues-frame m _ ls refl refl (λ a. refl) v)
                (here ∙ sym (append_assoc pre (x ∷ []) (y ∷ zs))) agree (omega arith))
        ]
