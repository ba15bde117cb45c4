-- ===== src/Memory/Deallocate/RoundTrip.antt =====
-- myallocate and mydeallocate of scheduler+virtualMemoryManager/submission/myallocate.c one after the other.
use rutgers_cs.Prelude.{
  ℕ, suc, ◌+◌, ◌-◌, ◌≤◌, ◌<◌, ◌≡◌, ◌≢◌, refl, Bool, true, false, List, [], ◌∷◌, arith, ◌==◌, leb,
  ◌∙◌, sym, Bool-cases, inl, inr, ◌⊎◌, ap,
}
use rutgers_cs.Memory.Types.{
  Addr, Meta, Memory, sizeof_meta, user_size, thread_req, free_flag, first_user_page, addr_of, ok,
}
use rutgers_cs.Memory.Head.Own.{IsHome, get_head-IsHome}
use rutgers_cs.Memory.Allocate.{myallocate, organize_mem, find_block, allocate_at, fits}
use rutgers_cs.Memory.Allocate.Split.{Blocks, organize_mem-cell}
use rutgers_cs.Memory.Allocate.Request.{myallocate-serve_from}
use rutgers_cs.Memory.Deallocate.{mydeallocate, is_block, free_block}
use rutgers_cs.Memory.Deallocate.Block.{free_block-joins}

-- What the list of the blocks depends on.
abbrev pub Same : (Addr → Meta) → (Addr → Meta) → Addr → Type 0
Same h g x = ((g x).size ≡ (h x).size) × ((g x).is_free ≡ (h x).is_free) × ((g x).next ≡ (h x).next)

pub Blocks-Same :
    (h g : Addr → Meta) (a end : Addr) (bs : List (ℕ × Bool))
    → ((x : Addr) → a ≤ x → Same h g x)
    → Blocks h a end bs
    → Blocks g a end bs
Blocks-Same h g a end [] same v = v
Blocks-Same h g a end ((n, used) ∷ []) same v =
    let (s, f, x) = same a (omega arith) in (s ∙ v.0, f ∙ v.1, x ∙ v.2, v.3)
Blocks-Same h g a end ((n, used) ∷ b ∷ bs) same v =
    let (s, f, x) = same a (omega arith) in
    (
      s ∙ v.0,
      f ∙ v.1,
      x ∙ v.2,
      Blocks-Same h g (a + sizeof_meta + n) end (b ∷ bs) (λ y low. same y (omega arith)) v.3,
    )

-- The first block is free again, with all that it had.
Blocks-whole :
    (h g : Addr → Meta) (a end n : ℕ) (bs : List (ℕ × Bool))
    → Blocks h a end ((n, false) ∷ bs)
    → Same h g a
    → ((x : Addr) → a + sizeof_meta + n ≤ x → Same h g x)
    → Blocks g a end ((n, false) ∷ bs)
Blocks-whole h g a end n [] v (s, f, x) same = (s ∙ v.0, f ∙ v.1, x ∙ v.2, v.3)
Blocks-whole h g a end n (b ∷ bs) v (s, f, x) same =
    (s ∙ v.0, f ∙ v.1, x ∙ v.2, Blocks-Same h g (a + sizeof_meta + n) end (b ∷ bs) same v.3)

first_of_Blocks :
    (h : Addr → Meta) (a end n : ℕ) (bs : List (ℕ × Bool))
    → Blocks h a end ((n, false) ∷ bs)
    → ((h a).size ≡ n)
      × ((h a).is_free ≡ 1)
      × (((h a).next ≡ 0) ⊎ ((h a).next ≡ a + sizeof_meta + n))
first_of_Blocks h a end n [] v = (v.0, v.1, inl v.2)
first_of_Blocks h a end n (b ∷ bs) v = (v.0, v.1, inr v.2)

-- The request is met at the first block, which is cut.
myallocate-cut :
    (fuel size n : ℕ) (m : Memory)
    → m.base_page ≢ 0
    → 0 < size
    → n ≤ user_size - sizeof_meta
    → IsHome m
    → (m.cell (addr_of first_user_page)).size ≡ n
    → (m.cell (addr_of first_user_page)).is_free ≡ 1
    → size + sizeof_meta < n
    → myallocate (suc fuel) size thread_req m
      ≡ ok (addr_of first_user_page + sizeof_meta, organize_mem (addr_of first_user_page) size m)
unfolding find_block allocate_at
myallocate-cut fuel size n m set pos low home s f room =
    let p = addr_of first_user_page in
    let fit : fits size (m.cell p) ≡ true = rw (s, f) (ground arith) in
    let whole : leb (m.cell p).size (size + sizeof_meta) ≡ false = rw s (ground arith) in
    let cut : leb (size + sizeof_meta) (m.cell p).size ≡ true = rw s (ground arith) in
    let here : find_block (suc fuel) size p m ≡ ok p = elim (Bool-cases ((m.cell p).next == 0)) [
      | inl e ↦ rw e refl
      | inr e ↦ rw (e, fit) refl
    ] in
    myallocate-serve_from (suc fuel) size m set pos (omega arith) home
    ∙ rw (here, fit, whole, f, cut) refl

organize_mem-kept :
    (m : Memory) (a size x : ℕ)
    → x < a ⊎ (x ≡ a) ⊎ (a + sizeof_meta + size < x)
    → ((organize_mem a size m).cell x).prev ≡ (m.cell x).prev
unfolding organize_mem
organize_mem-kept m a size x h = ground (arith, h)

organize_mem-IsHome : (m : Memory) (a size : ℕ) → IsHome m → IsHome (organize_mem a size m)
unfolding organize_mem
organize_mem-IsHome m a size home = record { owner = home.owner; number = home.number }

-- The first block of the thread is given back.
mydeallocate-first :
    (fuel : ℕ) (m m' : Memory)
    → IsHome m
    → free_block (addr_of first_user_page) m ≡ ok m'
    → mydeallocate (suc fuel) (addr_of first_user_page + sizeof_meta) thread_req m ≡ ok m'
unfolding mydeallocate is_block
mydeallocate-first fuel m m' home ran = rw (get_head-IsHome free_flag m home) ran

-- Where the first block of a thread, whose first page is in place, is free and has more bytes than the request and
-- a struct Meta take, myallocate returns an address in it, and mydeallocate of that address returns: the blocks are the same as
-- before, with the first one free and of its old size.
pub mydeallocate-myallocate :
    (fuel size end n : ℕ) (m : Memory) (bs : List (ℕ × Bool))
    → m.base_page ≢ 0
    → 0 < size
    → n ≤ user_size - sizeof_meta
    → size + sizeof_meta < n
    → IsHome m
    → Blocks m.cell (addr_of first_user_page) end ((n, false) ∷ bs)
    → (m.cell (addr_of first_user_page)).prev ≡ 0
    → (m' : Memory) × (m'' : Memory) × (myallocate (suc fuel) size thread_req m
        ≡ ok (addr_of first_user_page + sizeof_meta, m'))
      × (mydeallocate (suc fuel) (addr_of first_user_page + sizeof_meta) thread_req m' ≡ ok m'')
      × Blocks m''.cell (addr_of first_user_page) end ((n, false) ∷ bs)
mydeallocate-myallocate fuel size end n m bs set pos low room home v prev =
    let p = addr_of first_user_page in
    let g = organize_mem p size m in
    let (s, f, next) = first_of_Blocks m.cell p end n bs v in
    let (s', f', x', sq, fq, xq, same) = organize_mem-cell m p size in
    let (m'', ran, free, whole, link, others) =
      free_block-joins p g f' (organize_mem-kept m p size p (inr (inl refl)) ∙ prev)
        (rw x' (ground arith)) (rw x' fq) (rw (x', xq) (ground (arith, next))) in
    let behind : (g.cell (g.cell p).next).size ≡ n - (size + sizeof_meta) =
      ap (λ a. (g.cell a).size) x' ∙ sq ∙ omega (arith, s) in
    let kept : (x : Addr) → p + sizeof_meta + n ≤ x → Same m.cell m''.cell x = λ x far.
      let (a, b, c) = others x (λ e. absurd (omega (arith, e, far))) in
      let e : g.cell x ≡ m.cell x = same x (omega arith) in
      (
        a ∙ ap (λ (y : Meta). y.size) e,
        b ∙ ap (λ (y : Meta). y.is_free) e,
        c ∙ ap (λ (y : Meta). y.next) e,
      ) in
    (
      g,
      m'',
      myallocate-cut fuel size n m set pos low home s f room,
      mydeallocate-first fuel g m'' (organize_mem-IsHome m p size home) ran,
      Blocks-whole m.cell m''.cell p end n bs v
          (
            whole ∙ omega (arith, s', behind, s),
            free ∙ sym f,
            link ∙ ap (λ a. (g.cell a).next) x' ∙ xq,
          )
          kept,
    )
