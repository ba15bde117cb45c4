-- ===== src/FileSystem/Entries/Cut.antt =====
-- deleteInodeEntry of filesystemFUSE/submission/inode.c on the list of the entries of a block.
use rutgers_cs.Prelude.{
  ℕ, zero, suc, ◌+◌, ◌-◌, ◌≤◌, ◌<◌, ◌≡◌, refl, Bool, true, false, List, [], ◌∷◌, if◌then◌else◌,
  ◌==◌, ltb, leb, Option, none, some, arith, inl, inr, Bool-cases, ◌∙◌,
}
use rutgers_cs.Prelude.Run.{Run, ok, fault}
use rutgers_cs.FileSystem.Layout.{block_size}
use rutgers_cs.FileSystem.Entries.{DirEntry, DirBlock, without, cut_entry, delete_from}
use rutgers_cs.FileSystem.Entries.Order.{Entries, total}

-- An entry has the inode number `n`.
abbrev pub holds : ℕ → List DirEntry → Bool
holds n [] = false
holds n (e ∷ es) = if e.i_num == n then true else holds n es

-- The entries without the first one of the number `n`.
abbrev pub drop_first : ℕ → List DirEntry → List DirEntry
drop_first n [] = []
drop_first n (e ∷ es) = if e.i_num == n then es else e ∷ drop_first n es

-- The first entry with the number `n`, of those from the offset `o` on, is shorter than what is behind it in the
-- block: memcpy of that over the entry would overlap.
abbrev pub overlaps : ℕ → ℕ → List DirEntry → Bool
overlaps n o [] = false
overlaps n o (e ∷ es) =
    if e.i_num == n
    then ltb e.dir_length (block_size - o - e.dir_length)
    else overlaps n (o + e.dir_length) es

Entries-without :
    (o len q : ℕ) (d : DirBlock) (es : List DirEntry)
    → (d o).dir_length ≡ len
    → o ≤ q
    → Entries d (q + len) es
    → q + len + total es ≤ block_size
    → Entries (without o d) q es
Entries-without o len q d [] e low v fits = λ x h. rw e (ground (arith, v (x + len)))
Entries-without o len q d (x ∷ xs) e low v fits =
    let (here, pos, rest) = v in
    let behind : ltb q o ≡ false = ground arith in
    let within : ltb (q + len) block_size ≡ true = ground arith in
    let swap : q + len + x.dir_length ≡ q + x.dir_length + len = omega arith in
    (
      rw (e, behind, within) here,
      pos,
      Entries-without o len (q + x.dir_length) d xs e (omega arith) (rw swap at rest) (omega arith),
    )

without-below : (o x : ℕ) (d : DirBlock) → x < o → without o d x ≡ d x
without-below o x d h = let low : ltb x o ≡ true = ground arith in rw low refl

-- What delete_from comes to at the offset `o`: undefined behaviour where `bad`.
pub record Deleted (d : DirBlock) (o : ℕ) (es : List DirEntry) (bad : Bool)
    (r : Run (Option DirBlock)) : Type 0 where
  pub d' : DirBlock
  pub ran : r ≡ (if bad then fault else ok (some d'))
  pub entries : Entries d' o es
  pub below : (x : ℕ) → x < o → d' x ≡ d x

module _ (n : ℕ) (d : DirBlock) where
  delete_from-hit :
      (fuel o : ℕ) (e : DirEntry) (es : List DirEntry)
      → Entries d o (e ∷ es)
      → o + total (e ∷ es) ≤ block_size
      → (e.i_num == n) ≡ true
      → Deleted d o es
          (ltb e.dir_length (block_size - o - e.dir_length))
          (delete_from (suc fuel) o n d)
  unfolding delete_from cut_entry
  delete_from-hit fuel o e es v low hit =
      let (here, pos, rest) = v in
      let go : ((d o).dir_length == 0) ≡ false = rw here (ground arith) in
      let within : leb block_size o ≡ false = ground arith in
      let same : ((d o).i_num == n) ≡ true = rw here hit in
      record {
        d' = without o d;
        ran =
            let inside : ltb block_size (o + (d o).dir_length) ≡ false = rw here (ground arith) in
            rw (go, within, same, inside, here)
              (elim (Bool-cases (ltb e.dir_length (block_size - o - e.dir_length))) [
                | inl bad ↦ rw bad refl
                | inr good ↦ rw good refl
              ]);
        entries =
            Entries-without o e.dir_length o d es (rw here refl) (omega arith) rest (omega arith);
        below = λ x h. without-below o x d h;
      }

  delete_from-miss :
      (fuel o : ℕ) (e : DirEntry) (es : List DirEntry)
      → Entries d o (e ∷ es)
      → o + total (e ∷ es) ≤ block_size
      → (e.i_num == n) ≡ false
      → delete_from (suc fuel) o n d ≡ delete_from fuel (o + e.dir_length) n d
  unfolding delete_from
  delete_from-miss fuel o e es v low miss =
      let (here, pos, rest) = v in
      let go : ((d o).dir_length == 0) ≡ false = rw here (ground arith) in
      let within : leb block_size o ≡ false = ground arith in
      let other : ((d o).i_num == n) ≡ false = rw here miss in rw (go, within, other, here) refl

  -- Where an entry of the block has the number `n`, deleteInodeEntry takes the first one with it out of the
  -- entries and keeps the others in their order, without a gap, unless the areas of its memcpy overlap. Fuel for each byte of the entries is enough.
  pub delete_from-drop_first :
      (fuel o : ℕ) (es : List DirEntry)
      → Entries d o es
      → o + total es ≤ block_size
      → total es < fuel
      → holds n es ≡ true
      → Deleted d o (drop_first n es) (overlaps n o es) (delete_from fuel o n d)
  delete_from-drop_first zero o es v low enough h = absurd (omega arith)
  delete_from-drop_first (suc fuel) o [] v low enough h = absurd (cc)
  delete_from-drop_first (suc fuel) o (e ∷ es) v low enough h = elim (Bool-cases (e.i_num == n)) [
    | inl hit ↦ rw hit (delete_from-hit fuel o e es v low hit)
    | inr miss ↦
        let (here, pos, rest) = v in
        let r =
          delete_from-drop_first fuel (o + e.dir_length) es rest (omega arith) (omega arith)
            (rw miss at h) in
        rw miss (record {
          d' = r.d';
          ran = delete_from-miss fuel o e es v low miss ∙ r.ran;
          entries = (r.below o (omega arith) ∙ here, pos, r.entries);
          below = λ x b. r.below x (omega arith);
        })
  ]

  -- Where no entry of the block has the number `n`, the block is left alone.
  delete_from-none :
      (fuel o : ℕ) (es : List DirEntry)
      → Entries d o es
      → o + total es ≤ block_size
      → total es < fuel
      → holds n es ≡ false
      → delete_from fuel o n d ≡ ok none
  unfolding delete_from
  delete_from-none zero o es v low enough h = absurd (omega arith)
  delete_from-none (suc fuel) o [] v low enough h = let e = v o (omega arith) in rw e refl
  delete_from-none (suc fuel) o (e ∷ es) v low enough h = elim (Bool-cases (e.i_num == n)) [
    | inl hit ↦ absurd (ground (arith, h, hit))
    | inr miss ↦
        let (here, pos, rest) = v in
        delete_from-miss fuel o e es v low miss
        ∙ delete_from-none fuel (o + e.dir_length) es rest (omega arith) (omega arith)
            (rw miss at h)
  ]
