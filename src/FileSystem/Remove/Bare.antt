-- ===== src/FileSystem/Remove/Bare.antt =====
-- deleteAllInodeEntries of filesystemFUSE/submission/inode.c on the list of the entries of a directory.
use rutgers_cs.Prelude.{
  ℕ, zero, suc, ◌+◌, ◌≤◌, ◌<◌, ◌≡◌, refl, Bool, true, false, List, [], ◌∷◌, if◌then◌else◌, ◌==◌,
  leb, arith, inl, inr, Bool-cases, ==_refl,
}
use rutgers_cs.Prelude.Run.{
  Run, ok, ◌>>=◌, OnOk, OnOk-fault, OnOk-out_of_fuel, OnOk-bind, first_ran,
}
use rutgers_cs.FileSystem.Layout.{block_size, dblock_idx}
use rutgers_cs.FileSystem.Inodes.{Inode}
use rutgers_cs.FileSystem.Entries.{DirEntry, DirBlock, cut_entry}
use rutgers_cs.FileSystem.Entries.Order.{Entries, total}
use rutgers_cs.FileSystem.Disk.{Disk, Host}
use rutgers_cs.FileSystem.Remove.{
  Heap, free, free_inode, is_child, delete_entries_from, delete_all_from, delete_all_entries,
}

-- The directory has no entry of a file or a directory.
abbrev pub is_bare : List DirEntry → Bool
is_bare [] = true
is_bare (e ∷ es) = if is_child e then false else is_bare es

-- A run that does not return.
abbrev Never : Run (Heap × Disk) → Type 0
Never = OnOk (λ s. false ≡ true)

-- Memory that was freed is not freed again.
free_inode-twice : (p : ℕ) (s : Heap × Disk) → Never (free_inode p s >>= free_inode p)
unfolding free
free_inode-twice p (h, d) = elim (Bool-cases (h.live p)) [
  | inl used ↦ rw (used, ==_refl p) OnOk-fault
  | inr unused ↦ rw unused OnOk-fault
]

module _ (host : Host) where
  delete_entries_from-bare :
      (fuel o : ℕ) (b : DirBlock) (s : Heap × Disk) (es : List DirEntry)
      → Entries b o es
      → o + total es ≤ block_size
      → total es < fuel
      → is_bare es ≡ true
      → delete_entries_from host fuel o b s ≡ ok s
  unfolding delete_entries_from
  delete_entries_from-bare zero o b s es v low enough bare = absurd (omega arith)
  delete_entries_from-bare (suc fuel) o b (h, d) [] v low enough bare =
      let e = v o (omega arith) in
      rw e (elim (Bool-cases (leb block_size o)) [ inl h ↦ rw h refl | inr h ↦ rw h refl ])
  delete_entries_from-bare (suc fuel) o b (h, d) (e ∷ es) v low enough bare =
      let (here, pos, rest) = v in
      let go : ((b o).dir_length == 0) ≡ false = rw here (ground arith) in
      let within : leb block_size o ≡ false = ground arith in
      elim (Bool-cases (is_child e)) [
        | inl hit ↦ absurd (ground (arith, bare, hit))
        | inr miss ↦
            rw (within, go, here, miss)
              (delete_entries_from-bare fuel (o + e.dir_length) b (h, d) es rest (omega arith)
                (omega arith) (rw miss at bare))
      ]

  -- sfs_rmdir ends its call with deleteAllInodeEntries on the directory that was removed. Where that is a
  -- directory of one block that holds nothing but "." and "..", the call frees the memory of the inode and
  -- leaves the device alone.
  pub delete_all_entries-bare :
      (fuel p : ℕ) (v : Inode) (s : Heap × Disk) (es : List DirEntry)
      → v.num_blocks ≡ 1
      → Entries (s.1.entries (v.direct_block_ptr 0 + dblock_idx)) 0 es
      → total es ≤ block_size
      → block_size < fuel
      → is_bare es ≡ true
      → delete_all_entries host fuel p v s ≡ free_inode p s
  unfolding delete_all_entries delete_all_from
  delete_all_entries-bare fuel p v (h, d) es one w low enough bare =
      rw (one, delete_entries_from-bare fuel 0 _ (h, d) es w (omega arith) (omega arith) bare) refl

  delete_entries_from-child :
      (fuel o : ℕ) (b : DirBlock) (s : Heap × Disk) (es : List DirEntry)
      → Entries b o es
      → o + total es ≤ block_size
      → is_bare es ≡ false
      → Never (delete_entries_from host fuel o b s)
  unfolding delete_entries_from
  delete_entries_from-child zero o b s es v low full = OnOk-out_of_fuel
  delete_entries_from-child (suc fuel) o b (h, d) [] v low full = absurd (cc)
  delete_entries_from-child (suc fuel) o b (h, d) (e ∷ es) v low full =
      let (here, pos, rest) = v in
      let go : ((b o).dir_length == 0) ≡ false = rw here (ground arith) in
      let within : leb block_size o ≡ false = ground arith in
      elim (Bool-cases (is_child e)) [
        | inl hit ↦
            rw (within, go, here, hit)
              (OnOk-bind (cut_entry o b) _ (λ b' c.
                OnOk-bind (delete_all_from _ _ 0 _ _) _ (λ s' c'. free_inode-twice h.next s')))
        | inr miss ↦
            rw (within, go, here, miss)
              (delete_entries_from-child fuel (o + e.dir_length) b (h, d) es rest (omega arith)
                (rw miss at full))
      ]

  -- Where it is a directory of one block that holds a file or another directory, the call does not return: at
  -- the first of these it frees memory twice, if not undefined behaviour comes before that.
  pub delete_all_entries-full :
      (fuel p : ℕ) (v : Inode) (s : Heap × Disk) (es : List DirEntry)
      → v.num_blocks ≡ 1
      → Entries (s.1.entries (v.direct_block_ptr 0 + dblock_idx)) 0 es
      → total es ≤ block_size
      → is_bare es ≡ false
      → Never (delete_all_entries host fuel p v s)
  unfolding delete_all_entries delete_all_from
  delete_all_entries-full fuel p v (h, d) es one w low full = rw one (
      OnOk-bind (delete_entries_from host fuel 0 _ (h, d) >>= λ s. ok s) _ (λ s c.
        let (s', ran, _) = first_ran (delete_entries_from host fuel 0 _ (h, d)) _ c in
        absurd
          (cc ((delete_entries_from-child fuel 0 _ (h, d) es w (omega arith) full).ends s' ran))))
