-- ===== src/FileSystem/Remove/Unlink.antt =====
-- sfs_unlink of filesystemFUSE/submission/sfs.c for a name in the root.
use rutgers_cs.Prelude.{
  ℕ, ◌+◌, ◌≤◌, ◌<◌, ◌≡◌, ◌≢◌, refl, Bool, true, false, List, [], ◌∷◌, if◌then◌else◌, ◌==◌, ltb,
  some, arith, inl, inr, Bool-cases, ◌∙◌, length, has, ap,
}
use rutgers_cs.Prelude.Run.{Run, ok, fault}
use rutgers_cs.FileSystem.Layout.{block_size, dblock_idx, total_inodes}
use rutgers_cs.FileSystem.Inodes.{InodeTable, get_inode, free_size, remove_inode}
use rutgers_cs.FileSystem.Inodes.Table.{remove_inode-frees}
use rutgers_cs.FileSystem.Entries.{DirEntry, delete_in, delete_inode_entry}
use rutgers_cs.FileSystem.Entries.Order.{Entries, total}
use rutgers_cs.FileSystem.Entries.Cut.{holds, drop_first, overlaps, delete_from-drop_first}
use rutgers_cs.FileSystem.Disk.{Disk, Host, done, name_len}
use rutgers_cs.FileSystem.Lookup.{
  slash, same_name, is_found, inode_from_path, get_parent_inode_from_path,
}
use rutgers_cs.FileSystem.Lookup.Names.{lookup}
use rutgers_cs.FileSystem.Lookup.Root.{split_last-name, reached, inode_from_path-lookup}
use rutgers_cs.FileSystem.Remove.{delete_entry, unlink}

pub get_parent-root :
    (fuel : ℕ) (name : List ℕ) (d : Disk)
    → has slash name ≡ false
    → get_parent_inode_from_path fuel (slash ∷ name) d ≡ ok (some 0)
unfolding get_parent_inode_from_path inode_from_path
get_parent-root fuel name d plain = rw (get_parent_inode_from_path, split_last-name name plain) refl

-- A number that is found is in the entries.
pub number-lookup :
    (name : List ℕ) (n : ℕ) (es : List DirEntry) → lookup name es ≡ some n → holds n es ≡ true
number-lookup name n [] e = absurd (cc)
number-lookup name n (x ∷ xs) e = elim (Bool-cases (same_name x.file_name name)) [
  | inl hit ↦
      let here : some x.i_num ≡ some n = rw hit at e in
      let same : x.i_num ≡ n = cc in ground (arith, same)
  | inr miss ↦ let rest = number-lookup name n xs (rw miss at e) in ground (arith, rest)
]

-- A value, or undefined behaviour where `bad`.
abbrev pub unless {ℓ} : {A : Type ℓ} → Bool → A → Run A
unless bad a = if bad then fault else ok a

-- deleteInodeEntry in a directory of one block.
pub delete_entry-one :
    (fuel n p j : ℕ) (d : Disk) (es : List DirEntry)
    → (get_inode p d.inodes).num_blocks ≡ 1
    → (get_inode p d.inodes).direct_block_ptr 0 + dblock_idx ≡ j
    → Entries (d.entries j) 0 es
    → total es ≤ block_size
    → block_size < fuel
    → holds n es ≡ true
    → (d' : Disk) × (delete_entry fuel n (some p) d ≡ unless (overlaps n 0 es) (true, d'))
      × Entries (d'.entries j) 0 (drop_first n es)
      × (d'.inodes ≡ d.inodes)
      × (d'.bitmaps ≡ d.bitmaps)
      × ((l : ℕ) → l ≢ j → d'.entries l ≡ d.entries l)
unfolding delete_entry delete_inode_entry delete_in
delete_entry-one fuel n p j d es one place v low enough h =
    let r = delete_from-drop_first n (d.entries j) fuel 0 es v (omega arith) (omega arith) h in
    (
      record d { entries = λ l. if l == j then r.d' else d.entries l },
      elim (Bool-cases (overlaps n 0 es)) [
        | inl bad ↦ let ran = rw bad at r.ran in rw (bad, one, place, ran) refl
        | inr good ↦ let ran = rw good at r.ran in rw (good, one, place, ran, place) refl
      ],
      ground (arith, r.entries),
      refl,
      refl,
      λ l ne. ground (arith, ne),
    )

module _ (host : Host) (fuel : ℕ) (name : List ℕ) (d : Disk) (n : ℕ) (es : List DirEntry) where
  unlink-runs :
      (t : InodeTable) (bad : Bool) (d' : Disk)
      → length name + 1 < name_len
      → inode_from_path fuel (slash ∷ name) d ≡ ok (some n)
      → get_parent_inode_from_path fuel (slash ∷ name) d ≡ ok (some 0)
      → (get_inode n d.inodes).i_num ≡ n
      → 0 < n
      → remove_inode host.is_dir n (get_inode n d.inodes).file_mode d.inodes ≡ (true, t)
      → delete_entry fuel n (some 0) (record d { inodes = t }) ≡ unless bad (true, d')
      → unlink host fuel (slash ∷ name) d ≡ unless bad (done, d')
  unfolding unlink
  unlink-runs t bad d' short file parent number pos gone cut =
      let fits : ltb (length (slash ∷ name)) name_len ≡ true = ground arith in
      let other : (n == 0) ≡ false = ground arith in
      rw (fits, file, parent, number, other, gone, cut)
        (elim (Bool-cases bad) [ inl h ↦ rw h refl | inr h ↦ rw h refl ])

  -- sfs_unlink of '/' and one name, in a root of one block, where the first entry with the name leads to an
  -- inode in use with a number from 1 to 127. Where the first entry with the number of the inode is as long as what
  -- is behind it in the block, or longer, the result is 0, that entry is gone from the root, which keeps the others
  -- in their order, the inode has the size of a free one in the table, all other inodes are as they were, and
  -- the bitmaps too: the inode's number and its blocks stay allocated. Where the entry is shorter, its memcpy
  -- overlaps, which is undefined behaviour. One unit of fuel more than the bytes of a block is enough.
  pub unlink-drop_first :
      name ≢ []
      → has slash name ≡ false
      → length name + 1 < name_len
      → (get_inode 0 d.inodes).i_num ≡ 0
      → (get_inode 0 d.inodes).num_blocks ≡ 1
      → Entries (d.entries ((get_inode 0 d.inodes).direct_block_ptr 0 + dblock_idx)) 0 es
      → total es ≤ block_size
      → block_size < fuel
      → lookup name es ≡ some n
      → (get_inode n d.inodes).i_num ≡ n
      → 0 < n
      → n < total_inodes
      → (get_inode n d.inodes).size ≢ free_size
      → (d' : Disk) × (unlink host fuel (slash ∷ name) d ≡ unless (overlaps n 0 es) (done, d'))
        × Entries
            (d'.entries ((get_inode 0 d.inodes).direct_block_ptr 0 + dblock_idx))
            0
            (drop_first n es)
        × ((get_inode n d'.inodes).size ≡ free_size)
        × ((k : ℕ) → k ≢ n → get_inode k d'.inodes ≡ get_inode k d.inodes)
        × (d'.bitmaps ≡ d.bitmaps)
  unlink-drop_first some_name plain short root one v low enough found number pos small used =
      let (t, gone, freed, kept_number, others, again) =
        remove_inode-frees host.is_dir n (get_inode n d.inodes).file_mode d.inodes used refl in
      let g : Disk = record d { inodes = t } in
      let kept = others 0 (λ e. absurd (omega (arith, e, pos))) in
      let (d', cut, left, same, maps, _) =
        delete_entry-one fuel n 0 _ g es (rw kept one) (rw kept refl) v low enough
          (number-lookup name n es found) in
      let real : is_found 0 (get_inode n d.inodes) ≡ true = rw number (ground arith) in
      let leads : reached d.inodes (lookup name es) ≡ some n = rw (found, real, number) refl in
      let file =
        inode_from_path-lookup fuel name d es some_name plain short root one v low enough
        ∙ ap ok leads in
      (
        d',
        unlink-runs t (overlaps n 0 es) d' short file (get_parent-root fuel name d plain) number pos
            gone cut,
        left,
        rw same freed,
        λ k ne. rw same (others k ne),
        maps,
      )
