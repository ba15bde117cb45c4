-- ===== src/FileSystem/Lookup/Root.antt =====
-- inodeFromPath of filesystemFUSE/submission/inode.c for a name in the root.
use rutgers_cs.Prelude.{
  ℕ, ◌+◌, ◌≤◌, ◌<◌, ◌≡◌, ◌≢◌, refl, true, false, List, [], ◌∷◌, if◌then◌else◌, ◌==◌, ltb, Option,
  none, some, arith, inl, inr, Bool-cases, length, has,
}
use rutgers_cs.Prelude.Run.{ok}
use rutgers_cs.FileSystem.Layout.{block_size, dblock_idx, get_inode_index, get_inode_block_index}
use rutgers_cs.FileSystem.Inodes.{InodeTable, get_inode}
use rutgers_cs.FileSystem.Entries.{DirEntry}
use rutgers_cs.FileSystem.Entries.Order.{Entries, total}
use rutgers_cs.FileSystem.Disk.{Disk, name_len}
use rutgers_cs.FileSystem.Lookup.{
  slash, split, split_last, names_of, find_inode, is_found, follow, inode_from_path,
}
use rutgers_cs.FileSystem.Lookup.Names.{lookup, inode_at, find_inode-lookup}

split-name : (name : List ℕ) → has slash name ≡ false → split name ≡ (name, [])
split-name [] h = refl
split-name (c ∷ cs) h =
    let other : (c == slash) ≡ false = ground (arith, h) in
    let rest : has slash cs ≡ false = ground (arith, h) in rw (other, split-name cs rest) refl

-- A name has no parent in it.
pub split_last-name : (name : List ℕ) → has slash name ≡ false → split_last name ≡ none
split_last-name [] h = refl
split_last-name (c ∷ cs) h =
    let other : (c == slash) ≡ false = ground (arith, h) in
    let rest : has slash cs ≡ false = ground (arith, h) in rw (split_last-name cs rest, other) refl

names_of-name :
    (c : ℕ) (cs : List ℕ) → has slash (c ∷ cs) ≡ false → names_of (slash ∷ c ∷ cs) ≡ (c ∷ cs) ∷ []
names_of-name c cs h =
    let other : (c == slash) ≡ false = ground (arith, h) in
    let rest : has slash cs ≡ false = ground (arith, h) in rw (other, split-name cs rest) refl

-- What a number that was found in the root leads to.
abbrev pub reached : InodeTable → Option ℕ → Option ℕ
reached t none = none
reached t (some n) = if is_found 0 (get_inode n t) then some (get_inode n t).i_num else none

follow-reached :
    (fuel : ℕ) (name : List ℕ) (d : Disk) (r : Option ℕ)
    → (get_inode 0 d.inodes).i_num ≡ 0
    → find_inode fuel name 0 d ≡ ok (inode_at d.inodes r)
    → follow fuel (name ∷ []) 0 (get_inode 0 d.inodes) d ≡ ok (reached d.inodes r)
unfolding follow
follow-reached fuel name d none number e = rw (number, e) refl
follow-reached fuel name d (some n) number e =
    elim (Bool-cases ((get_inode n d.inodes).i_num == 0)) [
      | inl zeroth ↦
          let low : ltb 0 (get_inode n d.inodes).i_num ≡ false = ground arith in
          rw (number, e, zeroth, low) refl
      | inr other ↦ rw (number, e, number, other) refl
    ]

-- inodeFromPath of '/' and one name, in a root of one block: the number of the inode of the first entry with the
-- name, where that is a number from 1 to 127, and -1 otherwise. One unit of fuel more than the bytes of
-- a block is enough.
pub inode_from_path-lookup :
    (fuel : ℕ) (name : List ℕ) (d : Disk) (es : List DirEntry)
    → name ≢ []
    → has slash name ≡ false
    → length name + 1 < name_len
    → (get_inode 0 d.inodes).i_num ≡ 0
    → (get_inode 0 d.inodes).num_blocks ≡ 1
    → Entries (d.entries ((get_inode 0 d.inodes).direct_block_ptr 0 + dblock_idx)) 0 es
    → total es ≤ block_size
    → block_size < fuel
    → inode_from_path fuel (slash ∷ name) d ≡ ok (reached d.inodes (lookup name es))
unfolding inode_from_path get_inode get_inode_index get_inode_block_index
inode_from_path-lookup fuel [] d es some_name plain short number one v low enough =
    absurd (some_name refl)
inode_from_path-lookup fuel (c ∷ cs) d es some_name plain short number one v low enough =
    let fits : ltb (length (slash ∷ c ∷ cs)) name_len ≡ true = ground arith in
    rw (fits, names_of-name c cs plain)
      (follow-reached fuel (c ∷ cs) d (lookup (c ∷ cs) es) number
        (find_inode-lookup fuel 0 (c ∷ cs) d es one v low enough))
