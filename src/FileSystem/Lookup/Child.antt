-- ===== src/FileSystem/Lookup/Child.antt =====
-- getChild of filesystemFUSE/submission/inode.c, which nothing calls. It reads the blocks whose numbers stand in
-- the inode, without the offset of the data blocks, and of each only the first entry: its loop counts that
-- entry's length again and again.
use rutgers_cs.Prelude.{
  ℕ, zero, suc, ◌+◌, ◌<◌, ◌≡◌, refl, ◌||◌, List, if◌then◌else◌, ◌==◌, leb, Option, none, some,
  arith, Bool-cases, inl, inr,
}
use rutgers_cs.Prelude.Run.{Run, ok, out_of_fuel, ◌>>=◌}
use rutgers_cs.FileSystem.Layout.{block_size}
use rutgers_cs.FileSystem.Inodes.{Inode, get_inode}
use rutgers_cs.FileSystem.Entries.{DirEntry, DirBlock}
use rutgers_cs.FileSystem.Disk.{Disk}
use rutgers_cs.FileSystem.Lookup.{same_name}

-- The loop over a block whose first entry is `entry`.
unfoldable pub child_from : ℕ → ℕ → List ℕ → DirEntry → Run (Option ℕ × ℕ)
child_from zero checked name entry = out_of_fuel
child_from (suc fuel) checked name entry =
    let rest = child_from fuel (checked + entry.dir_length) name entry in
    if (entry.i_num == 0) || leb block_size checked
    then ok (none, checked)
    else if same_name entry.file_name name
    then ok (some entry.i_num, checked)
    else rest

-- The loop over the `k` blocks from block `i` on.
unfoldable pub child_in : ℕ → ℕ → ℕ → ℕ → List ℕ → Inode → (ℕ → DirBlock) → Run (Option ℕ)
child_in fuel zero i checked name parent blocks = ok none
child_in fuel (suc k) i checked name parent blocks =
    child_from fuel checked name (blocks (parent.direct_block_ptr i) 0) >>= λ (r, checked').
    elim r [ some n ↦ ok (some n) | none ↦ child_in fuel k (i + 1) checked' name parent blocks ]

-- `none` is -1.
unfoldable pub get_child : ℕ → List ℕ → ℕ → Disk → Run (Option ℕ)
get_child fuel name parent d =
    let v = get_inode parent d.inodes in child_in fuel v.num_blocks 0 0 name v d.entries

-- What the loop over a block gives for its first entry.
abbrev child_of : ℕ → List ℕ → DirEntry → Option ℕ
child_of checked name entry =
    if (entry.i_num == 0) || leb block_size checked
    then none
    else if same_name entry.file_name name
    then some entry.i_num
    else none

-- Where the first entry of a block has a length, the loop over it ends with fuel for each byte that is left,
-- and finds the name in the first entry or not at all.
pub child_from-child_of :
    (fuel checked : ℕ) (name : List ℕ) (entry : DirEntry)
    → 0 < entry.dir_length
    → block_size < fuel + checked
    → 0 < fuel
    → (c : ℕ) × (child_from fuel checked name entry ≡ ok (child_of checked name entry, c))
unfolding child_from
child_from-child_of zero checked name entry pos enough some_fuel = absurd (omega (arith, some_fuel))
child_from-child_of (suc fuel) checked name entry pos enough some_fuel =
    elim (Bool-cases ((entry.i_num == 0) || leb block_size checked)) [
      | inl stops ↦ (checked, rw stops refl)
      | inr goes ↦ elim (Bool-cases (same_name entry.file_name name)) [
        | inl same ↦ (checked, rw (goes, same) refl)
        | inr other ↦
            let below : checked < block_size = ground (arith, goes) in
            let (c, ran) =
              child_from-child_of fuel (checked + entry.dir_length) name entry pos (omega arith)
                (omega arith) in
            let nothing : child_of (checked + entry.dir_length) name entry ≡ none =
              ground (arith, other) in
            (c, rw (goes, other) (rw nothing at ran))
      ]
    ]
