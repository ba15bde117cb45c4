-- ===== src/FileSystem/Remove/RoundTrip.antt =====
-- sfs_mkdir and sfs_rmdir of filesystemFUSE/submission/sfs.c one after the other, for a name in the root.
use rutgers_cs.Prelude.{
  ℕ, ◌+◌, ◌-◌, ◌<◌, ◌≡◌, ◌≢◌, refl, true, false, List, [], ◌∷◌, ◌++◌, ◌==◌, ltb, none, some, arith,
  inl, inr, Bool-cases, ◌∙◌, sym, length, has, ap, ==_refl,
}
use rutgers_cs.Prelude.Run.{ok}
use rutgers_cs.FileSystem.Layout.{block_size, dblock_idx, total_inodes}
use rutgers_cs.FileSystem.Blocks.{Device, find_free_inode, find_free_block}
use rutgers_cs.FileSystem.Inodes.{zero_inode, get_inode, free_size}
use rutgers_cs.FileSystem.Entries.{
  DirEntry, dentry_min, new_entry, kind_dir, dot, dot_dot, initialize_entries,
}
use rutgers_cs.FileSystem.Entries.Order.{Entries, total, initialize_entries-Entries}
use rutgers_cs.FileSystem.Entries.Cut.{holds, drop_first, overlaps}
use rutgers_cs.FileSystem.Disk.{Disk, Host, done, mode_dir, mode_dir_755, name_len}
use rutgers_cs.FileSystem.Lookup.{slash}
use rutgers_cs.FileSystem.Lookup.Names.{lookup}
use rutgers_cs.FileSystem.Create.{kind_of}
use rutgers_cs.FileSystem.Create.Found.{creates, lookup-append_one, total-append_one}
use rutgers_cs.FileSystem.Calls.{mkdir, create_file}
use rutgers_cs.FileSystem.Remove.{rmdir}
use rutgers_cs.FileSystem.Remove.Bare.{is_bare}
use rutgers_cs.FileSystem.Remove.Unlink.{unless}
use rutgers_cs.FileSystem.Remove.Directory.{rmdir-drop_first}

drop_first-append_one :
    (n : ℕ) (e : DirEntry) (es : List DirEntry)
    → e.i_num ≡ n
    → holds n es ≡ false
    → drop_first n (es ++ e ∷ []) ≡ es
drop_first-append_one n e [] same h = rw (same, ==_refl n) refl
drop_first-append_one n e (x ∷ xs) same h = elim (Bool-cases (x.i_num == n)) [
  | inl hit ↦ absurd (let no : true ≡ false = rw hit at h in cc)
  | inr miss ↦ rw miss (ap (λ ys. x ∷ ys) (drop_first-append_one n e xs same (rw miss at h)))
]

overlaps-append_one :
    (n o : ℕ) (e : DirEntry) (es : List DirEntry)
    → e.i_num ≡ n
    → holds n es ≡ false
    → overlaps n o (es ++ e ∷ []) ≡ ltb e.dir_length (block_size - (o + total es) - e.dir_length)
overlaps-append_one n o e [] same h =
    let at_end : o + 0 ≡ o = omega arith in rw (same, ==_refl n, at_end) refl
overlaps-append_one n o e (x ∷ xs) same h = elim (Bool-cases (x.i_num == n)) [
  | inl hit ↦ absurd (let no : true ≡ false = rw hit at h in cc)
  | inr miss ↦
      let sum : o + (x.dir_length + total xs) ≡ o + x.dir_length + total xs = omega arith in
      rw (miss, sum) (overlaps-append_one n (o + x.dir_length) e xs same (rw miss at h))
]

-- sfs_mkdir is sfs_create with a mode of its own.
mkdir-create_file :
    (host : Host) (fuel : ℕ) (path : List ℕ) (d : Disk)
    → mkdir host fuel path d ≡ create_file host fuel path mode_dir_755 d
unfolding mkdir create_file
mkdir-create_file host fuel path d = refl

-- The entries of a new directory.
abbrev new_entries : ℕ → List DirEntry
new_entries n = new_entry n kind_dir dot ∷ new_entry 0 kind_dir dot_dot ∷ []

new_entries-bare : (n : ℕ) → 0 < n → is_bare (new_entries n) ≡ true
new_entries-bare n pos = let real : ltb 0 n ≡ true = ground arith in rw real refl

new_entries-Entries : (n : ℕ) → Entries (initialize_entries n 0) 0 (new_entries n)
new_entries-Entries n =
    (initialize_entries-Entries n 0 zero_inode (λ j. initialize_entries n 0) refl).0

-- sfs_mkdir of '/' and a name that the root does not have yet, and then sfs_rmdir of the same path, where the
-- root is one block with more room than the entry takes, and an inode `n`, whose number the root does not hold,
-- and a data block other than the root's are found free. sfs_mkdir returns 0. Where the new entry is at least as
-- long as what is behind it in the block, sfs_rmdir returns 0 too, the root has the entries that it had before, the
-- inode `n` has the size of a free one in the table again, and no other inode changes, but the bitmaps stay as
-- sfs_mkdir left them: the number and the block are lost. Where the entry is shorter, the memcpy of sfs_rmdir
-- overlaps, which is undefined behaviour.
pub rmdir-mkdir :
    (host : Host) (fuel : ℕ) (name : List ℕ) (n j : ℕ) (es : List DirEntry) (d : Disk)
    (b b' : Device)
    → host.is_dir mode_dir_755 ≡ true
    → host.is_dir mode_dir ≡ true
    → find_free_inode d.bitmaps ≡ (some n, b)
    → find_free_block b ≡ (some j, b')
    → (get_inode n d.inodes).size ≡ free_size
    → 0 < n
    → n < total_inodes
    → name ≢ []
    → has slash name ≡ false
    → length name + 1 < name_len
    → (get_inode 0 d.inodes).i_num ≡ 0
    → (get_inode 0 d.inodes).num_blocks ≡ 1
    → (get_inode 0 d.inodes).direct_block_ptr 0 ≢ j
    → Entries (d.entries ((get_inode 0 d.inodes).direct_block_ptr 0 + dblock_idx)) 0 es
    → total es + dentry_min + length name < block_size
    → lookup name es ≡ none
    → holds n es ≡ false
    → block_size < fuel
    → (d' : Disk) × (d'' : Disk) × (mkdir host fuel (slash ∷ name) d ≡ ok (done, d'))
      × (rmdir host fuel (slash ∷ name) d'
          ≡ unless
              (ltb (dentry_min + length name) (block_size - total es - (dentry_min + length name)))
              (done, d''))
      × Entries (d''.entries ((get_inode 0 d.inodes).direct_block_ptr 0 + dblock_idx)) 0 es
      × ((get_inode n d''.inodes).size ≡ free_size)
      × ((i : ℕ) → i ≢ n → get_inode i d''.inodes ≡ get_inode i d.inodes)
      × (d''.bitmaps ≡ d'.bitmaps)
rmdir-mkdir host fuel name n j es d b b' dir dir' number found free pos small some_name plain short
      root one apart v room new absent enough =
    let p = (get_inode 0 d.inodes).direct_block_ptr 0 in
    let e = new_entry n (kind_of host mode_dir_755) name in
    let (d', made, c) =
      creates host fuel name mode_dir_755 n j (p + dblock_idx) es d b b' number found free plain
        short one refl (λ h. apart (omega (arith, h))) v room enough in
    let kept : get_inode 0 d'.inodes ≡ get_inode 0 d.inodes =
      c.others 0 (λ h. absurd (omega (arith, h, pos))) in
    let block : d'.entries (j + dblock_idx) ≡ initialize_entries n 0 =
      c.blocks (j + dblock_idx) (λ h. apart (omega (arith, h)))
      ∙ rw (dir, ==_refl (j + dblock_idx)) refl in
    let inside : Entries (d'.entries ((get_inode n d'.inodes).direct_block_ptr 0 + dblock_idx)) 0
        (new_entries n) =
      rw (c.pointer, block) (new_entries-Entries n) in
    let (d'', gone, left, freed, others, maps) =
      rmdir-drop_first host fuel name d' n (es ++ e ∷ []) (new_entries n) some_name plain short
        (rw kept root) (rw kept one) (rw kept c.entries)
        (omega (arith, total-append_one e es, room)) enough
        (lookup-append_one name n (kind_of host mode_dir_755) es new) c.number pos small
        (λ h. absurd (omega (arith, h, c.size))) (rw c.mode_lem (dir ∙ sym dir')) c.one_block
        (rw (c.pointer, kept) (λ h. apart (sym h))) inside (omega arith) (new_entries-bare n pos) in
    let len : e.dir_length ≡ dentry_min + length name = omega (arith, room) in
    let at_end : 0 + total es ≡ total es = omega arith in
    let place : overlaps n 0 (es ++ e ∷ [])
        ≡ ltb (dentry_min + length name) (block_size - total es - (dentry_min + length name)) =
      overlaps-append_one n 0 e es refl absent ∙ rw (len, at_end) refl in
    (
      d',
      d'',
      mkdir-create_file host fuel (slash ∷ name) d ∙ made,
      rw place at gone,
      rw (kept, drop_first-append_one n e es refl absent) at left,
      freed,
      λ i ne. others i ne ∙ c.others i ne,
      maps,
    )
