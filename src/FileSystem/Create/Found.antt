-- ===== src/FileSystem/Create/Found.antt =====
-- sfs_create of filesystemFUSE/submission/sfs.c for a name in the root: what it creates is found.
use rutgers_cs.Prelude.{
  ℕ, ◌+◌, ◌<◌, ◌≡◌, ◌≢◌, refl, true, false, List, [], ◌∷◌, ◌++◌, if◌then◌else◌, ◌==◌, ==_refl, ltb,
  arith, length, ◌∙◌, ap, some, none, has, inl, inr, Bool-cases,
}
use rutgers_cs.Prelude.Run.{ok}
use rutgers_cs.FileSystem.Layout.{block_size, dblock_idx, total_inodes}
use rutgers_cs.FileSystem.Blocks.{Device, find_free_inode, find_free_block}
use rutgers_cs.FileSystem.Inodes.{Inode, InodeTable, get_inode, free_size}
use rutgers_cs.FileSystem.Inodes.Table.{same_place}
use rutgers_cs.FileSystem.Entries.{DirEntry, dentry_min, new_entry, initialize_entries}
use rutgers_cs.FileSystem.Entries.Order.{Entries, total}
use rutgers_cs.FileSystem.Disk.{Disk, Host, done, name_len, write_entries}
use rutgers_cs.FileSystem.Lookup.{slash, same_name, inode_from_path, is_found}
use rutgers_cs.FileSystem.Lookup.Names.{lookup}
use rutgers_cs.FileSystem.Lookup.Root.{split_last-name, reached, inode_from_path-lookup}
use rutgers_cs.FileSystem.Create.{
  kind_of, create_entry, new_inode, write_back, place_inode, create_inode,
}
use rutgers_cs.FileSystem.Create.Entry.{create_entry-one}
use rutgers_cs.FileSystem.Calls.{create_file}

same_name_refl : (name : List ℕ) → same_name name name ≡ true
same_name_refl [] = refl
same_name_refl (c ∷ cs) = rw (==_refl c, same_name_refl cs) refl

pub lookup-append_one :
    (name : List ℕ) (n kind : ℕ) (es : List DirEntry)
    → lookup name es ≡ none
    → lookup name (es ++ new_entry n kind name ∷ []) ≡ some n
lookup-append_one name n kind [] h = rw (same_name_refl name) refl
lookup-append_one name n kind (e ∷ es) h = elim (Bool-cases (same_name e.file_name name)) [
  | inl hit ↦ absurd (cc (rw hit at h))
  | inr miss ↦ rw miss (lookup-append_one name n kind es (rw miss at h))
]

pub total-append_one :
    (e : DirEntry) (es : List DirEntry) → total (es ++ e ∷ []) ≡ total es + e.dir_length
total-append_one e [] = omega arith
total-append_one e (x ∷ xs) = omega (arith, total-append_one e xs)

get_inode-write_back :
    (k n : ℕ) (v : Inode) (t : InodeTable)
    → get_inode k (write_back n v t t) ≡ (if k == n then v else get_inode k t)
unfolding get_inode
get_inode-write_back k n v t = rw (← same_place k n) (ground arith)

-- The device that createInode works on once the inode `n` and the block `j` are allocated; the block of a new
-- directory is written before its entry.
abbrev pub begun : Host → ℕ → ℕ → ℕ → Disk → Disk
begun host mode n j d =
    if host.is_dir mode then write_entries (j + dblock_idx) (initialize_entries n 0) d else d

begun_lem :
    (host : Host) (mode n j k : ℕ) (d : Disk)
    → k ≢ j + dblock_idx
    → ((begun host mode n j d).inodes ≡ d.inodes)
      × ((begun host mode n j d).entries k ≡ d.entries k)
begun_lem host mode n j k d apart =
    let other : (k == j + dblock_idx) ≡ false = ground (arith, apart) in
    elim (Bool-cases (host.is_dir mode)) [
      | inl dir ↦ rw dir (refl, rw other refl)
      | inr file ↦ rw file (refl, refl)
    ]

-- The bitmaps do not matter to it.
begun-entries :
    (host : Host) (mode n j : ℕ) (d : Disk) (b : Device) (l : ℕ)
    → (begun host mode n j (record d { bitmaps = b })).entries l ≡ (begun host mode n j d).entries l
begun-entries host mode n j d b l = elim (Bool-cases (host.is_dir mode)) [
  | inl dir ↦ rw dir refl
  | inr file ↦ rw file refl
]

place_inode-runs :
    (host : Host) (fuel : ℕ) (name : List ℕ) (mode n j : ℕ) (d d' : Disk)
    → has slash name ≡ false
    → create_entry host fuel n name 0 mode (begun host mode n j d) ≡ ok d'
    → place_inode host fuel (slash ∷ name) mode n j d
      ≡ ok (
        done,
        record d' {
          inodes = write_back n (new_inode host n mode j (get_inode n d.inodes)) d.inodes d'.inodes;
        },
      )
unfolding place_inode inode_from_path
place_inode-runs host fuel name mode n j d d' plain ran =
    rw (place_inode, split_last-name name plain, ran) refl

create_inode-runs :
    (host : Host) (fuel : ℕ) (path : List ℕ) (mode n j : ℕ) (d : Disk) (b b' : Device)
    → find_free_inode d.bitmaps ≡ (some n, b)
    → find_free_block b ≡ (some j, b')
    → (get_inode n d.inodes).size ≡ free_size
    → create_inode host fuel path mode d
      ≡ place_inode host fuel path mode n j (record d { bitmaps = b' })
unfolding create_inode
create_inode-runs host fuel path mode n j d b b' number found free =
    rw (create_inode, number, number, found, free, number, found) refl

create_file-runs :
    (host : Host) (fuel : ℕ) (path : List ℕ) (mode : ℕ) (d : Disk)
    → length path < name_len
    → create_file host fuel path mode d ≡ create_inode host fuel path mode d
unfolding create_file
create_file-runs host fuel path mode d short =
    let fits : ltb (length path) name_len ≡ true = ground arith in rw fits refl

-- The device once sfs_create has returned.
pub record Created (host : Host) (fuel : ℕ) (name : List ℕ) (mode n j k : ℕ) (es : List DirEntry)
    (d d' : Disk) : Type 0 where
  pub entries : Entries (d'.entries k) 0 (es ++ new_entry n (kind_of host mode) name ∷ [])
  pub others : (i : ℕ) → i ≢ n → get_inode i d'.inodes ≡ get_inode i d.inodes
  pub number : (get_inode n d'.inodes).i_num ≡ n
  pub size : (get_inode n d'.inodes).size ≡ 0
  pub mode_lem : (get_inode n d'.inodes).file_mode ≡ mode
  pub one_block : (get_inode n d'.inodes).num_blocks ≡ 1
  pub pointer : (get_inode n d'.inodes).direct_block_ptr 0 ≡ j
  pub blocks : (l : ℕ) → l ≢ k → d'.entries l ≡ (begun host mode n j d).entries l

module _ (host : Host) (fuel : ℕ) (name : List ℕ) (mode n j k : ℕ) (es : List DirEntry) (d : Disk)
    (b b' : Device) (number : find_free_inode d.bitmaps ≡ (some n, b))
    (found : find_free_block b ≡ (some j, b')) (free : (get_inode n d.inodes).size ≡ free_size)
    (plain : has slash name ≡ false) (short : length name + 1 < name_len)
    (one : (get_inode 0 d.inodes).num_blocks ≡ 1)
    (place : (get_inode 0 d.inodes).direct_block_ptr 0 + dblock_idx ≡ k)
    (apart : k ≢ j + dblock_idx) (v : Entries (d.entries k) 0 es)
    (room : total es + dentry_min + length name < block_size) (enough : block_size < fuel) where
  pub creates :
      (d' : Disk) × (create_file host fuel (slash ∷ name) mode d ≡ ok (done, d'))
      × Created host fuel name mode n j k es d d'
  unfolding new_inode
  creates =
      let g : Disk = record d { bitmaps = b' } in
      let start = begun host mode n j g in
      let (tables, old) = begun_lem host mode n j k g apart in
      let v' = new_inode host n mode j (get_inode n d.inodes) in
      let (h, ran, left, same, rest) =
        create_entry-one host fuel n 0 mode k name start es (rw tables one)
          (rw tables (omega (arith, place))) (rw old v) room (omega arith) enough in
      let d' : Disk = record h { inodes = write_back n v' d.inodes h.inodes } in
      let table : h.inodes ≡ d.inodes = same ∙ tables in
      let get : (i : ℕ) → get_inode i d'.inodes ≡ (if i == n then v' else get_inode i d.inodes) =
        λ i.
          ap (λ t. get_inode i (write_back n v' d.inodes t)) table
          ∙ get_inode-write_back i n v' d.inodes in
      let own : get_inode n d'.inodes ≡ v' = get n ∙ rw (==_refl n) refl in
      (
        d',
        create_file-runs host fuel (slash ∷ name) mode d (omega (arith, short))
            ∙ create_inode-runs host fuel (slash ∷ name) mode n j d b b' number found free
            ∙ place_inode-runs host fuel name mode n j g h plain ran,
        record {
          entries = left;
          others = λ i ne. get i ∙ ground (arith, ne);
          number = ap (λ (w : Inode). w.i_num) own;
          size = ap (λ (w : Inode). w.size) own;
          mode_lem = ap (λ (w : Inode). w.file_mode) own;
          one_block = ap (λ (w : Inode). w.num_blocks) own;
          pointer = ap (λ (w : Inode). w.direct_block_ptr 0) own;
          blocks = λ l ne. rest l ne ∙ begun-entries host mode n j d b' l;
        },
      )

-- sfs_create of '/' and a name that the root does not have yet, where the root is one block with more room than
-- the entry takes, and an inode `n` and a data block other than the root's are found free: the result is 0, and
-- inodeFromPath finds `n` under the path then. Its inode has the mode that was asked for and the size 0, the root has the entry
-- behind its others, and no other inode changes.
pub create_file-found :
    (host : Host) (fuel : ℕ) (name : List ℕ) (mode n j : ℕ) (es : List DirEntry) (d : Disk)
    (b b' : Device)
    → find_free_inode d.bitmaps ≡ (some n, b)
    → find_free_block b ≡ (some j, b')
    → (get_inode n d.inodes).size ≡ free_size
    → 0 < n
    → n < total_inodes
    → name ≢ []
    → has slash name ≡ false
    → length name + 1 < name_len
    → (get_inode 0 d.inodes).i_num ≡ 0
    → (get_inode 0 d.inodes).num_blocks ≡ 1
    → (get_inode 0 d.inodes).direct_block_ptr 0 ≢ j
    → Entries (d.entries ((get_inode 0 d.inodes).direct_block_ptr 0 + dblock_idx)) 0 es
    → total es + dentry_min + length name < block_size
    → lookup name es ≡ none
    → block_size < fuel
    → (d' : Disk) × (create_file host fuel (slash ∷ name) mode d ≡ ok (done, d'))
      × (inode_from_path fuel (slash ∷ name) d' ≡ ok (some n))
      × ((get_inode n d'.inodes).file_mode ≡ mode)
      × ((get_inode n d'.inodes).size ≡ 0)
      × Entries
          (d'.entries ((get_inode 0 d.inodes).direct_block_ptr 0 + dblock_idx))
          0
          (es ++ new_entry n (kind_of host mode) name ∷ [])
      × ((i : ℕ) → i ≢ n → get_inode i d'.inodes ≡ get_inode i d.inodes)
create_file-found host fuel name mode n j es d b b' number found free pos small some_name plain
      short root one apart v room new enough =
    let k = (get_inode 0 d.inodes).direct_block_ptr 0 + dblock_idx in
    let (d', ran, c) =
      creates host fuel name mode n j k es d b b' number found free plain short one refl
        (λ e. apart (omega (arith, e))) v room enough in
    let es' = es ++ new_entry n (kind_of host mode) name ∷ [] in
    let kept : get_inode 0 d'.inodes ≡ get_inode 0 d.inodes =
      c.others 0 (λ e. absurd (omega (arith, e, pos))) in
    let real : is_found 0 (get_inode n d'.inodes) ≡ true = rw (c.number) (ground arith) in
    let leads : reached d'.inodes (lookup name es') ≡ some n =
      rw (lookup-append_one name n (kind_of host mode) es new, real, c.number) refl in
    let file =
      inode_from_path-lookup fuel name d' es' some_name plain short (rw kept root) (rw kept one)
        (rw kept c.entries)
        (omega (arith, total-append_one (new_entry n (kind_of host mode) name) es)) enough in
    (d', ran, file ∙ ap ok leads, c.mode_lem, c.size, c.entries, c.others)
