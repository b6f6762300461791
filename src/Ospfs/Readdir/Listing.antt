-- ===== src/Ospfs/Readdir/Listing.antt =====
-- `ospfs_dir_readdir` of lab3/ospfsmod.c hands the entries of a directory to `filldir`.
use cs111_operating_system.Prelude.{
  ℕ, zero, suc, ◌+◌, ◌*◌, ◌<◌, ◌≤◌, ◌≡◌, ◌≢◌, inl, inr, refl, arith, Bool, true, false, Bool-cases,
  Option, none, some, List, [], ◌∷◌, if◌then◌else◌, ◌==◌, ==-eq_false,
}
use cs111_operating_system.Ospfs.Layout.{Disk, inode, oi_ftype}
use cs111_operating_system.Ospfs.Index.{inode_blockno, inode_data}
use cs111_operating_system.Ospfs.Dir.{od_ino, entries}
use cs111_operating_system.Ospfs.Dir.Search.{IsShortFile}
use cs111_operating_system.Ospfs.Files.ShortFile.{file_block_there}
use cs111_operating_system.Ospfs.Readdir.{
  FileType, Entry, Listed, stands, oops, Turn, goes_on, stops, fails, file_type_of, entry_at, dot,
  dot_dot, offset_at, fill, read_entry, readdir_loop, from_dot_dot, ospfs_dir_readdir,
}

-- The entry at index `i`, where it is in use and its inode has a known type.
unfoldable pub listed_at : Disk → (dir i : ℕ) → Option Entry
listed_at m dir i =
    let od = inode_data m dir (128 * i) in
    if od_ino m od == 0 then none else elim (inode m (od_ino m od)) [
      | none ↦ none
      | some oi ↦ elim (file_type_of (m (oi_ftype oi))) [
        | none ↦ none
        | some t ↦ some (entry_at m od (i + 2) t)
      ]
    ]

unfoldable pub add_entry : Option Entry → List Entry → List Entry
add_entry none es = es
add_entry (some e) es = e ∷ es

-- The `n` entries from index `i` on.
unfoldable pub listing : Disk → (dir n i : ℕ) → List Entry
listing m dir zero i = []
listing m dir (suc n) i = add_entry (listed_at m dir i) (listing m dir n (i + 1))

-- The callback gets the entries in their order, up to the first that it refuses; the position is then
-- that entry's, else `end`.
unfoldable pub deliver :
    {S : Type 0} → (filldir : S → Entry → S × Bool) → S → List Entry → (end : ℕ) → Listed S
deliver filldir s [] end = stands s end true
deliver filldir s (e ∷ es) end = elim (fill filldir s e) [
  | goes_on s' ↦ deliver filldir s' es end
  | stops s' ↦ stands s' e.f_pos false
  | fails ↦ oops
]

listed_at-f_pos : (m : Disk) (dir i : ℕ) (e : Entry) → listed_at m dir i ≡ some e → e.f_pos ≡ i + 2
unfolding listed_at entry_at
listed_at-f_pos m dir i e h = ground (arith, h)

past_end : (m : Disk) (dir off : ℕ) → m dir ≤ off → inode_blockno m dir off ≡ 0
unfolding inode_blockno
past_end m dir off h = ground arith

module _ {S : Type 0} (filldir : S → Entry → S × Bool) (m : Disk) (dir_ino dir : ℕ)
    (d : IsShortFile m dir_ino dir)
    (known : (i : ℕ)
      → 128 * i < m dir
      → od_ino m (inode_data m dir (128 * i)) ≢ 0
      → (oi : ℕ) × (inode m (od_ino m (inode_data m dir (128 * i))) ≡ some oi)) where
  offset_lem : (i : ℕ) → 128 * i < m dir → offset_at (i + 2) ≡ 128 * i
  offset_lem i h = let size = d.size in omega arith

  -- A round of the loop, as `deliver` sees it.
  abbrev turn : S → Option Entry → Turn S
  turn s none = goes_on s
  turn s (some e) = fill filldir s e

  read_entry_lem :
      (i : ℕ) (s : S)
      → 128 * i < m dir
      → read_entry filldir m (inode_data m dir (128 * i)) (i + 2) s ≡ turn s (listed_at m dir i)
  unfolding read_entry listed_at
  read_entry_lem i s h = elim (Bool-cases (od_ino m (inode_data m dir (128 * i)) == 0)) [
    | inl blank ↦ rw blank refl
    | inr used ↦
        let (oi, e) = known i h (ground arith) in
        rw (used, e) (by_type (file_type_of (m (oi_ftype oi))))
  ]
    where
      by_type :
          (t : Option FileType)
          → (elim t as (λ x. Turn S) [
            | none ↦ goes_on s
            | some k ↦ fill filldir s (entry_at m (inode_data m dir (128 * i)) (i + 2) k)
          ])
            ≡ turn s (elim t as (λ x. Option Entry) [
              | none ↦ none
              | some k ↦ some (entry_at m (inode_data m dir (128 * i)) (i + 2) k)
            ])
      by_type none = refl
      by_type (some t) = refl

  -- The rest of a round, after `read_entry`.
  by_turn :
      (r r' : S → Listed S) (p p' : ℕ) (t : Turn S)
      → p' ≡ p
      → ((s : S) → r s ≡ r' s)
      → (elim t as (λ u. Listed S) [
        | goes_on s' ↦ r s'
        | stops s' ↦ stands s' p false
        | fails ↦ oops
      ])
        ≡ (elim t as (λ u. Listed S) [
          | goes_on s' ↦ r' s'
          | stops s' ↦ stands s' p' false
          | fails ↦ oops
        ])
  by_turn r r' p p' (goes_on s) at more = more s
  by_turn r r' p p' (stops s) at more = rw at refl
  by_turn r r' p p' fails at more = refl

  by_entry :
      (f i end : ℕ) (s : S) (rest : List Entry) (e : Option Entry)
      → ((x : Entry) → e ≡ some x → x.f_pos ≡ i + 2)
      → ((s : S) → readdir_loop filldir f m dir s (i + 2 + 1) ≡ deliver filldir s rest end)
      → (elim (turn s e) as (λ u. Listed S) [
        | goes_on s' ↦ readdir_loop filldir f m dir s' (i + 2 + 1)
        | stops s' ↦ stands s' (i + 2) false
        | fails ↦ oops
      ])
        ≡ deliver filldir s (add_entry e rest) end
  unfolding deliver add_entry
  by_entry f i end s rest none at more = more s
  by_entry f i end s rest (some x) at more =
      by_turn (λ t. readdir_loop filldir f m dir t (i + 2 + 1)) (λ t. deliver filldir t rest end)
        (i + 2) x.f_pos (fill filldir s x) (at x refl) more

  delivered_none : (s : S) (end : ℕ) → stands s end true ≡ deliver filldir s [] end
  unfolding deliver
  delivered_none s end = refl

  readdir_loop_lem :
      (n f i : ℕ) (s : S)
      → 128 * (i + n) ≡ m dir
      → n < f
      → readdir_loop filldir f m dir s (i + 2) ≡ deliver filldir s (listing m dir n i) (i + n + 2)
  unfolding readdir_loop listing
  readdir_loop_lem n zero i s whole enough = absurd (omega arith)
  readdir_loop_lem zero (suc f) i s whole enough =
      let size = d.size in
      let at : offset_at (i + 2) ≡ 128 * i = omega arith in
      let e : i + 0 ≡ i = omega arith in
      rw (at, past_end m dir (128 * i) (omega arith), e) (delivered_none s (i + 2))
  readdir_loop_lem (suc n) (suc f) i s whole enough =
      let inside : 128 * i < m dir = omega arith in
      let end : i + suc n + 2 ≡ i + 1 + n + 2 = omega arith in
      let next : i + 1 + 2 ≡ i + 2 + 1 = omega arith in
      rw
        (
          offset_lem i inside,
          ==-eq_false (inode_blockno m dir (128 * i)) 0
              (file_block_there m dir_ino dir d (128 * i) inside),
          read_entry_lem i s inside,
          end,
        )
        (by_entry f i (i + 1 + n + 2) s (listing m dir n (i + 1)) (listed_at m dir i)
          (listed_at-f_pos m dir i)
          (λ s'. rw next at (readdir_loop_lem n f (i + 1) s' (omega arith) (omega arith))))

-- `ospfs_dir_readdir` from the start, in a directory of at most ten blocks whose size is a multiple of an
-- entry's and whose used entries name inodes that exist: `filldir` gets `.`, `..` and then each used entry
-- of a known type, in the order of the directory, with its own position, up to the first call that it
-- refuses. Then the position is that call's; if it refuses none, the position is behind the last entry
-- and the result says so.
pub ospfs_dir_readdir_lem :
    {S : Type 0} (filldir : S → Entry → S × Bool) (m : Disk) (dir_ino parent_ino dir n : ℕ) (s : S)
    → IsShortFile m dir_ino dir
    → ((i : ℕ)
        → 128 * i < m dir
        → od_ino m (inode_data m dir (128 * i)) ≢ 0
        → (oi : ℕ) × (inode m (od_ino m (inode_data m dir (128 * i))) ≡ some oi))
    → m dir ≡ 128 * n
    → ospfs_dir_readdir filldir m dir_ino parent_ino s 0
      ≡ deliver filldir s (dot dir_ino ∷ dot_dot parent_ino ∷ listing m dir n 0) (n + 2)
unfolding ospfs_dir_readdir from_dot_dot deliver
ospfs_dir_readdir_lem filldir m dir_ino parent_ino dir n s d known whole =
    rw (d.found, ospfs_dir_readdir)
      (by_turn filldir m dir_ino dir d known (λ t. from_dot_dot filldir m dir parent_ino t 1)
        (λ t. deliver filldir t (dot_dot parent_ino ∷ listing m dir n 0) (n + 2)) 0 0
        (fill filldir s (dot dir_ino)) refl
        (λ t.
          by_turn filldir m dir_ino dir d known
            (λ u. readdir_loop filldir (entries m dir) m dir u 2)
            (λ u. deliver filldir u (listing m dir n 0) (n + 2)) 1 1
            (fill filldir t (dot_dot parent_ino)) refl
            (λ u.
              let e : 0 + n + 2 ≡ n + 2 = omega arith in
              let two : 0 + 2 ≡ 2 = refl in
              rw e at (
                readdir_loop_lem filldir m dir_ino dir d known n (entries m dir) 0 u (omega arith)
                  (omega arith)))))
