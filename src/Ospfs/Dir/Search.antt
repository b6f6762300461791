-- ===== src/Ospfs/Dir/Search.antt =====
-- Where the entries of a directory lie, and what the loops over them in lab3/ospfsmod.c find.
use cs111_operating_system.Prelude.{
  ℕ, zero, suc, ◌+◌, ◌-◌, ◌*◌, ◌/◌, ◌%◌, ◌^◌, ◌<◌, ◌≤◌, ◌≡◌, ◌≢◌, ◌⊎◌, inl, inr, refl, ap, ◌∙◌,
  arith, Bool, true, false, Bool-cases, List, Option, some, none, ltb, leb, ℕ_discrete,
}
use cs111_operating_system.Ospfs.Layout.{
  Disk, inode, os_nblocks, os_ninodes, os_firstinob, oi_ftype, oi_direct, ftype_symlink,
}
use cs111_operating_system.Ospfs.Index.{inode_blockno, inode_data}
use cs111_operating_system.Ospfs.Size.Frame.{data_start, IsData}
use cs111_operating_system.Ospfs.Dir.{has_name, scan, entries, find_direntry}

-- `od` is the first entry from byte `off` on that passes the test.
pub record First (test : ℕ → Bool) (m : Disk) (dir off od : ℕ) : Type 0 where
  pub index : ℕ
  pub within : off + 128 * index < m dir
  pub here : od ≡ inode_data m dir (off + 128 * index)
  pub passes : test od ≡ true
  pub before : (j : ℕ) → j < index → test (inode_data m dir (off + 128 * j)) ≡ false

-- What the loop finds.
abbrev pub Scanned : (ℕ → Bool) → Disk → (dir off : ℕ) → Option ℕ → Type 0
Scanned test m dir off none =
    (j : ℕ) → off + 128 * j < m dir → test (inode_data m dir (off + 128 * j)) ≡ false
Scanned test m dir off (some od) = First test m dir off od

module _ (test : ℕ → Bool) (m : Disk) (dir : ℕ) where
  pub scan-Scanned :
      (f off : ℕ) → m dir < off + 128 * f → Scanned test m dir off (scan test m dir f off)
  unfolding scan
  scan-Scanned zero off enough = λ j h. absurd (omega arith)
  scan-Scanned (suc f) off enough = elim (Bool-cases (ltb off (m dir))) [
    | inr past ↦ rw past (λ j h. absurd (ground arith))
    | inl inside ↦ elim (Bool-cases (test (inode_data m dir off))) [
      | inl hit ↦
          rw (inside, hit)
            (record {
              index = 0;
              within = ground arith;
              here = ap (inode_data m dir) (omega arith);
              passes = hit;
              before = λ j lt. absurd (omega arith);
            })
      | inr miss ↦
          rw (inside, miss)
            (further miss (scan test m dir f (off + 128))
              (scan-Scanned f (off + 128) (omega arith)))
    ]
  ]
    where
      at : (x y : ℕ) → x ≡ y → test (inode_data m dir x) ≡ false → test (inode_data m dir y) ≡ false
      at x y e t = rw (← e) t

      further :
          test (inode_data m dir off) ≡ false
          → (r : Option ℕ) → Scanned test m dir (off + 128) r
          → Scanned test m dir off r
      further miss none t = λ j h. elim (ℕ_discrete j 0) [
        | yes e ↦ at off (off + 128 * j) (omega arith) miss
        | no ne ↦
            at (off + 128 + 128 * (j - 1)) (off + 128 * j) (omega arith) (t (j - 1) (omega arith))
      ]
      further miss (some od) t = record {
        index = t.index + 1;
        within = omega (arith, t.within);
        here = t.here ∙ ap (inode_data m dir) (omega arith);
        passes = t.passes;
        before = λ j lt. elim (ℕ_discrete j 0) [
          | yes e ↦ at off (off + 128 * j) (omega arith) miss
          | no ne ↦
              at (off + 128 + 128 * (j - 1)) (off + 128 * j) (omega arith)
                (t.before (j - 1) (omega arith))
        ];
      }

-- `find_direntry` gives the first entry in use with the name; it gives NULL if and only if no entry has
-- it.
pub find_direntry_lem :
    (m : Disk) (dir : ℕ) (name : List ℕ)
    → ((od : ℕ) × (find_direntry m dir name ≡ some od) × First (λ x. has_name m x name) m dir 0 od)
      ⊎ ((find_direntry m dir name ≡ none)
          × ((j : ℕ) → 128 * j < m dir → has_name m (inode_data m dir (128 * j)) name ≡ false))
unfolding find_direntry
find_direntry_lem m dir name =
    split (scan test m dir (entries m dir) 0) refl
      (scan-Scanned test m dir (entries m dir) 0 (omega arith))
  where
    test : ℕ → Bool
    test x = has_name m x name

    split :
        (r : Option ℕ)
        → scan test m dir (entries m dir) 0 ≡ r
        → Scanned test m dir 0 r
        → ((od : ℕ) × (scan test m dir (entries m dir) 0 ≡ some od) × First test m dir 0 od)
          ⊎ ((scan test m dir (entries m dir) 0 ≡ none)
              × ((j : ℕ) → 128 * j < m dir → has_name m (inode_data m dir (128 * j)) name ≡ false))
    split (some od) e t = inl (od, e, t)
    split none e t =
        inr (
          e,
          λ j h. let same : 0 + 128 * j ≡ 128 * j = omega arith in rw same at (t j (omega arith)),
        )

-- A directory or regular file of at most ten blocks, on a disk whose regions fit together: the inode at
-- `dir` is the one with number `ino`, and its blocks are data blocks, each another one.
pub record IsShortFile (m : Disk) (ino dir : ℕ) : Type 0 where
  pub small : os_nblocks m ≤ 2 ^ 22
  pub first : 3 ≤ os_firstinob m
  pub room : data_start m ≤ os_nblocks m
  pub found : inode m ino ≡ some dir
  pub size : m dir ≤ 10240
  pub kind : m (oi_ftype dir) ≢ ftype_symlink
  pub blocks : (n : ℕ) → 1024 * n < m dir → IsData m (m (oi_direct dir n))
  pub distinct :
      (n k : ℕ)
      → 1024 * n < m dir
      → 1024 * k < m dir
      → m (oi_direct dir n) ≡ m (oi_direct dir k)
      → n ≡ k

-- Where an inode lies.
pub inode_lem :
    (m : Disk) (ino oi : ℕ)
    → os_nblocks m ≤ 2 ^ 22
    → data_start m ≤ os_nblocks m
    → inode m ino ≡ some oi
    → (oi ≡ os_firstinob m * 256 + ino * 16) × (oi + 16 ≤ data_start m * 256)
unfolding inode
inode_lem m ino oi small room e = elim (Bool-cases (leb (os_ninodes m) ino)) [
  | inl out ↦ absurd (ground (arith, e))
  | inr fine ↦
      let at : os_firstinob m * 1024 % 2 ^ 32 / 4 ≡ os_firstinob m * 256 = ground arith in
      let lies : oi ≡ os_firstinob m * 256 + ino * 16 = ground (arith, e) in
      (lies, ground (arith, lies))
]

module _ (m : Disk) (ino dir : ℕ) (d : IsShortFile m ino dir) where
  pub entry_address :
      (off : ℕ) → off < m dir → inode_data m dir off ≡ 1024 * m (dir + 4 + off / 1024) + off % 1024
  unfolding inode_data inode_blockno
  entry_address off h =
      let b = d.blocks (off / 1024) (omega arith) in ground (arith, d.size, d.kind, d.small, b.1)

  -- Two entries have no word in common.
  pub entries_apart :
      (i j : ℕ)
      → 128 * i < m dir
      → 128 * j < m dir
      → i ≢ j
      → (inode_data m dir (128 * i) / 4 + 32 ≤ inode_data m dir (128 * j) / 4)
        ⊎ (inode_data m dir (128 * j) / 4 + 32 ≤ inode_data m dir (128 * i) / 4)
  entries_apart i j hi hj ne =
      rw (entry_address (128 * i) hi, entry_address (128 * j) hj)
        (elim (ℕ_discrete (128 * i / 1024) (128 * j / 1024)) [
          | yes e ↦ rw e (omega arith)
          | no other ↦
              let apart : m (dir + 4 + 128 * i / 1024) ≢ m (dir + 4 + 128 * j / 1024) = λ e.
                other
                  (d.distinct (128 * i / 1024) (128 * j / 1024) (omega arith) (omega arith) e) in
              omega arith
        ])

  -- An entry lies in the data blocks, at a word.
  pub entry_in_data :
      (i : ℕ)
      → 128 * i < m dir
      → (data_start m * 256 ≤ inode_data m dir (128 * i) / 4) × (inode_data m dir (128 * i) % 4 ≡ 0)
  entry_in_data i h =
      rw (entry_address (128 * i) h) (omega (arith, d.blocks (128 * i / 1024) (omega arith)))

  -- A disk with the same pointers in the inode has the entries at the same places.
  pub same_entries :
      (m' : Disk)
      → ((x : ℕ) → dir ≤ x → x < dir + 14 → x ≢ dir + 2 → m' x ≡ m x)
      → (off : ℕ) → off < m dir
      → inode_data m' dir off ≡ inode_data m dir off
  unfolding inode_data inode_blockno
  same_entries m' same off h = ground (
    arith,
    d.size,
    same dir (omega arith) (omega arith) (omega arith),
    same (dir + 1) (omega arith) (omega arith) (omega arith),
    same (dir + 4 + off / 1024) (omega arith) (omega (arith, d.size)) (omega arith),
  )
