-- ===== src/Ospfs/Index/Laws.antt =====
-- The three indices name every file block once, and `ospfs_inode_blockno` reads the pointer that
-- they name.
use cs111_operating_system.Prelude.{
  ℕ, ◌+◌, ◌*◌, ◌/◌, ◌^◌, ◌≤◌, ◌<◌, ◌≡◌, ◌≢◌, arith, if◌then◌else◌, ◌==◌, minus_one, ◌⊎◌, inl, inr,
  dec_lt, ℕ_discrete,
}
use cs111_operating_system.Ospfs.Layout.{
  Disk, block, blksize, ndirect, nindirect, oi_size, oi_ftype, oi_direct, oi_indirect, oi_indirect2,
  ftype_symlink, maxfileblks,
}
use cs111_operating_system.Ospfs.Index.{inode_blockno, indir2_index, indir_index, direct_index}

-- The file block with the given indices: the inverse of the three functions.
abbrev pub file_block : (indir2 indir direct : ℕ) → ℕ
file_block indir2 indir direct =
    if indir == minus_one
    then direct
    else if indir2 == minus_one
    then ndirect + direct
    else ndirect + nindirect + indir * nindirect + direct

-- The block number is found again from its three indices, which lie within their arrays: two blocks
-- of a file never have the same indices. A direct block has -1 for both indirect indices; a block
-- under the first indirect block has -1 and 0; any other has 0 and the number of its indirect block.
pub file_block-index :
    (b : ℕ)
    → b < maxfileblks
    → (file_block (indir2_index b) (indir_index b) (direct_index b) ≡ b)
      × (((indir2_index b ≡ minus_one) × (indir_index b ≡ minus_one) × (direct_index b < ndirect))
          ⊎ ((indir2_index b ≡ minus_one) × (indir_index b ≡ 0) × (direct_index b < nindirect))
          ⊎ ((indir2_index b ≡ 0) × (indir_index b < nindirect) × (direct_index b < nindirect)))
unfolding indir2_index indir_index direct_index
file_block-index b h = (ground arith, indices b h)
  where
    indices :
        (b : ℕ)
        → b < maxfileblks
        → ((indir2_index b ≡ minus_one) × (indir_index b ≡ minus_one) × (direct_index b < ndirect))
          ⊎ ((indir2_index b ≡ minus_one) × (indir_index b ≡ 0) × (direct_index b < nindirect))
          ⊎ ((indir2_index b ≡ 0) × (indir_index b < nindirect) × (direct_index b < nindirect))
    indices b h = elim (dec_lt b 10) [
      | yes direct ↦ inl (ground arith, ground arith, ground arith)
      | no indirect ↦ inr (elim (dec_lt b 266) [
        | yes single ↦ inl (ground arith, ground arith, ground arith)
        | no double ↦ inr (ground arith, ground arith, ground arith)
      ])
    ]

-- The address of the pointer to file block `b`, by its three indices.
abbrev pub pointer_slot : Disk → (oi b : ℕ) → ℕ
pointer_slot m oi b =
    if indir_index b == minus_one
    then oi_direct oi (direct_index b)
    else if indir2_index b == minus_one
    then block (m (oi_indirect oi)) + direct_index b
    else block (m (block (m (oi_indirect2 oi)) + indir_index b)) + direct_index b

-- Within the size of a file that is no symbolic link, `ospfs_inode_blockno` reads the pointer that
-- the three index functions name; past the size, and in a symbolic link, it returns 0.
pub inode_blockno_lem :
    (m : Disk) (oi offset : ℕ)
    → offset < 2 ^ 32
    → ((offset < m (oi_size oi))
        × (m (oi_ftype oi) ≢ ftype_symlink)
        × (inode_blockno m oi offset ≡ m (pointer_slot m oi (offset / blksize))))
      ⊎ (((m (oi_size oi) ≤ offset) ⊎ (m (oi_ftype oi) ≡ ftype_symlink))
          × (inode_blockno m oi offset ≡ 0))
unfolding inode_blockno indir2_index indir_index direct_index
inode_blockno_lem m oi offset small = elim (dec_lt offset (m (oi_size oi))) [
  | no past ↦ inr (inl (omega arith), ground arith)
  | yes within ↦ elim (ℕ_discrete (m (oi_ftype oi)) ftype_symlink) [
    | yes link ↦ inr (inr link, ground arith)
    | no other ↦ inl (within, other, ground arith)
  ]
]

pub direct_index-lt : (n : ℕ) → direct_index n < nindirect
unfolding direct_index
direct_index-lt n = ground arith

-- The indirect block of a file block that is not direct lies in the doubly indirect block.
pub indir_index-lt : (n : ℕ) → ndirect ≤ n → n < maxfileblks → indir_index n < nindirect
unfolding indir_index
indir_index-lt n lo hi = ground arith

pub direct_indices :
    (n : ℕ)
    → n < ndirect
    → (indir2_index n ≡ minus_one) × (indir_index n ≡ minus_one) × (direct_index n ≡ n)
unfolding indir2_index indir_index direct_index
direct_indices n h = (ground arith, ground arith, ground arith)
