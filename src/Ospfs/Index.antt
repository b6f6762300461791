-- ===== src/Ospfs/Index.antt =====
-- Where lab3/ospfsmod.c finds the blocks of a file: `ospfs_inode_blockno`, and the three functions
-- that take a block number apart for `change_size`.
pub mod Laws
use cs111_operating_system.Prelude.{
  ℕ, ◌+◌, ◌*◌, ◌-◌, ◌/◌, ◌%◌, if◌then◌else◌, ◌==◌, ltb, leb, ◌||◌, ◌&&◌, minus_one,
}
use cs111_operating_system.Ospfs.Layout.{
  Disk, block, blksize, ndirect, nindirect, oi_size, oi_ftype, oi_direct, oi_indirect, oi_indirect2,
  ftype_symlink,
}

-- The block that holds byte `offset` of the file with the inode at `oi`, or 0.
unfoldable pub inode_blockno : Disk → (oi offset : ℕ) → ℕ
inode_blockno m oi offset =
    let blockno : ℕ = offset / blksize in
    if leb (m (oi_size oi)) offset || m (oi_ftype oi) == ftype_symlink
    then 0
    else if leb (ndirect + nindirect) blockno
    then (let blockoff : ℕ = blockno - (ndirect + nindirect) in
        let indirect2_block : ℕ = block (m (oi_indirect2 oi)) in
        let indirect_block : ℕ = block (m (indirect2_block + blockoff / nindirect)) in
        m (indirect_block + blockoff % nindirect))
    else if leb ndirect blockno
    then m (block (m (oi_indirect oi)) + (blockno - ndirect))
    else m (oi_direct oi blockno)

-- `ospfs_inode_data`: the address, in bytes, of byte `offset` of the file.
unfoldable pub inode_data : Disk → (oi offset : ℕ) → ℕ
inode_data m oi offset = 4 * block (inode_blockno m oi offset) + offset % blksize

pub indir2_index : ℕ → ℕ
indir2_index b = if ltb b (ndirect + nindirect) then minus_one else 0

pub indir_index : ℕ → ℕ
indir_index b =
    if ltb b ndirect
    then minus_one
    else if leb ndirect b && ltb b (ndirect + nindirect)
    then 0
    else (b - ndirect - nindirect) / nindirect

pub direct_index : ℕ → ℕ
direct_index b = if ltb b ndirect then b else (b - ndirect) % nindirect
