-- ===== src/Ospfs/Layout.antt =====
-- lab3/ospfs.h and the helper functions at the top of lab3/ospfsmod.c: where things lie on the disk.
-- The disk `ospfs_data` is an array of 32-bit words, so block `b` begins at word `256 * b`. A pointer
-- into it is a word index; all structures of OSPFS but names and file contents are made of words.
use cs111_operating_system.Prelude.{
  ℕ, ◌+◌, ◌*◌, ◌/◌, ◌%◌, ◌^◌, ◌-◌, Option, none, some, Memory, leb, if◌then◌else◌, fill,
}

abbrev pub blksize : ℕ
blksize = 1024

abbrev pub freemap_blk : ℕ
freemap_blk = 2

abbrev pub ndirect : ℕ
ndirect = 10

abbrev pub nindirect : ℕ
nindirect = 256

abbrev pub maxfileblks : ℕ
maxfileblks = ndirect + nindirect + nindirect * nindirect

abbrev pub ftype_reg : ℕ
ftype_reg = 0

abbrev pub ftype_dir : ℕ
ftype_dir = 1

abbrev pub ftype_symlink : ℕ
ftype_symlink = 2

abbrev pub direntry_size : ℕ
direntry_size = 128

abbrev pub maxnamelen : ℕ
maxnamelen = direntry_size - 5

abbrev pub maxsymlinklen : ℕ
maxsymlinklen = 64 - 13

-- Words of the disk.
abbrev pub Disk : Type 0
Disk = Memory

-- `ospfs_block`: `blockno * OSPFS_BLKSIZE` is a product of 32-bit numbers, in bytes.
abbrev pub block : ℕ → ℕ
block blockno = blockno * blksize % 2 ^ 32 / 4

-- The superblock's `os_nblocks`, `os_ninodes` and `os_firstinob`.
abbrev pub os_nblocks : Disk → ℕ
os_nblocks m = m 257

abbrev pub os_ninodes : Disk → ℕ
os_ninodes m = m 258

abbrev pub os_firstinob : Disk → ℕ
os_firstinob m = m 259

-- `ospfs_inode`: an inode is 16 words; NULL is `none`.
unfoldable pub inode : Disk → ℕ → Option ℕ
inode m ino = if leb (os_ninodes m) ino then none else some (block (os_firstinob m) + ino * 16)

-- Where the members of `struct ospfs_inode` lie in the inode at `oi`.
abbrev pub oi_size : ℕ → ℕ
oi_size oi = oi

abbrev pub oi_ftype : ℕ → ℕ
oi_ftype oi = oi + 1

abbrev pub oi_nlink : ℕ → ℕ
oi_nlink oi = oi + 2

abbrev pub oi_mode : ℕ → ℕ
oi_mode oi = oi + 3

abbrev pub oi_direct : ℕ → ℕ → ℕ
oi_direct oi n = oi + 4 + n

abbrev pub oi_indirect : ℕ → ℕ
oi_indirect oi = oi + 14

abbrev pub oi_indirect2 : ℕ → ℕ
oi_indirect2 oi = oi + 15

-- `ospfs_size2nblocks`.
abbrev pub size2nblocks : ℕ → ℕ
size2nblocks size = (size + blksize - 1) % 2 ^ 32 / blksize

-- `memset(ospfs_block(b), 0, OSPFS_BLKSIZE)`.
abbrev pub zero_block : Disk → ℕ → Disk
zero_block m b = fill m (block b) 256 0
