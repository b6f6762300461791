-- ===== src/Ospfs/Bitmap.antt =====
-- The free-block bitmap of lab3/ospfsmod.c: `bitvector_*`, `allocate_block` and `free_block`.
pub mod Laws
mod Tests
use cs111_operating_system.Prelude.{
  ℕ, zero, suc, ◌+◌, ◌-◌, ◌/◌, ◌%◌, update, if◌then◌else◌, ◌==◌, ltb, bit_at, bit_on, bit_off,
}
use cs111_operating_system.Ospfs.Layout.{Disk, block, freemap_blk, os_nblocks, os_firstinob}

-- Bit `i` of the vector of words at `vector`. (The bit number is not negative where it is used.)
pub bitvector_set : Disk → (vector i : ℕ) → Disk
bitvector_set m vector i = update m (vector + i / 32) (bit_on (m (vector + i / 32)) (i % 32))

pub bitvector_clear : Disk → (vector i : ℕ) → Disk
bitvector_clear m vector i = update m (vector + i / 32) (bit_off (m (vector + i / 32)) (i % 32))

unfoldable pub bitvector_test : Disk → (vector i : ℕ) → ℕ
bitvector_test m vector i = bit_at (m (vector + i / 32)) (i % 32)

abbrev pub free_bitmap : ℕ
free_bitmap = block freemap_blk

-- The loop of `allocate_block` from block `i` on; the rounds left are `os_nblocks - i`.
pub allocate_from : Disk → (rounds i : ℕ) → Disk × ℕ
allocate_from m zero i = (m, 0)
allocate_from m (suc f) i =
    let rest = allocate_from m f (i + 1) in
    if bitvector_test m free_bitmap i == 1 then (bitvector_clear m free_bitmap i, i) else rest

-- The block number, or 0 where the disk is full.
pub allocate_block : Disk → Disk × ℕ
allocate_block m = allocate_from m (os_nblocks m - 2) 2

pub free_block : Disk → (blockno : ℕ) → Disk
free_block m blockno =
    if ltb blockno (os_firstinob m)
    then m
    else if bitvector_test m free_bitmap blockno == 0
    then bitvector_set m free_bitmap blockno
    else m
