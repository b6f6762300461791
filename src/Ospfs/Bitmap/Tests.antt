-- ===== src/Ospfs/Bitmap/Tests.antt =====
-- The bitmap of lab3/ospfsmod.c on a small disk: runs, and the theorems at that disk.
use cs111_operating_system.Prelude.{
  ℕ, ◌≤◌, ◌<◌, ◌≡◌, ◌⊎◌, refl, arith, if◌then◌else◌, ◌==◌, bit_at, bit_off,
}
use cs111_operating_system.Ospfs.Layout.{Disk}
use cs111_operating_system.Ospfs.Bitmap.{
  allocate_from, allocate_block, free_block, bitvector_test, bitvector_clear,
}
use cs111_operating_system.Ospfs.Bitmap.Laws.{
  free_bit, Allocated, allocate_block_lem, free_block-allocate_block,
}

-- Ten blocks, of which 4 to 9 are free; the inodes begin at block 3.
abbrev small_disk : Disk
small_disk a = if a == 257 then 10 else if a == 259 then 3 else if a == 512 then 1008 else 0

allocate_test : (allocate_block small_disk).1 ≡ 4
unfolding allocate_block allocate_from bitvector_test bitvector_clear bit_at bit_off
allocate_test = refl

allocate_block_lem_example :
    (Allocated small_disk (allocate_block small_disk).0 2 (allocate_block small_disk).1
      × ((allocate_block small_disk).1 < 10))
    ⊎ ((allocate_block small_disk ≡ (small_disk, 0))
        × ((j : ℕ) → 2 ≤ j → j < 10 → free_bit small_disk j ≡ 0))
allocate_block_lem_example = allocate_block_lem small_disk

free_block-allocate_block_example :
    free_block (allocate_block small_disk).0 (allocate_block small_disk).1 512 ≡ 1008
free_block-allocate_block_example =
    free_block-allocate_block small_disk (rw allocate_test (omega arith))
      (rw allocate_test (omega arith)) 512
