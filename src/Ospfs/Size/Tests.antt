-- ===== src/Ospfs/Size/Tests.antt =====
-- Files of lab3/ospfsmod.c on a small disk: runs, and the theorems at that disk.
use cs111_operating_system.Prelude.{
  ℕ, zero, suc, ◌≤◌, ◌<◌, ◌≡◌, ◌≢◌, ◌⊎◌, refl, arith, inl, if◌then◌else◌, ◌==◌, bit_at, sub32,
}
use cs111_operating_system.Ospfs.Layout.{Disk, blksize}
use cs111_operating_system.Ospfs.Bitmap.{bitvector_test}
use cs111_operating_system.Ospfs.Bitmap.Laws.{free_bit}
use cs111_operating_system.Ospfs.Size.{ok, enospc, add_block, remove_block}
use cs111_operating_system.Ospfs.Size.Frame.{Sound}
use cs111_operating_system.Ospfs.Size.Direct.{Linked, add_block_direct}
use cs111_operating_system.Ospfs.Size.Change.{remove_block_leaks}

-- Ten blocks with 16 inodes in block 3; blocks 5 to 9 are free, and the file of inode 1 has the one
-- block 4.
abbrev small_disk : Disk
small_disk a =
    if a == 257
    then 10
    else if a == 258
    then 16
    else if a == 259
    then 3
    else if a == 512
    then 992
    else if a == 784
    then 1000
    else if a == 788
    then 4
    else 0

small_disk-Sound : Sound 784 small_disk
unfolding bitvector_test bit_at
small_disk-Sound = record {
  small = omega arith;
  first = omega arith;
  mapped = omega arith;
  room = omega arith;
  only_data = data_only;
  inode_from = omega arith;
  inode_to = omega arith;
  indirect = inl refl;
  indirect2 = inl refl;
  under = λ h. absurd (h refl);
}
  where
    data_only : (i : ℕ) → i < 10 → free_bit small_disk i ≡ 1 → 4 ≤ i
    data_only zero lt e = absurd (omega arith)
    data_only (suc zero) lt e = absurd (omega arith)
    data_only (suc (suc zero)) lt e = absurd (omega arith)
    data_only (suc (suc (suc zero))) lt e = absurd (omega arith)
    data_only (suc (suc (suc (suc i)))) lt e = omega arith

add_block_direct_example :
    ((m' : Disk) × (b : ℕ) × (add_block small_disk 784 ≡ (m', ok)) × Linked 784 small_disk m' b)
    ⊎ ((add_block small_disk 784 ≡ (small_disk, enospc))
        × ((j : ℕ) → 2 ≤ j → j < 10 → free_bit small_disk j ≡ 0))
add_block_direct_example = add_block_direct 784 small_disk small_disk-Sound (omega arith)

remove_block_leaks_example :
    (remove_block small_disk 784 784 ≡ sub32 1000 blksize)
    × ((a : ℕ) → a ≢ 784 → remove_block small_disk 784 a ≡ small_disk a)
remove_block_leaks_example = remove_block_leaks 784 small_disk small_disk-Sound (omega arith) refl
