-- ===== src/Ospfs/Size/Change.antt =====
-- What the loop of `change_size` comes to when a file grows; what `remove_block` takes away.
use cs111_operating_system.Prelude.{
  ℕ, zero, suc, ◌+◌, ◌^◌, ◌≤◌, ◌<◌, ◌≡◌, ◌≢◌, ◌⊎◌, arith, inl, inr, update, update_self, sub32,
  Bool-cases, ltb,
}
use cs111_operating_system.Ospfs.Layout.{Disk, blksize, oi_direct, maxfileblks, size2nblocks}
use cs111_operating_system.Ospfs.Bitmap.{free_block}
use cs111_operating_system.Ospfs.Bitmap.Laws.{free_block_low}
use cs111_operating_system.Ospfs.Index.Laws.{direct_indices}
use cs111_operating_system.Ospfs.Size.{
  ok, enospc, Looped, add_block, remove_block, grow_loop, shrink_loop, change_size, roll_back,
}
use cs111_operating_system.Ospfs.Size.Frame.{Sound, inode_change}
use cs111_operating_system.Ospfs.Size.Grow.{add_block_lem}

-- How the loop that adds blocks ends.
abbrev Grows : (oi new_size : ℕ) → Looped → Type 0
Grows oi new_size r =
    ((m : Disk) × (r ≡ Looped.done m) × Sound oi m × (size2nblocks (m oi) ≡ size2nblocks new_size))
    ⊎ ((m : Disk) × (r ≡ Looped.returned m enospc))

grow_loop_lem :
    (oi new_size f : ℕ) (m : Disk) (r : ℕ)
    → Sound oi m
    → m oi + 1023 < 2 ^ 32
    → size2nblocks new_size ≤ maxfileblks
    → size2nblocks (m oi) ≤ size2nblocks new_size
    → size2nblocks new_size < size2nblocks (m oi) + f
    → Grows oi new_size (grow_loop f m oi new_size r)
unfolding grow_loop
grow_loop_lem oi new_size zero m r s small fits le enough = absurd (omega arith)
grow_loop_lem oi new_size (suc f) m r s small fits le enough =
    elim (Bool-cases (ltb (size2nblocks (m oi)) (size2nblocks new_size))) [
      | inr over ↦ inl (m, ground arith, s, ground arith)
      | inl more ↦ elim (add_block_lem oi m s (ground arith)) [
        | inr (e, k) ↦ inr (roll_back (add_block m oi).0 oi r, ground arith)
        | inl (e, g) ↦
            let step : grow_loop (suc f) m oi new_size r
                ≡ grow_loop f (add_block m oi).0 oi new_size (r + 1) =
              ground arith in
            rw step (
              grow_loop_lem oi new_size f (add_block m oi).0 (r + 1) g.sound
                (ground (arith, g.size)) fits (ground (arith, g.size)) (ground (arith, g.size)))
      ]
    ]

shrink_loop_stops :
    (oi new_size f : ℕ) (m : Disk)
    → 0 < f
    → size2nblocks (m oi) ≤ size2nblocks new_size
    → shrink_loop f m oi new_size ≡ Looped.done m
unfolding shrink_loop
shrink_loop_stops oi new_size zero m h le = absurd (omega arith)
shrink_loop_stops oi new_size (suc f) m h le = ground arith

-- A change of size that needs no fewer blocks, on a disk where `Sound` holds and within the largest number
-- of blocks, ends, if more rounds are given than the new size has blocks: the function returns 0,
-- the size of the file is the new size and `Sound` holds of the disk; or it returns -ENOSPC, and of
-- the disk after that nothing is said here.
pub change_size_grows :
    (oi new_size rounds : ℕ) (m : Disk)
    → Sound oi m
    → m oi + 1023 < 2 ^ 32
    → size2nblocks new_size ≤ maxfileblks
    → size2nblocks (m oi) ≤ size2nblocks new_size
    → size2nblocks new_size < rounds
    → ((m' : Disk) × (change_size rounds m oi new_size ≡ Looped.returned m' ok)
        × (m' oi ≡ new_size)
        × Sound oi m')
      ⊎ ((m' : Disk) × (change_size rounds m oi new_size ≡ Looped.returned m' enospc))
unfolding change_size
change_size_grows oi new_size rounds m s small fits le enough =
    elim (grow_loop_lem oi new_size rounds m 0 s small fits le (omega arith)) [
      | inl (m1, e, s1, same) ↦ inl (
        update m1 oi new_size,
        ground (arith, shrink_loop_stops oi new_size rounds m1),
        update_self m1 oi new_size,
        inode_change oi m1 s1 oi new_size (omega arith) (omega arith),
      )
      | inr (m1, e) ↦ inr (m1, ground arith)
    ]

remove_direct :
    (oi : ℕ) (m : Disk)
    → size2nblocks (m oi) < 10
    → remove_block m oi ≡ (
        let slot : ℕ = oi_direct oi (size2nblocks (m oi)) in
        let m' = update (free_block m (m slot)) slot 0 in update m' oi (sub32 (m' oi) blksize))
unfolding remove_block
remove_direct oi m lt =
    let (none2, none1, same) = direct_indices (size2nblocks (m oi)) lt in rw (none2, none1, same)

-- From a file of fewer than 10 blocks whose pointer behind the last block is 0, `remove_block` takes
-- nothing away: 1024 is subtracted from the size, and every other word of the disk is as it was. So
-- the pointer to the last block stays, and the block stays allocated.
pub remove_block_leaks :
    (oi : ℕ) (m : Disk)
    → Sound oi m
    → size2nblocks (m oi) < 10
    → m (oi_direct oi (size2nblocks (m oi))) ≡ 0
    → (remove_block m oi oi ≡ sub32 (m oi) blksize) × ((a : ℕ) → a ≢ oi → remove_block m oi a ≡ m a)
remove_block_leaks oi m s lt e =
    let free : free_block m 0 ≡ m = free_block_low m 0 (omega (arith, s.first)) in
    rw (remove_direct oi m lt, e, free) (ground arith, λ a ne. ground arith)
