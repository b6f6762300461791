-- ===== src/Ospfs/Size/Direct.antt =====
-- All that `add_block` of lab3/ospfsmod.c does to the disk where the new block goes under a direct
-- pointer of the inode.
use cs111_operating_system.Prelude.{
  ℕ, ◌+◌, ◌*◌, ◌/◌, ◌≤◌, ◌<◌, ◌≡◌, ◌≢◌, ◌⊎◌, arith, inl, inr, update, add32, ◌∙◌,
}
use cs111_operating_system.Ospfs.Layout.{
  Disk, block, blksize, os_nblocks, oi_direct, size2nblocks, zero_block,
}
use cs111_operating_system.Ospfs.Bitmap.{allocate_block, free_bitmap}
use cs111_operating_system.Ospfs.Bitmap.Laws.{
  Allocated, allocate_block_lem, free_bit, free_bit_word,
}
use cs111_operating_system.Ospfs.Size.{ok, enospc, add_block}
use cs111_operating_system.Ospfs.Size.Frame.{Sound, IsData, block_lem, map_word, allocate-IsData}

-- Block `b` of the disk `m` was free, the first one from block 2 on; in `m'` it is in use, full of
-- zeros, and the direct pointer behind the last block of the file leads to it; the size is 1024
-- more. All other words are as they were.
pub record Linked (oi : ℕ) (m m' : Disk) (b : ℕ) : Type 0 where
  pub from : 2 ≤ b
  pub bounded : b < os_nblocks m
  pub was_free : free_bit m b ≡ 1
  pub first : (j : ℕ) → 2 ≤ j → j < b → free_bit m j ≡ 0
  pub now_used : free_bit m' b ≡ 0
  pub other_bits : (j : ℕ) → j < os_nblocks m → j ≢ b → free_bit m' j ≡ free_bit m j
  pub link : m' (oi_direct oi (size2nblocks (m oi))) ≡ b
  pub zeros : (k : ℕ) → k < 256 → m' (b * 256 + k) ≡ 0
  pub size : m' oi ≡ add32 (m oi) blksize
  pub frame :
      (a : ℕ)
      → a ≢ oi
      → a ≢ oi_direct oi (size2nblocks (m oi))
      → a ≢ free_bitmap + b / 32
      → (a < b * 256) ⊎ (b * 256 + 256 ≤ a)
      → m' a ≡ m a

-- The disk after a block `b` was taken for the file of `oi`, with `m1` what `allocate_block` left.
abbrev linked : (oi : ℕ) (m m1 : Disk) (b : ℕ) → Disk
linked oi m m1 b =
    let m2 = update (zero_block m1 b) (oi_direct oi (size2nblocks (m oi))) b in
    update m2 oi (add32 (m2 oi) blksize)

linked-Linked :
    (oi : ℕ) (m m1 : Disk) (b : ℕ)
    → Sound oi m
    → size2nblocks (m oi) < 10
    → Allocated m m1 2 b
    → b < os_nblocks m
    → Linked oi m (linked oi m m1 b) b
linked-Linked oi m m1 b s lt al hi = record {
  from = al.from;
  bounded = hi;
  was_free = al.was_free;
  first = al.first;
  now_used = free_bit_word m1 _ b (kept b hi) ∙ al.now_used;
  other_bits = λ j h ne. free_bit_word m1 _ j (kept j h) ∙ al.other_bits j ne;
  link = ground arith;
  zeros = λ k h. ground (arith, at_block, s.inode_to, in_data.0);
  size = ground (arith, at_block, s.inode_to, in_data.0, same_size);
  frame = λ a h1 h2 h3 h4. ground (arith, at_block, al.other_words a h3);
}
  where
    in_data : IsData m b
    in_data = (allocate-IsData oi m s al hi).0

    at_block : block b ≡ b * 256
    at_block = block_lem b (omega (arith, s.small))

    same_size : m1 oi ≡ m oi
    same_size = al.other_words oi (omega (arith, s.inode_from, map_word oi m s b hi))

    kept :
        (j : ℕ)
        → j < os_nblocks m
        → linked oi m m1 b (free_bitmap + j / 32) ≡ m1 (free_bitmap + j / 32)
    kept j h = ground (arith, at_block, s.inode_from, s.inode_to, in_data.0, map_word oi m s j h)

-- `add_block` for a file of fewer than 10 blocks on a disk whose regions are in place and whose free
-- blocks are data blocks, as `Sound` says: if a block is free, it takes
-- the first free one, marks it as used, fills it with zeros, stores its number in the direct pointer
-- behind the last block, adds 1024 to the size, returns 0, and changes nothing else; if no block is
-- free, it returns -ENOSPC and the disk is as it was.
pub add_block_direct :
    (oi : ℕ) (m : Disk)
    → Sound oi m
    → size2nblocks (m oi) < 10
    → ((m' : Disk) × (b : ℕ) × (add_block m oi ≡ (m', ok)) × Linked oi m m' b)
      ⊎ ((add_block m oi ≡ (m, enospc)) × ((j : ℕ) → 2 ≤ j → j < os_nblocks m → free_bit m j ≡ 0))
unfolding add_block
add_block_direct oi m s lt = elim (allocate_block_lem m) [
  | inl (al, hi) ↦ inl (
    linked oi m (allocate_block m).0 (allocate_block m).1,
    (allocate_block m).1,
    ground (arith, al.from),
    linked-Linked oi m _ _ s lt al hi,
  )
  | inr (e, all) ↦ inr (ground arith, all)
]
