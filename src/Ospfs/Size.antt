-- ===== src/Ospfs/Size.antt =====
-- lab3/ospfsmod.c: `add_block`, `remove_block` and `change_size`. `oi` is the address of an inode.
pub mod Frame
pub mod Grow
pub mod Direct
pub mod Change
mod Tests
use cs111_operating_system.Prelude.{
  ℕ, zero, suc, ◌+◌, ◌-◌, ◌/◌, ◌%◌, update, if◌then◌else◌, ◌==◌, ltb, add32, sub32, Bool, true,
  false,
}
use cs111_operating_system.Ospfs.Layout.{
  Disk, block, blksize, ndirect, nindirect, maxfileblks, oi_size, oi_direct, oi_indirect,
  oi_indirect2, size2nblocks, zero_block,
}
use cs111_operating_system.Ospfs.Bitmap.{allocate_block, free_block}
use cs111_operating_system.Ospfs.Index.{indir2_index, indir_index, direct_index}

-- The results of the file operations: 0, or an error number.
pub data Status : Type 0 where
  ok enospc eio : Status

-- `oi->oi_size += OSPFS_BLKSIZE; return 0`.
abbrev pub grown : Disk → (oi : ℕ) → Disk × Status
grown m oi = (update m (oi_size oi) (add32 (m (oi_size oi)) blksize), ok)

-- A new block as the first indirect block, if there is none; the flag says whether that went well.
pub ensure_indirect : Disk → (oi : ℕ) → Disk × Bool
ensure_indirect m oi =
    let (m', a) = allocate_block m in
    if m (oi_indirect oi) == 0
    then (if a == 0 then (m', false) else (update (zero_block m' a) (oi_indirect oi) a, true))
    else (m, true)

-- The branch of `add_block` for a file block under the first indirect block.
pub attach_indirect : Disk → (oi n new_block : ℕ) → Disk × Status
attach_indirect m oi n new_block =
    let (m', fine) = ensure_indirect m oi in
    if fine
    then grown (update m' (block (m' (oi_indirect oi)) + direct_index n) new_block) oi
    else (free_block m' new_block, enospc)

-- The rest of the branch under the doubly indirect block. A new indirect block is not entered in
-- the doubly indirect block; `allocated` is the doubly indirect block if it is new, and 0 if not.
pub attach_under : Disk → (oi n new_block allocated : ℕ) → Disk × Status
attach_under m oi n new_block allocated =
    let indir : ℕ = m (block (m (oi_indirect2 oi)) + indir_index n) in
    let (m', a) = allocate_block m in
    if indir == 0
    then (if a == 0
        then (let m'' = free_block m' new_block in
            (if allocated == 0 then m'' else free_block m'' allocated, enospc))
        else grown (update (zero_block m' a) (block a + direct_index n) new_block) oi)
    else grown (update m (block indir + direct_index n) new_block) oi

-- The branch of `add_block` for a file block under the doubly indirect block.
pub attach_indirect2 : Disk → (oi n new_block : ℕ) → Disk × Status
attach_indirect2 m oi n new_block =
    let (m', a) = allocate_block m in
    if m (oi_indirect2 oi) == 0
    then (if a == 0
        then (free_block m' new_block, enospc)
        else attach_under (update (zero_block m' a) (oi_indirect2 oi) a) oi n new_block a)
    else attach_under m oi n new_block 0

pub add_block : Disk → (oi : ℕ) → Disk × Status
add_block m oi =
    let n : ℕ = size2nblocks (m (oi_size oi)) in
    let (m1, new_block) = allocate_block m in
    let m2 = zero_block m1 new_block in
    if ltb maxfileblks n
    then (m, enospc)
    else if new_block == 0
    then (m1, enospc)
    else if ltb n ndirect
    then grown (update m2 (oi_direct oi n) new_block) oi
    else if ltb n (ndirect + nindirect)
    then attach_indirect m2 oi n new_block
    else attach_indirect2 m2 oi n new_block

abbrev shrunk : Disk → (oi : ℕ) → Disk
shrunk m oi = update m (oi_size oi) (sub32 (m (oi_size oi)) blksize)

-- `remove_block` always returns 0. Its `n` is the number of blocks, so the block that it takes away
-- is the one behind the last.
pub remove_block : Disk → (oi : ℕ) → Disk
remove_block m oi =
    let n : ℕ = size2nblocks (m (oi_size oi)) in
    let offset : ℕ = direct_index n in
    if indir2_index n == 0
    then (let indir2 : ℕ = block (m (oi_indirect2 oi)) in
        let offset2 : ℕ = indir_index n in
        let indir : ℕ = block (m (indir2 + offset2)) in
        let m1 = free_block m (m (indir + offset)) in
        let m2 = update m1 (indir + offset) 0 in
        let m3 = if offset == 0 then update m2 (indir2 + offset2) 0 else m2 in
        shrunk
          (if offset == 0 then (if offset2 == 0 then update m3 (oi_indirect2 oi) 0 else m3) else m3)
          oi)
    else if indir_index n == 0
    then (let indir : ℕ = block (m (oi_indirect oi)) in
        let m1 = free_block m (m (indir + offset)) in
        let m2 = update m1 (indir + offset) 0 in
        shrunk (if offset == 0 then update m2 (oi_indirect oi) 0 else m2) oi)
    else shrunk (update (free_block m (m (oi_direct oi offset))) (oi_direct oi offset) 0) oi

-- `while (r > 0) { remove_block(oi); r--; }`
pub roll_back : Disk → (oi r : ℕ) → Disk
roll_back m oi zero = m
roll_back m oi (suc r) = roll_back (remove_block m oi) oi r

-- How a loop of `change_size` ends: the loop is over, the function has returned, or the rounds given
-- were too few.
pub data Looped : Type 0 where
  done : Disk → Looped
  returned : Disk → Status → Looped
  unfinished : Looped

-- The loop that adds blocks; `r` counts the blocks added.
pub grow_loop : (rounds : ℕ) → Disk → (oi new_size r : ℕ) → Looped
grow_loop zero m oi new_size r = Looped.unfinished
grow_loop (suc f) m oi new_size r =
    elim (ltb (size2nblocks (m (oi_size oi))) (size2nblocks new_size)) [
      | false ↦ Looped.done m
      | true ↦
          let (m', status) = add_block m oi in
          elim status [
            | ok ↦ grow_loop f m' oi new_size (r + 1)
            | enospc ↦ Looped.returned (roll_back m' oi r) enospc
            | eio ↦ Looped.returned m' eio
          ]
    ]

-- The loop that removes blocks.
pub shrink_loop : (rounds : ℕ) → Disk → (oi new_size : ℕ) → Looped
shrink_loop zero m oi new_size = Looped.unfinished
shrink_loop (suc f) m oi new_size =
    elim (ltb (size2nblocks new_size) (size2nblocks (m (oi_size oi)))) [
      | false ↦ Looped.done m
      | true ↦ shrink_loop f (remove_block m oi) oi new_size
    ]

-- `change_size` with `rounds` rounds for each loop; `none` where they were too few.
pub change_size : (rounds : ℕ) → Disk → (oi new_size : ℕ) → Looped
change_size rounds m oi new_size = elim (grow_loop rounds m oi new_size 0) [
  | Looped.returned m' s ↦ Looped.returned m' s
  | Looped.unfinished ↦ Looped.unfinished
  | Looped.done m1 ↦ elim (shrink_loop rounds m1 oi new_size) [
    | Looped.done m2 ↦ Looped.returned (update m2 (oi_size oi) new_size) ok
    | Looped.returned m' s ↦ Looped.returned m' s
    | Looped.unfinished ↦ Looped.unfinished
  ]
]
