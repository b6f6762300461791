-- ===== src/Ospfs/Dir/Free.antt =====
-- `find_free_inode` of lab3/ospfsmod.c.
use cs111_operating_system.Prelude.{
  ℕ, zero, suc, ◌+◌, ◌*◌, ◌<◌, ◌≤◌, ◌≡◌, ◌≢◌, ◌⊎◌, inl, inr, refl, arith, Bool-cases, leb,
  ℕ_discrete, ◌==◌,
}
use cs111_operating_system.Ospfs.Layout.{Disk, inode, os_ninodes, os_firstinob, oi_nlink, block}
use cs111_operating_system.Ospfs.Dir.{free_inode_from, find_free_inode}

-- Inode `ino` is the first one from `i` on that has no link.
pub record FreeInode (m : Disk) (i ino : ℕ) : Type 0 where
  pub from : i ≤ ino
  pub below : ino < os_ninodes m
  pub free : m (oi_nlink (block (os_firstinob m) + ino * 16)) ≡ 0
  pub before : (j : ℕ) → i ≤ j → j < ino → m (oi_nlink (block (os_firstinob m) + j * 16)) ≢ 0

free_inode_from_lem :
    (m : Disk) (f i : ℕ)
    → 0 < i
    → os_ninodes m ≤ i + f
    → FreeInode m i (free_inode_from m f i)
      ⊎ ((free_inode_from m f i ≡ 0)
          × ((j : ℕ)
              → i ≤ j
              → j < os_ninodes m
              → m (oi_nlink (block (os_firstinob m) + j * 16)) ≢ 0))
unfolding free_inode_from inode
free_inode_from_lem m zero i pos enough = inr (refl, λ j h k. absurd (omega arith))
free_inode_from_lem m (suc f) i pos enough = elim (Bool-cases (leb (os_ninodes m) i)) [
  | inl out ↦ rw (out, free_inode_from) (inr (refl, λ j h k. absurd (ground arith)))
  | inr inside ↦ elim (Bool-cases (m (oi_nlink (block (os_firstinob m) + i * 16)) == 0)) [
    | inl free ↦
        rw (inside, free, free_inode_from)
          (inl (record {
            from = omega arith;
            below = ground arith;
            free = ground arith;
            before = λ j h k. absurd (omega arith);
          }))
    | inr used ↦
        rw (inside, used, free_inode_from)
          (elim (free_inode_from_lem m f (i + 1) (omega arith) (omega arith)) [
            | inl r ↦ inl (record {
              from = omega (arith, r.from);
              below = r.below;
              free = r.free;
              before = λ j h k. elim (ℕ_discrete j i) [
                | yes e ↦ rw e (ground arith)
                | no ne ↦ r.before j (omega arith) k
              ];
            })
            | inr (e, all) ↦ inr (
              e,
              λ j h k. elim (ℕ_discrete j i) [
                | yes same ↦ rw same (ground arith)
                | no ne ↦ all j (omega arith) k
              ],
            )
          ])
  ]
]

-- `find_free_inode` gives the first inode from number 2 on that has no link; it gives 0 if and only if
-- each of them has one.
pub find_free_inode_lem :
    (m : Disk)
    → FreeInode m 2 (find_free_inode m)
      ⊎ ((find_free_inode m ≡ 0)
          × ((j : ℕ)
              → 2 ≤ j
              → j < os_ninodes m
              → m (oi_nlink (block (os_firstinob m) + j * 16)) ≢ 0))
unfolding find_free_inode
find_free_inode_lem m = free_inode_from_lem m (os_ninodes m) 2 (omega arith) (omega arith)
