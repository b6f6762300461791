-- ===== src/Ospfs/Size/Grow.antt =====
-- `add_block` keeps `Sound`: it adds `OSPFS_BLKSIZE` to the size, or leaves the size. Which pointers lead
-- to which blocks is not said here.
use cs111_operating_system.Prelude.{
  ℕ, ◌+◌, ◌<◌, ◌≡◌, ◌≢◌, ◌⊎◌, refl, arith, inl, inr, update, update_self, ==-eq_false, ap, ◌∙◌,
  add32, Bool, true, false, Bool-cases, ltb, ◌==◌, if◌then◌else◌,
}
use cs111_operating_system.Ospfs.Layout.{
  Disk, block, blksize, os_nblocks, os_ninodes, os_firstinob, oi_direct, oi_indirect, oi_indirect2,
  zero_block, maxfileblks, size2nblocks,
}
use cs111_operating_system.Ospfs.Bitmap.{allocate_block, free_block}
use cs111_operating_system.Ospfs.Bitmap.Laws.{allocate_block_lem}
use cs111_operating_system.Ospfs.Index.{direct_index, indir_index}
use cs111_operating_system.Ospfs.Index.Laws.{direct_index-lt, indir_index-lt}
use cs111_operating_system.Ospfs.Size.{
  Status, ok, enospc, grown, ensure_indirect, attach_indirect, attach_under, attach_indirect2,
  add_block,
}
use cs111_operating_system.Ospfs.Size.Frame.{
  Sound, Kept, Kept-trans, Kept-IsData, IsData, allocate-IsData, free_data, zero_data, store_data,
  indirect_change, indirect2_change, direct_change, inode_change,
}

pub record Grown (oi : ℕ) (m m' : Disk) : Type 0 where
  pub sound : Sound oi m'
  pub size : m' oi ≡ add32 (m oi) blksize
  pub blocks : os_nblocks m' ≡ os_nblocks m
  pub inodes : os_ninodes m' ≡ os_ninodes m
  pub firstinob : os_firstinob m' ≡ os_firstinob m

-- What adding a block comes to.
abbrev pub Added : (oi : ℕ) (m : Disk) → Disk × Status → Type 0
Added oi m r = ((r.1 ≡ ok) × Grown oi m r.0) ⊎ ((r.1 ≡ enospc) × Kept oi m r.0)

grown-Added : {oi : ℕ} {m : Disk} (m' : Disk) → Kept oi m m' → Added oi m (grown m' oi)
grown-Added {oi} {m} m' k = inl (
  refl,
  record {
    sound = inode_change oi m' k.sound oi _ (omega arith) (omega arith);
    size = update_self m' oi _ ∙ (rw k.size);
    blocks = ground (arith, k.blocks, k.sound.inode_from, k.sound.first);
    inodes = ground (arith, k.inodes, k.sound.inode_from, k.sound.first);
    firstinob = ground (arith, k.firstinob, k.sound.inode_from, k.sound.first);
  },
)

Kept-refl : {oi : ℕ} {m : Disk} → Sound oi m → Kept oi m m
Kept-refl s = record { sound = s; size = refl; blocks = refl; inodes = refl; firstinob = refl }

-- A block allocated on a well-formed disk is a data block.
abbrev Alloc : (oi : ℕ) (m : Disk) → Disk × ℕ → Type 0
Alloc oi m r = ((r.1 ≢ 0) × IsData m r.1 × Kept oi m r.0) ⊎ (r ≡ (m, 0))

alloc : (oi : ℕ) (m : Disk) → Sound oi m → Alloc oi m (allocate_block m)
alloc oi m s = elim (allocate_block_lem m) [
  | inl (al, lt) ↦ let (d, k) = allocate-IsData oi m s al lt in inl (omega (arith, al.from), d, k)
  | inr (e, _) ↦ inr e
]

-- A data block is filled with zeros after it was allocated.
zeroed : {oi : ℕ} {m m1 : Disk} (b : ℕ) → IsData m b → Kept oi m m1 → Kept oi m (zero_block m1 b)
zeroed {oi} {m} {m1} b d k = Kept-trans k (zero_data oi m1 k.sound b (Kept-IsData k d))

-- The indirect pointer names a data block afterwards, or no block was to be had.
abbrev Ensured : (oi : ℕ) (m : Disk) → Disk × Bool → Type 0
Ensured oi m r =
    ((r.1 ≡ true) × Kept oi m r.0 × IsData m (r.0 (oi_indirect oi)))
    ⊎ ((r.1 ≡ false) × Kept oi m r.0)

ensure_indirect_lem : (oi : ℕ) (m : Disk) → Sound oi m → Ensured oi m (ensure_indirect m oi)
unfolding ensure_indirect
ensure_indirect_lem oi m s = elim (Bool-cases (m (oi_indirect oi) == 0)) [
  | inr there ↦ rw there (inl (refl, Kept-refl s, ground (arith, s.indirect)))
  | inl missing ↦ rw missing (place (allocate_block m) (alloc oi m s))
]
  where
    place :
        (r : Disk × ℕ)
        → Alloc oi m r
        → Ensured oi m (
            if r.1 == 0
            then (r.0, false)
            else (update (zero_block r.0 r.1) (oi_indirect oi) r.1, true))
    place (m', a) (inl (nz, d, k)) =
        let z = zeroed a d k in
        rw (==-eq_false a 0 nz) (
          inl (
            refl,
            Kept-trans z (indirect_change oi _ z.sound a (Kept-IsData z d)),
            rw (update_self (zero_block m' a) (oi + 14) a) d,
          ))
    place (m', a) (inr e) =
        let none_left : a ≡ 0 = ap (λ p. p.1) e in
        let same : m' ≡ m = ap (λ p. p.0) e in rw none_left (inr (refl, rw same (Kept-refl s)))

attach_indirect_lem :
    (oi n b : ℕ) (m : Disk) → Sound oi m → IsData m b → Added oi m (attach_indirect m oi n b)
unfolding attach_indirect
attach_indirect_lem oi n b m s d = place (ensure_indirect m oi) (ensure_indirect_lem oi m s)
  where
    place :
        (r : Disk × Bool)
        → Ensured oi m r
        → Added oi m (
            if r.1
            then grown (update r.0 (block (r.0 (oi_indirect oi)) + direct_index n) b) oi
            else (free_block r.0 b, enospc))
    place (m', fine) (inl (e, k, ptr)) = rw e (
        grown-Added _ (
          Kept-trans k (
            store_data oi m' k.sound (m' (oi_indirect oi)) (direct_index n) b (Kept-IsData k ptr)
              (direct_index-lt n) (inr (Kept-IsData k d)))))
    place (m', fine) (inr (e, k)) =
        rw e (inr (refl, Kept-trans k (free_data oi m' k.sound b (Kept-IsData k d))))

-- With `spare` a doubly indirect block that is freed where no block is left, or 0.
attach_under_lem :
    (oi n b spare : ℕ) (m : Disk)
    → Sound oi m
    → IsData m b
    → (spare ≢ 0 → IsData m spare)
    → m (oi_indirect2 oi) ≢ 0
    → indir_index n < 256
    → Added oi m (attach_under m oi n b spare)
unfolding attach_under
attach_under_lem oi n b spare m s d ds nz lt =
    elim (Bool-cases (m (block (m (oi_indirect2 oi)) + indir_index n) == 0)) [
      | inl missing ↦ rw missing (place (allocate_block m) (alloc oi m s))
      | inr there ↦ rw there (
          grown-Added _ (
            store_data oi m s _ (direct_index n) b (ground (arith, s.under nz (indir_index n) lt))
              (direct_index-lt n) (inr d)))
    ]
  where
    place :
        (r : Disk × ℕ)
        → Alloc oi m r
        → Added oi m (
            if r.1 == 0
            then (let m'' = free_block r.0 b in
                (if spare == 0 then m'' else free_block m'' spare, enospc))
            else grown (update (zero_block r.0 r.1) (block r.1 + direct_index n) b) oi)
    place (m', a) (inl (anz, da, k)) =
        let z = zeroed a da k in
        rw (==-eq_false a 0 anz) (
          grown-Added _ (
            Kept-trans z (
              store_data oi _ z.sound a (direct_index n) b (Kept-IsData z da) (direct_index-lt n)
                (inr (Kept-IsData z d)))))
    place (m', a) (inr e) =
        let none_left : a ≡ 0 = ap (λ p. p.1) e in
        let same : m' ≡ m = ap (λ p. p.0) e in
        let k = free_data oi m s b d in
        rw (none_left, same)
          (elim (Bool-cases (spare == 0)) [
            | inl none ↦ rw none (inr (refl, k))
            | inr some ↦ rw some (
                inr (
                  refl,
                  Kept-trans k (free_data oi _ k.sound spare (Kept-IsData k (ds (ground arith)))),
                ))
          ])

Added-trans :
    {oi : ℕ} {m m1 : Disk} (r : Disk × Status) → Kept oi m m1 → Added oi m1 r → Added oi m r
Added-trans r k (inl (e, g)) = inl (
  e,
  record {
    sound = g.sound;
    size = g.size ∙ ap (λ z. add32 z blksize) k.size;
    blocks = g.blocks ∙ k.blocks;
    inodes = g.inodes ∙ k.inodes;
    firstinob = g.firstinob ∙ k.firstinob;
  },
)
Added-trans r k (inr (e, l)) = inr (e, Kept-trans k l)

-- A new doubly indirect block, filled with zeros.
indirect2_new :
    {oi : ℕ} {m m1 : Disk} (a : ℕ)
    → IsData m a
    → Kept oi m m1
    → Kept oi m (update (zero_block m1 a) (oi_indirect2 oi) a)
indirect2_new {oi} {m} {m1} a d k =
    let z = zeroed a d k in
    Kept-trans z (indirect2_change oi _ z.sound a (Kept-IsData z d) (λ k lt. inl (ground arith)))

attach_indirect2_lem :
    (oi n b : ℕ) (m : Disk)
    → Sound oi m
    → IsData m b
    → indir_index n < 256
    → Added oi m (attach_indirect2 m oi n b)
unfolding attach_indirect2
attach_indirect2_lem oi n b m s d lt = elim (Bool-cases (m (oi_indirect2 oi) == 0)) [
  | inl missing ↦ rw missing (place (allocate_block m) (alloc oi m s))
  | inr there ↦ rw there (attach_under_lem oi n b 0 m s d (λ h. absurd (h refl)) (ground arith) lt)
]
  where
    place :
        (r : Disk × ℕ)
        → Alloc oi m r
        → Added oi m (
            if r.1 == 0
            then (free_block r.0 b, enospc)
            else attach_under (update (zero_block r.0 r.1) (oi_indirect2 oi) r.1) oi n b r.1)
    place (m', a) (inl (nz, da, k)) =
        let z = indirect2_new a da k in
        rw (==-eq_false a 0 nz) (
          Added-trans _ z (
            attach_under_lem oi n b a _ z.sound (Kept-IsData z d) (λ _. Kept-IsData z da)
              (rw (update_self (zero_block m' a) (oi + 15) a) nz) lt))
    place (m', a) (inr e) =
        let none_left : a ≡ 0 = ap (λ p. p.1) e in
        let same : m' ≡ m = ap (λ p. p.0) e in
        rw (none_left, same) (inr (refl, free_data oi m s b d))

-- On a disk where `Sound` holds, where the file has not exactly the largest number of blocks, `add_block`
-- either returns 0 and has added 1024 to the size of the file, or returns -ENOSPC and has left the
-- size; in both cases `Sound` holds again, and the regions are where they were. A pointer to the new
-- block is no part of this.
pub add_block_lem :
    (oi : ℕ) (m : Disk)
    → Sound oi m
    → size2nblocks (m oi) ≢ maxfileblks
    → Added oi m (add_block m oi)
unfolding add_block
add_block_lem oi m s ne = elim (Bool-cases (ltb maxfileblks (size2nblocks (m oi)))) [
  | inl large ↦ rw large (inr (refl, Kept-refl s))
  | inr fits ↦ rw fits (place (allocate_block m) (alloc oi m s) (ground arith))
]
  where
    n : ℕ
    n = size2nblocks (m oi)

    place :
        (r : Disk × ℕ)
        → Alloc oi m r
        → n < maxfileblks
        → Added oi m (
            if r.1 == 0
            then (r.0, enospc)
            else if ltb n 10
            then grown (update (zero_block r.0 r.1) (oi_direct oi n) r.1) oi
            else if ltb n (10 + 256)
            then attach_indirect (zero_block r.0 r.1) oi n r.1
            else attach_indirect2 (zero_block r.0 r.1) oi n r.1)
    place (m', a) (inr e) lt =
        let none_left : a ≡ 0 = ap (λ p. p.1) e in
        let same : m' ≡ m = ap (λ p. p.0) e in rw (none_left, same) (inr (refl, Kept-refl s))
    place (m', a) (inl (nz, d, k)) lt =
        let z = zeroed a d k in
        rw (==-eq_false a 0 nz) (elim (Bool-cases (ltb n 10)) [
          | inl direct ↦
              rw direct
                (grown-Added _ (Kept-trans z (direct_change oi _ z.sound n a (ground arith))))
          | inr indirect ↦ rw indirect (elim (Bool-cases (ltb n (10 + 256))) [
            | inl single ↦
                rw single (Added-trans _ z (attach_indirect_lem oi n a _ z.sound (Kept-IsData z d)))
            | inr double ↦ rw double (
                Added-trans _ z (
                  attach_indirect2_lem oi n a _ z.sound (Kept-IsData z d)
                    (indir_index-lt n (ground arith) lt)))
          ])
        ])
