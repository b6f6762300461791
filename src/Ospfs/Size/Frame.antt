-- ===== src/Ospfs/Size/Frame.antt =====
-- What a disk of OSPFS must have for the pointers to blocks of one inode to stay in the data blocks, and
-- the primitive writes that keep it so.
use cs111_operating_system.Prelude.{
  ℕ, ◌+◌, ◌-◌, ◌*◌, ◌/◌, ◌^◌, ◌≤◌, ◌<◌, ◌≡◌, ◌≢◌, ◌⊎◌, arith, inl, inr, update, ℕ_discrete,
  update_ne, update_self, sym, ◌∙◌,
}
use cs111_operating_system.Ospfs.Layout.{
  Disk, block, os_nblocks, os_ninodes, os_firstinob, oi_direct, oi_indirect, oi_indirect2,
  zero_block,
}
use cs111_operating_system.Ospfs.Bitmap.{free_block, free_bitmap}
use cs111_operating_system.Ospfs.Bitmap.Laws.{free_bit, free_bit_word, Allocated, free_block_frees}

-- The first data block, behind the inode blocks.
abbrev pub data_start : Disk → ℕ
data_start m = os_firstinob m + (os_ninodes m + 15) / 16

abbrev pub IsData : Disk → ℕ → Type 0
IsData m b = (data_start m ≤ b) × (b < os_nblocks m)

abbrev pub IsPointer : Disk → ℕ → Type 0
IsPointer m b = (b ≡ 0) ⊎ IsData m b

-- The regions of the disk fit together, only data blocks are free, the inode at `oi` lies in the
-- inode blocks, and its indirect pointers, also those in the doubly indirect block, are 0 or name
-- data blocks.
pub record Sound (oi : ℕ) (m : Disk) : Type 0 where
  pub small : os_nblocks m ≤ 2 ^ 22
  pub first : 3 ≤ os_firstinob m
  pub mapped : os_nblocks m ≤ (os_firstinob m - 2) * 8192
  pub room : data_start m ≤ os_nblocks m
  pub only_data : (i : ℕ) → i < os_nblocks m → free_bit m i ≡ 1 → data_start m ≤ i
  pub inode_from : os_firstinob m * 256 ≤ oi
  pub inode_to : oi + 16 ≤ data_start m * 256
  pub indirect : IsPointer m (m (oi_indirect oi))
  pub indirect2 : IsPointer m (m (oi_indirect2 oi))
  pub under :
      m (oi_indirect2 oi) ≢ 0
      → (k : ℕ) → k < 256
      → IsPointer m (m (block (m (oi_indirect2 oi)) + k))

-- A write that Sound survives: superblock and bitmap stay, and so do the words of the inode from
-- its block pointers on.
pub record Quiet (oi : ℕ) (m m' : Disk) : Type 0 where
  pub super : (a : ℕ) → 257 ≤ a → a < 260 → m' a ≡ m a
  pub bits : (i : ℕ) → i < os_nblocks m → free_bit m' i ≡ 1 → data_start m ≤ i
  pub ind : IsPointer m (m' (oi_indirect oi))
  pub ind2 : IsPointer m (m' (oi_indirect2 oi))
  pub below :
      m' (oi_indirect2 oi) ≢ 0
      → (k : ℕ) → k < 256
      → IsPointer m (m' (block (m' (oi_indirect2 oi)) + k))

pub Quiet-Sound : {oi : ℕ} {m m' : Disk} → Sound oi m → Quiet oi m m' → Sound oi m'
Quiet-Sound {oi} {m} {m'} s q = record {
  small = ground (arith, s.small, q.super 257);
  first = ground (arith, s.first, q.super 259);
  mapped = ground (arith, s.mapped, q.super 257, q.super 259);
  room = ground (arith, s.room, q.super 257, q.super 258, q.super 259);
  only_data = λ i h e. ground (arith, q.bits i, q.super 257, q.super 258, q.super 259);
  inode_from = ground (arith, s.inode_from, q.super 259);
  inode_to = ground (arith, s.inode_to, q.super 258, q.super 259);
  indirect = ground (arith, q.ind, q.super 257, q.super 258, q.super 259);
  indirect2 = ground (arith, q.ind2, q.super 257, q.super 258, q.super 259);
  under = λ h k lt. ground (arith, q.below h k lt, q.super 257, q.super 258, q.super 259);
}

-- A block number below 2 ^ 22 does not wrap.
pub block_lem : (b : ℕ) → b < 2 ^ 22 → block b ≡ b * 256
block_lem b h = omega arith

-- `m'` is well formed again, the regions lie where they lay in `m`, and the size is the same.
pub record Kept (oi : ℕ) (m m' : Disk) : Type 0 where
  pub sound : Sound oi m'
  pub size : m' oi ≡ m oi
  pub blocks : os_nblocks m' ≡ os_nblocks m
  pub inodes : os_ninodes m' ≡ os_ninodes m
  pub firstinob : os_firstinob m' ≡ os_firstinob m

pub Kept-trans : {oi : ℕ} {m m' m'' : Disk} → Kept oi m m' → Kept oi m' m'' → Kept oi m m''
Kept-trans k l = record {
  sound = l.sound;
  size = l.size ∙ k.size;
  blocks = l.blocks ∙ k.blocks;
  inodes = l.inodes ∙ k.inodes;
  firstinob = l.firstinob ∙ k.firstinob;
}

pub Kept-IsData : {oi : ℕ} {m m' : Disk} {b : ℕ} → Kept oi m m' → IsData m b → IsData m' b
Kept-IsData k d = omega (arith, k.blocks, k.inodes, k.firstinob)

module _ (oi : ℕ) (m : Disk) (s : Sound oi m) where
  -- A block pointer that is not 0 leads into the data blocks.
  pointer_at : (p k : ℕ) → IsPointer m p → p ≢ 0 → (block p + k ≡ p * 256 + k) × (data_start m ≤ p)
  pointer_at p k h nz = omega (arith, s.small)

  -- The bitmap word of a data block lies behind the superblock and before the inodes.
  pub map_word :
      (b : ℕ) → b < os_nblocks m → (512 + b / 32 < os_firstinob m * 256) × (260 ≤ 512 + b / 32)
  map_word b h = omega (arith, s.mapped, s.first)

  -- A change of one word of the bitmap after which still only data blocks are free.
  map_change :
      {m' : Disk} (w : ℕ)
      → 260 ≤ w
      → w < os_firstinob m * 256
      → ((a : ℕ) → a ≢ w → m' a ≡ m a)
      → ((i : ℕ) → i < os_nblocks m → free_bit m' i ≡ 1 → data_start m ≤ i)
      → Kept oi m m'
  map_change {m'} w lo hi same bits = record {
    sound = Quiet-Sound s (record {
      super = λ a l h. same a (omega arith);
      bits = bits;
      ind = rw (same (oi + 14) (omega (arith, s.inode_from))) s.indirect;
      ind2 = rw (same (oi + 15) (omega (arith, s.inode_from))) s.indirect2;
      below = rw (same (oi + 15) (omega (arith, s.inode_from))) λ nz k lt.
          rw
            (same (block (m (oi + 15)) + k)
              (omega (arith, pointer_at (m (oi + 15)) k s.indirect2 nz)))
            (s.under nz k lt);
    });
    size = same oi (omega (arith, s.inode_from));
    blocks = same 257 (omega arith);
    inodes = same 258 (omega arith);
    firstinob = same 259 (omega arith);
  }

  -- Words of the data blocks that become pointers to data blocks, or 0.
  data_change :
      {m' : Disk}
      → ((a : ℕ) → a < data_start m * 256 → m' a ≡ m a)
      → ((a : ℕ) → (m' a ≡ m a) ⊎ IsPointer m (m' a))
      → Kept oi m m'
  data_change {m'} same new = record {
    sound = Quiet-Sound s (record {
      super = λ a l h. same a (omega (arith, s.first));
      bits = λ i h e.
          s.only_data i h (sym (free_bit_word m m' i (same _ (omega (arith, map_word i h)))) ∙ e);
      ind = rw (same (oi + 14) (omega (arith, s.inode_to))) s.indirect;
      ind2 = rw (same (oi + 15) (omega (arith, s.inode_to))) s.indirect2;
      below = rw (same (oi + 15) (omega (arith, s.inode_to))) λ nz k lt.
          elim (new (block (m (oi + 15)) + k)) [ inl e ↦ rw e (s.under nz k lt) | inr p ↦ p ];
    });
    size = same oi (omega (arith, s.inode_to));
    blocks = same 257 (omega (arith, s.first));
    inodes = same 258 (omega (arith, s.first));
    firstinob = same 259 (omega (arith, s.first));
  }

  inode_bits : (a v i : ℕ) → oi ≤ a → i < os_nblocks m → free_bit (update m a v) i ≡ free_bit m i
  inode_bits a v i lo h =
      free_bit_word m (update m a v) i
        (update_ne m a (free_bitmap + i / 32) v (omega (arith, map_word i h, s.inode_from)))

  -- What a write into the inode leaves of the pointers in the doubly indirect block.
  inode_below :
      (a v : ℕ)
      → a < oi + 16
      → m (oi + 15) ≢ 0
      → (k : ℕ) → k < 256
      → IsPointer m (update m a v (block (m (oi + 15)) + k))
  inode_below a v hi nz k lt =
      rw
        (update_ne m a (block (m (oi + 15)) + k) v
          (omega (arith, pointer_at (m (oi + 15)) k s.indirect2 nz, s.inode_to)))
        (s.under nz k lt)

  -- A word of the inode before its indirect pointers.
  pub inode_change : (a v : ℕ) → oi ≤ a → a < oi + 14 → Sound oi (update m a v)
  inode_change a v lo hi = Quiet-Sound s (record {
    super = λ x l h. update_ne m a x v (omega (arith, s.inode_from, s.first));
    bits = λ i h e. s.only_data i h (sym (inode_bits a v i lo h) ∙ e);
    ind = rw (update_ne m a (oi + 14) v (omega arith)) s.indirect;
    ind2 = rw (update_ne m a (oi + 15) v (omega arith)) s.indirect2;
    below = rw (update_ne m a (oi + 15) v (omega arith)) (inode_below a v (omega arith));
  })

  inode-Kept : (a v : ℕ) → oi < a → Sound oi (update m a v) → Kept oi m (update m a v)
  inode-Kept a v lo sound = record {
    sound = sound;
    size = update_ne m a oi v (omega arith);
    blocks = update_ne m a 257 v (omega (arith, s.first, s.inode_from));
    inodes = update_ne m a 258 v (omega (arith, s.first, s.inode_from));
    firstinob = update_ne m a 259 v (omega (arith, s.first, s.inode_from));
  }

  -- A direct pointer.
  pub direct_change : (n v : ℕ) → n < 10 → Kept oi m (update m (oi_direct oi n) v)
  direct_change n v h =
      inode-Kept (oi_direct oi n) v (omega arith)
        (inode_change (oi_direct oi n) v (omega arith) (omega arith))

  -- The indirect pointer.
  pub indirect_change : (v : ℕ) → IsData m v → Kept oi m (update m (oi + 14) v)
  indirect_change v d = inode-Kept (oi + 14) v (omega arith) (
      Quiet-Sound s (record {
        super = λ x l h. update_ne m (oi + 14) x v (omega (arith, s.inode_from, s.first));
        bits = λ i h e. s.only_data i h (sym (inode_bits (oi + 14) v i (omega arith) h) ∙ e);
        ind = rw (update_self m (oi + 14) v) (inr d);
        ind2 = rw (update_ne m (oi + 14) (oi + 15) v (omega arith)) s.indirect2;
        below =
            rw (update_ne m (oi + 14) (oi + 15) v (omega arith))
              (inode_below (oi + 14) v (omega arith));
      }))

  -- The doubly indirect pointer, where the words of the new block are pointers.
  pub indirect2_change :
      (v : ℕ)
      → IsData m v
      → ((k : ℕ) → k < 256 → IsPointer m (m (block v + k)))
      → Kept oi m (update m (oi + 15) v)
  indirect2_change v d ptrs = inode-Kept (oi + 15) v (omega arith) (
      Quiet-Sound s (record {
        super = λ x l h. update_ne m (oi + 15) x v (omega (arith, s.inode_from, s.first));
        bits = λ i h e. s.only_data i h (sym (inode_bits (oi + 15) v i (omega arith) h) ∙ e);
        ind = rw (update_ne m (oi + 15) (oi + 14) v (omega arith)) s.indirect;
        ind2 = rw (update_self m (oi + 15) v) (inr d);
        below = rw (update_self m (oi + 15) v) λ nz k lt.
            rw (update_ne m (oi + 15) (block v + k) v (omega (arith, s.small, s.inode_to)))
              (ptrs k lt);
      }))

  pub allocate-IsData :
      {m' : Disk} {b : ℕ} → Allocated m m' 2 b → b < os_nblocks m → IsData m b × Kept oi m m'
  allocate-IsData {m'} {b} al lt = (
    (s.only_data b lt al.was_free, lt),
    map_change (512 + b / 32) (map_word b lt).1 (map_word b lt).0 al.other_words
        (λ i h e. ground (arith, al.other_bits i, s.only_data i h, al.now_used, ℕ_discrete i b)),
  )

  pub free_data : (b : ℕ) → IsData m b → Kept oi m (free_block m b)
  free_data b d =
      let (on, bits, words) = free_block_frees m b (omega (arith, d.0)) in
      map_change (512 + b / 32) (map_word b d.1).1 (map_word b d.1).0 words
        (λ i h e. ground (arith, bits i, s.only_data i h, d.0, ℕ_discrete i b))

  pub zero_data : (b : ℕ) → IsData m b → Kept oi m (zero_block m b)
  zero_data b d = data_change (λ a h. ground (arith, d.0, d.1, s.small)) (λ a. ground arith)

  -- A pointer, or 0, stored in a data block.
  pub store_data :
      (p k v : ℕ) → IsData m p → k < 256 → IsPointer m v → Kept oi m (update m (block p + k) v)
  store_data p k v d lt ptr =
      data_change (λ a h. ground (arith, d.0, d.1, s.small)) (λ a. ground arith)
