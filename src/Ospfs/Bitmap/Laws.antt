-- ===== src/Ospfs/Bitmap/Laws.antt =====
-- What `allocate_block` and `free_block` do to the bitmap, and that freeing the block just
-- allocated gives back the disk.
use cs111_operating_system.Prelude.{
  ℕ, zero, suc, ◌+◌, ◌-◌, ◌/◌, ◌%◌, ◌≤◌, ◌<◌, ◌≡◌, ◌≢◌, ◌⊎◌, refl, arith, inl, inr, ap, sym,
  ℕ_discrete, dec_lt, Bool-cases, ◌==◌, bit_at, bit_at-lt, bit_at-bit_on_self, bit_at-bit_off_self,
  bit_at-bit_on_ne, bit_at-bit_off_ne, bit_on-bit_off,
}
use cs111_operating_system.Ospfs.Layout.{Disk, os_nblocks, os_firstinob}
use cs111_operating_system.Ospfs.Bitmap.{
  bitvector_set, bitvector_clear, bitvector_test, free_bitmap, allocate_from, allocate_block,
  free_block,
}

-- Bit `i` of the free-block bitmap: 1 for a free block.
abbrev pub free_bit : Disk → ℕ → ℕ
free_bit m i = bitvector_test m free_bitmap i

free_bit-lt : (m : Disk) (i : ℕ) → free_bit m i < 2
unfolding bitvector_test
free_bit-lt m i = bit_at-lt (m (free_bitmap + i / 32)) (i % 32)

-- A bit stands in one word.
pub free_bit_word :
    (m m' : Disk) (i : ℕ)
    → m' (free_bitmap + i / 32) ≡ m (free_bitmap + i / 32)
    → free_bit m' i ≡ free_bit m i
unfolding bitvector_test
free_bit_word m m' i e = ap (λ w. bit_at w (i % 32)) e

-- Two bit numbers with one word and one place in it are equal.
other_place : (i j : ℕ) → i ≢ j → i / 32 ≡ j / 32 → i % 32 ≢ j % 32
other_place i j ne e = omega arith

free_bit-clear_self : (m : Disk) (i : ℕ) → free_bit (bitvector_clear m free_bitmap i) i ≡ 0
unfolding bitvector_clear bitvector_test
free_bit-clear_self m i = ground (arith, bit_at-bit_off_self (m (512 + i / 32)) (i % 32))

free_bit-clear_ne :
    (m : Disk) (i j : ℕ) → i ≢ j → free_bit (bitvector_clear m free_bitmap i) j ≡ free_bit m j
unfolding bitvector_clear bitvector_test
free_bit-clear_ne m i j ne = elim (ℕ_discrete (i / 32) (j / 32)) [
  | yes e ↦
      ground (arith, bit_at-bit_off_ne (m (512 + i / 32)) (i % 32) (j % 32) (other_place i j ne e))
  | no other ↦ ground arith
]

free_bit-set_self : (m : Disk) (i : ℕ) → free_bit (bitvector_set m free_bitmap i) i ≡ 1
unfolding bitvector_set bitvector_test
free_bit-set_self m i = ground (arith, bit_at-bit_on_self (m (512 + i / 32)) (i % 32))

free_bit-set_ne :
    (m : Disk) (i j : ℕ) → i ≢ j → free_bit (bitvector_set m free_bitmap i) j ≡ free_bit m j
unfolding bitvector_set bitvector_test
free_bit-set_ne m i j ne = elim (ℕ_discrete (i / 32) (j / 32)) [
  | yes e ↦
      ground (arith, bit_at-bit_on_ne (m (512 + i / 32)) (i % 32) (j % 32) (other_place i j ne e))
  | no other ↦ ground arith
]

-- `m'` is `m` with block `b`, the first free one from `i` on, marked as allocated.
pub record Allocated (m m' : Disk) (i b : ℕ) : Type 0 where
  pub from : i ≤ b
  pub was_free : free_bit m b ≡ 1
  pub first : (j : ℕ) → i ≤ j → j < b → free_bit m j ≡ 0
  pub now_used : free_bit m' b ≡ 0
  pub other_bits : (j : ℕ) → j ≢ b → free_bit m' j ≡ free_bit m j
  pub other_words : (a : ℕ) → a ≢ free_bitmap + b / 32 → m' a ≡ m a
  pub cleared : m' ≡ bitvector_clear m free_bitmap b

cleared_word :
    (m : Disk) (i a : ℕ) → a ≢ free_bitmap + i / 32 → bitvector_clear m free_bitmap i a ≡ m a
unfolding bitvector_clear
cleared_word m i a h = ground arith

set_word : (m : Disk) (i a : ℕ) → a ≢ free_bitmap + i / 32 → bitvector_set m free_bitmap i a ≡ m a
unfolding bitvector_set
set_word m i a h = ground arith

allocate_from_lem :
    (m : Disk) (f i : ℕ)
    → (Allocated m (allocate_from m f i).0 i (allocate_from m f i).1
        × ((allocate_from m f i).1 < i + f))
      ⊎ ((allocate_from m f i ≡ (m, 0)) × ((j : ℕ) → i ≤ j → j < i + f → free_bit m j ≡ 0))
unfolding allocate_from
allocate_from_lem m zero i = inr (refl, λ j lo hi. absurd (omega arith))
allocate_from_lem m (suc f) i = elim (Bool-cases (free_bit m i == 1)) [
  | inl hit ↦ rw hit (
      inl (
        record {
          from = omega arith;
          was_free = ground arith;
          first = λ j lo hi. absurd (omega arith);
          now_used = free_bit-clear_self m i;
          other_bits = λ j ne. free_bit-clear_ne m i j (λ e. ne (sym e));
          other_words = λ a h. cleared_word m i a h;
          cleared = refl;
        },
        omega arith,
      ))
  | inr miss ↦ rw miss (step (ground (arith, free_bit-lt m i)) (allocate_from_lem m f (i + 1)))
]
  where
    step :
        free_bit m i ≡ 0
        → (Allocated m (allocate_from m f (i + 1)).0 (i + 1) (allocate_from m f (i + 1)).1
            × ((allocate_from m f (i + 1)).1 < i + 1 + f))
          ⊎ ((allocate_from m f (i + 1) ≡ (m, 0))
              × ((j : ℕ) → i + 1 ≤ j → j < i + 1 + f → free_bit m j ≡ 0))
        → (Allocated m (allocate_from m f (i + 1)).0 i (allocate_from m f (i + 1)).1
            × ((allocate_from m f (i + 1)).1 < i + suc f))
          ⊎ ((allocate_from m f (i + 1) ≡ (m, 0))
              × ((j : ℕ) → i ≤ j → j < i + suc f → free_bit m j ≡ 0))
    step zero_here (inl (a, lt)) = inl (
      record {
        from = omega (arith, a.from);
        was_free = a.was_free;
        first = λ j lo hi. elim (ℕ_discrete j i) [
          | yes e ↦ rw e zero_here
          | no ne ↦ a.first j (omega arith) hi
        ];
        now_used = a.now_used;
        other_bits = a.other_bits;
        other_words = a.other_words;
        cleared = a.cleared;
      },
      omega arith,
    )
    step zero_here (inr (e, all)) = inr (
      e,
      λ j lo hi. elim (ℕ_discrete j i) [
        | yes here ↦ rw here zero_here
        | no ne ↦ all j (omega arith) (omega arith)
      ],
    )

-- `allocate_block` takes the first free block from block 2 on: it returns its number, which is below
-- the number of blocks, marks it as allocated, and changes no other bit and no other word of the
-- disk; or all those blocks are allocated, it returns 0 and changes nothing.
pub allocate_block_lem :
    (m : Disk)
    → (Allocated m (allocate_block m).0 2 (allocate_block m).1
        × ((allocate_block m).1 < os_nblocks m))
      ⊎ ((allocate_block m ≡ (m, 0)) × ((j : ℕ) → 2 ≤ j → j < os_nblocks m → free_bit m j ≡ 0))
unfolding allocate_block
allocate_block_lem m = elim (allocate_from_lem m (os_nblocks m - 2) 2) [
  | inl (a, lt) ↦ inl (a, omega (arith, a.from))
  | inr (e, all) ↦ inr (e, λ j lo hi. all j lo (omega arith))
]

-- A block from `os_firstinob` on becomes free, and no other bit and no other word changes.
pub free_block_frees :
    (m : Disk) (b : ℕ)
    → os_firstinob m ≤ b
    → (free_bit (free_block m b) b ≡ 1)
      × ((j : ℕ) → j ≢ b → free_bit (free_block m b) j ≡ free_bit m j)
      × ((a : ℕ) → a ≢ free_bitmap + b / 32 → free_block m b a ≡ m a)
unfolding free_block
free_block_frees m b h = elim (Bool-cases (free_bit m b == 0)) [
  | inl used ↦
      let e : free_block m b ≡ bitvector_set m free_bitmap b = ground arith in
      rw e (
        free_bit-set_self m b,
        λ j ne. free_bit-set_ne m b j (λ q. ne (sym q)),
        λ a ne. set_word m b a ne,
      )
  | inr free ↦
      let e : free_block m b ≡ m = ground arith in
      rw e (ground (arith, free_bit-lt m b), λ j ne. refl, λ a ne. refl)
]

pub free_block_low : (m : Disk) (b : ℕ) → b < os_firstinob m → free_block m b ≡ m
unfolding free_block
free_block_low m b h = ground arith

-- A block from `os_firstinob` on becomes free, and no other bit and no other word changes; a block
-- below it is left as it was.
pub free_block_lem :
    (m : Disk) (b : ℕ)
    → ((os_firstinob m ≤ b)
        × (free_bit (free_block m b) b ≡ 1)
        × ((j : ℕ) → j ≢ b → free_bit (free_block m b) j ≡ free_bit m j)
        × ((a : ℕ) → a ≢ free_bitmap + b / 32 → free_block m b a ≡ m a))
      ⊎ ((b < os_firstinob m) × (free_block m b ≡ m))
free_block_lem m b = elim (dec_lt b (os_firstinob m)) [
  | yes low ↦ inr (low, free_block_low m b low)
  | no data_block ↦ let r = free_block_frees m b (omega arith) in inl (omega arith, r.0, r.1, r.2)
]

free_block-clear :
    (m : Disk) (b a : ℕ)
    → os_firstinob m ≤ b
    → free_bit m b ≡ 1
    → free_block (bitvector_clear m free_bitmap b) b a ≡ m a
unfolding free_block bitvector_set bitvector_clear bitvector_test
free_block-clear m b a h one = ground (
  arith,
  bit_on-bit_off (m (free_bitmap + b / 32)) (b % 32),
  bit_at-bit_off_self (m (free_bitmap + b / 32)) (b % 32),
)

-- Freeing the block that `allocate_block` has just returned gives back the disk, word for word, if
-- the block does not lie below `os_firstinob`.
pub free_block-allocate_block :
    (m : Disk)
    → (allocate_block m).1 ≢ 0
    → os_firstinob m ≤ (allocate_block m).1
    → (a : ℕ) → free_block (allocate_block m).0 (allocate_block m).1 a ≡ m a
free_block-allocate_block m nz h a = elim (allocate_block_lem m) [
  | inl (al, lt) ↦ rw al.cleared (free_block-clear m (allocate_block m).1 a h al.was_free)
  | inr (e, all) ↦ absurd (nz (ap (λ p. p.1) e))
]
