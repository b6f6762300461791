-- ===== src/Prelude/Words.antt =====
-- 32-bit words as native numbers, with the wrap-around of C written out, and their bits.
use Prim.Native.Nat.{ℕ, zero, suc, ◌+◌, ◌-◌, ◌*◌, ◌/◌, ◌%◌, ◌^◌, ◌<◌}
use mathlib.Core.Path.{◌≡◌, refl}
use mathlib.Core.Logic.{◌≢◌}
use mathlib.Core.Bool.{Bool}
use native.Mathlib.Omega.{arith}
use cs111_operating_system.Prelude.Tests.{leb, ltb}

abbrev pub u32 : ℕ → ℕ
u32 n = n % 2 ^ 32

abbrev pub add32 : ℕ → ℕ → ℕ
add32 a b = (a + b) % 2 ^ 32

-- `-` on ℕ stops at 0, so the modulus is added first.
abbrev pub sub32 : ℕ → ℕ → ℕ
sub32 a b = (a + 2 ^ 32 - b % 2 ^ 32) % 2 ^ 32

-- The sign of the `int` that a bit pattern stands for.
abbrev pub is_negative : ℕ → Bool
is_negative w = leb (2 ^ 31) w

-- The pattern of the `int` -1.
abbrev pub minus_one : ℕ
minus_one = 2 ^ 32 - 1

-- Bit `k` of `w`, and `w` with that bit put to 1 or 0, digit by digit.
unfoldable pub bit_at : ℕ → ℕ → ℕ
bit_at w zero = w % 2
bit_at w (suc k) = bit_at (w / 2) k

unfoldable pub bit_on : ℕ → ℕ → ℕ
bit_on w zero = w - w % 2 + 1
bit_on w (suc k) = w % 2 + 2 * bit_on (w / 2) k

unfoldable pub bit_off : ℕ → ℕ → ℕ
bit_off w zero = w - w % 2
bit_off w (suc k) = w % 2 + 2 * bit_off (w / 2) k

halve : (w v : ℕ) → (w % 2 + 2 * v) / 2 ≡ v
halve w v = omega arith

pub bit_at-lt : (w k : ℕ) → bit_at w k < 2
unfolding bit_at
bit_at-lt w zero = omega arith
bit_at-lt w (suc k) = bit_at-lt (w / 2) k

pub bit_at-bit_on_self : (w k : ℕ) → bit_at (bit_on w k) k ≡ 1
unfolding bit_at bit_on
bit_at-bit_on_self w zero = omega arith
bit_at-bit_on_self w (suc k) = rw (halve w (bit_on (w / 2) k)) (bit_at-bit_on_self (w / 2) k)

pub bit_at-bit_off_self : (w k : ℕ) → bit_at (bit_off w k) k ≡ 0
unfolding bit_at bit_off
bit_at-bit_off_self w zero = omega arith
bit_at-bit_off_self w (suc k) = rw (halve w (bit_off (w / 2) k)) (bit_at-bit_off_self (w / 2) k)

pub bit_at-bit_on_ne : (w k j : ℕ) → k ≢ j → bit_at (bit_on w k) j ≡ bit_at w j
unfolding bit_at bit_on
bit_at-bit_on_ne w zero zero h = absurd (h refl)
bit_at-bit_on_ne w zero (suc j) h = let e : (w - w % 2 + 1) / 2 ≡ w / 2 = omega arith in rw e
bit_at-bit_on_ne w (suc k) zero h = omega arith
bit_at-bit_on_ne w (suc k) (suc j) h =
    rw (halve w (bit_on (w / 2) k)) (bit_at-bit_on_ne (w / 2) k j (omega arith))

pub bit_at-bit_off_ne : (w k j : ℕ) → k ≢ j → bit_at (bit_off w k) j ≡ bit_at w j
unfolding bit_at bit_off
bit_at-bit_off_ne w zero zero h = absurd (h refl)
bit_at-bit_off_ne w zero (suc j) h = let e : (w - w % 2) / 2 ≡ w / 2 = omega arith in rw e
bit_at-bit_off_ne w (suc k) zero h = omega arith
bit_at-bit_off_ne w (suc k) (suc j) h =
    rw (halve w (bit_off (w / 2) k)) (bit_at-bit_off_ne (w / 2) k j (omega arith))

-- Turning a bit off and on again gives back a word that had it on.
pub bit_on-bit_off : (w k : ℕ) → bit_at w k ≡ 1 → bit_on (bit_off w k) k ≡ w
unfolding bit_at bit_on bit_off
bit_on-bit_off w zero h = omega arith
bit_on-bit_off w (suc k) h =
    rw (halve w (bit_off (w / 2) k), bit_on-bit_off (w / 2) k h) (omega arith)

-- The order of the `int`s that two patterns stand for.
abbrev pub int_ltb : ℕ → ℕ → Bool
int_ltb a b = ltb ((a + 2 ^ 31) % 2 ^ 32) ((b + 2 ^ 31) % 2 ^ 32)
