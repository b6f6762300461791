-- ===== src/Osprd/Count.antt =====
-- How many of the first `n` agents hold the lock in one mode: `held` says who holds it, `mode` who
-- would hold it in that mode.
use cs111_operating_system.Prelude.{
  ℕ, zero, suc, ◌+◌, ◌≤◌, ◌<◌, ◌≡◌, refl, arith, Bool, true, false, update, if◌then◌else◌, dec_lt,
  ◌&&◌,
}

pub count : (n : ℕ) → (held mode : ℕ → Bool) → ℕ
count zero held mode = 0
count (suc n) held mode = count n held mode + (if held n && mode n then 1 else 0)

count-update_beyond :
    (n : ℕ) (held mode : ℕ → Bool) (i : ℕ) (b : Bool)
    → n ≤ i
    → count n (update held i b) mode ≡ count n held mode
unfolding count
count-update_beyond zero held mode i b h = refl
count-update_beyond (suc n) held mode i b h = ground (arith, count-update_beyond n held mode i b)

-- One agent takes the lock or gives it up.
pub count-update :
    (n : ℕ) (held mode : ℕ → Bool) (i : ℕ) (b : Bool)
    → i < n
    → count n (update held i b) mode + (if held i && mode i then 1 else 0)
      ≡ count n held mode + (if b && mode i then 1 else 0)
unfolding count
count-update zero held mode i b h = absurd (omega arith)
count-update (suc n) held mode i b h = elim (dec_lt i n) [
  | yes below ↦ ground (arith, count-update n held mode i b below)
  | no last ↦ ground (arith, count-update_beyond n held mode i b)
]

-- A holder is counted.
pub count-pos :
    (n : ℕ) (held mode : ℕ → Bool) (i : ℕ)
    → i < n
    → held i ≡ true
    → mode i ≡ true
    → 0 < count n held mode
unfolding count
count-pos zero held mode i h e f = absurd (omega arith)
count-pos (suc n) held mode i h e f = elim (dec_lt i n) [
  | yes below ↦ omega (arith, count-pos n held mode i below e f)
  | no last ↦ ground arith
]

pub count-none : (n : ℕ) (mode : ℕ → Bool) → count n (λ _. false) mode ≡ 0
unfolding count
count-none zero mode = refl
count-none (suc n) mode = omega (arith, count-none n mode)
