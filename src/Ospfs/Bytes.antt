-- ===== src/Ospfs/Bytes.antt =====
-- Bytes of the disk: the first byte of a word is its lowest, as on x86. The pointers into directories
-- and names of lab3/ospfsmod.c are byte addresses here.
pub mod Strings
use cs111_operating_system.Prelude.{
  ℕ, zero, suc, ◌+◌, ◌-◌, ◌*◌, ◌/◌, ◌%◌, ◌^◌, ◌<◌, ◌≤◌, ◌≡◌, ◌≢◌, ◌⊎◌, inl, inr, refl, sym, ap, ◌∙◌,
  arith, Bool, true, false, ◌&&◌, List, [], ◌∷◌, length, map, update, update_self, update_ne,
  if◌then◌else◌, ◌==◌, ℕ_discrete,
}
use cs111_operating_system.Ospfs.Layout.{Disk}

unfoldable pub byte_of : (w k : ℕ) → ℕ
byte_of w zero = w % 256
byte_of w (suc k) = byte_of (w / 256) k

-- Byte `k` of `w` becomes `v`.
unfoldable pub with_byte : (w k v : ℕ) → ℕ
with_byte w zero v = v % 256 + 256 * (w / 256)
with_byte w (suc k) v = w % 256 + 256 * with_byte (w / 256) k v

unfoldable pub load : Disk → (a : ℕ) → ℕ
load m a = byte_of (m (a / 4)) (a % 4)

unfoldable pub store : Disk → (a v : ℕ) → Disk
store m a v = update m (a / 4) (with_byte (m (a / 4)) (a % 4) v)

-- `n` bytes from address `a` on.
unfoldable pub load_bytes : Disk → (a n : ℕ) → List ℕ
load_bytes m a zero = []
load_bytes m a (suc n) = load m a ∷ load_bytes m (a + 1) n

-- `memcpy(a, bytes, length)`.
unfoldable pub store_bytes : Disk → (a : ℕ) → List ℕ → Disk
store_bytes m a [] = m
store_bytes m a (b ∷ bs) = store_bytes (store m a b) (a + 1) bs

-- `strlen(a)`, for strings of fewer than `rounds` characters.
unfoldable pub str_len : (rounds : ℕ) → Disk → (a : ℕ) → ℕ
str_len zero m a = 0
str_len (suc f) m a = let rest = str_len f m (a + 1) in if load m a == 0 then 0 else suc rest

-- `memcmp(a, bytes, length) == 0`.
unfoldable pub same_bytes : Disk → (a : ℕ) → List ℕ → Bool
same_bytes m a [] = true
same_bytes m a (b ∷ bs) = load m a == b && same_bytes m (a + 1) bs

halved : (w v : ℕ) → w < 256 → (w + 256 * v) / 256 ≡ v
halved w v h = omega arith

byte_of-with_byte_self : (w k v : ℕ) → byte_of (with_byte w k v) k ≡ v % 256
unfolding byte_of with_byte
byte_of-with_byte_self w zero v = omega arith
byte_of-with_byte_self w (suc k) v =
    rw (halved (w % 256) (with_byte (w / 256) k v) (omega arith))
      (byte_of-with_byte_self (w / 256) k v)

byte_of-with_byte_ne : (w k j v : ℕ) → k ≢ j → byte_of (with_byte w k v) j ≡ byte_of w j
unfolding byte_of with_byte
byte_of-with_byte_ne w zero zero v h = absurd (h refl)
byte_of-with_byte_ne w zero (suc j) v h = rw (halved (v % 256) (w / 256) (omega arith))
byte_of-with_byte_ne w (suc k) zero v h = omega arith
byte_of-with_byte_ne w (suc k) (suc j) v h =
    rw (halved (w % 256) (with_byte (w / 256) k v) (omega arith))
      (byte_of-with_byte_ne (w / 256) k j v (omega arith))

byte_of_small : (w k : ℕ) → byte_of w k < 256
unfolding byte_of
byte_of_small w zero = omega arith
byte_of_small w (suc k) = byte_of_small (w / 256) k

pub load_small : (m : Disk) (a : ℕ) → load m a < 256
unfolding load
load_small m a = byte_of_small (m (a / 4)) (a % 4)

pub load-store_self : (m : Disk) (a v : ℕ) → load (store m a v) a ≡ v % 256
unfolding load store
load-store_self m a v =
    rw (update_self m (a / 4) (with_byte (m (a / 4)) (a % 4) v))
      (byte_of-with_byte_self (m (a / 4)) (a % 4) v)

pub load-store_ne : (m : Disk) (a b v : ℕ) → a ≢ b → load (store m a v) b ≡ load m b
unfolding load store
load-store_ne m a b v h = elim (ℕ_discrete (a / 4) (b / 4)) [
  | no ne ↦ ap (λ w. byte_of w (b % 4)) (update_ne m (a / 4) (b / 4) _ ne)
  | yes e ↦
      rw (← e, update_self m (a / 4) (with_byte (m (a / 4)) (a % 4) v))
        (byte_of-with_byte_ne (m (a / 4)) (a % 4) (b % 4) v (omega arith))
]

-- A word that does not hold the byte stays.
pub store_other_word : (m : Disk) (a v x : ℕ) → a / 4 ≢ x → store m a v x ≡ m x
unfolding store
store_other_word m a v x h = update_ne m (a / 4) x _ h

pub load-store_bytes_outside :
    (bs : List ℕ) (m : Disk) (a b : ℕ)
    → (b < a) ⊎ (a + length bs ≤ b)
    → load (store_bytes m a bs) b ≡ load m b
unfolding store_bytes
load-store_bytes_outside [] m a b h = refl
load-store_bytes_outside (x ∷ bs) m a b h =
    load-store_bytes_outside bs (store m a x) (a + 1) b (omega arith)
    ∙ load-store_ne m a b x (omega arith)

pub store_bytes_other_word :
    (bs : List ℕ) (m : Disk) (a x : ℕ)
    → (4 * x + 3 < a) ⊎ (a + length bs ≤ 4 * x)
    → store_bytes m a bs x ≡ m x
unfolding store_bytes
store_bytes_other_word [] m a x h = refl
store_bytes_other_word (b ∷ bs) m a x h =
    store_bytes_other_word bs (store m a b) (a + 1) x (omega arith)
    ∙ store_other_word m a b x (omega arith)

-- Bytes are numbers below 256.
pub AreBytes : List ℕ → Type 0
AreBytes [] = Unit
AreBytes (b ∷ bs) = (b < 256) × AreBytes bs

-- What was stored is loaded again.
pub load_bytes-store_bytes :
    (bs : List ℕ) (m : Disk) (a : ℕ)
    → AreBytes bs
    → load_bytes (store_bytes m a bs) a (length bs) ≡ bs
unfolding load_bytes store_bytes AreBytes
load_bytes-store_bytes [] m a small = refl
load_bytes-store_bytes (b ∷ bs) m a small =
    let first : load (store_bytes (store m a b) (a + 1) bs) a ≡ b =
      load-store_bytes_outside bs (store m a b) (a + 1) a (omega arith)
      ∙ load-store_self m a b
      ∙ omega (arith, small.0) in
    rw (first, load_bytes-store_bytes bs (store m a b) (a + 1) small.1)

pub load_bytes_same :
    (m m' : Disk) (n a : ℕ)
    → ((b : ℕ) → a ≤ b → b < a + n → load m' b ≡ load m b)
    → load_bytes m' a n ≡ load_bytes m a n
unfolding load_bytes
load_bytes_same m m' zero a same = refl
load_bytes_same m m' (suc n) a same = rw (same a (omega arith) (omega arith)) (
    ap (λ l. load m a ∷ l)
      (load_bytes_same m m' n (a + 1) (λ b lo hi. same b (omega arith) (omega arith))))
