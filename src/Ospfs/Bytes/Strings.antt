-- ===== src/Ospfs/Bytes/Strings.antt =====
-- Strings on the disk: what `strlen` and `memcmp` read, and what they say of a name that was stored.
use cs111_operating_system.Prelude.{
  ℕ, zero, suc, ◌+◌, ◌/◌, ◌<◌, ◌≤◌, ◌≡◌, refl, ap, ◌∙◌, arith, true, List, [], ◌∷◌, length,
}
use mathlib.Core.List.{head-eq_of_cons-eq, tail-eq_of_cons-eq}
use cs111_operating_system.Ospfs.Layout.{Disk}
use cs111_operating_system.Ospfs.Bytes.{load, load_bytes, str_len, same_bytes, AreBytes}

pub load_same : (m m' : Disk) (a : ℕ) → m' (a / 4) ≡ m (a / 4) → load m' a ≡ load m a
unfolding load
load_same m m' a e = rw e

pub str_len_same :
    (m m' : Disk) (f a : ℕ)
    → ((b : ℕ) → a ≤ b → b < a + f → load m' b ≡ load m b)
    → str_len f m' a ≡ str_len f m a
unfolding str_len
str_len_same m m' zero a same = refl
str_len_same m m' (suc f) a same = rw (
  same a (omega arith) (omega arith),
  str_len_same m m' f (a + 1) (λ b lo hi. same b (omega arith) (omega arith)),
)

pub same_bytes_same :
    (m m' : Disk) (bs : List ℕ) (a : ℕ)
    → ((b : ℕ) → a ≤ b → b < a + length bs → load m' b ≡ load m b)
    → same_bytes m' a bs ≡ same_bytes m a bs
unfolding same_bytes
same_bytes_same m m' [] a same = refl
same_bytes_same m m' (x ∷ bs) a same = rw (
  same a (omega arith) (omega arith),
  same_bytes_same m m' bs (a + 1) (λ b lo hi. same b (omega arith) (omega arith)),
)

-- Characters of a name: bytes other than 0.
unfoldable pub IsName : List ℕ → Type 0
IsName [] = Unit
IsName (c ∷ cs) = ((0 < c) × (c < 256)) × IsName cs

pub IsName-AreBytes : (name : List ℕ) → IsName name → AreBytes name
unfolding IsName AreBytes
IsName-AreBytes [] n = tt
IsName-AreBytes (c ∷ cs) n = (n.0.1, IsName-AreBytes cs n.1)

pub str_len_lem :
    (m : Disk) (name : List ℕ) (a : ℕ)
    → IsName name
    → load_bytes m a (length name) ≡ name
    → load m (a + length name) ≡ 0
    → str_len (length name + 1) m a ≡ length name
unfolding str_len load_bytes IsName
str_len_lem m [] a n e end =
    let end' : load m a ≡ 0 = ap (load m) (omega arith) ∙ end in ground (arith, end')
str_len_lem m (c ∷ cs) a n e end =
    let first : load m a ≡ c = head-eq_of_cons-eq e in
    let rest =
      str_len_lem m cs (a + 1) n.1 (tail-eq_of_cons-eq e) (ap (load m) (omega arith) ∙ end) in
    ground (arith, first, n.0.0, rest)

pub same_bytes_lem :
    (m : Disk) (name : List ℕ) (a : ℕ)
    → load_bytes m a (length name) ≡ name
    → same_bytes m a name ≡ true
unfolding same_bytes load_bytes
same_bytes_lem m [] a e = refl
same_bytes_lem m (c ∷ cs) a e =
    let first : load m a ≡ c = head-eq_of_cons-eq e in
    let rest = same_bytes_lem m cs (a + 1) (tail-eq_of_cons-eq e) in ground (arith, first, rest)
