-- ===== src/Ospfs/Dir/Entries.antt =====
-- Directory entries of lab3/ospfsmod.c: what the test for a name reads, and what a new entry writes.
use cs111_operating_system.Prelude.{
  ℕ, ◌+◌, ◌/◌, ◌%◌, ◌<◌, ◌≤◌, ◌≡◌, ◌⊎◌, ◌∙◌, arith, true, List, length, update, update_self,
  update_ne,
}
use cs111_operating_system.Ospfs.Layout.{Disk}
use cs111_operating_system.Ospfs.Bytes.{
  load, store, load_bytes, store_bytes, load-store_self, load-store_ne, store_other_word,
  store_bytes_other_word, load_bytes-store_bytes, load_bytes_same,
}
use cs111_operating_system.Ospfs.Bytes.Strings.{
  load_same, str_len_same, same_bytes_same, IsName, IsName-AreBytes, str_len_lem, same_bytes_lem,
}
use cs111_operating_system.Ospfs.Dir.{has_name, set_entry}

-- The test for a name that fits reads the 32 words of the entry only.
pub has_name_same :
    (m m' : Disk) (od : ℕ) (name : List ℕ)
    → od % 4 ≡ 0
    → length name < 124
    → ((x : ℕ) → od / 4 ≤ x → x < od / 4 + 32 → m' x ≡ m x)
    → has_name m' od name ≡ has_name m od name
unfolding has_name
has_name_same m m' od name aligned short same = rw (
  same (od / 4) (omega arith) (omega arith),
  str_len_same m m' (length name + 1) (od + 4)
      (λ b lo hi. load_same m m' b (same (b / 4) (omega arith) (omega arith))),
  same_bytes_same m m' name (od + 4)
      (λ b lo hi. load_same m m' b (same (b / 4) (omega arith) (omega arith))),
)

-- A new entry has its name.
pub has_name-set_entry :
    (m : Disk) (od ino : ℕ) (name : List ℕ)
    → od % 4 ≡ 0
    → 0 < ino
    → IsName name
    → has_name (set_entry m od ino name) od name ≡ true
unfolding has_name set_entry
has_name-set_entry m od ino name aligned in_use chars =
    rw
      (ino_lem, str_len_lem m2 name (od + 4) chars bytes end, same_bytes_lem m2 name (od + 4) bytes)
      (ground arith)
  where
    m1 : Disk
    m1 = store_bytes (update m (od / 4) ino) (od + 4) name

    m2 : Disk
    m2 = store m1 (od + 4 + length name) 0

    ino_lem : m2 (od / 4) ≡ ino
    ino_lem =
        store_other_word m1 (od + 4 + length name) 0 (od / 4) (omega arith)
        ∙ store_bytes_other_word name (update m (od / 4) ino) (od + 4) (od / 4) (omega arith)
        ∙ update_self m (od / 4) ino

    bytes : load_bytes m2 (od + 4) (length name) ≡ name
    bytes =
        load_bytes_same m1 m2 (length name) (od + 4)
          (λ b lo hi. load-store_ne m1 (od + 4 + length name) b 0 (omega arith))
        ∙ load_bytes-store_bytes name (update m (od / 4) ino) (od + 4) (IsName-AreBytes name chars)

    end : load m2 (od + 4 + length name) ≡ 0
    end = load-store_self m1 (od + 4 + length name) 0

pub set_entry_ino :
    (m : Disk) (od ino : ℕ) (name : List ℕ) → od % 4 ≡ 0 → set_entry m od ino name (od / 4) ≡ ino
unfolding set_entry
set_entry_ino m od ino name aligned =
    store_other_word _ (od + 4 + length name) 0 (od / 4) (omega arith)
    ∙ store_bytes_other_word name (update m (od / 4) ino) (od + 4) (od / 4) (omega arith)
    ∙ update_self m (od / 4) ino

-- A new entry with a name that fits changes no word but the 32 words of the entry.
pub set_entry_other_word :
    (m : Disk) (od ino : ℕ) (name : List ℕ) (x : ℕ)
    → od % 4 ≡ 0
    → length name < 124
    → (x < od / 4) ⊎ (od / 4 + 32 ≤ x)
    → set_entry m od ino name x ≡ m x
unfolding set_entry
set_entry_other_word m od ino name x aligned short away =
    store_other_word _ (od + 4 + length name) 0 x (omega arith)
    ∙ store_bytes_other_word name (update m (od / 4) ino) (od + 4) x (omega arith)
    ∙ update_ne m (od / 4) x ino (omega arith)
