-- ===== src/Ospfs/Links.antt =====
-- lab3/ospfsmod.c: `ospfs_follow_link`, with its symbolic links of the form root?/path/1:/path/2.
pub mod Follow
mod Tests
use cs111_operating_system.Prelude.{
  ℕ, zero, suc, ◌+◌, Option, none, some, List, [], ◌∷◌, if◌then◌else◌, ◌==◌,
}
use cs111_operating_system.Ospfs.Layout.{Disk}
use cs111_operating_system.Ospfs.Bytes.{load, store, same_bytes}
use cs111_operating_system.Ospfs.Dir.{oi_symlink}

-- The characters of "root?".
abbrev pub root_prefix : List ℕ
root_prefix = 114 ∷ 111 ∷ 111 ∷ 116 ∷ 63 ∷ []

abbrev pub question_mark : ℕ
question_mark = 63

abbrev pub colon : ℕ
colon = 58

-- `strchr(a, c)`, for strings of fewer than `rounds` characters.
pub str_chr : (rounds : ℕ) → Disk → (a c : ℕ) → Option ℕ
str_chr zero m a c = none
str_chr (suc f) m a c =
    let rest = str_chr f m (a + 1) c in
    if load m a == c then some a else if load m a == 0 then none else rest

-- The address given to `nd_set_link`; `dangling` is the address 1, which is `NULL + 1`; `oops`, a write
-- through NULL.
pub data Followed : Type 0 where
  link_at : Disk → (a : ℕ) → Followed
  dangling : Disk → Followed
  oops : Followed

pub next_to : Disk → Option ℕ → Followed
next_to m none = dangling m
next_to m (some a) = link_at m (a + 1)

-- `uid` is the user of the process, 0 for root.
pub ospfs_follow_link : (rounds uid : ℕ) → Disk → (oi : ℕ) → Followed
ospfs_follow_link rounds uid m oi =
    if same_bytes m (oi_symlink oi) root_prefix
    then if uid == 0
      then elim (str_chr rounds m (oi_symlink oi) colon) [
        | none ↦ oops
        | some a ↦
            let m' = store m a 0 in next_to m' (str_chr rounds m' (oi_symlink oi) question_mark)
      ]
      else next_to m (str_chr rounds m (oi_symlink oi) colon)
    else link_at m (oi_symlink oi)
