-- ===== src/Ospfs/Dir/Tests.antt =====
-- Directories of lab3/ospfsmod.c on a small disk: runs, and the theorems at that disk.
use cs111_operating_system.Prelude.{
  ℕ, zero, suc, ◌+◌, ◌*◌, ◌≤◌, ◌<◌, ◌≡◌, refl, arith, true, inr, some, none, List, [], ◌∷◌,
  if◌then◌else◌, ◌==◌,
}
use cs111_operating_system.Ospfs.Layout.{Disk, inode}
use cs111_operating_system.Ospfs.Index.{inode_data, inode_blockno}
use cs111_operating_system.Ospfs.Bytes.{load, byte_of, str_len, same_bytes}
use cs111_operating_system.Ospfs.Bytes.Strings.{IsName}
use cs111_operating_system.Ospfs.Dir.{
  answers, success, has_name, is_blank, scan, entries, find_direntry, ospfs_link, ospfs_unlink,
  find_free_inode, free_inode_from, ospfs_create,
}
use cs111_operating_system.Ospfs.Dir.Search.{IsShortFile}
use cs111_operating_system.Ospfs.Dir.Link.{Linked, ospfs_link_lem}
use cs111_operating_system.Ospfs.Dir.Unlink.{Unlinked, ospfs_unlink_lem}
use cs111_operating_system.Ospfs.Dir.Free.{FreeInode}
use cs111_operating_system.Ospfs.Dir.Create.{Created, ospfs_create_lem}

-- Ten blocks with 16 inodes in block 3. Inode 1 is a directory of two entries in block 4; the second one
-- is `hi`, for inode 2, and the first is blank. Inode 2 has two links.
abbrev dir_disk : Disk
dir_disk a =
    if a == 257
    then 10
    else if a == 258
    then 16
    else if a == 259
    then 3
    else if a == 784
    then 256
    else if a == 785
    then 1
    else if a == 786
    then 1
    else if a == 788
    then 4
    else if a == 802
    then 2
    else if a == 1056
    then 2
    else if a == 1057
    then 26984
    else 0

abbrev hi : List ℕ
hi = 104 ∷ 105 ∷ []

abbrev other : List ℕ
other = 120 ∷ []

dir_disk-IsShortFile : IsShortFile dir_disk 1 784
unfolding inode
dir_disk-IsShortFile = record {
  small = omega arith;
  first = omega arith;
  room = omega arith;
  found = refl;
  size = omega arith;
  kind = λ e. omega (arith, e);
  blocks = in_block;
  distinct = λ n k hn hk e. omega (arith, hn, hk);
}
  where
    in_block : (n : ℕ) → 1024 * n < 256 → (4 ≤ dir_disk (788 + n)) × (dir_disk (788 + n) < 10)
    in_block zero h = omega arith
    in_block (suc n) h = absurd (omega arith)

hi_found : find_direntry dir_disk 784 hi ≡ some 4224
unfolding find_direntry scan has_name inode_data inode_blockno load byte_of str_len same_bytes
hi_found = refl

other_absent : find_direntry dir_disk 784 other ≡ none
unfolding find_direntry scan has_name inode_data inode_blockno load byte_of str_len same_bytes
other_absent = refl

first_blank : scan (is_blank dir_disk) dir_disk 784 (entries dir_disk 784) 0 ≡ some 4096
unfolding scan is_blank inode_data inode_blockno
first_blank = refl

file_2 : inode dir_disk 2 ≡ some 800
unfolding inode
file_2 = refl

other-IsName : IsName other
unfolding IsName
other-IsName = ((omega arith, omega arith), tt)

ospfs_link_lem_example :
    (m' : Disk) × (ospfs_link 5 dir_disk 2 1 other ≡ answers m' success)
    × Linked dir_disk m' 2 800 784 4096 other
ospfs_link_lem_example =
    ospfs_link_lem 5 dir_disk 2 1 800 784 4096 other dir_disk-IsShortFile file_2 first_blank
      (omega arith) (omega arith) other-IsName other_absent

ospfs_unlink_lem_example :
    (m' : Disk) × (ospfs_unlink 5 dir_disk 2 1 hi ≡ answers m' success)
    × Unlinked dir_disk m' 800 784 4224
ospfs_unlink_lem_example =
    ospfs_unlink_lem 5 dir_disk 2 1 800 784 4224 hi dir_disk-IsShortFile file_2 hi_found
      (inr (λ e. omega (arith, e)))

inode_3_free : FreeInode dir_disk 2 (find_free_inode dir_disk)
unfolding find_free_inode free_inode_from inode
inode_3_free = record {
  from = omega arith;
  below = omega arith;
  free = refl;
  before = λ j lo hi. let e : j ≡ 2 = omega (arith, lo, hi) in rw e (λ z. omega (arith, z));
}

ospfs_create_lem_example :
    (m' : Disk) × (oi : ℕ) × (inode dir_disk (find_free_inode dir_disk) ≡ some oi)
    × (ospfs_create true 5 dir_disk 1 other 420 ≡ answers m' success)
    × Created dir_disk m' (find_free_inode dir_disk) oi 784 4096 420 other
ospfs_create_lem_example =
    ospfs_create_lem 5 dir_disk 1 784 4096 420 other dir_disk-IsShortFile (λ e. omega (arith, e))
      inode_3_free first_blank (omega arith) other-IsName other_absent
