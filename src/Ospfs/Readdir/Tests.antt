-- ===== src/Ospfs/Readdir/Tests.antt =====
-- The listing of a directory of lab3/ospfsmod.c on a small disk.
use cs111_operating_system.Prelude.{
  ℕ, zero, suc, ◌+◌, ◌*◌, ◌≤◌, ◌<◌, ◌≡◌, ◌≢◌, refl, arith, Bool, true, some, List, [], ◌∷◌,
  if◌then◌else◌, ◌==◌,
}
use cs111_operating_system.Ospfs.Layout.{Disk, inode}
use cs111_operating_system.Ospfs.Index.{inode_data, inode_blockno}
use cs111_operating_system.Ospfs.Bytes.{load, byte_of, load_bytes, str_len}
use cs111_operating_system.Ospfs.Dir.{od_ino}
use cs111_operating_system.Ospfs.Dir.Search.{IsShortFile}
use cs111_operating_system.Ospfs.Readdir.{
  Entry, dt_reg, dot, dot_dot, file_type_of, entry_at, ospfs_dir_readdir,
}
use cs111_operating_system.Ospfs.Readdir.Listing.{
  listed_at, add_entry, listing, deliver, ospfs_dir_readdir_lem,
}

-- Ten blocks with 16 inodes in block 3. Inode 1 is a directory with the one entry `hi` in block 4, for
-- inode 2.
abbrev one_entry_disk : Disk
one_entry_disk a =
    if a == 257
    then 10
    else if a == 258
    then 16
    else if a == 259
    then 3
    else if a == 784
    then 128
    else if a == 785
    then 1
    else if a == 788
    then 4
    else if a == 1024
    then 2
    else if a == 1025
    then 26984
    else 0

one_entry_disk-IsShortFile : IsShortFile one_entry_disk 1 784
unfolding inode
one_entry_disk-IsShortFile = record {
  small = omega arith;
  first = omega arith;
  room = omega arith;
  found = refl;
  size = omega arith;
  kind = λ e. omega (arith, e);
  blocks = in_block;
  distinct = λ n k hn hk e. omega (arith, hn, hk);
}
  where
    in_block :
        (n : ℕ) → 1024 * n < 128 → (4 ≤ one_entry_disk (788 + n)) × (one_entry_disk (788 + n) < 10)
    in_block zero h = omega arith
    in_block (suc n) h = absurd (omega arith)

names_inode :
    (i : ℕ)
    → 128 * i < 128
    → od_ino one_entry_disk (inode_data one_entry_disk 784 (128 * i)) ≢ 0
    → (oi : ℕ) × (inode one_entry_disk
          (od_ino one_entry_disk (inode_data one_entry_disk 784 (128 * i)))
        ≡ some oi)
unfolding inode inode_data inode_blockno
names_inode zero h ne = (800, refl)
names_inode (suc i) h ne = absurd (omega arith)

-- The one entry that is listed.
one_entry :
    listing one_entry_disk 784 1 0
    ≡ record { name = 104 ∷ 105 ∷ []; f_pos = 2; ino = 2; file_type = dt_reg } ∷ []
unfolding listing add_entry listed_at file_type_of entry_at inode inode_data inode_blockno
    load_bytes str_len load byte_of
one_entry = refl

-- A callback that keeps what it gets, the last first.
abbrev keep_all : List Entry → Entry → List Entry × Bool
keep_all es e = (e ∷ es, true)

ospfs_dir_readdir_lem_example :
    ospfs_dir_readdir keep_all one_entry_disk 1 1 [] 0
    ≡ deliver keep_all [] (dot 1 ∷ dot_dot 1 ∷ listing one_entry_disk 784 1 0) 3
ospfs_dir_readdir_lem_example =
    ospfs_dir_readdir_lem keep_all one_entry_disk 1 1 784 1 [] one_entry_disk-IsShortFile
      names_inode refl
