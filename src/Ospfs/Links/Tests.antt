-- ===== src/Ospfs/Links/Tests.antt =====
-- A symbolic link of lab3/ospfsmod.c on a small disk.
use cs111_operating_system.Prelude.{refl, arith, ◌++◌, [], ◌∷◌, if◌then◌else◌, ◌==◌}
use cs111_operating_system.Ospfs.Layout.{Disk}
use cs111_operating_system.Ospfs.Bytes.{load, byte_of}
use cs111_operating_system.Ospfs.Dir.{oi_symlink}
use cs111_operating_system.Ospfs.Links.{root_prefix, colon}
use cs111_operating_system.Ospfs.Links.Follow.{Without, IsString, Follows, ospfs_follow_link_lem}

-- The inode at 800 is a link to `root?a:b`.
abbrev link_disk : Disk
link_disk x = if x == 803 then 1953460082 else if x == 804 then 1647993151 else 0

link-IsString :
    IsString link_disk (oi_symlink 800) (root_prefix ++ ((97 ∷ []) ++ colon ∷ (98 ∷ [])))
unfolding IsString load byte_of
link-IsString = (refl, (refl, (refl, (refl, (refl, (refl, (refl, (refl, refl))))))))

a-Without : Without colon (97 ∷ [])
unfolding Without
a-Without = (((λ e. omega (arith, e)), (λ e. omega (arith, e))), tt)

ospfs_follow_link_lem_example : Follows 20 link_disk 800 (97 ∷ []) (98 ∷ [])
ospfs_follow_link_lem_example =
    ospfs_follow_link_lem 20 link_disk 800 (97 ∷ []) (98 ∷ []) a-Without link-IsString (omega arith)
