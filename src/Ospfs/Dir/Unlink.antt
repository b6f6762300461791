-- ===== src/Ospfs/Dir/Unlink.antt =====
-- `ospfs_unlink` of lab3/ospfsmod.c where the file keeps its contents.
use cs111_operating_system.Prelude.{
  ℕ, zero, suc, ◌+◌, ◌*◌, ◌/◌, ◌%◌, ◌<◌, ◌≤◌, ◌≡◌, ◌≢◌, ◌⊎◌, inl, inr, refl, sym, ap, ◌∙◌, arith,
  true, false, Bool-cases, List, some, none, update, update_self, update_ne, ltb, sub32, ◌==◌,
  ==-eq_false, not, ◌&&◌,
}
use cs111_operating_system.Ospfs.Layout.{Disk, inode, oi_nlink, oi_ftype, ftype_symlink}
use cs111_operating_system.Ospfs.Index.{inode_data}
use cs111_operating_system.Ospfs.Size.Frame.{data_start}
use cs111_operating_system.Ospfs.Dir.{
  success, enoent, answers, has_name, is_blank, scan, entries, find_direntry, unlink_scan,
  drop_link, ospfs_unlink,
}
use cs111_operating_system.Ospfs.Dir.Search.{
  find_direntry_lem, IsShortFile, inode_lem, entry_in_data,
}

-- The loop of `ospfs_unlink` stops where `find_direntry` does.
unlink_scan-some :
    (m : Disk) (dir : ℕ) (name : List ℕ) (f off od found : ℕ)
    → scan (λ x. has_name m x name) m dir f off ≡ some found
    → ((unlink_scan m dir name f off od).0 < m dir) × ((unlink_scan m dir name f off od).1 ≡ found)
unfolding unlink_scan scan
unlink_scan-some m dir name zero off od found e = absurd (ground (arith, e))
unlink_scan-some m dir name (suc f) off od found e = elim (Bool-cases (ltb off (m dir))) [
  | inr past ↦ absurd (ground (arith, e, past))
  | inl inside ↦ elim (Bool-cases (has_name m (inode_data m dir off) name)) [
    | inl hit ↦ rw (inside, hit) (ground arith, ground (arith, (rw (inside, hit) at e)))
    | inr miss ↦
        rw (inside, miss)
          (unlink_scan-some m dir name f (off + 128) (inode_data m dir off) found
            (rw (inside, miss) at e))
  ]
]

unlink_scan-none :
    (m : Disk) (dir : ℕ) (name : List ℕ) (f off od : ℕ)
    → m dir % 128 ≡ 0
    → off % 128 ≡ 0
    → off ≤ m dir
    → m dir < off + 128 * f
    → scan (λ x. has_name m x name) m dir f off ≡ none
    → (unlink_scan m dir name f off od).0 ≡ m dir
unfolding unlink_scan scan
unlink_scan-none m dir name zero off od whole aligned le enough e = absurd (omega arith)
unlink_scan-none m dir name (suc f) off od whole aligned le enough e =
    elim (Bool-cases (ltb off (m dir))) [
      | inr past ↦ ground (arith, past)
      | inl inside ↦ elim (Bool-cases (has_name m (inode_data m dir off) name)) [
        | inl hit ↦ absurd (ground (arith, e, inside, hit))
        | inr miss ↦
            rw (inside, miss)
              (unlink_scan-none m dir name f (off + 128) (inode_data m dir off) whole (omega arith)
                (ground (arith, inside)) (omega arith) (rw (inside, miss) at e))
      ]
    ]

-- What has happened after `ospfs_unlink` has removed the entry at `od`, where the file at `oi` has other
-- links or is a symbolic link.
pub record Unlinked (m m' : Disk) (oi dir od : ℕ) : Type 0 where
  pub blank : is_blank m' od ≡ true
  pub links : m' (oi_nlink oi) ≡ sub32 (m (oi_nlink oi)) 1
  pub others : (x : ℕ) → x ≢ od / 4 → x ≢ oi_nlink oi → m' x ≡ m x

module _ (m : Disk) (ino dir_ino oi dir od : ℕ) (name : List ℕ) (d : IsShortFile m dir_ino dir)
    (found : inode m ino ≡ some oi) (there : find_direntry m dir name ≡ some od) where
  abbrev blanked : Disk
  blanked = update m (od / 4) 0

  od_in_data : data_start m * 256 ≤ od / 4
  od_in_data = elim (find_direntry_lem m dir name) [
    | inr (e, _) ↦ absurd (ground (arith, e, there))
    | inl (od2, e, t) ↦
        let same : od2 ≡ od = ground (arith, e, there) in
        let at : od ≡ inode_data m dir (128 * t.index) =
          sym same ∙ t.here ∙ ap (inode_data m dir) (omega arith) in
        rw at (entry_in_data m dir_ino dir d t.index (omega (arith, t.within))).0
  ]

  oi_lies : oi + 16 ≤ data_start m * 256
  oi_lies = (inode_lem m ino oi d.small d.room found).1

  blanked_low : (x : ℕ) → x < data_start m * 256 → blanked x ≡ m x
  blanked_low x h = update_ne m (od / 4) x 0 (omega (arith, od_in_data))

  od_zero : drop_link blanked oi (od / 4) ≡ 0
  od_zero =
      update_ne blanked (oi_nlink oi) (od / 4) _ (omega (arith, od_in_data, oi_lies))
      ∙ update_self m (od / 4) 0

  blank_now : is_blank (drop_link blanked oi) od ≡ true
  unfolding is_blank
  blank_now = rw od_zero refl

  kind_stays : drop_link blanked oi (oi_ftype oi) ≡ m (oi_ftype oi)
  kind_stays =
      update_ne blanked (oi_nlink oi) (oi_ftype oi) _ (omega arith)
      ∙ blanked_low (oi_ftype oi) (omega (arith, oi_lies))

  links_now : drop_link blanked oi (oi_nlink oi) ≡ sub32 (m (oi_nlink oi)) 1
  links_now =
      update_self blanked (oi_nlink oi) _
      ∙ ap (λ n. sub32 n 1) (blanked_low (oi_nlink oi) (omega (arith, oi_lies)))

  file_stays : inode blanked ino ≡ some oi
  unfolding inode
  file_stays =
      let a : blanked 258 ≡ m 258 = blanked_low 258 (omega (arith, d.first)) in
      let b : blanked 259 ≡ m 259 = blanked_low 259 (omega (arith, d.first)) in rw (a, b) found

  fields-Unlinked : Unlinked m (drop_link blanked oi) oi dir od
  fields-Unlinked = record {
    blank = blank_now;
    links = links_now;
    others = λ x ne1 ne2.
        update_ne blanked (oi_nlink oi) x _ (λ e. ne2 (sym e))
        ∙ update_ne m (od / 4) x 0 (λ e. ne1 (sym e));
  }

  keeps :
      (m (oi_ftype oi) ≡ ftype_symlink) ⊎ (sub32 (m (oi_nlink oi)) 1 ≢ 0)
      → (not (drop_link blanked oi (oi_ftype oi) == ftype_symlink)
          && drop_link blanked oi (oi_nlink oi) == 0)
        ≡ false
  keeps k =
      rw (kind_stays, links_now)
        (elim k [ inl e ↦ rw e refl | inr ne ↦ rw (==-eq_false _ _ ne) (ground arith) ])

-- `ospfs_unlink` of a name that is in a directory of at most ten blocks, where the file has another link
-- or is a symbolic link: it returns 0; the entry that `find_direntry` gave is blank; the file has one
-- link less; and no other word of the disk has changed.
pub ospfs_unlink_lem :
    (rounds : ℕ) (m : Disk) (ino dir_ino oi dir od : ℕ) (name : List ℕ)
    → IsShortFile m dir_ino dir
    → inode m ino ≡ some oi
    → find_direntry m dir name ≡ some od
    → (m (oi_ftype oi) ≡ ftype_symlink) ⊎ (sub32 (m (oi_nlink oi)) 1 ≢ 0)
    → (m' : Disk) × (ospfs_unlink rounds m ino dir_ino name ≡ answers m' success)
      × Unlinked m m' oi dir od
unfolding ospfs_unlink find_direntry
ospfs_unlink_lem rounds m ino dir_ino oi dir od name d found there k =
    let (inside, at) = unlink_scan-some m dir name (entries m dir) 0 0 od there in
    (
      drop_link (update m (od / 4) 0) oi,
      rw
          (
            d.found,
            ospfs_unlink,
            ==-eq_false (unlink_scan m dir name (entries m dir) 0 0).0 (m dir)
                (λ e. omega (arith, inside, e)),
            found,
            at,
            keeps m ino dir_ino oi dir od name d found there k,
          )
          refl,
      fields-Unlinked m ino dir_ino oi dir od name d found there,
    )

-- `ospfs_unlink` of a name that is not in a directory whose size is a multiple of an entry's: it returns
-- `-ENOENT` and changes nothing.
pub ospfs_unlink-absent :
    (rounds : ℕ) (m : Disk) (ino dir_ino dir : ℕ) (name : List ℕ)
    → inode m dir_ino ≡ some dir
    → m dir % 128 ≡ 0
    → find_direntry m dir name ≡ none
    → ospfs_unlink rounds m ino dir_ino name ≡ answers m enoent
unfolding ospfs_unlink find_direntry
ospfs_unlink-absent rounds m ino dir_ino dir name found whole absent =
    let past =
      unlink_scan-none m dir name (entries m dir) 0 0 whole (omega arith) (omega arith)
        (omega arith) absent in
    rw (found, ospfs_unlink, past) (ground arith)
