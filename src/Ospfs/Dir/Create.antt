-- ===== src/Ospfs/Dir/Create.antt =====
-- `ospfs_create` of lab3/ospfsmod.c in a directory with a blank entry.
use cs111_operating_system.Prelude.{
  ℕ, zero, suc, ◌+◌, ◌*◌, ◌/◌, ◌%◌, ◌<◌, ◌≤◌, ◌≡◌, ◌≢◌, ◌⊎◌, inl, inr, refl, sym, ap, ◌∙◌, arith,
  true, false, Bool, Bool-cases, List, some, none, length, update, update_self, update_ne, ltb, leb,
  ◌==◌, ==-eq_false,
}
use cs111_operating_system.Ospfs.Layout.{
  Disk, inode, os_ninodes, os_firstinob, oi_nlink, oi_size, oi_ftype, oi_mode, ftype_reg, block,
}
use cs111_operating_system.Ospfs.Index.{inode_data}
use cs111_operating_system.Ospfs.Size.Frame.{data_start}
use cs111_operating_system.Ospfs.Bytes.Strings.{IsName}
use cs111_operating_system.Ospfs.Dir.{
  success, answers, is_blank, scan, entries, find_direntry, create_blank_direntry, set_entry,
  find_free_inode, enter, new_file, ospfs_create, od_ino,
}
use cs111_operating_system.Ospfs.Dir.Entries.{
  has_name-set_entry, set_entry_ino, set_entry_other_word,
}
use cs111_operating_system.Ospfs.Dir.Search.{
  First, IsShortFile, inode_lem, entry_in_data, same_entries,
}
use cs111_operating_system.Ospfs.Dir.Free.{FreeInode}
use cs111_operating_system.Ospfs.Dir.Link.{blank-First, Entered, find_direntry-Entered}

-- The loop over the entries does the same on a disk with the same pointers, for a test with the same
-- answers.
scan_same :
    (m m' : Disk) (ino dir : ℕ) (test test' : ℕ → Bool)
    → IsShortFile m ino dir
    → ((x : ℕ) → dir ≤ x → x < dir + 14 → x ≢ dir + 2 → m' x ≡ m x)
    → ((i : ℕ)
        → 128 * i < m dir
        → test' (inode_data m dir (128 * i)) ≡ test (inode_data m dir (128 * i)))
    → (f i off : ℕ) → off ≡ 128 * i
    → scan test' m' dir f off ≡ scan test m dir f off
unfolding scan
scan_same m m' ino dir test test' d same agree zero i off e = refl
scan_same m m' ino dir test test' d same agree (suc f) i off e =
    let size : m' dir ≡ m dir = same dir (omega arith) (omega arith) (omega arith) in
    rw size (elim (Bool-cases (ltb off (m dir))) [
      | inr past ↦ rw past refl
      | inl inside ↦
          let lt : 128 * i < m dir = ground arith in
          rw
            (
              inside,
              scan_same m m' ino dir test test' d same agree f (i + 1) (off + 128) (omega arith),
              e,
              same_entries m ino dir d m' same (128 * i) lt,
              agree i lt,
            )
            refl
    ])

-- What has happened after `ospfs_create` has made inode `ino`, at `oi`, a new file with an entry at
-- `od`.
pub record Created (m m' : Disk) (ino oi dir od mode : ℕ) (name : List ℕ) : Type 0 where
  pub lookup : find_direntry m' dir name ≡ some od
  pub names_file : od_ino m' od ≡ ino
  pub empty : m' (oi_size oi) ≡ 0
  pub regular : m' (oi_ftype oi) ≡ ftype_reg
  pub one_link : m' (oi_nlink oi) ≡ 1
  pub permissions : m' (oi_mode oi) ≡ mode
  pub others : (x : ℕ) → (x < od / 4) ⊎ (od / 4 + 32 ≤ x) → (x < oi) ⊎ (oi + 4 ≤ x) → m' x ≡ m x

new_file_other : (m : Disk) (oi mode x : ℕ) → (x < oi) ⊎ (oi + 4 ≤ x) → new_file m oi mode x ≡ m x
unfolding new_file
new_file_other m oi mode x away =
    let m1 : Disk = update m (oi_size oi) 0 in
    let m2 : Disk = update m1 (oi_ftype oi) ftype_reg in
    let m3 : Disk = update m2 (oi_nlink oi) 1 in
    update_ne m3 (oi_mode oi) x mode (omega arith)
    ∙ update_ne m2 (oi_nlink oi) x 1 (omega arith)
    ∙ update_ne m1 (oi_ftype oi) x ftype_reg (omega arith)
    ∙ update_ne m (oi_size oi) x 0 (omega arith)

new_file_fields :
    (m : Disk) (oi mode : ℕ)
    → (new_file m oi mode (oi_size oi) ≡ 0)
      × (new_file m oi mode (oi_ftype oi) ≡ ftype_reg)
      × (new_file m oi mode (oi_nlink oi) ≡ 1)
      × (new_file m oi mode (oi_mode oi) ≡ mode)
unfolding new_file
new_file_fields m oi mode =
    let m1 : Disk = update m (oi_size oi) 0 in
    let m2 : Disk = update m1 (oi_ftype oi) ftype_reg in
    let m3 : Disk = update m2 (oi_nlink oi) 1 in
    let past3 : (x : ℕ) → x ≢ oi_mode oi → update m3 (oi_mode oi) mode x ≡ m3 x =
      λ x ne. update_ne m3 (oi_mode oi) x mode (λ e. ne (sym e)) in
    let past2 : (x : ℕ) → x ≢ oi_nlink oi → m3 x ≡ m2 x =
      λ x ne. update_ne m2 (oi_nlink oi) x 1 (λ e. ne (sym e)) in
    (
      past3 oi (omega arith)
          ∙ past2 oi (omega arith)
          ∙ update_ne m1 (oi_ftype oi) oi ftype_reg (omega arith)
          ∙ update_self m oi 0,
      past3 (oi_ftype oi) (omega arith)
          ∙ past2 (oi_ftype oi) (omega arith)
          ∙ update_self m1 (oi_ftype oi) ftype_reg,
      past3 (oi_nlink oi) (omega arith) ∙ update_self m2 (oi_nlink oi) 1,
      update_self m3 (oi_mode oi) mode,
    )

module _ (m : Disk) (dir_ino ino oi dir od mode : ℕ) (name : List ℕ) (d : IsShortFile m dir_ino dir)
    (found : inode m ino ≡ some oi) (another : ino ≢ dir_ino)
    (blank : First (is_blank m) m dir 0 od) (short : length name < 124) where
  abbrev filled : Disk
  filled = new_file m oi mode

  abbrev created : Disk
  created = set_entry filled od ino name

  od_lies : (data_start m * 256 ≤ od / 4) × (od % 4 ≡ 0)
  od_lies =
      let e : od ≡ inode_data m dir (128 * blank.index) =
        blank.here ∙ ap (inode_data m dir) (omega arith) in
      rw e (entry_in_data m dir_ino dir d blank.index (omega (arith, blank.within)))

  oi_lies : (oi ≡ os_firstinob m * 256 + ino * 16) × (oi + 16 ≤ data_start m * 256)
  oi_lies = inode_lem m ino oi d.small d.room found

  dir_lies : (dir ≡ os_firstinob m * 256 + dir_ino * 16) × (dir + 16 ≤ data_start m * 256)
  dir_lies = inode_lem m dir_ino dir d.small d.room d.found

  filled_inode : (x : ℕ) → dir ≤ x → x < dir + 16 → filled x ≡ m x
  filled_inode x lo hi = new_file_other m oi mode x (omega (arith, oi_lies.0, dir_lies.0))

  filled_data : (x : ℕ) → data_start m * 256 ≤ x → filled x ≡ m x
  filled_data x lo = new_file_other m oi mode x (omega (arith, oi_lies.1))

  created_low : (x : ℕ) → x < data_start m * 256 → created x ≡ filled x
  created_low x h =
      set_entry_other_word filled od ino name x od_lies.1 short (omega (arith, od_lies.0))

  filled_blank :
      scan (is_blank filled) filled dir (entries filled dir) 0
      ≡ scan (is_blank m) m dir (entries m dir) 0
  unfolding is_blank
  filled_blank =
      let size : filled dir ≡ m dir = filled_inode dir (omega arith) (omega arith) in
      rw size (
        scan_same m filled dir_ino dir (is_blank m) (is_blank filled) d
          (λ x lo hi ne. filled_inode x lo (omega arith))
          (λ i h.
            ap (λ w. w == 0)
              (filled_data (inode_data m dir (128 * i) / 4) (entry_in_data m dir_ino dir d i h).0))
          (entries m dir) 0 0 (omega arith))

  created-Entered : Entered m created dir od
  created-Entered = record {
    index = blank.index;
    within = omega (arith, blank.within);
    place = blank.here ∙ ap (inode_data m dir) (omega arith);
    in_inode =
        λ x lo hi ne. created_low x (omega (arith, dir_lies.1)) ∙ filled_inode x lo (omega arith);
    in_data = λ x lo away.
        set_entry_other_word filled od ino name x od_lies.1 short away ∙ filled_data x lo;
  }

  created-Created :
      0 < ino
      → IsName name
      → find_direntry m dir name ≡ none
      → Created m created ino oi dir od mode name
  created-Created in_use chars absent =
      let (size, kind, links, perm) = new_file_fields m oi mode in
      record {
        lookup =
            find_direntry-Entered m created dir_ino dir od name d created-Entered short absent
              (has_name-set_entry filled od ino name od_lies.1 in_use chars);
        names_file = set_entry_ino filled od ino name od_lies.1;
        empty = created_low (oi_size oi) (omega (arith, oi_lies.1)) ∙ size;
        regular = created_low (oi_ftype oi) (omega (arith, oi_lies.1)) ∙ kind;
        one_link = created_low (oi_nlink oi) (omega (arith, oi_lies.1)) ∙ links;
        permissions = created_low (oi_mode oi) (omega (arith, oi_lies.1)) ∙ perm;
        others = λ x away1 away2.
            set_entry_other_word filled od ino name x od_lies.1 short away1
            ∙ new_file_other m oi mode x away2;
      }

-- `ospfs_create` under a new name of at most 123 characters, in a directory of at most ten blocks that
-- has a link and a blank entry, where an inode is free and Linux has room for its own: it returns 0; the
-- name is then found, at the first blank entry, which names the first free inode; that inode is an empty
-- regular file with one link and the given permissions; and no other word of the disk has changed.
pub ospfs_create_lem :
    (rounds : ℕ) (m : Disk) (dir_ino dir od mode : ℕ) (name : List ℕ)
    → IsShortFile m dir_ino dir
    → m (oi_nlink dir) ≢ 0
    → FreeInode m 2 (find_free_inode m)
    → scan (is_blank m) m dir (entries m dir) 0 ≡ some od
    → length name < 124
    → IsName name
    → find_direntry m dir name ≡ none
    → (m' : Disk) × (oi : ℕ) × (inode m (find_free_inode m) ≡ some oi)
      × (ospfs_create true rounds m dir_ino name mode ≡ answers m' success)
      × Created m m' (find_free_inode m) oi dir od mode name
unfolding ospfs_create enter create_blank_direntry inode
ospfs_create_lem rounds m dir_ino dir od mode name d linked f blank short chars absent =
    let ino = find_free_inode m in
    let oi = block (os_firstinob m) + ino * 16 in
    let in_table : leb (os_ninodes m) ino ≡ false = ground (arith, f.below) in
    let found : inode m ino ≡ some oi = rw in_table refl in
    let b = blank-First m dir od blank in
    let another : ino ≢ dir_ino = λ e. linked (ap (λ x. m (x + 2)) (dir_at e) ∙ f.free) in
    (
      set_entry (new_file m oi mode) od ino name,
      oi,
      found,
      rw
          (
            d.found,
            ospfs_create,
            absent,
            ==-eq_false ino 0 (omega (arith, f.from)),
            found,
            enter,
            create_blank_direntry,
            filled_blank m dir_ino ino oi dir od mode name d found another b short,
            blank,
          )
          refl,
      created-Created m dir_ino ino oi dir od mode name d found another b short
          (omega (arith, f.from)) chars absent,
    )
  where
    dir_at : find_free_inode m ≡ dir_ino → dir ≡ block (os_firstinob m) + find_free_inode m * 16
    dir_at e =
        let lies = inode_lem m dir_ino dir d.small d.room d.found in
        let room = d.room in let small = d.small in rw e (omega (arith, lies.0, lies.1))
