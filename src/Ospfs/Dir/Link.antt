-- ===== src/Ospfs/Dir/Link.antt =====
-- `ospfs_link` of lab3/ospfsmod.c in a directory with a blank entry.
use cs111_operating_system.Prelude.{
  ℕ, ◌+◌, ◌*◌, ◌/◌, ◌%◌, ◌<◌, ◌≤◌, ◌≡◌, ◌≢◌, ◌⊎◌, inl, inr, refl, sym, ap, ◌∙◌, arith, true, false,
  List, Option, some, none, length, update_self, update_ne, ltb, ℕ_discrete, add32,
}
use cs111_operating_system.Ospfs.Layout.{Disk, inode, os_firstinob, oi_nlink, maxnamelen}
use cs111_operating_system.Ospfs.Index.{inode_data}
use cs111_operating_system.Ospfs.Size.Frame.{data_start}
use cs111_operating_system.Ospfs.Bytes.Strings.{IsName}
use cs111_operating_system.Ospfs.Dir.{
  success, answers, has_name, is_blank, scan, entries, find_direntry, create_blank_direntry,
  set_entry, add_link, ospfs_link, od_ino,
}
use cs111_operating_system.Ospfs.Dir.Entries.{
  has_name_same, has_name-set_entry, set_entry_ino, set_entry_other_word,
}
use cs111_operating_system.Ospfs.Dir.Search.{
  First, Scanned, scan-Scanned, find_direntry_lem, IsShortFile, inode_lem, entries_apart,
  entry_in_data, same_entries,
}

-- The blank entry that the first loop of `create_blank_direntry` finds.
pub blank-First :
    (m : Disk) (dir od : ℕ)
    → scan (is_blank m) m dir (entries m dir) 0 ≡ some od
    → First (is_blank m) m dir 0 od
blank-First m dir od e =
    split (scan (is_blank m) m dir (entries m dir) 0) e
      (scan-Scanned (is_blank m) m dir (entries m dir) 0 (omega arith))
  where
    split :
        (r : Option ℕ)
        → r ≡ some od
        → Scanned (is_blank m) m dir 0 r
        → First (is_blank m) m dir 0 od
    split none e t = absurd (ground (arith, e))
    split (some od2) e t = let same : od2 ≡ od = ground (arith, e) in rw same at t

-- `m'` differs from `m` in one entry and in a word of another inode that is no pointer.
pub record Entered (m m' : Disk) (dir od : ℕ) : Type 0 where
  pub index : ℕ
  pub within : 128 * index < m dir
  pub place : od ≡ inode_data m dir (128 * index)
  pub in_inode : (x : ℕ) → dir ≤ x → x < dir + 14 → x ≢ dir + 2 → m' x ≡ m x
  pub in_data : (x : ℕ) → data_start m * 256 ≤ x → (x < od / 4) ⊎ (od / 4 + 32 ≤ x) → m' x ≡ m x

-- A name that was not there is found at the entry that now has it.
pub find_direntry-Entered :
    (m m' : Disk) (ino dir od : ℕ) (name : List ℕ)
    → IsShortFile m ino dir
    → Entered m m' dir od
    → length name < 124
    → find_direntry m dir name ≡ none
    → has_name m' od name ≡ true
    → find_direntry m' dir name ≡ some od
find_direntry-Entered m m' ino dir od name d w short absent has =
    elim (find_direntry_lem m dir name) [
      | inl (other, e, _) ↦ absurd (ground (arith, e, absent))
      | inr (_, none_had) ↦ elim (find_direntry_lem m' dir name) [
        | inl (od2, e2, t) ↦ e2 ∙ ap some (only none_had od2 t)
        | inr (e2, none_has) ↦
            absurd (ground (arith, has, moved (none_has w.index (omega (arith, w.within, size)))))
      ]
    ]
  where
    size : m' dir ≡ m dir
    size = w.in_inode dir (omega arith) (omega arith) (omega arith)

    moved :
        has_name m' (inode_data m' dir (128 * w.index)) name ≡ false → has_name m' od name ≡ false
    moved h =
        let there : inode_data m' dir (128 * w.index) ≡ od =
          same_entries m ino dir d m' w.in_inode (128 * w.index) w.within ∙ sym w.place in
        rw there at h

    stays :
        (j : ℕ)
        → 128 * j < m dir
        → j ≢ w.index
        → has_name m' (inode_data m dir (128 * j)) name
          ≡ has_name m (inode_data m dir (128 * j)) name
    stays j h ne =
        let (lo, aligned) = entry_in_data m ino dir d j h in
        has_name_same m m' (inode_data m dir (128 * j)) name aligned short (λ x from to.
          w.in_data x (omega arith) (
            let apart = entries_apart m ino dir d j w.index h w.within ne in
            let at : od ≡ inode_data m dir (128 * w.index) = w.place in omega arith))

    only :
        ((j : ℕ) → 128 * j < m dir → has_name m (inode_data m dir (128 * j)) name ≡ false)
        → (od2 : ℕ) → First (λ x. has_name m' x name) m' dir 0 od2
        → od2 ≡ od
    only none_had od2 t =
        let inside : 128 * t.index < m dir = omega (arith, t.within, size) in
        let there : od2 ≡ inode_data m dir (128 * t.index) =
          t.here
          ∙ ap (inode_data m' dir) (omega arith)
          ∙ same_entries m ino dir d m' w.in_inode (128 * t.index) inside in
        elim (ℕ_discrete t.index w.index) [
          | yes e ↦ there ∙ ap (λ i. inode_data m dir (128 * i)) e ∙ sym w.place
          | no ne ↦
              let had = none_had t.index inside in
              let has2 : has_name m' (inode_data m dir (128 * t.index)) name ≡ true =
                rw there at t.passes in
              absurd (ground (arith, has2, had, stays t.index inside ne))
        ]

-- What has happened after `ospfs_link` has made an entry for `src_ino` at `od`.
pub record Linked (m m' : Disk) (src_ino src dir od : ℕ) (name : List ℕ) : Type 0 where
  pub lookup : find_direntry m' dir name ≡ some od
  pub names_source : od_ino m' od ≡ src_ino
  pub links : m' (oi_nlink src) ≡ add32 (m (oi_nlink src)) 1
  pub others : (x : ℕ) → (x < od / 4) ⊎ (od / 4 + 32 ≤ x) → x ≢ oi_nlink src → m' x ≡ m x

module _ (m : Disk) (src_ino dir_ino src dir od : ℕ) (name : List ℕ) (d : IsShortFile m dir_ino dir)
    (found : inode m src_ino ≡ some src) (blank : First (is_blank m) m dir 0 od)
    (short : length name < 124) where
  abbrev made : Disk
  made = set_entry m od src_ino name

  od_in_data : (data_start m * 256 ≤ od / 4) × (od % 4 ≡ 0)
  od_in_data =
      let e : od ≡ inode_data m dir (128 * blank.index) =
        blank.here ∙ ap (inode_data m dir) (omega arith) in
      rw e (entry_in_data m dir_ino dir d blank.index (omega (arith, blank.within)))

  src_lies : (src ≡ os_firstinob m * 256 + src_ino * 16) × (src + 16 ≤ data_start m * 256)
  src_lies = inode_lem m src_ino src d.small d.room found

  dir_lies : (dir ≡ os_firstinob m * 256 + dir_ino * 16) × (dir + 16 ≤ data_start m * 256)
  dir_lies = inode_lem m dir_ino dir d.small d.room d.found

  made_low : (x : ℕ) → x < data_start m * 256 → made x ≡ m x
  made_low x h =
      set_entry_other_word m od src_ino name x od_in_data.1 short (omega (arith, od_in_data.0))

  source_stays : inode made src_ino ≡ some src
  unfolding inode
  source_stays =
      let a : made 258 ≡ m 258 = made_low 258 (omega (arith, d.first)) in
      let b : made 259 ≡ m 259 = made_low 259 (omega (arith, d.first)) in rw (a, b) found

  linked_words :
      (x : ℕ) → x ≢ oi_nlink src → (x < od / 4) ⊎ (od / 4 + 32 ≤ x) → add_link made src x ≡ m x
  linked_words x ne away =
      update_ne made (oi_nlink src) x _ (λ e. ne (sym e))
      ∙ set_entry_other_word m od src_ino name x od_in_data.1 short away

  linked-Entered : Entered m (add_link made src) dir od
  linked-Entered = record {
    index = blank.index;
    within = omega (arith, blank.within);
    place = blank.here ∙ ap (inode_data m dir) (omega arith);
    in_inode = λ x lo hi ne.
        linked_words x (omega (arith, src_lies.0, dir_lies.0))
          (omega (arith, dir_lies.1, od_in_data.0));
    in_data = λ x lo away. linked_words x (omega (arith, src_lies.1)) away;
  }

  fields-Linked :
      0 < src_ino
      → IsName name
      → find_direntry m dir name ≡ none
      → Linked m (add_link made src) src_ino src dir od name
  fields-Linked in_use chars absent = record {
    lookup =
        find_direntry-Entered m (add_link made src) dir_ino dir od name d linked-Entered short
          absent
          (has_name_same made (add_link made src) od name od_in_data.1 short (λ x lo hi.
              update_ne made (oi_nlink src) x _ (omega (arith, src_lies.1, od_in_data.0)))
            ∙ has_name-set_entry m od src_ino name od_in_data.1 in_use chars);
    names_source =
        update_ne made (oi_nlink src) (od / 4) _ (omega (arith, src_lies.1, od_in_data.0))
        ∙ set_entry_ino m od src_ino name od_in_data.1;
    links =
        update_self made (oi_nlink src) _
        ∙ ap (λ n. add32 n 1) (made_low (oi_nlink src) (omega (arith, src_lies.1)));
    others = λ x away ne. linked_words x ne away;
  }

-- `ospfs_link` under a new name of at most 123 characters, in a directory of at most ten blocks that has
-- a blank entry: it returns 0; the name is then found, at the first blank entry, which names the source;
-- the source has one link more; and no other word of the disk has changed.
pub ospfs_link_lem :
    (rounds : ℕ) (m : Disk) (src_ino dir_ino src dir od : ℕ) (name : List ℕ)
    → IsShortFile m dir_ino dir
    → inode m src_ino ≡ some src
    → scan (is_blank m) m dir (entries m dir) 0 ≡ some od
    → length name < 124
    → 0 < src_ino
    → IsName name
    → find_direntry m dir name ≡ none
    → (m' : Disk) × (ospfs_link rounds m src_ino dir_ino name ≡ answers m' success)
      × Linked m m' src_ino src dir od name
unfolding ospfs_link create_blank_direntry
ospfs_link_lem rounds m src_ino dir_ino src dir od name d found blank short in_use chars absent =
    let b = blank-First m dir od blank in
    (
      add_link (set_entry m od src_ino name) src,
      rw
          (
            fits,
            d.found,
            absent,
            blank,
            source_stays m src_ino dir_ino src dir od name d found b short,
          )
          refl,
      fields-Linked m src_ino dir_ino src dir od name d found b short in_use chars absent,
    )
  where
    fits : ltb maxnamelen (length name) ≡ false
    fits = ground arith
