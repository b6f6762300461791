-- ===== src/Ospfs/Dir.antt =====
-- lab3/ospfsmod.c: directories. `dir` and `oi` are the word addresses of inodes, `od` the byte address of
-- a directory entry: the number of its inode in the first word, and from byte 4 on its name. A name is
-- the list of its characters, `d_name.name` and `d_name.len` in one.
pub mod Entries
pub mod Search
pub mod Link
pub mod Free
pub mod Create
pub mod Unlink
mod Tests
use cs111_operating_system.Prelude.{
  ℕ, zero, suc, ◌+◌, ◌-◌, ◌*◌, ◌/◌, ◌%◌, Bool, true, false, ◌&&◌, not, Option, none, some, List, [],
  ◌∷◌, length, update, if◌then◌else◌, ◌==◌, ltb, leb, add32, sub32,
}
use cs111_operating_system.Ospfs.Layout.{
  Disk, inode, os_ninodes, oi_size, oi_ftype, oi_nlink, oi_mode, direntry_size, maxnamelen,
  maxsymlinklen, ftype_reg, ftype_symlink,
}
use cs111_operating_system.Ospfs.Index.{inode_data}
use cs111_operating_system.Ospfs.Size.{Status, ok, Looped, change_size}
use cs111_operating_system.Ospfs.Bytes.{load, store, store_bytes, str_len, same_bytes}

-- What the functions return: the result of `change_size`, or an error number.
pub data Answer : Type 0 where
  status : Status → Answer
  enametoolong eexist enoent enomem io_error no_space : Answer

-- How a function ends. `oops` is an access through NULL; `unfinished`, that the rounds given for
-- `change_size` were too few.
pub data Ended : Type 0 where
  answers : Disk → Answer → Ended
  oops : Ended
  unfinished : Ended

abbrev pub success : Answer
success = status ok

abbrev pub od_ino : Disk → (od : ℕ) → ℕ
od_ino m od = m (od / 4)

abbrev pub od_name : ℕ → ℕ
od_name od = od + 4

-- The test for a name. `strlen` stops one character behind the length that it is compared with, which
-- does not change the answer.
unfoldable pub has_name : Disk → (od : ℕ) → List ℕ → Bool
has_name m od name =
    not (od_ino m od == 0)
    && (str_len (length name + 1) m (od_name od) == length name && same_bytes m (od_name od) name)

unfoldable pub is_blank : Disk → (od : ℕ) → Bool
is_blank m od = od_ino m od == 0

-- The `for` over the entries of a directory, from byte `off` on: the first that passes the test.
unfoldable pub scan : (test : ℕ → Bool) → Disk → (dir rounds off : ℕ) → Option ℕ
scan test m dir zero off = none
scan test m dir (suc f) off =
    let od = inode_data m dir off in
    let rest = scan test m dir f (off + direntry_size) in
    if ltb off (m (oi_size dir)) then if test od then some od else rest else none

-- One round for each entry, and one for the last test.
abbrev pub entries : Disk → (dir : ℕ) → ℕ
entries m dir = m (oi_size dir) / direntry_size + 2

unfoldable pub find_direntry : Disk → (dir : ℕ) → List ℕ → Option ℕ
find_direntry m dir name = scan (λ od. has_name m od name) m dir (entries m dir) 0

-- A blank entry, or an error pointer.
pub data Blank : Type 0 where
  entry : Disk → (od : ℕ) → Blank
  error : Disk → Status → Blank
  unfinished : Blank

-- A directory without a blank entry grows by `OSPFS_BLKBITSIZE` bytes, which is 8192.
pub create_blank_direntry : (rounds : ℕ) → Disk → (dir : ℕ) → Blank
create_blank_direntry rounds m dir = elim (scan (is_blank m) m dir (entries m dir) 0) [
  | some od ↦ entry m od
  | none ↦
      let f_pos : ℕ = add32 direntry_size (m (oi_size dir)) in
      elim (change_size rounds m dir (add32 (m (oi_size dir)) 8192)) [
        | Looped.returned m' s ↦ elim s [
          | ok ↦ entry m' (inode_data m' dir f_pos)
          | other ↦ error m' other
        ]
        | Looped.done m' ↦ entry m' (inode_data m' dir f_pos)
        | Looped.unfinished ↦ Blank.unfinished
      ]
]

-- `od_ino`, the `memcpy` of the name, and its null character.
pub set_entry : Disk → (od ino : ℕ) → List ℕ → Disk
set_entry m od ino name =
    store (store_bytes (update m (od / 4) ino) (od_name od) name) (od_name od + length name) 0

abbrev pub add_link : Disk → (oi : ℕ) → Disk
add_link m oi = update m (oi_nlink oi) (add32 (m (oi_nlink oi)) 1)

-- The number of the source inode and of the directory's, and the new name.
pub ospfs_link : (rounds : ℕ) → Disk → (src_ino dir_ino : ℕ) → List ℕ → Ended
ospfs_link rounds m src_ino dir_ino name =
    if ltb maxnamelen (length name) then answers m enametoolong else elim (inode m dir_ino) [
      | none ↦ oops
      | some dir ↦ elim (find_direntry m dir name) [
        | some od ↦ answers m eexist
        | none ↦ elim (create_blank_direntry rounds m dir) [
          | Blank.unfinished ↦ Ended.unfinished
          | error m' s ↦ answers m' (status s)
          | entry m1 od ↦
              let m2 = set_entry m1 od src_ino name in
              elim (inode m2 src_ino) [ none ↦ oops | some src ↦ answers (add_link m2 src) success ]
        ]
      ]
    ]

-- The loop of `find_free_inode` from inode `i` on.
unfoldable pub free_inode_from : Disk → (rounds i : ℕ) → ℕ
free_inode_from m zero i = 0
free_inode_from m (suc f) i =
    let rest = free_inode_from m f (i + 1) in
    elim (inode m i) [ none ↦ 0 | some oi ↦ if m (oi_nlink oi) == 0 then i else rest ]

unfoldable pub find_free_inode : Disk → ℕ
find_free_inode m = free_inode_from m (os_ninodes m) 2

-- The end of `ospfs_create` and `ospfs_symlink`: a blank entry gets the inode and the name, and Linux
-- gets an inode, if it has room for it.
pub enter : (room : Bool) → (rounds : ℕ) → Disk → (dir ino : ℕ) → List ℕ → Ended
enter room rounds m dir ino name = elim (create_blank_direntry rounds m dir) [
  | Blank.unfinished ↦ Ended.unfinished
  | error m' s ↦ answers m' (status s)
  | entry m1 od ↦ answers (set_entry m1 od ino name) (if room then success else enomem)
]

pub new_file : Disk → (oi mode : ℕ) → Disk
new_file m oi mode =
    update (update (update (update m (oi_size oi) 0) (oi_ftype oi) ftype_reg) (oi_nlink oi) 1)
      (oi_mode oi) mode

pub ospfs_create : (room : Bool) → (rounds : ℕ) → Disk → (dir_ino : ℕ) → List ℕ → (mode : ℕ) → Ended
ospfs_create room rounds m dir_ino name mode = elim (inode m dir_ino) [
  | none ↦ answers m io_error
  | some dir ↦ elim (find_direntry m dir name) [
    | some od ↦ answers m eexist
    | none ↦
        let ino = find_free_inode m in
        if ino == 0 then answers m no_space else elim (inode m ino) [
          | none ↦ answers m io_error
          | some oi ↦ enter room rounds (new_file m oi mode) dir ino name
        ]
  ]
]

-- The destination stands in the inode itself, from byte 12 on.
abbrev pub oi_symlink : ℕ → ℕ
oi_symlink oi = 4 * oi + 12

pub new_symlink : Disk → (oi : ℕ) → List ℕ → Disk
new_symlink m oi symname =
    store_bytes
      (update (update (update m (oi_size oi) (length symname)) (oi_nlink oi) 1) (oi_ftype oi)
        ftype_symlink)
      (oi_symlink oi) symname

pub ospfs_symlink :
    (room : Bool) → (rounds : ℕ) → Disk → (dir_ino : ℕ) → (name symname : List ℕ) → Ended
ospfs_symlink room rounds m dir_ino name symname = elim (inode m dir_ino) [
  | none ↦ answers m io_error
  | some dir ↦
      if ltb maxnamelen (length name)
      then answers m enametoolong
      else if ltb maxsymlinklen (length symname)
      then answers m enametoolong
      else elim (find_direntry m dir name) [
        | some od ↦ answers m eexist
        | none ↦
            let ino = find_free_inode m in
            if ino == 0 then answers m no_space else elim (inode m ino) [
              | none ↦ oops
              | some oi ↦ enter room rounds (new_symlink m oi symname) dir ino name
            ]
      ]
]

-- The `for` of `ospfs_unlink`: where it stops, and the last entry that it looked at.
pub unlink_scan : Disk → (dir : ℕ) → List ℕ → (rounds off od : ℕ) → ℕ × ℕ
unlink_scan m dir name zero off od = (off, od)
unlink_scan m dir name (suc f) off od =
    let here = inode_data m dir off in
    let rest = unlink_scan m dir name f (off + direntry_size) here in
    if ltb off (m (oi_size dir))
    then if has_name m here name then (off, here) else rest
    else (off, od)

-- `change_size(oi, 0)`, whose result is not looked at.
pub drop_contents : (rounds : ℕ) → Disk → (oi : ℕ) → Ended
drop_contents rounds m oi = elim (change_size rounds m oi 0) [
  | Looped.returned m' s ↦ answers m' success
  | Looped.done m' ↦ answers m' success
  | Looped.unfinished ↦ Ended.unfinished
]

abbrev pub drop_link : Disk → (oi : ℕ) → Disk
drop_link m oi = update m (oi_nlink oi) (sub32 (m (oi_nlink oi)) 1)

-- The numbers of the file's inode and of its directory's, and the name of the entry.
pub ospfs_unlink : (rounds : ℕ) → Disk → (ino dir_ino : ℕ) → List ℕ → Ended
ospfs_unlink rounds m ino dir_ino name = elim (inode m dir_ino) [
  | none ↦ oops
  | some dir ↦
      let (off, od) = unlink_scan m dir name (entries m dir) 0 0 in
      if off == m (oi_size dir) then answers m enoent else elim (inode m ino) [
        | none ↦ oops
        | some oi ↦
            let m1 = update m (od / 4) 0 in
            let m2 = drop_link m1 oi in
            if not (m2 (oi_ftype oi) == ftype_symlink) && m2 (oi_nlink oi) == 0
            then drop_contents rounds m2 oi
            else answers m2 success
      ]
]
