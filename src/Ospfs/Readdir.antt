-- ===== src/Ospfs/Readdir.antt =====
-- lab3/ospfsmod.c: `ospfs_dir_readdir`. The callback `filldir` of Linux is an argument: it takes a state to
-- another, and says whether its result is at least 0.
pub mod Listing
mod Tests
use cs111_operating_system.Prelude.{
  ℕ, zero, suc, ◌+◌, ◌-◌, ◌*◌, ◌%◌, ◌^◌, Bool, true, false, Option, none, some, List, [], ◌∷◌,
  if◌then◌else◌, ◌==◌,
}
use cs111_operating_system.Ospfs.Layout.{
  Disk, inode, oi_ftype, direntry_size, maxnamelen, ftype_reg, ftype_dir, ftype_symlink,
}
use cs111_operating_system.Ospfs.Index.{inode_blockno, inode_data}
use cs111_operating_system.Ospfs.Bytes.{load_bytes, str_len}
use cs111_operating_system.Ospfs.Dir.{od_ino, od_name, entries}

-- `DT_REG`, `DT_DIR` and `DT_LNK`.
pub data FileType : Type 0 where
  dt_reg dt_dir dt_lnk : FileType

-- The arguments of a call of `filldir`.
pub record Entry : Type 0 where
  pub name : List ℕ
  pub f_pos : ℕ
  pub ino : ℕ
  pub file_type : FileType

-- How the function ends: `stands` with the new `f_pos` and whether the end is reached (the result is then
-- 1), or an access through NULL.
pub data Listed (S : Type 0) : Type 0 where
  stands : S → (f_pos : ℕ) → (end : Bool) → Listed S
  oops : Listed S
  unfinished : Listed S

-- What a round of the loop does: it goes on, it stops, or it fails.
pub data Turn (S : Type 0) : Type 0 where
  goes_on : S → Turn S
  stops : S → Turn S
  fails : Turn S

unfoldable pub file_type_of : ℕ → Option FileType
file_type_of t =
    if t == ftype_reg
    then some dt_reg
    else if t == ftype_dir
    then some dt_dir
    else if t == ftype_symlink
    then some dt_lnk
    else none

-- The call for the entry at `od`. Its name has at most 123 characters.
unfoldable pub entry_at : Disk → (od f_pos : ℕ) → FileType → Entry
entry_at m od f_pos t = record {
  name = load_bytes m (od_name od) (str_len (maxnamelen + 1) m (od_name od));
  f_pos = f_pos;
  ino = od_ino m od;
  file_type = t;
}

-- Where the entry at a file position begins.
abbrev pub offset_at : (f_pos : ℕ) → ℕ
offset_at f_pos = (f_pos - 2) * direntry_size % 2 ^ 32

-- `.` and `..`, of the directory and of its parent.
abbrev pub dot : (dir_ino : ℕ) → Entry
dot dir_ino = record { name = 46 ∷ []; f_pos = 0; ino = dir_ino; file_type = dt_dir }

abbrev pub dot_dot : (parent_ino : ℕ) → Entry
dot_dot parent_ino = record { name = 46 ∷ 46 ∷ []; f_pos = 1; ino = parent_ino; file_type = dt_dir }

module _ {S : Type 0} (filldir : S → Entry → S × Bool) where
  unfoldable pub fill : S → Entry → Turn S
  fill s e = let (s', fine) = filldir s e in if fine then goes_on s' else stops s'

  unfoldable pub read_entry : Disk → (od f_pos : ℕ) → S → Turn S
  read_entry m od f_pos s = if od_ino m od == 0 then goes_on s else elim (inode m (od_ino m od)) [
    | none ↦ fails
    | some oi ↦ elim (file_type_of (m (oi_ftype oi))) [
      | none ↦ goes_on s
      | some t ↦ fill s (entry_at m od f_pos t)
    ]
  ]

  unfoldable pub readdir_loop : (rounds : ℕ) → Disk → (dir : ℕ) → S → (f_pos : ℕ) → Listed S
  readdir_loop zero m dir s f_pos = unfinished
  readdir_loop (suc f) m dir s f_pos =
      if inode_blockno m dir (offset_at f_pos) == 0
      then stands s f_pos true
      else elim (read_entry m (inode_data m dir (offset_at f_pos)) f_pos s) [
        | goes_on s' ↦ readdir_loop f m dir s' (f_pos + 1)
        | stops s' ↦ stands s' f_pos false
        | fails ↦ oops
      ]

  unfoldable pub from_dot_dot : Disk → (dir parent_ino : ℕ) → S → (f_pos : ℕ) → Listed S
  from_dot_dot m dir parent_ino s f_pos =
      if f_pos == 1
      then elim (fill s (dot_dot parent_ino)) [
        | goes_on s' ↦ readdir_loop (entries m dir) m dir s' 2
        | stops s' ↦ stands s' 1 false
        | fails ↦ oops
      ]
      else readdir_loop (entries m dir) m dir s f_pos

  unfoldable pub ospfs_dir_readdir : Disk → (dir_ino parent_ino : ℕ) → S → (f_pos : ℕ) → Listed S
  ospfs_dir_readdir m dir_ino parent_ino s f_pos = elim (inode m dir_ino) [
    | none ↦ oops
    | some dir ↦
        if f_pos == 0
        then elim (fill s (dot dir_ino)) [
          | goes_on s' ↦ from_dot_dot m dir parent_ino s' 1
          | stops s' ↦ stands s' 0 false
          | fails ↦ oops
        ]
        else from_dot_dot m dir parent_ino s f_pos
  ]
