-- ===== src/Ospfs/Files/ShortFile.antt =====
-- Where the bytes of a file of at most ten blocks lie, and that a write to them keeps the file: for
-- `ospfs_write` of lab3/ospfsmod.c.
use cs111_operating_system.Prelude.{ℕ, ◌+◌, ◌*◌, ◌/◌, ◌<◌, ◌≤◌, ◌≡◌, ◌≢◌, sym, ◌∙◌, arith}
use cs111_operating_system.Ospfs.Layout.{Disk, inode}
use cs111_operating_system.Ospfs.Index.{inode_blockno, inode_data}
use cs111_operating_system.Ospfs.Size.Frame.{data_start}
use cs111_operating_system.Ospfs.Dir.Search.{IsShortFile, inode_lem, entry_address, same_entries}

module _ (m : Disk) (ino oi : ℕ) (d : IsShortFile m ino oi) where
  -- A byte of the file lies in the data blocks.
  pub byte_in_data : (off : ℕ) → off < m oi → data_start m * 1024 ≤ inode_data m oi off
  byte_in_data off h =
      rw (entry_address m ino oi d off h) (omega (arith, d.blocks (off / 1024) (omega arith)))

  pub file_block_there : (off : ℕ) → off < m oi → inode_blockno m oi off ≢ 0
  unfolding inode_blockno
  file_block_there off h z =
      let size = d.size in
      let first = d.first in
      let kind = d.kind in let b = d.blocks (off / 1024) (omega arith) in ground (arith, z)

  -- No two bytes of the file lie at one address.
  pub bytes_apart : (i j : ℕ) → i < m oi → j < m oi → inode_data m oi i ≡ inode_data m oi j → i ≡ j
  bytes_apart i j hi hj e =
      let ai = entry_address m ino oi d i hi in
      let aj = entry_address m ino oi d j hj in
      let together = d.distinct (i / 1024) (j / 1024) (omega arith) (omega arith) (omega arith) in
      omega arith

  module _ (m' : Disk) (low : (x : ℕ) → x < data_start m * 256 → m' x ≡ m x) where
    pub file_low : (x : ℕ) → oi ≤ x → x < oi + 16 → m' x ≡ m x
    file_low x lo hi =
        let (_, room) = inode_lem m ino oi d.small d.room d.found in low x (omega arith)

    pub low-IsShortFile : IsShortFile m' ino oi
    unfolding inode
    low-IsShortFile =
        let first = d.first in
        let w0 : m' 257 ≡ m 257 = low 257 (omega arith) in
        let w1 : m' 258 ≡ m 258 = low 258 (omega arith) in
        let w2 : m' 259 ≡ m 259 = low 259 (omega arith) in
        let s : m' oi ≡ m oi = file_low oi (omega arith) (omega arith) in
        let k : m' (oi + 1) ≡ m (oi + 1) = file_low (oi + 1) (omega arith) (omega arith) in
        record {
          small = rw w0 d.small;
          first = rw w2 d.first;
          room = rw (w0, w1, w2) d.room;
          found = rw (w1, w2) d.found;
          size = rw s d.size;
          kind = rw k d.kind;
          blocks = λ n h.
              let limit = d.size in
              let p : m' (oi + 4 + n) ≡ m (oi + 4 + n) =
                file_low (oi + 4 + n) (omega arith) (omega arith) in
              rw (w0, w1, w2, p) (d.blocks n (omega arith));
          distinct = λ n j hn hj e.
              let limit = d.size in
              let p : m' (oi + 4 + n) ≡ m (oi + 4 + n) =
                file_low (oi + 4 + n) (omega arith) (omega arith) in
              let q : m' (oi + 4 + j) ≡ m (oi + 4 + j) =
                file_low (oi + 4 + j) (omega arith) (omega arith) in
              d.distinct n j (omega arith) (omega arith) (sym p ∙ e ∙ q);
        }

    pub low_data : (off : ℕ) → off < m oi → inode_data m' oi off ≡ inode_data m oi off
    low_data off h = same_entries m ino oi d m' (λ x lo hi ne. file_low x lo (omega arith)) off h
