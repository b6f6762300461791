-- ===== src/Ospfs/Files/Write.antt =====
-- `ospfs_write` of lab3/ospfsmod.c puts the bytes of the process into the file, in files of at most ten
-- blocks.
use cs111_operating_system.Prelude.{
  ℕ, zero, suc, ◌+◌, ◌-◌, ◌*◌, ◌/◌, ◌%◌, ◌^◌, ◌<◌, ◌≤◌, ◌≡◌, ◌≢◌, ◌⊎◌, inl, inr, refl, ap, ◌∙◌,
  arith, Bool-cases, dec_lt, Bool, true, false, List, [], ◌∷◌, length, if◌then◌else◌, ==-eq_false,
  ltb,
}
use cs111_operating_system.Ospfs.Layout.{Disk, oi_size}
use cs111_operating_system.Ospfs.Index.{inode_data}
use cs111_operating_system.Ospfs.Size.{ok, Looped}
use cs111_operating_system.Ospfs.Size.Frame.{data_start}
use cs111_operating_system.Ospfs.Bytes.{
  load, store, store_bytes, load-store_self, load-store_bytes_outside, store_bytes_other_word,
}
use cs111_operating_system.Ospfs.Dir.Search.{IsShortFile}
use cs111_operating_system.Ospfs.Files.{
  get, UserSpace, Moved, amount, piece, block_at, address_at, write_loop, make_room, ospfs_write,
}
use cs111_operating_system.Ospfs.Files.Read.{piece_lem, inode_data_block}
use cs111_operating_system.Ospfs.Files.ShortFile.{
  byte_in_data, file_block_there, bytes_apart, file_low, low-IsShortFile, low_data,
}

load-store_bytes_inside :
    (bs : List ℕ) (m : Disk) (a i : ℕ)
    → i < length bs
    → load (store_bytes m a bs) (a + i) ≡ get bs i % 256
unfolding store_bytes get
load-store_bytes_inside [] m a i h = absurd (omega arith)
load-store_bytes_inside (b ∷ bs) m a zero h =
    let e : a + 0 ≡ a = omega arith in
    rw e (load-store_bytes_outside bs (store m a b) (a + 1) a (omega arith) ∙ load-store_self m a b)
load-store_bytes_inside (b ∷ bs) m a (suc i) h =
    let e : a + suc i ≡ a + 1 + i = omega arith in
    rw e (load-store_bytes_inside bs (store m a b) (a + 1) i (omega arith))

-- A run of `ospfs_write` has brought `n` bytes from `buffer` into the file, from `f_pos` on.
pub record Writes {User : Type 0} (us : UserSpace User) (m : Disk) (oi : ℕ) (u : User)
    (buffer n f_pos total : ℕ) (r : Moved Disk) : Type 0 where
  pub position : r.f_pos ≡ f_pos + n
  pub result : r.retval ≡ amount total
  pub bytes : (i : ℕ) → i < n → load r.state (inode_data m oi (f_pos + i)) ≡ us.byte u (buffer + i)
  pub others :
      (x : ℕ) → ((i : ℕ) → i < n → x ≢ inode_data m oi (f_pos + i)) → load r.state x ≡ load m x
  pub low : (x : ℕ) → x < data_start m * 256 → r.state x ≡ m x

module _ {User : Type 0} (us : UserSpace User) (ino oi : ℕ) (u : User) where
  -- What one call of `copy_from_user` brings, to the disk `m1`.
  module _ (m : Disk) (d : IsShortFile m ino oi) (bs : List ℕ) (buffer n k f_pos total : ℕ)
      (le : k ≤ n) (fits : f_pos % 1024 + k ≤ 1024) (inside : f_pos + n ≤ m oi) (some_byte : 0 < k)
      (len : length bs ≡ k) (copied : (i : ℕ) → i < k → get bs i ≡ us.byte u (buffer + i)) where
    abbrev stored : Disk
    stored = store_bytes m (inode_data m oi f_pos) bs

    stored_low : (x : ℕ) → x < data_start m * 256 → stored x ≡ m x
    stored_low x h =
        let lo = byte_in_data m ino oi d f_pos (omega arith) in
        store_bytes_other_word bs m (inode_data m oi f_pos) x (omega arith)

    stored_data : (off : ℕ) → off < m oi → inode_data stored oi off ≡ inode_data m oi off
    stored_data = low_data m ino oi d stored stored_low

    stored_start : data_start stored ≡ data_start m
    stored_start =
        let first = d.first in
        let w1 : stored 258 ≡ m 258 = stored_low 258 (omega arith) in
        let w2 : stored 259 ≡ m 259 = stored_low 259 (omega arith) in rw (w1, w2) refl

    Writes-piece :
        (r : Moved Disk)
        → Writes us stored oi u (buffer + k) (n - k) (f_pos + k) total r
        → Writes us m oi u buffer n f_pos total r
    Writes-piece r rest = record {
      position = rest.position ∙ omega arith;
      result = rest.result;
      bytes = λ i h. elim (dec_lt i k) [
        | no past ↦
            let e1 : buffer + k + (i - k) ≡ buffer + i = omega arith in
            let e2 : f_pos + k + (i - k) ≡ f_pos + i = omega arith in
            let there : inode_data stored oi (f_pos + i) ≡ inode_data m oi (f_pos + i) =
              stored_data (f_pos + i) (omega arith) in
            rw (e1, e2, there) at (rest.bytes (i - k) (omega arith))
        | yes here ↦
            let at : inode_data m oi (f_pos + i) ≡ inode_data m oi f_pos + i =
              inode_data_block m oi f_pos i (omega arith) (omega arith) in
            let small = us.byte_small u (buffer + i) in
            let value = copied i here in
            rest.others (inode_data m oi (f_pos + i)) (λ j hj e.
              let there = stored_data (f_pos + k + j) (omega arith) in
              let same =
                bytes_apart m ino oi d (f_pos + i) (f_pos + k + j) (omega arith) (omega arith)
                  (e ∙ there) in
              omega arith)
            ∙ ap (load stored) at
            ∙ load-store_bytes_inside bs m (inode_data m oi f_pos) i (omega arith)
            ∙ omega arith
      ];
      others = λ x away.
          rest.others x (λ j hj e.
            let there = stored_data (f_pos + k + j) (omega arith) in
            let add : f_pos + k + j ≡ f_pos + (k + j) = omega arith in
            away (k + j) (omega arith) (e ∙ there ∙ ap (inode_data m oi) add))
          ∙ load-store_bytes_outside bs m (inode_data m oi f_pos) x (elsewhere x away);
      low = λ x h. let start = stored_start in rest.low x (rw start h) ∙ stored_low x h;
    }
      where
        elsewhere :
            (x : ℕ)
            → ((i : ℕ) → i < n → x ≢ inode_data m oi (f_pos + i))
            → (x < inode_data m oi f_pos) ⊎ (inode_data m oi f_pos + length bs ≤ x)
        elsewhere x away = elim (dec_lt x (inode_data m oi f_pos)) [
          | yes before ↦ inl before
          | no from ↦ elim (dec_lt x (inode_data m oi f_pos + k)) [
            | no behind ↦ inr (omega arith)
            | yes amid ↦
                let i : ℕ = x - inode_data m oi f_pos in
                let at : inode_data m oi (f_pos + i) ≡ inode_data m oi f_pos + i =
                  inode_data_block m oi f_pos i (omega arith) (omega arith) in
                absurd (away i (omega arith) (omega arith))
          ]
        ]

  block_there :
      (m : Disk)
      → IsShortFile m ino oi
      → (f_pos : ℕ) → f_pos < m oi
      → (block_at m oi f_pos ≢ 0) × (address_at m oi f_pos ≡ inode_data m oi f_pos)
  unfolding inode_data
  block_there m d f_pos h =
      let size = d.size in
      let e : f_pos % 2 ^ 32 ≡ f_pos = omega arith in
      rw e (file_block_there m ino oi d f_pos h, refl)

  write_loop_over :
      (m : Disk) (f count buffer done f_pos : ℕ)
      → done ≤ count
      → ltb done count ≡ false
      → Writes us m oi u buffer
          (count - done)
          f_pos
          count
          (write_loop us (suc f) m oi count u buffer done f_pos)
  unfolding write_loop
  write_loop_over m f count buffer done f_pos le over = rw over (record {
    position = ground arith;
    result = ap amount (ground arith);
    bytes = λ i h. absurd (ground arith);
    others = λ x away. refl;
    low = λ x h. refl;
  })

  write_loop-Writes :
      (g : ℕ) (m : Disk) (count buffer done f_pos : ℕ)
      → IsShortFile m ino oi
      → done ≤ count
      → f_pos + (count - done) ≤ m oi
      → (count ≡ done) ⊎ (f_pos % 1024 + (count - done) ≤ 1024 * g)
      → ((i : ℕ) → i < count - done → us.accessible (buffer + i) ≡ true)
      → Writes us m oi u buffer
          (count - done)
          f_pos
          count
          (write_loop us (suc g) m oi count u buffer done f_pos)
  unfolding write_loop
  write_loop-Writes zero m count buffer done f_pos d le inside enough access =
      write_loop_over m 0 count buffer done f_pos le (ground arith)
  write_loop-Writes (suc g) m count buffer done f_pos d le inside enough access =
      elim (Bool-cases (ltb done count)) [
        | inr over ↦ write_loop_over m (suc g) count buffer done f_pos le over
        | inl more ↦
            let k = piece f_pos (count - done) in
            let (pos, small, fits, ends) = piece_lem f_pos (count - done) (ground arith) in
            let (there, at) = block_there m d f_pos (ground arith) in
            let bs = (us.copy_from_user u buffer k).0 in
            let none_left : (us.copy_from_user u buffer k).1 ≡ 0 =
              us.from_leaves u buffer k (λ i h. access i (omega arith)) in
            let len = us.from_length u buffer k in
            let copied : (i : ℕ) → i < k → get bs i ≡ us.byte u (buffer + i) =
              λ i h. us.from_copies u buffer k i none_left h in
            let m1 = store_bytes m (inode_data m oi f_pos) bs in
            let low1 =
              stored_low m d bs buffer (count - done) k f_pos count small fits (omega arith) pos len
                copied in
            let size : m1 oi ≡ m oi = file_low m ino oi d m1 low1 oi (omega arith) (omega arith) in
            let rest =
              write_loop-Writes g m1 count (buffer + k) (done + k) (f_pos + k)
                (low-IsShortFile m ino oi d m1 low1) (omega arith) (omega arith) (omega arith)
                (λ i h.
                  let e : buffer + k + i ≡ buffer + (k + i) = omega arith in
                  rw e (access (k + i) (omega arith))) in
            let less : count - done - k ≡ count - (done + k) = omega arith in
            rw (more, ==-eq_false (block_at m oi f_pos) 0 there, none_left, at)
              (Writes-piece m d bs buffer (count - done) k f_pos count small fits (omega arith) pos
                len copied (write_loop us (suc g) m1 oi count u (buffer + k) (done + k) (f_pos + k))
                (rw less rest))
      ]

-- `ospfs_write` in a file of at most ten blocks, where the change of size succeeds and the process may
-- access its buffer: it returns `count` and moves the position on by as many, from the end of the file
-- with `O_APPEND`; the file has exactly the bytes of the buffer there; no other byte of the disk after the
-- change of size has changed.
pub ospfs_write_lem :
    {User : Type 0} (us : UserSpace User) (append : Bool) (rounds : ℕ) (m m1 : Disk) (ino oi : ℕ)
    (u : User) (buffer count f_pos pos : ℕ)
    → pos ≡ (if append then m (oi_size oi) else f_pos)
    → make_room rounds m oi (count + pos) ≡ Looped.returned m1 ok
    → IsShortFile m1 ino oi
    → pos + count ≤ m1 oi
    → ((i : ℕ) → i < count → us.accessible (buffer + i) ≡ true)
    → Writes us m1 oi u buffer count pos count
        (ospfs_write us append rounds m oi u buffer count f_pos)
unfolding ospfs_write
ospfs_write_lem us append rounds m m1 ino oi u buffer count f_pos pos at room d inside access =
    let all : count - 0 ≡ count = omega arith in
    rw (← at, ospfs_write, room, ← at)
      (rw all at (
        write_loop-Writes us ino oi u (count / 1024 + 2) m1 count buffer 0 pos d (omega arith)
          (omega arith) (omega arith) (λ i h. access i (omega arith))))
