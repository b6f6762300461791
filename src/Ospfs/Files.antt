-- ===== src/Ospfs/Files.antt =====
-- lab3/ospfsmod.c: `ospfs_read` and `ospfs_write`. The memory of the process and
-- the calls of Linux that copy from and to it are the record `UserSpace`.
pub mod Read
pub mod ShortFile
pub mod Write
pub mod RoundTrip
mod Tests
use cs111_operating_system.Prelude.{
  ℕ, zero, suc, ◌+◌, ◌-◌, ◌*◌, ◌/◌, ◌%◌, ◌^◌, ◌<◌, ◌≤◌, ◌≡◌, ◌⊎◌, Bool, true, false, Option, none,
  some, List, [], ◌∷◌, length, if◌then◌else◌, ◌==◌, ltb, update,
}
use cs111_operating_system.Ospfs.Layout.{
  Disk, block, blksize, oi_size, oi_ftype, oi_mode, ftype_dir, inode,
}
use cs111_operating_system.Ospfs.Index.{inode_blockno}
use cs111_operating_system.Ospfs.Size.{Status, ok, Looped, change_size}
use cs111_operating_system.Ospfs.Bytes.{load_bytes, store_bytes}

-- The entry at an index; 0 behind the end.
unfoldable pub get : List ℕ → ℕ → ℕ
get [] i = 0
get (b ∷ bs) zero = b
get (b ∷ bs) (suc i) = get bs i

-- The memory of a process, and the two calls that copy: a block of the kernel's memory to the address
-- `to`, and `n` bytes from `from` on into the kernel's memory. Both return the number of bytes that they
-- could not copy, which is 0 where the process may access each byte. Memory holds bytes.
pub record UserSpace (User : Type 0) : Type 0 where
  pub byte : User → ℕ → ℕ
  pub accessible : ℕ → Bool
  pub copy_to_user : User → (to : ℕ) → List ℕ → User × ℕ
  pub copy_from_user : User → (from n : ℕ) → List ℕ × ℕ
  pub to_leaves :
      (u : User) (to : ℕ) (bs : List ℕ)
      → ((i : ℕ) → i < length bs → accessible (to + i) ≡ true)
      → (copy_to_user u to bs).1 ≡ 0
  pub to_copies :
      (u : User) (to : ℕ) (bs : List ℕ) (i : ℕ)
      → (copy_to_user u to bs).1 ≡ 0
      → i < length bs
      → byte (copy_to_user u to bs).0 (to + i) ≡ get bs i % 256
  pub to_others :
      (u : User) (to : ℕ) (bs : List ℕ) (x : ℕ)
      → (x < to) ⊎ (to + length bs ≤ x)
      → byte (copy_to_user u to bs).0 x ≡ byte u x
  pub from_leaves :
      (u : User) (from n : ℕ)
      → ((i : ℕ) → i < n → accessible (from + i) ≡ true)
      → (copy_from_user u from n).1 ≡ 0
  pub from_length : (u : User) (from n : ℕ) → length (copy_from_user u from n).0 ≡ n
  pub from_copies :
      (u : User) (from n i : ℕ)
      → (copy_from_user u from n).1 ≡ 0
      → i < n
      → get (copy_from_user u from n).0 i ≡ byte u (from + i)
  pub byte_small : (u : User) (x : ℕ) → byte u x < 256

-- What the functions return: a number of bytes, the result of `change_size`, or an error number.
pub data Retval : Type 0 where
  amount : ℕ → Retval
  resized : Status → Retval
  eio efault unfinished : Retval

-- How a function ends, with the new file position; `S` is what it may change.
pub record Moved (S : Type 0) : Type 0 where
  pub state : S
  pub f_pos : ℕ
  pub retval : Retval

-- The number of bytes that a round moves: the rest of the block, or `left`.
pub piece : (f_pos left : ℕ) → ℕ
piece f_pos left =
    let offset : ℕ = f_pos % blksize in
    if ltb (blksize - offset) left then blksize - offset else left

-- The block number and the address of the byte at a file position; `ospfs_inode_blockno` takes 32 bits.
abbrev pub block_at : Disk → (oi f_pos : ℕ) → ℕ
block_at m oi f_pos = inode_blockno m oi (f_pos % 2 ^ 32)

abbrev pub address_at : Disk → (oi f_pos : ℕ) → ℕ
address_at m oi f_pos = 4 * block (block_at m oi f_pos) + f_pos % blksize

-- Rounds for a loop that moves `count` bytes: the first block, and those behind it.
abbrev pub block_rounds : ℕ → ℕ
block_rounds count = suc (count / blksize + 2)

-- The file grows to the end of what is written.
pub make_room : (rounds : ℕ) → Disk → (oi end : ℕ) → Looped
make_room rounds m oi end =
    if ltb (m (oi_size oi)) end
    then change_size rounds m oi (end % 2 ^ 32)
    else Looped.returned m ok

module _ {User : Type 0} (us : UserSpace User) where
  pub read_loop : (rounds : ℕ) → Disk → (oi count : ℕ) → User → (buffer done f_pos : ℕ) → Moved User
  read_loop zero m oi count u buffer done f_pos = record {
    state = u;
    f_pos = f_pos;
    retval = unfinished;
  }
  read_loop (suc f) m oi count u buffer done f_pos =
      let n = piece f_pos (count - done) in
      let (u', left) = us.copy_to_user u buffer (load_bytes m (address_at m oi f_pos) n) in
      let rest = read_loop f m oi count u' (buffer + n) (done + n) (f_pos + n) in
      if ltb done count
      then if block_at m oi f_pos == 0
        then record { state = u; f_pos = f_pos; retval = eio }
        else if left == 0
        then rest
        else record { state = u'; f_pos = f_pos; retval = efault }
      else record { state = u; f_pos = f_pos; retval = amount done }

  -- The inode at `oi` is that of the open file; `f_pos` is not negative.
  pub ospfs_read : Disk → (oi : ℕ) → User → (buffer count f_pos : ℕ) → Moved User
  ospfs_read m oi u buffer count f_pos =
      let size : ℕ = m (oi_size oi) in
      let count' : ℕ =
        if ltb size (count + f_pos) then (size + 2 ^ 64 - f_pos) % 2 ^ 32 else count in
      read_loop (block_rounds count') m oi count' u buffer 0 f_pos

  pub write_loop :
      (rounds : ℕ) → Disk → (oi count : ℕ) → User → (buffer done f_pos : ℕ) → Moved Disk
  write_loop zero m oi count u buffer done f_pos = record {
    state = m;
    f_pos = f_pos;
    retval = unfinished;
  }
  write_loop (suc f) m oi count u buffer done f_pos =
      let n = piece f_pos (count - done) in
      let (bytes, left) = us.copy_from_user u buffer n in
      let m' = store_bytes m (address_at m oi f_pos) bytes in
      let rest = write_loop f m' oi count u (buffer + n) (done + n) (f_pos + n) in
      if ltb done count
      then if block_at m oi f_pos == 0
        then record { state = m; f_pos = f_pos; retval = eio }
        else if left == 0
        then rest
        else record { state = m'; f_pos = f_pos; retval = efault }
      else record { state = m; f_pos = f_pos; retval = amount done }

  -- `append` is the flag `O_APPEND` of the file.
  pub ospfs_write :
      (append : Bool)
      → (rounds : ℕ) → Disk
      → (oi : ℕ) → User
      → (buffer count f_pos : ℕ) → Moved Disk
  ospfs_write append rounds m oi u buffer count f_pos =
      let pos : ℕ = if append then m (oi_size oi) else f_pos in
      elim (make_room rounds m oi (count + pos)) [
        | Looped.returned m' s ↦ elim s [
          | ok ↦ write_loop (block_rounds count) m' oi count u buffer 0 pos
          | other ↦ record { state = m'; f_pos = pos; retval = resized other }
        ]
        | Looped.done m' ↦ write_loop (block_rounds count) m' oi count u buffer 0 pos
        | Looped.unfinished ↦ record { state = m; f_pos = pos; retval = unfinished }
      ]
