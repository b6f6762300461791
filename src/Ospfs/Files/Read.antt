-- ===== src/Ospfs/Files/Read.antt =====
-- `ospfs_read` of lab3/ospfsmod.c gives the process the bytes of the file.
use cs111_operating_system.Prelude.{
  ℕ, zero, suc, ◌+◌, ◌-◌, ◌*◌, ◌/◌, ◌%◌, ◌^◌, ◌<◌, ◌≤◌, ◌≡◌, ◌≢◌, ◌⊎◌, inl, inr, refl, sym, ap, ◌∙◌,
  arith, Bool-cases, dec_lt, true, false, length, if◌then◌else◌, ==-eq_false, ltb,
}
use cs111_operating_system.Ospfs.Layout.{Disk}
use cs111_operating_system.Ospfs.Index.{inode_blockno, inode_data}
use cs111_operating_system.Ospfs.Bytes.{load, load_bytes, load_small}
use cs111_operating_system.Ospfs.Files.{
  get, UserSpace, Moved, amount, piece, block_at, address_at, read_loop, ospfs_read, eio,
}

pub piece_lem :
    (f_pos left : ℕ)
    → 0 < left
    → (0 < piece f_pos left)
      × (piece f_pos left ≤ left)
      × (f_pos % 1024 + piece f_pos left ≤ 1024)
      × ((piece f_pos left ≡ left) ⊎ ((f_pos + piece f_pos left) % 1024 ≡ 0))
unfolding piece
piece_lem f_pos left h = elim (dec_lt (1024 - f_pos % 1024) left) [
  | yes part ↦ (ground arith, ground arith, ground arith, inr (ground arith))
  | no whole ↦ (ground arith, ground arith, ground arith, inl (ground arith))
]

-- The bytes of a block have addresses that follow each other.
pub inode_data_block :
    (m : Disk) (oi f_pos i : ℕ)
    → f_pos % 1024 + i < 1024
    → f_pos + i < m oi
    → inode_data m oi (f_pos + i) ≡ inode_data m oi f_pos + i
unfolding inode_data inode_blockno
inode_data_block m oi f_pos i h inside =
    let same : (f_pos + i) / 1024 ≡ f_pos / 1024 = omega arith in
    let rest : (f_pos + i) % 1024 ≡ f_pos % 1024 + i = omega arith in ground (arith, same, rest)

pub length-load_bytes : (m : Disk) (a n : ℕ) → length (load_bytes m a n) ≡ n
unfolding load_bytes
length-load_bytes m a zero = refl
length-load_bytes m a (suc n) = ap suc (length-load_bytes m (a + 1) n)

get-load_bytes : (m : Disk) (n a i : ℕ) → i < n → get (load_bytes m a n) i ≡ load m (a + i)
unfolding get load_bytes
get-load_bytes m zero a i h = absurd (omega arith)
get-load_bytes m (suc n) a zero h = ap (load m) (omega arith)
get-load_bytes m (suc n) a (suc i) h =
    get-load_bytes m n (a + 1) i (omega arith) ∙ ap (load m) (omega arith)

-- A run of `ospfs_read` has brought `n` bytes of the file from `f_pos` on to `buffer`.
pub record Reads {User : Type 0} (us : UserSpace User) (m : Disk) (oi : ℕ) (u : User)
    (buffer n f_pos total : ℕ) (r : Moved User) : Type 0 where
  pub position : r.f_pos ≡ f_pos + n
  pub result : r.retval ≡ amount total
  pub bytes : (i : ℕ) → i < n → us.byte r.state (buffer + i) ≡ load m (inode_data m oi (f_pos + i))
  pub others : (x : ℕ) → (x < buffer) ⊎ (buffer + n ≤ x) → us.byte r.state x ≡ us.byte u x

module _ {User : Type 0} (us : UserSpace User) (m : Disk) (oi : ℕ) (words : m oi < 2 ^ 32)
    (blocks : (off : ℕ) → off < m oi → inode_blockno m oi off ≢ 0) where
  -- What one call of `copy_to_user` brings, at `a`.
  Reads-piece :
      (u : User) (buffer a n k f_pos total : ℕ) (r : Moved User)
      → k ≤ n
      → a ≡ inode_data m oi f_pos
      → f_pos % 1024 + k ≤ 1024
      → f_pos + k ≤ m oi
      → (us.copy_to_user u buffer (load_bytes m a k)).1 ≡ 0
      → Reads us m oi
          (us.copy_to_user u buffer (load_bytes m a k)).0
          (buffer + k)
          (n - k)
          (f_pos + k)
          total
          r
      → Reads us m oi u buffer n f_pos total r
  Reads-piece u buffer a n k f_pos total r le at fits inside all rest = record {
    position = rest.position ∙ omega arith;
    result = rest.result;
    bytes = λ i h. elim (dec_lt i k) [
      | no past ↦
          let e1 : buffer + k + (i - k) ≡ buffer + i = omega arith in
          let e2 : f_pos + k + (i - k) ≡ f_pos + i = omega arith in
          rw (e1, e2) at (rest.bytes (i - k) (omega arith))
      | yes here ↦
          rest.others (buffer + i) (omega arith)
          ∙ us.to_copies u buffer (load_bytes m a k) i all (rw (length-load_bytes m a k) here)
          ∙ ap (λ b. b % 256) (get-load_bytes m k a i here)
          ∙ (let small = load_small m (a + i) in omega arith)
          ∙ ap (λ x. load m (x + i)) at
          ∙ ap (load m) (sym (inode_data_block m oi f_pos i (omega arith) (omega arith)))
    ];
    others = λ x away.
        rest.others x (omega arith)
        ∙ us.to_others u buffer (load_bytes m a k) x (rw (length-load_bytes m a k) (omega arith));
  }

  address_lem : (f_pos : ℕ) → f_pos < m oi → address_at m oi f_pos ≡ inode_data m oi f_pos
  unfolding inode_data
  address_lem f_pos h = let e : f_pos % 2 ^ 32 ≡ f_pos = omega arith in rw e refl

  block_at_lem : (f_pos : ℕ) → f_pos < m oi → block_at m oi f_pos ≢ 0
  block_at_lem f_pos h = let e : f_pos % 2 ^ 32 ≡ f_pos = omega arith in rw e (blocks f_pos h)

  read_loop_over :
      (f count : ℕ) (u : User) (buffer done f_pos : ℕ)
      → done ≤ count
      → ltb done count ≡ false
      → Reads us m oi u buffer
          (count - done)
          f_pos
          count
          (read_loop us (suc f) m oi count u buffer done f_pos)
  unfolding read_loop
  read_loop_over f count u buffer done f_pos le over = rw over (record {
    position = ground arith;
    result = ap amount (ground arith);
    bytes = λ i h. absurd (ground arith);
    others = λ x away. refl;
  })

  read_loop-Reads :
      (g count : ℕ) (u : User) (buffer done f_pos : ℕ)
      → done ≤ count
      → f_pos + (count - done) ≤ m oi
      → (count ≡ done) ⊎ (f_pos % 1024 + (count - done) ≤ 1024 * g)
      → ((i : ℕ) → i < count - done → us.accessible (buffer + i) ≡ true)
      → Reads us m oi u buffer
          (count - done)
          f_pos
          count
          (read_loop us (suc g) m oi count u buffer done f_pos)
  unfolding read_loop
  read_loop-Reads zero count u buffer done f_pos le inside enough access =
      read_loop_over 0 count u buffer done f_pos le (ground arith)
  read_loop-Reads (suc g) count u buffer done f_pos le inside enough access =
      elim (Bool-cases (ltb done count)) [
        | inr over ↦ read_loop_over (suc g) count u buffer done f_pos le over
        | inl more ↦
            let k = piece f_pos (count - done) in
            let (pos, small, fits, ends) = piece_lem f_pos (count - done) (ground arith) in
            let a = address_at m oi f_pos in
            let (u1, left) = us.copy_to_user u buffer (load_bytes m a k) in
            let none_left : left ≡ 0 =
              us.to_leaves u buffer (load_bytes m a k)
                (λ i h. access i (let n = length-load_bytes m a k in omega arith)) in
            let less : count - done - k ≡ count - (done + k) = omega arith in
            let rest : Reads us m oi u1 (buffer + k) (count - (done + k)) (f_pos + k) count
                (read_loop us (suc g) m oi count u1 (buffer + k) (done + k) (f_pos + k)) =
              read_loop-Reads g count u1 (buffer + k) (done + k) (f_pos + k) (omega arith)
                (omega arith) (omega arith)
                (λ i h.
                  let e : buffer + k + i ≡ buffer + (k + i) = omega arith in
                  rw e (access (k + i) (omega arith))) in
            rw
              (
                more,
                ==-eq_false (block_at m oi f_pos) 0 (block_at_lem f_pos (ground arith)),
                none_left,
              )
              (Reads-piece u buffer a (count - done) k f_pos count
                (read_loop us (suc g) m oi count u1 (buffer + k) (done + k) (f_pos + k)) small
                (address_lem f_pos (ground arith)) fits (omega arith) none_left (rw less rest))
      ]

-- How many of `count` bytes from `f_pos` on lie in the file.
abbrev pub readable : (size f_pos count : ℕ) → ℕ
readable size f_pos count = if ltb size (count + f_pos) then size - f_pos else count

-- `ospfs_read` at a position within the file or at its end, where no pointer to a block of the file is 0
-- and the process may access its buffer: it returns the number of those `count` bytes that lie in the
-- file, moves the position on by as many, has put exactly those bytes of the file into the buffer, and
-- has changed no other byte of the process.
pub ospfs_read_lem :
    {User : Type 0} (us : UserSpace User) (m : Disk) (oi : ℕ) (u : User) (buffer count f_pos : ℕ)
    → m oi < 2 ^ 32
    → ((off : ℕ) → off < m oi → inode_blockno m oi off ≢ 0)
    → f_pos ≤ m oi
    → ((i : ℕ) → i < readable (m oi) f_pos count → us.accessible (buffer + i) ≡ true)
    → Reads us m oi u buffer
        (readable (m oi) f_pos count)
        f_pos
        (readable (m oi) f_pos count)
        (ospfs_read us m oi u buffer count f_pos)
unfolding ospfs_read
ospfs_read_lem us m oi u buffer count f_pos words blocks le access =
    let wraps : (m oi + 2 ^ 64 - f_pos) % 2 ^ 32 ≡ m oi - f_pos = omega arith in
    let inside : f_pos + readable (m oi) f_pos count ≤ m oi = ground arith in
    let all : readable (m oi) f_pos count - 0 ≡ readable (m oi) f_pos count = omega arith in
    rw wraps (
      rw all at (
        read_loop-Reads us m oi words blocks (readable (m oi) f_pos count / 1024 + 2)
          (readable (m oi) f_pos count) u buffer 0 f_pos (omega arith) (omega arith) (omega arith)
          (λ i h. access i (omega arith))))

read_loop_eio :
    {User : Type 0} (us : UserSpace User) (m : Disk) (oi f count : ℕ) (u : User)
    (buffer done f_pos : ℕ)
    → done < count
    → block_at m oi f_pos ≡ 0
    → read_loop us (suc f) m oi count u buffer done f_pos
      ≡ record { state = u; f_pos = f_pos; retval = eio }
unfolding read_loop
read_loop_eio us m oi f count u buffer done f_pos more none_there =
    let going : ltb done count ≡ true = ground arith in rw (going, none_there) refl

-- `ospfs_read` at a position behind the end of the file, below 2 ^ 32, returns `-EIO`: the number of
-- bytes left wraps round. It changes nothing.
pub ospfs_read-past :
    {User : Type 0} (us : UserSpace User) (m : Disk) (oi : ℕ) (u : User) (buffer count f_pos : ℕ)
    → m oi < f_pos
    → f_pos < 2 ^ 32
    → ospfs_read us m oi u buffer count f_pos ≡ record { state = u; f_pos = f_pos; retval = eio }
unfolding ospfs_read inode_blockno
ospfs_read-past us m oi u buffer count f_pos past small =
    let over : ltb (m oi) (count + f_pos) ≡ true = ground arith in
    let wraps : (m oi + 2 ^ 64 - f_pos) % 2 ^ 32 ≡ 2 ^ 32 + m oi - f_pos = omega arith in
    let e : f_pos % 2 ^ 32 ≡ f_pos = omega arith in
    let none_there : block_at m oi f_pos ≡ 0 = rw e (ground arith) in
    rw (over, wraps)
      (read_loop_eio us m oi ((2 ^ 32 + m oi - f_pos) / 1024 + 2) (2 ^ 32 + m oi - f_pos) u buffer 0
        f_pos (omega arith) none_there)
