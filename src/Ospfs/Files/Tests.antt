-- ===== src/Ospfs/Files/Tests.antt =====
-- Files of lab3/ospfsmod.c on a small disk, with all memory of the process accessible.
use cs111_operating_system.Prelude.{
  ℕ, zero, suc, ◌+◌, ◌-◌, ◌*◌, ◌%◌, ◌<◌, ◌≤◌, ◌≡◌, ◌≢◌, ◌⊎◌, refl, ap, ◌∙◌, arith, List, [], ◌∷◌,
  length, if◌then◌else◌, ◌==◌, ltb, leb, true, false,
}
use cs111_operating_system.Ospfs.Layout.{Disk, inode}
use cs111_operating_system.Ospfs.Index.{inode_blockno}
use cs111_operating_system.Ospfs.Size.{ok, Looped}
use cs111_operating_system.Ospfs.Dir.Search.{IsShortFile}
use cs111_operating_system.Ospfs.Files.{
  get, UserSpace, amount, eio, make_room, ospfs_read, ospfs_write,
}
use cs111_operating_system.Ospfs.Files.Read.{Reads, ospfs_read_lem, ospfs_read-past}
use cs111_operating_system.Ospfs.Files.ShortFile.{file_block_there}
use cs111_operating_system.Ospfs.Files.Write.{Writes, ospfs_write_lem}
use cs111_operating_system.Ospfs.Files.RoundTrip.{ospfs_read-write}

-- The bytes of a process, with `bs` put at `to`.
put : (ℕ → ℕ) → (to : ℕ) → List ℕ → ℕ → ℕ
put u to bs x = if ltb x to then u x else if leb (to + length bs) x then u x else get bs (x - to)

taken : (ℕ → ℕ) → (from n : ℕ) → List ℕ
taken u from zero = []
taken u from (suc n) = (u from % 256) ∷ taken u (from + 1) n

length-taken : (u : ℕ → ℕ) (from n : ℕ) → length (taken u from n) ≡ n
unfolding taken
length-taken u from zero = refl
length-taken u from (suc n) = ap suc (length-taken u (from + 1) n)

get-taken : (u : ℕ → ℕ) (n from i : ℕ) → i < n → get (taken u from n) i ≡ u (from + i) % 256
unfolding taken get
get-taken u zero from i h = absurd (omega arith)
get-taken u (suc n) from zero h = ap (λ x. u x % 256) (omega arith)
get-taken u (suc n) from (suc i) h =
    get-taken u n (from + 1) i (omega arith) ∙ ap (λ x. u x % 256) (omega arith)

put_self :
    (u : ℕ → ℕ) (to : ℕ) (bs : List ℕ) (i : ℕ) → i < length bs → put u to bs (to + i) ≡ get bs i
unfolding put
put_self u to bs i h =
    let back : to + i - to ≡ i = omega arith in
    let a : ltb (to + i) to ≡ false = ground arith in
    let b : leb (to + length bs) (to + i) ≡ false = ground arith in rw (a, b, back) refl

put_other :
    (u : ℕ → ℕ) (to : ℕ) (bs : List ℕ) (x : ℕ)
    → (x < to) ⊎ (to + length bs ≤ x)
    → put u to bs x ≡ u x
unfolding put
put_other u to bs x away = ground arith

abbrev plain_memory : UserSpace (ℕ → ℕ)
plain_memory = record {
  byte = λ u x. u x % 256;
  accessible = λ x. true;
  copy_to_user = λ u to bs. (put u to bs, 0);
  copy_from_user = λ u from n. (taken u from n, 0);
  to_leaves = λ u to bs h. refl;
  to_copies = λ u to bs i h inside. ap (λ b. b % 256) (put_self u to bs i inside);
  to_others = λ u to bs x away. ap (λ b. b % 256) (put_other u to bs x away);
  from_leaves = λ u from n h. refl;
  from_length = length-taken;
  from_copies = λ u from n i h inside. get-taken u n from i inside;
  byte_small = λ u x. omega arith;
}

-- Ten blocks with 16 inodes in block 3. Inode 1 is a file of 1500 bytes in blocks 4 and 6.
abbrev file_disk : Disk
file_disk a =
    if a == 257
    then 10
    else if a == 258
    then 16
    else if a == 259
    then 3
    else if a == 784
    then 1500
    else if a == 788
    then 4
    else if a == 789
    then 6
    else 0

file_disk-IsShortFile : IsShortFile file_disk 1 784
unfolding inode
file_disk-IsShortFile = record {
  small = omega arith;
  first = omega arith;
  room = omega arith;
  found = refl;
  size = omega arith;
  kind = λ e. omega (arith, e);
  blocks = in_block;
  distinct = apart;
}
  where
    in_block : (n : ℕ) → 1024 * n < 1500 → (4 ≤ file_disk (788 + n)) × (file_disk (788 + n) < 10)
    in_block zero h = omega arith
    in_block (suc zero) h = omega arith
    in_block (suc (suc n)) h = absurd (omega arith)

    apart :
        (n k : ℕ)
        → 1024 * n < 1500
        → 1024 * k < 1500
        → file_disk (788 + n) ≡ file_disk (788 + k)
        → n ≡ k
    apart zero zero hn hk e = refl
    apart zero (suc zero) hn hk e = absurd (omega (arith, e))
    apart (suc zero) zero hn hk e = absurd (omega (arith, e))
    apart (suc zero) (suc zero) hn hk e = refl
    apart (suc (suc n)) k hn hk e = absurd (omega arith)
    apart n (suc (suc k)) hn hk e = absurd (omega arith)

room_there : make_room 5 file_disk 784 1100 ≡ Looped.returned file_disk ok
unfolding make_room
room_there = refl

blocks_there : (off : ℕ) → off < 1500 → inode_blockno file_disk 784 off ≢ 0
blocks_there = file_block_there file_disk 1 784 file_disk-IsShortFile

abbrev memory : ℕ → ℕ
memory x = x + 7

ospfs_read_lem_example :
    Reads plain_memory file_disk 784 memory 50 500 1000 500
      (ospfs_read plain_memory file_disk 784 memory 50 600 1000)
ospfs_read_lem_example =
    ospfs_read_lem plain_memory file_disk 784 memory 50 600 1000 (omega arith) blocks_there
      (omega arith) (λ i h. refl)

ospfs_read-past_example :
    ospfs_read plain_memory file_disk 784 memory 50 10 1501
    ≡ record { state = memory; f_pos = 1501; retval = eio }
ospfs_read-past_example =
    ospfs_read-past plain_memory file_disk 784 memory 50 10 1501 (omega arith) (omega arith)

ospfs_write_lem_example :
    Writes plain_memory file_disk 784 memory 50 100 1000 100
      (ospfs_write plain_memory false 5 file_disk 784 memory 50 100 1000)
ospfs_write_lem_example =
    ospfs_write_lem plain_memory false 5 file_disk file_disk 1 784 memory 50 100 1000 1000 refl
      room_there file_disk-IsShortFile (omega arith) (λ i h. refl)

ospfs_read-write_example :
    let w = ospfs_write plain_memory false 5 file_disk 784 memory 50 100 1000 in
    let r = ospfs_read plain_memory w.state 784 memory 400 100 1000 in
    (w.retval ≡ amount 100)
    × (r.retval ≡ amount 100)
    × ((i : ℕ) → i < 100 → plain_memory.byte r.state (400 + i) ≡ plain_memory.byte memory (50 + i))
ospfs_read-write_example =
    ospfs_read-write plain_memory 5 file_disk file_disk 1 784 memory 50 400 100 1000 room_there
      file_disk-IsShortFile (omega arith) (λ i h. refl) (λ i h. refl)
