-- ===== src/Ospfs/Files/RoundTrip.antt =====
-- `ospfs_read` of lab3/ospfsmod.c gives back what `ospfs_write` has written.
use cs111_operating_system.Prelude.{ℕ, ◌+◌, ◌<◌, ◌≤◌, ◌≡◌, refl, ap, ◌∙◌, arith, true, false}
use cs111_operating_system.Ospfs.Layout.{Disk}
use cs111_operating_system.Ospfs.Size.{ok, Looped}
use cs111_operating_system.Ospfs.Bytes.{load}
use cs111_operating_system.Ospfs.Dir.Search.{IsShortFile}
use cs111_operating_system.Ospfs.Files.{UserSpace, amount, make_room, ospfs_write, ospfs_read}
use cs111_operating_system.Ospfs.Files.Read.{readable, Reads, ospfs_read_lem}
use cs111_operating_system.Ospfs.Files.ShortFile.{
  file_block_there, file_low, low-IsShortFile, low_data,
}
use cs111_operating_system.Ospfs.Files.Write.{Writes, ospfs_write_lem}

-- What `ospfs_write` has written, in a file of at most ten blocks where the change of size succeeds,
-- `ospfs_read` at the same position gives back: it returns `count`, and the buffer `to` has the bytes that
-- were in the buffer `from`.
pub ospfs_read-write :
    {User : Type 0} (us : UserSpace User) (rounds : ℕ) (m m1 : Disk) (ino oi : ℕ) (u : User)
    (from to count f_pos : ℕ)
    → make_room rounds m oi (count + f_pos) ≡ Looped.returned m1 ok
    → IsShortFile m1 ino oi
    → f_pos + count ≤ m1 oi
    → ((i : ℕ) → i < count → us.accessible (from + i) ≡ true)
    → ((i : ℕ) → i < count → us.accessible (to + i) ≡ true)
    → let w = ospfs_write us false rounds m oi u from count f_pos in
      let r = ospfs_read us w.state oi u to count f_pos in
      (w.retval ≡ amount count)
      × (r.retval ≡ amount count)
      × ((i : ℕ) → i < count → us.byte r.state (to + i) ≡ us.byte u (from + i))
ospfs_read-write us rounds m m1 ino oi u from to count f_pos room d inside access_from access_to =
    let w = ospfs_write us false rounds m oi u from count f_pos in
    let wrote : Writes us m1 oi u from count f_pos count w =
      ospfs_write_lem us false rounds m m1 ino oi u from count f_pos f_pos refl room d inside
        access_from in
    let m2 = w.state in
    let d2 = low-IsShortFile m1 ino oi d m2 wrote.low in
    let size : m2 oi ≡ m1 oi = file_low m1 ino oi d m2 wrote.low oi (omega arith) (omega arith) in
    let limit = d.size in
    let all : readable (m2 oi) f_pos count ≡ count = ground arith in
    let reads : Reads us m2 oi u to (readable (m2 oi) f_pos count) f_pos
        (readable (m2 oi) f_pos count) (ospfs_read us m2 oi u to count f_pos) =
      ospfs_read_lem us m2 oi u to count f_pos (omega arith)
        (λ off h. file_block_there m2 ino oi d2 off h) (omega arith)
        (λ i h. access_to i (omega arith)) in
    (
      wrote.result,
      reads.result ∙ ap amount all,
      λ i h.
          reads.bytes i (omega arith)
          ∙ ap (load m2) (low_data m1 ino oi d m2 wrote.low (f_pos + i) (omega arith))
          ∙ wrote.bytes i h,
    )
