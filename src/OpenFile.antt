-- ===== src/OpenFile.antt =====
-- dev2-filesys/nachos/code/filesys/openfile.cc over filesys/synchdisk.cc and machine/disk.cc: the
-- disk as sectors of 128 bytes, and reading and writing a range of bytes of an open file.
-- A transfer is atomic: the semaphore of SynchDisk makes the caller wait for it. `none` is a
-- failed ASSERT, an access outside the table of the header or of a buffer, or an int that overflows.
pub mod Bytes
pub mod Read
pub mod Write
pub mod WriteAt
pub mod Splice
mod Tests
use operating_systems_assign.Prelude.{
  ℕ, zero, suc, ◌+◌, ◌-◌, ◌*◌, ◌/◌, ◌^◌, ◌≤◌, Bool, true, false, not, ◌&&◌, ◌||◌, Option, none,
  some, List, [], ◌∷◌, ◌++◌, ltb, leb, ◌==◌, if◌then◌else◌, length, take, drop, ◌>>=◌, ◌>>◌, assert,
}
use operating_systems_assign.FileHeader.{FileHeader, sector_size, byte_to_sector, file_length}

abbrev pub num_sectors : ℕ
num_sectors = 1024

-- The bytes of each sector.
pub record Disk : Type 0 where
  pub sector : ℕ → List ℕ

unfoldable pub read_sector : Disk → ℕ → Option (List ℕ)
read_sector disk s = do assert (ltb s num_sectors); some (disk.sector s)

-- A transfer to the disk takes the first 128 bytes of the buffer; a shorter one is read behind its end.
unfoldable pub write_sector : Disk → ℕ → List ℕ → Option Disk
write_sector disk s bytes = do
  assert (ltb s num_sectors)
  assert (leb sector_size (length bytes))
  some (record disk { sector = λ t. if s == t then take sector_size bytes else disk.sector t })

-- `bcopy(bytes, &buf[at], length bytes)`
unfoldable pub copy_into : List ℕ → ℕ → List ℕ → List ℕ
copy_into buf at bytes = take at buf ++ (bytes ++ drop (at + length bytes) buf)

-- The loop of ReadAt over n sectors from the i-th of the file on: what it puts into the buffer.
unfoldable pub read_sectors : ℕ → ℕ → FileHeader → Disk → Option (List ℕ)
read_sectors zero i h disk = some []
read_sectors (suc n) i h disk = do
  s ← byte_to_sector h (i * sector_size)
  bytes ← read_sector disk s
  rest ← read_sectors n (i + 1) h disk
  some (bytes ++ rest)

-- The number of bytes that are transferred of a request inside the file. The sum is one of ints:
-- from 2 ^ 31 on the language leaves it undefined.
unfoldable pub clip : ℕ → ℕ → ℕ → Option ℕ
clip len num_bytes position =
    assert (ltb (position + num_bytes) (2 ^ 31))
    >> some (if ltb len (position + num_bytes) then len - position else num_bytes)

-- The part of ReadAt behind the check of the request; the result is the bytes put into `into`.
unfoldable pub read_range : FileHeader → Disk → ℕ → ℕ → Option (List ℕ)
read_range h disk num_bytes position =
    let first = position / sector_size in
    let last = (position + num_bytes - 1) / sector_size in
    read_sectors (1 + last - first) first h disk >>= λ buf.
    some (take num_bytes (drop (position - first * sector_size) buf))

-- Is there nothing to transfer?
abbrev pub out_of_file : FileHeader → ℕ → ℕ → Bool
out_of_file h num_bytes position = num_bytes == 0 || leb (file_length h) position

-- What ReadAt puts into `into`: its length is the result.
unfoldable pub read_at : FileHeader → Disk → ℕ → ℕ → Option (List ℕ)
unfolding read_range
read_at h disk num_bytes position =
    if out_of_file h num_bytes position
    then some []
    else (clip (file_length h) num_bytes position >>= λ n. read_range h disk n position)

-- The loop of WriteAt over n sectors from the i-th of the file on.
pub write_sectors : ℕ → ℕ → FileHeader → Disk → List ℕ → Option Disk
write_sectors zero i h disk buf = some disk
write_sectors (suc n) i h disk buf = do
  s ← byte_to_sector h (i * sector_size)
  disk' ← write_sector disk s buf
  write_sectors n (i + 1) h disk' (drop sector_size buf)

-- Reads sector i of the file into the buffer at `at`, if `test` holds.
pub fill_sector : Bool → FileHeader → Disk → ℕ → ℕ → List ℕ → Option (List ℕ)
fill_sector false h disk i at buf = some buf
fill_sector true h disk i at buf = do
  bytes ← read_at h disk sector_size (i * sector_size)
  some (copy_into buf at bytes)

-- The part of WriteAt behind the check of the request. `memory n` is what `new char[n]` holds.
pub write_range : (ℕ → List ℕ) → FileHeader → Disk → List ℕ → ℕ → ℕ → Option Disk
write_range memory h disk from num_bytes position =
    let first = position / sector_size in
    let last = (position + num_bytes - 1) / sector_size in
    let count = 1 + last - first in
    let first_aligned = position == first * sector_size in
    let last_aligned = position + num_bytes == (last + 1) * sector_size in
    fill_sector (not first_aligned) h disk first 0 (memory (count * sector_size)) >>= λ buf.
    fill_sector (not last_aligned && (not (first == last) || first_aligned)) h disk last
      ((last - first) * sector_size) buf
    >>= λ buf'.
        write_sectors count first h disk
          (copy_into buf' (position - first * sector_size) (take num_bytes from))

pub write_at : (ℕ → List ℕ) → FileHeader → Disk → List ℕ → ℕ → ℕ → Option (ℕ × Disk)
unfolding write_range
write_at memory h disk from num_bytes position =
    if out_of_file h num_bytes position
    then some (0, disk)
    else (clip (file_length h) num_bytes position >>= λ n.
        write_range memory h disk from n position >>= λ disk'. some (n, disk'))

-- An OpenFile object.
pub record OpenFile : Type 0 where
  pub hdr : FileHeader
  pub seek_position : ℕ

pub seek : OpenFile → ℕ → OpenFile
seek f position = record f { seek_position = position }

pub read : OpenFile → Disk → ℕ → Option (List ℕ × OpenFile)
read f disk num_bytes = do
  bytes ← read_at f.hdr disk num_bytes f.seek_position
  some (bytes, record f { seek_position = f.seek_position + length bytes })

pub write : (ℕ → List ℕ) → OpenFile → Disk → List ℕ → ℕ → Option (ℕ × OpenFile × Disk)
write memory f disk from num_bytes = do
  r ← write_at memory f.hdr disk from num_bytes f.seek_position
  some (r.0, record f { seek_position = f.seek_position + r.0 }, r.1)
