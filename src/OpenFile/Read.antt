-- ===== src/OpenFile/Read.antt =====
-- What ReadAt reads.
use operating_systems_assign.Prelude.{
  ℕ, zero, suc, ◌+◌, ◌-◌, ◌*◌, ◌/◌, ◌%◌, ◌^◌, ◌≤◌, ◌<◌, ◌≡◌, refl, ap, ap₂, ◌∙◌, true, false, some,
  List, [], ◌++◌, length, length-append, length-take, length-drop, get_or, take, drop, min, arith,
  ltb, if◌then◌else◌, lt→ltb, lt-cases, ◌⊎◌, inl, inr,
}
use operating_systems_assign.FileHeader.{
  FileHeader, sector_size, num_direct, byte_to_sector, file_length,
}
use operating_systems_assign.FileHeader.Allocation.{sector}
use operating_systems_assign.OpenFile.{
  Disk, num_sectors, read_sector, read_sectors, clip, read_range, out_of_file, read_at,
}
use operating_systems_assign.OpenFile.Bytes.{
  get_or-append, get_or-take, get_or-drop, tabulate, eq-tabulate,
}

-- The header describes a file that lies on the disk.
pub record IsOnDisk (h : FileHeader) (disk : Disk) : Type 0 where
  pub direct : h.num_sectors ≤ num_direct
  pub sized : h.num_bytes ≤ h.num_sectors * sector_size
  pub within : (j : ℕ) → j < h.num_sectors → sector h j < num_sectors
  pub full : (s : ℕ) → length (disk.sector s) ≡ sector_size

-- Byte p of the file.
unfoldable pub file_byte : FileHeader → Disk → ℕ → ℕ
file_byte h disk p = get_or (disk.sector (sector h (p / sector_size))) (p % sector_size) 0

pub file_byte-block :
    (h : FileHeader) (disk : Disk) (i p : ℕ)
    → p < sector_size
    → file_byte h disk (i * sector_size + p) ≡ get_or (disk.sector (sector h i)) p 0
unfolding file_byte
file_byte-block h disk i p l =
    ap₂ (λ a b. get_or (disk.sector (sector h a)) b 0) (omega arith) (omega arith)

pub byte_to_sector_lem :
    (h : FileHeader) (i : ℕ)
    → i < num_direct
    → byte_to_sector h (i * sector_size) ≡ some (sector h i)
unfolding byte_to_sector
byte_to_sector_lem h i l = let e : i * 128 / 128 ≡ i = omega arith in rw (e, lt→ltb i 30 l)

pub read_sector_lem :
    (disk : Disk) (s : ℕ) → s < num_sectors → read_sector disk s ≡ some (disk.sector s)
unfolding read_sector
read_sector_lem disk s l = rw (lt→ltb s 1024 l)

read_sectors_lem :
    (n i : ℕ) (h : FileHeader) (disk : Disk)
    → IsOnDisk h disk
    → i + n ≤ h.num_sectors
    → (buf : List ℕ) × (read_sectors n i h disk ≡ some buf)
      × (length buf ≡ n * sector_size)
      × ((p : ℕ) → p < n * sector_size → get_or buf p 0 ≡ file_byte h disk (i * sector_size + p))
unfolding read_sectors
read_sectors_lem zero i h disk d l = ([], refl, omega arith, λ p q. absurd (omega arith))
read_sectors_lem (suc n) i h disk d l =
    let (rest, e, m, bytes) = read_sectors_lem n (i + 1) h disk d (omega arith) in
    (
      disk.sector (sector h i) ++ rest,
      rw
          (
            byte_to_sector_lem h i (omega (arith, d.direct)),
            read_sector_lem disk (sector h i) (d.within i (omega arith)),
            e,
          )
          refl,
      omega (arith, length-append (disk.sector (sector h i)) rest, d.full (sector h i)),
      λ p q. get_or-append (disk.sector (sector h i)) rest p ∙ elim (lt-cases p 128) [
        | inl a ↦ ground (arith, d.full (sector h i), file_byte-block h disk i p a)
        | inr a ↦ ground (arith, d.full (sector h i), bytes (p - 128) (omega arith), same i p a)
      ],
    )
  where
    same :
        (i p : ℕ)
        → 128 ≤ p
        → file_byte h disk ((i + 1) * 128 + (p - 128)) ≡ file_byte h disk (i * 128 + p)
    same i p a = ap (file_byte h disk) (omega arith)

-- Inside the file ReadAt reads the bytes that it is asked for.
pub read_range_lem :
    (h : FileHeader) (disk : Disk) (n position : ℕ)
    → IsOnDisk h disk
    → 0 < n
    → position + n ≤ h.num_bytes
    → read_range h disk n position ≡ some (tabulate (file_byte h disk) position n)
unfolding read_range
read_range_lem h disk n position d z l =
    let first : ℕ = position / 128 in
    let count : ℕ = 1 + (position + n - 1) / 128 - first in
    let (buf, e, m, bytes) = read_sectors_lem count first h disk d (omega (arith, d.sized)) in
    rw e (
      ap some (
        eq-tabulate (take n (drop (position - first * 128) buf)) (file_byte h disk) position n
          (omega (
            arith,
            length-take n (drop (position - first * 128) buf),
            length-drop (position - first * 128) buf,
          ))
          λ i q.
            get_or-take n (drop (position - first * 128) buf) i q
            ∙ get_or-drop (position - first * 128) buf i
            ∙ bytes (position - first * 128 + i) (omega arith)
            ∙ ap (file_byte h disk) (omega arith)))

pub clip_lem :
    (len n position : ℕ)
    → position + n < 2 ^ 31
    → clip len n position ≡ some (min n (len - position))
unfolding clip
clip_lem len n position small =
    let clipped : (if ltb len (position + n) then len - position else n) ≡ min n (len - position) =
      ground arith in
    rw (lt→ltb (position + n) (2 ^ 31) small) (ap some clipped)

pub out_of_file_lem :
    (h : FileHeader) (n position : ℕ)
    → ((out_of_file h n position ≡ true) × (min n (h.num_bytes - position) ≡ 0))
      ⊎ ((out_of_file h n position ≡ false) × (0 < min n (h.num_bytes - position)))
unfolding file_length
out_of_file_lem h n position = ground arith

-- The sum of the position and the number of bytes matters inside the file only.
pub read_at_inside :
    (h : FileHeader) (disk : Disk) (n position : ℕ)
    → IsOnDisk h disk
    → (position < h.num_bytes → position + n < 2 ^ 31)
    → read_at h disk n position
      ≡ some (tabulate (file_byte h disk) position (min n (h.num_bytes - position)))
unfolding read_at file_length tabulate
read_at_inside h disk n position d small = elim (out_of_file_lem h n position) [
  | inl (out, e) ↦ rw (out, e)
  | inr (inside, z) ↦
      rw (inside, clip_lem h.num_bytes n position (small (omega (arith, z))))
        (read_range_lem h disk (min n (h.num_bytes - position)) position d z (omega arith))
]

-- For a file that lies on the disk, and a position and a number of bytes whose sum is an int, ReadAt
-- returns the bytes from the position on: as many as are asked for, or as many as the file has there.
pub read_at_lem :
    (h : FileHeader) (disk : Disk) (n position : ℕ)
    → IsOnDisk h disk
    → position + n < 2 ^ 31
    → read_at h disk n position
      ≡ some (tabulate (file_byte h disk) position (min n (h.num_bytes - position)))
read_at_lem h disk n position d small = read_at_inside h disk n position d (λ l. small)
