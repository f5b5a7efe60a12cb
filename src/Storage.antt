-- ===== src/Storage.antt =====
-- FetchFrom and WriteBack of filehdr.cc, bitmap.cc and directory.cc in dev2-filesys/nachos/code:
-- the three structures are stored as they lie in memory. The layout is that of a 32-bit
-- little-endian host: an int has four bytes, and a DirectoryEntry is inUse, three bytes of padding,
-- sector, the ten bytes of name, isDirectory and one byte of padding. Padding is written as 0.
pub mod Layout
pub mod RoundTrip
mod Tests
use operating_systems_assign.Prelude.{
  ℕ, zero, suc, ◌+◌, ◌*◌, ◌/◌, ◌%◌, ◌^◌, Bool, true, false, not, Option, none, some, List, [], ◌∷◌,
  ◌++◌, ◌==◌, if◌then◌else◌, length, get_or, take, drop, ◌>>=◌,
}
use operating_systems_assign.BitMap.{BitMap}
use operating_systems_assign.FileHeader.{FileHeader, num_direct}
use operating_systems_assign.Directory.{DirectoryEntry, Directory}
use operating_systems_assign.OpenFile.{
  Disk, read_sector, write_sector, copy_into, read_at, write_at,
}

unfoldable pub int_bytes : ℕ → List ℕ
int_bytes w = w % 256 ∷ w / 256 % 256 ∷ w / 65536 % 256 ∷ w / 16777216 % 256 ∷ []

unfoldable pub int_at : List ℕ → ℕ → ℕ
int_at bytes p =
    get_or bytes p 0
    + 256 * get_or bytes (p + 1) 0
    + 65536 * get_or bytes (p + 2) 0
    + 16777216 * get_or bytes (p + 3) 0

unfoldable pub ints_bytes : List ℕ → List ℕ
unfolding int_bytes
ints_bytes [] = []
ints_bytes (w ∷ ws) = int_bytes w ++ ints_bytes ws

-- The n ints from offset p on.
unfoldable pub ints_at : List ℕ → ℕ → ℕ → List ℕ
unfolding int_at
ints_at bytes p zero = []
ints_at bytes p (suc n) = int_at bytes p ∷ ints_at bytes (p + 4) n

unfoldable pub header_bytes : FileHeader → List ℕ
unfolding ints_bytes
header_bytes h = ints_bytes (h.num_bytes ∷ h.num_sectors ∷ h.data_sectors)

unfoldable pub header_at : List ℕ → FileHeader
unfolding int_at ints_at
header_at bytes = record {
  num_bytes = int_at bytes 0;
  num_sectors = int_at bytes 4;
  data_sectors = ints_at bytes 8 num_direct;
}

unfoldable pub fetch_header : Disk → ℕ → Option FileHeader
fetch_header disk s = read_sector disk s >>= λ bytes. some (header_at bytes)

pub write_back_header : FileHeader → Disk → ℕ → Option Disk
write_back_header h disk s = write_sector disk s (header_bytes h)

pub fetch_bit_map : BitMap → FileHeader → Disk → Option BitMap
fetch_bit_map b file disk = read_at file disk (b.num_words * 4) 0 >>= λ bytes.
    some (record b { map = ints_at (copy_into (ints_bytes b.map) 0 bytes) 0 b.num_words })

pub write_back_bit_map : (ℕ → List ℕ) → BitMap → FileHeader → Disk → Option Disk
write_back_bit_map memory b file disk =
    write_at memory file disk (ints_bytes b.map) (b.num_words * 4) 0 >>= λ r. some r.1

abbrev pub entry_size : ℕ
entry_size = 20

abbrev pub bool_byte : Bool → ℕ
bool_byte b = if b then 1 else 0

abbrev pub name_size : ℕ
name_size = 10

unfoldable pub entry_bytes : DirectoryEntry → List ℕ
unfolding int_bytes
entry_bytes e =
    bool_byte e.in_use
    ∷ 0
    ∷ 0
    ∷ 0
    ∷ (int_bytes e.sector ++ (e.name ++ (bool_byte e.is_directory ∷ 0 ∷ [])))

unfoldable pub entries_bytes : List DirectoryEntry → List ℕ
unfolding entry_bytes
entries_bytes [] = []
entries_bytes (e ∷ es) = entry_bytes e ++ entries_bytes es

unfoldable pub entry_at : List ℕ → ℕ → DirectoryEntry
unfolding int_at
entry_at bytes p = record {
  in_use = not (get_or bytes p 0 == 0);
  sector = int_at bytes (p + 4);
  name = take name_size (drop (p + 8) bytes);
  is_directory = not (get_or bytes (p + 18) 0 == 0);
}

unfoldable pub entries_at : List ℕ → ℕ → ℕ → List DirectoryEntry
unfolding entry_at
entries_at bytes p zero = []
entries_at bytes p (suc n) = entry_at bytes p ∷ entries_at bytes (p + entry_size) n

unfoldable pub fetch_directory : Directory → FileHeader → Disk → Option Directory
fetch_directory d file disk = read_at file disk (length d.table * entry_size) 0 >>= λ bytes.
    some
      (record { table = entries_at (copy_into (entries_bytes d.table) 0 bytes) 0 (length d.table) })

pub write_back_directory : (ℕ → List ℕ) → Directory → FileHeader → Disk → Option Disk
write_back_directory memory d file disk =
    write_at memory file disk (entries_bytes d.table) (length d.table * entry_size) 0 >>= λ r.
    some r.1
