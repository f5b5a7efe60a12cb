-- ===== src/FileHeader.antt =====
-- dev2-filesys/nachos/code/filesys/filehdr.cc and filehdr.h: the file header (i-node), which keeps
-- the sectors of a file in a table of 30 entries. `none` is a failed ASSERT or an access outside
-- the table, which C++ leaves undefined.
pub mod Allocation
pub mod Free
mod Tests
use operating_systems_assign.Prelude.{
  ℕ, zero, suc, ◌+◌, ◌/◌, Bool, true, false, Option, none, some, List, ltb, if◌then◌else◌, get_or,
  set, ◌>>=◌, ◌>>◌, assert, minus_one, div_round_up,
}
use operating_systems_assign.BitMap.{BitMap}
use operating_systems_assign.BitMap

abbrev pub sector_size : ℕ
sector_size = 128

-- (SectorSize - 2 * sizeof(int)) / sizeof(int)
abbrev pub num_direct : ℕ
num_direct = 30

pub record FileHeader : Type 0 where
  pub num_bytes : ℕ
  pub num_sectors : ℕ
  pub data_sectors : List ℕ

-- The `int` that stands for the result of Find.
abbrev pub as_int : Option ℕ → ℕ
as_int none = minus_one
as_int (some s) = s

-- The loop of Allocate, `n` rounds from the end.
pub allocate_loop : ℕ → ℕ → FileHeader → BitMap → Option (FileHeader × BitMap)
allocate_loop zero i h b = some (h, b)
allocate_loop (suc n) i h b = assert (ltb i num_direct) >> BitMap.find b >>= λ found.
    allocate_loop n (i + 1) (record h { data_sectors = set h.data_sectors i (as_int found.0) })
      found.1

abbrev pub sized : FileHeader → ℕ → FileHeader
sized h file_size = record h {
  num_bytes = file_size;
  num_sectors = div_round_up file_size sector_size;
}

-- `false` with the map as it was if there are too few clear sectors.
pub allocate : FileHeader → BitMap → ℕ → Option (Bool × FileHeader × BitMap)
allocate h b file_size = do
  clear ← BitMap.num_clear b
  if ltb clear (div_round_up file_size sector_size)
      then some (false, sized h file_size, b)
      else (allocate_loop (div_round_up file_size sector_size) 0 (sized h file_size) b >>= λ r.
          some (true, r.0, r.1))

pub deallocate_loop : ℕ → ℕ → FileHeader → BitMap → Option BitMap
deallocate_loop zero i h b = some b
deallocate_loop (suc n) i h b =
    assert (ltb i num_direct) >> BitMap.test b (get_or h.data_sectors i 0) >>= λ marked.
    assert marked >> BitMap.clear b (get_or h.data_sectors i 0) >>= deallocate_loop n (i + 1) h

pub deallocate : FileHeader → BitMap → Option BitMap
deallocate h b = deallocate_loop h.num_sectors 0 h b

unfoldable pub byte_to_sector : FileHeader → ℕ → Option ℕ
byte_to_sector h offset = do
  assert (ltb (offset / sector_size) num_direct)
  some (get_or h.data_sectors (offset / sector_size) 0)

unfoldable pub file_length : FileHeader → ℕ
file_length h = h.num_bytes
