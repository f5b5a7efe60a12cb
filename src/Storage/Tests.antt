-- ===== src/Storage/Tests.antt =====
-- The round trips of the structures on the disk, at a disk of zeros.
use operating_systems_assign.Prelude.{
  ℕ, zero, suc, ◌<◌, ◌≡◌, refl, true, false, some, List, [], ◌∷◌, replicate, length,
  length-replicate, arith, ◌>>=◌,
}
use operating_systems_assign.BitMap.{BitMap}
use operating_systems_assign.FileHeader.{FileHeader}
use operating_systems_assign.FileHeader.Allocation.{sector}
use operating_systems_assign.Directory.{DirectoryEntry, Directory}
use operating_systems_assign.OpenFile.{Disk}
use operating_systems_assign.OpenFile.Read.{IsOnDisk}
use operating_systems_assign.OpenFile.Write.{Distinct}
use operating_systems_assign.Storage.{
  fetch_header, write_back_header, fetch_directory, write_back_directory,
}
use operating_systems_assign.Storage.Layout.{AreInts, IsStored}
use operating_systems_assign.Storage.RoundTrip.{
  fetch_header-write_back_header, fetch_directory-write_back_directory,
}

abbrev blank : ℕ → List ℕ
blank k = replicate k 0

blank-fresh : (k : ℕ) → length (blank k) ≡ k
blank-fresh k = length-replicate k 0

abbrev one_sector : FileHeader
one_sector = record { num_bytes = 100; num_sectors = 1; data_sectors = 9 ∷ replicate 29 0 }

abbrev blank_disk : Disk
blank_disk = record { sector = λ s. blank 128 }

one_sector-IsOnDisk : IsOnDisk one_sector blank_disk
one_sector-IsOnDisk = record {
  direct = omega arith;
  sized = omega arith;
  within = λ j l. within j l;
  full = λ s. refl;
}
  where
    within : (j : ℕ) → j < 1 → sector one_sector j < 1024
    within zero l = omega arith
    within (suc j) l = absurd (omega arith)

one_sector-Distinct : Distinct one_sector
one_sector-Distinct j k q l = absurd (omega arith)

ints : (n : ℕ) → AreInts (replicate n 0)
ints zero = tt
ints (suc n) = (omega arith, ints n)

fetch_header_example :
    (write_back_header one_sector blank_disk 4 >>= λ disk'. fetch_header disk' 4) ≡ some one_sector
fetch_header_example =
    fetch_header-write_back_header one_sector blank_disk 4 (omega arith) refl
      (omega arith, (omega arith, (omega arith, ints 29)))

abbrev a_map : BitMap
a_map = record { num_bits = 40; num_words = 2; map = 77 ∷ 3 ∷ [] }

abbrev an_entry : DirectoryEntry
an_entry = record { in_use = true; sector = 12; name = 97 ∷ blank 9; is_directory = false }

abbrev empty_entry : DirectoryEntry
empty_entry = record { in_use = false; sector = 0; name = blank 10; is_directory = false }

abbrev a_directory : Directory
a_directory = record { table = an_entry ∷ an_entry ∷ [] }

abbrev empty_directory : Directory
empty_directory = record { table = empty_entry ∷ empty_entry ∷ [] }

an_entry-IsStored : IsStored an_entry
an_entry-IsStored = record { sector_int = omega arith; name_full = refl }

fetch_directory_example :
    (write_back_directory blank a_directory one_sector blank_disk >>= λ disk'.
    fetch_directory empty_directory one_sector disk')
    ≡ some a_directory
fetch_directory_example =
    fetch_directory-write_back_directory blank one_sector blank_disk blank-fresh one_sector-Distinct
      one_sector-IsOnDisk a_directory empty_directory refl
      (an_entry-IsStored, (an_entry-IsStored, tt)) (omega arith)
