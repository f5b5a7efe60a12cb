-- ===== src/OpenFile/Tests.antt =====
-- The theorems on open files at a file of 200 bytes in the sectors 2 and 1 of a disk of zeros.
use operating_systems_assign.Prelude.{
  ℕ, zero, suc, ◌<◌, ◌≡◌, refl, some, List, [], ◌∷◌, replicate, length, length-replicate, arith,
  ◌>>=◌,
}
use operating_systems_assign.FileHeader.{FileHeader}
use operating_systems_assign.FileHeader.Allocation.{sector}
use operating_systems_assign.OpenFile.{Disk, read_at, write_at}
use operating_systems_assign.OpenFile.Bytes.{tabulate}
use operating_systems_assign.OpenFile.Read.{IsOnDisk, file_byte, read_at_lem}
use operating_systems_assign.OpenFile.Write.{Distinct}
use operating_systems_assign.OpenFile.WriteAt.{Splices}
use operating_systems_assign.OpenFile.Splice.{write_at_lem, read_at-write_at}

abbrev zeros : ℕ → List ℕ
zeros k = replicate k 0

zeros-fresh : (k : ℕ) → length (zeros k) ≡ k
zeros-fresh k = length-replicate k 0

abbrev small_file : FileHeader
small_file = record { num_bytes = 200; num_sectors = 2; data_sectors = 2 ∷ 1 ∷ replicate 28 0 }

abbrev zero_disk : Disk
zero_disk = record { sector = λ s. zeros 128 }

small_file-IsOnDisk : IsOnDisk small_file zero_disk
small_file-IsOnDisk = record {
  direct = omega arith;
  sized = omega arith;
  within = λ j l. within j l;
  full = λ s. refl;
}
  where
    within : (j : ℕ) → j < 2 → sector small_file j < 1024
    within zero l = omega arith
    within (suc zero) l = omega arith
    within (suc (suc j)) l = absurd (omega arith)

small_file-Distinct : Distinct small_file
small_file-Distinct zero zero q l = absurd (omega arith)
small_file-Distinct zero (suc zero) q l = λ e. absurd (omega arith)
small_file-Distinct (suc j) (suc zero) q l = absurd (omega arith)
small_file-Distinct j (suc (suc k)) q l = absurd (omega arith)
small_file-Distinct (suc j) zero q l = absurd (omega arith)

read_at_example :
    read_at small_file zero_disk 100 150 ≡ some (tabulate (file_byte small_file zero_disk) 150 50)
read_at_example = read_at_lem small_file zero_disk 100 150 small_file-IsOnDisk (omega arith)

write_at_example :
    (disk' : Disk) × (write_at zeros small_file zero_disk (1 ∷ 2 ∷ 3 ∷ []) 3 127 ≡ some (3, disk'))
    × Splices small_file zero_disk (1 ∷ 2 ∷ 3 ∷ []) 3 127 disk'
write_at_example =
    write_at_lem zeros small_file zero_disk (1 ∷ 2 ∷ 3 ∷ []) zeros-fresh small_file-Distinct
      small_file-IsOnDisk 3 127 (omega arith) (omega arith)

read_at-write_at_example :
    (write_at zeros small_file zero_disk (1 ∷ 2 ∷ 3 ∷ []) 3 198 >>= λ r.
    read_at small_file r.1 3 198)
    ≡ some (1 ∷ 2 ∷ [])
read_at-write_at_example =
    read_at-write_at zeros small_file zero_disk (1 ∷ 2 ∷ 3 ∷ []) zeros-fresh small_file-Distinct
      small_file-IsOnDisk 3 198 (omega arith) (omega arith)
