-- ===== src/Storage/RoundTrip.antt =====
-- FetchFrom after WriteBack, for the three structures that filesys.cc keeps on the disk.
use operating_systems_assign.Prelude.{
  ℕ, ◌+◌, ◌-◌, ◌*◌, ◌≤◌, ◌<◌, ◌≡◌, refl, ap, ap₂, sym, ◌∙◌, Option, none, some, List, [], ◌∷◌,
  length, length-append, take, drop, min, arith, lt→ltb, le→leb, ==_refl, ◌>>=◌,
}
use mathlib.Core.List.{append-nil}
use operating_systems_assign.BitMap.{BitMap}
use operating_systems_assign.FileHeader.{FileHeader, num_direct}
use operating_systems_assign.Directory.{DirectoryEntry, Directory}
use operating_systems_assign.OpenFile.{
  Disk, num_sectors, read_sector, write_sector, copy_into, read_at, write_at,
}
use operating_systems_assign.OpenFile.Read.{IsOnDisk}
use operating_systems_assign.OpenFile.Write.{Distinct}
use operating_systems_assign.OpenFile.Splice.{read_at-write_at}
use operating_systems_assign.Storage.{
  ints_bytes, header_bytes, header_at, fetch_header, write_back_header, bool_byte, entry_bytes,
  entries_bytes, entry_size, fetch_directory, write_back_directory,
}
use operating_systems_assign.Storage.Layout.{
  AreInts, AreStored, take-append, header_at-header_bytes, entries_at-entries_bytes,
}

length-ints_bytes : (ws : List ℕ) → length (ints_bytes ws) ≡ length ws * 4
unfolding ints_bytes
length-ints_bytes [] = refl
length-ints_bytes (w ∷ ws) = omega (arith, length-ints_bytes ws)

length-entry_bytes : (e : DirectoryEntry) → length e.name ≡ 10 → length (entry_bytes e) ≡ entry_size
unfolding entry_bytes
length-entry_bytes e n = omega (arith, length-append e.name (bool_byte e.is_directory ∷ 0 ∷ []), n)

length-entries_bytes :
    (es : List DirectoryEntry) → AreStored es → length (entries_bytes es) ≡ length es * entry_size
unfolding entries_bytes
length-entries_bytes [] s = refl
length-entries_bytes (e ∷ es) s = omega (
  arith,
  length-append (entry_bytes e) (entries_bytes es),
  length-entry_bytes e s.0.name_full,
  length-entries_bytes es s.1,
)

take_all : (bytes : List ℕ) (n : ℕ) → length bytes ≡ n → take n bytes ≡ bytes
take_all bytes n e = ap (take n) (sym (append-nil bytes)) ∙ take-append n bytes [] e

-- A header with a full table of 32-bit fields that is written back to a sector of the disk is
-- fetched from there as it was.
pub fetch_header-write_back_header :
    (h : FileHeader) (disk : Disk) (s : ℕ)
    → s < num_sectors
    → length h.data_sectors ≡ num_direct
    → AreInts (h.num_bytes ∷ h.num_sectors ∷ h.data_sectors)
    → (write_back_header h disk s >>= λ disk'. fetch_header disk' s) ≡ some h
unfolding write_back_header fetch_header write_sector read_sector header_bytes
fetch_header-write_back_header h disk s l f i =
    let full = length-ints_bytes (h.num_bytes ∷ h.num_sectors ∷ h.data_sectors) in
    let whole = le→leb 128 (length (header_bytes h)) (omega (arith, full, f)) in
    rw (lt→ltb s 1024 l, whole, ==_refl s)
      (ap (λ bytes. some (header_at bytes)) (take_all (header_bytes h) 128 (omega (arith, full, f)))
        ∙ ap some (header_at-header_bytes h f i))

-- A write whose read is known, and what is done with the bytes that are read.
then_read {ℓ} :
    {A : Type ℓ} (w : Option (ℕ × Disk)) (f : Disk → Option (List ℕ)) (g : List ℕ → Option A)
    (x : List ℕ)
    → (w >>= λ r. f r.1) ≡ some x
    → ((w >>= λ r. some r.1) >>= λ d. f d >>= g) ≡ g x
then_read none f g x e = cc
then_read (some r) f g x e = ap (λ o. o >>= g) e

module _ (memory : ℕ → List ℕ) (h : FileHeader) (disk : Disk)
    (fresh : (k : ℕ) → length (memory k) ≡ k) (c : Distinct h) (d : IsOnDisk h disk) where
  -- All the bytes of an array that fits the file are read back.
  read_back_all :
      (bytes : List ℕ) (n : ℕ)
      → length bytes ≡ n
      → n ≤ h.num_bytes
      → (write_at memory h disk bytes n 0 >>= λ r. read_at h r.1 n 0) ≡ some bytes
  read_back_all bytes n e l =
      read_at-write_at memory h disk bytes fresh c d n 0 (omega arith)
        (omega (arith, l, d.direct, d.sized))
      ∙ ap some
          (ap₂ take (min_eq (omega arith)) (sym (append-nil bytes)) ∙ take-append n bytes [] e)
    where
      min_eq : n ≤ h.num_bytes - 0 → min n (h.num_bytes - 0) ≡ n
      min_eq q = omega arith

  -- A directory whose entries fit their memory and that is written back to a file on the disk with
  -- distinct sectors and room for it is fetched as it was, into any directory of the same size.
  pub fetch_directory-write_back_directory :
      (from into : Directory)
      → length into.table ≡ length from.table
      → AreStored from.table
      → length from.table * entry_size ≤ h.num_bytes
      → (write_back_directory memory from h disk >>= λ disk'. fetch_directory into h disk')
        ≡ some from
  unfolding write_back_directory fetch_directory copy_into
  fetch_directory-write_back_directory from into e s l = rw e (
      then_read (write_at memory h disk (entries_bytes from.table) (length from.table * 20) 0)
        (λ disk'. read_at h disk' (length from.table * 20) 0) _ (entries_bytes from.table)
        (read_back_all (entries_bytes from.table) (length from.table * 20)
          (length-entries_bytes from.table s) l)
      ∙ ap (λ es. let d : Directory = record { table = es } in some d)
          (entries_at-entries_bytes [] rest from.table 0 refl s))
    where
      rest : List ℕ
      rest = drop (0 + length (entries_bytes from.table)) (entries_bytes into.table)
