-- ===== src/OpenFile/Write.antt =====
-- What WriteAt writes.
use operating_systems_assign.Prelude.{
  ℕ, zero, suc, ◌+◌, ◌-◌, ◌*◌, ◌≤◌, ◌<◌, ◌≡◌, ◌≢◌, refl, ap, sym, ◌∙◌, false, some, List, ◌==◌,
  if◌then◌else◌, length, length-take, length-drop, get_or, take, drop, arith, lt→ltb, le→leb, inl,
  inr, ℕ_discrete, Bool-cases, ==_refl,
}
use operating_systems_assign.FileHeader.{FileHeader, sector_size}
use operating_systems_assign.FileHeader.Allocation.{sector, has_sector}
use operating_systems_assign.FileHeader.Free.{has_sector_marked}
use operating_systems_assign.OpenFile.{Disk, write_sector, write_sectors}
use operating_systems_assign.OpenFile.Bytes.{get_or-take, get_or-drop}
use operating_systems_assign.OpenFile.Read.{IsOnDisk, byte_to_sector_lem}

-- The sectors of a file are distinct.
abbrev pub Distinct : FileHeader → Type 0
Distinct h = (j k : ℕ) → j < k → k < h.num_sectors → sector h j ≢ sector h k

-- The disk with the buffer in the n sectors of the file from the i-th on.
pub record Written (i n : ℕ) (h : FileHeader) (buf : List ℕ) (disk disk' : Disk) : Type 0 where
  pub on_disk : IsOnDisk h disk'
  pub inside :
      (j p : ℕ)
      → i ≤ j
      → j < i + n
      → p < sector_size
      → get_or (disk'.sector (sector h j)) p 0 ≡ get_or buf ((j - i) * sector_size + p) 0
  pub outside : (s : ℕ) → has_sector h i n s ≡ false → disk'.sector s ≡ disk.sector s

pub not_has_sector :
    (h : FileHeader) (i n s : ℕ)
    → ((j : ℕ) → i ≤ j → j < i + n → sector h j ≢ s)
    → has_sector h i n s ≡ false
not_has_sector h i n s d = elim (Bool-cases (has_sector h i n s)) [
  | inl e ↦ let (j, p, q, r) = has_sector_marked h i n s e in absurd (d j p q r)
  | inr e ↦ e
]

Written-step :
    (i n : ℕ) (h : FileHeader) (buf : List ℕ) (disk d₁ disk' : Disk)
    → Distinct h
    → i + suc n ≤ h.num_sectors
    → ((s : ℕ) → d₁.sector s ≡ (if sector h i == s then take 128 buf else disk.sector s))
    → Written (i + 1) n h (drop 128 buf) d₁ disk'
    → Written i (suc n) h buf disk disk'
unfolding has_sector
Written-step i n h buf disk d₁ disk' d l first w = record {
  on_disk = w.on_disk;
  inside = λ j p a b c. elim (ℕ_discrete i j) [
    | yes e ↦ rw (← e) (
        ap (λ (b : List ℕ). get_or b p 0)
          (w.outside (sector h i) (
              not_has_sector h (i + 1) n (sector h i)
                (λ k q r t. d i k (omega arith) (omega arith) (sym t)))
            ∙ first (sector h i)
            ∙ ap (λ t. if t then take 128 buf else disk.sector (sector h i)) (==_refl (sector h i)))
        ∙ get_or-take 128 buf p c
        ∙ ap (λ k. get_or buf k 0) (omega arith))
    | no e ↦
        w.inside j p (omega arith) (omega arith) c
        ∙ get_or-drop 128 buf ((j - (i + 1)) * 128 + p)
        ∙ ap (λ k. get_or buf k 0) (omega arith)
  ];
  outside = λ s e. w.outside s (ground arith) ∙ ground (arith, first s);
}

pub write_sectors_lem :
    (n i : ℕ) (h : FileHeader) (disk : Disk) (buf : List ℕ)
    → IsOnDisk h disk
    → Distinct h
    → i + n ≤ h.num_sectors
    → length buf ≡ n * sector_size
    → (disk' : Disk) × (write_sectors n i h disk buf ≡ some disk') × Written i n h buf disk disk'
unfolding write_sectors write_sector
write_sectors_lem zero i h disk buf o d l m = (
  disk,
  refl,
  record { on_disk = o; inside = λ j p a b c. absurd (omega arith); outside = λ s e. refl },
)
write_sectors_lem (suc n) i h disk buf o d l m =
    let (disk', e, w) =
      write_sectors_lem n (i + 1) h put (drop 128 buf) still d (omega arith)
        (omega (arith, length-drop 128 buf)) in
    (
      disk',
      rw
          (
            byte_to_sector_lem h i (omega (arith, o.direct)),
            lt→ltb (sector h i) 1024 (o.within i (omega arith)),
            le→leb 128 (length buf) (omega (arith, m)),
          )
          e,
      Written-step i n h buf disk put disk' d l (λ s. refl) w,
    )
  where
    put : Disk
    put = record { sector = λ s. if sector h i == s then take 128 buf else disk.sector s }

    still : IsOnDisk h put
    still = record {
      direct = o.direct;
      sized = o.sized;
      within = o.within;
      full = λ s. elim (Bool-cases (sector h i == s)) [
        | inl t ↦ rw t (omega (arith, length-take 128 buf))
        | inr t ↦ rw t (o.full s)
      ];
    }
