-- ===== src/OpenFile/WriteAt.antt =====
-- WriteAt as a whole: the buffer that it fills, and the file and the disk that it leaves.
use operating_systems_assign.Prelude.{
  ℕ, ◌+◌, ◌-◌, ◌*◌, ◌/◌, ◌%◌, ◌≤◌, ◌<◌, ◌≡◌, ◌≢◌, refl, ap, ap₂, sym, ◌∙◌, Bool, true, false, not,
  ◌&&◌, ◌||◌, some, List, ◌==◌, if◌then◌else◌, length, get_or, min, arith, lt-cases, inl, inr,
  ℕ_discrete, Bool-cases,
}
use operating_systems_assign.FileHeader.{FileHeader, sector_size}
use operating_systems_assign.FileHeader.Allocation.{sector, has_sector}
use operating_systems_assign.FileHeader.Free.{has_sector_self}
use operating_systems_assign.OpenFile.{Disk, copy_into, fill_sector}
use operating_systems_assign.OpenFile.Bytes.{
  tabulate, length-tabulate, get_or-tabulate, length-copy_into, get_or-copy_into, between,
}
use operating_systems_assign.OpenFile.Read.{IsOnDisk, file_byte, read_at_inside}
use operating_systems_assign.OpenFile.Write.{Distinct, Written, not_has_sector}

-- Reading sector i of the file into the buffer puts its bytes there, up to the end of the file.
pub fill_sector_lem :
    (test : Bool) (h : FileHeader) (disk : Disk) (i at : ℕ) (buf : List ℕ)
    → IsOnDisk h disk
    → at + sector_size ≤ length buf
    → (buf' : List ℕ) × (fill_sector test h disk i at buf ≡ some buf')
      × (length buf' ≡ length buf)
      × ((q : ℕ)
          → get_or buf' q 0 ≡ (
              if test && between at (min sector_size (h.num_bytes - i * sector_size)) q
              then file_byte h disk (i * sector_size + (q - at))
              else get_or buf q 0))
unfolding fill_sector
fill_sector_lem false h disk i at buf d l = (buf, refl, refl, λ q. refl)
fill_sector_lem true h disk i at buf d l = (
  copy_into buf at bytes,
  rw (read_at_inside h disk 128 (i * 128) d (λ q. omega (arith, q, d.direct, d.sized))) refl,
  length-copy_into buf at bytes (omega (arith, size)),
  λ q. get_or-copy_into buf at bytes q (omega (arith, size)) ∙ chosen q,
)
  where
    m : ℕ
    m = min 128 (h.num_bytes - i * 128)

    bytes : List ℕ
    bytes = tabulate (file_byte h disk) (i * 128) m

    size : length bytes ≡ m
    size = length-tabulate (file_byte h disk) (i * 128) m

    chosen :
        (q : ℕ)
        → (if between at (length bytes) q then get_or bytes (q - at) 0 else get_or buf q 0)
          ≡ (if between at m q then file_byte h disk (i * 128 + (q - at)) else get_or buf q 0)
    chosen q = rw size (elim (Bool-cases (between at m q)) [
      | inl b ↦ rw b (get_or-tabulate (file_byte h disk) (i * 128) m (q - at) (ground arith))
      | inr b ↦ rw b
    ])

-- A request of n bytes from `position` on that lies inside the file.
module _ (h : FileHeader) (disk : Disk) (n position : ℕ) (d : IsOnDisk h disk) (z : 0 < n)
    (l : position + n ≤ h.num_bytes) where
  abbrev pub first_block : ℕ
  first_block = position / 128

  abbrev pub last_block : ℕ
  last_block = (position + n - 1) / 128

  abbrev pub blocks : ℕ
  blocks = 1 + last_block - first_block

  abbrev pub fill_first : Bool
  fill_first = not (position == first_block * 128)

  abbrev pub fill_last : Bool
  fill_last =
      not (position + n == (last_block + 1) * 128)
      && (not (first_block == last_block) || position == first_block * 128)

  -- Outside the bytes to be written the buffer holds the bytes of the file.
  pub buffered :
      (b₀ b₁ b₂ q : ℕ)
      → b₁ ≡ (
          if fill_first && between 0 (min 128 (h.num_bytes - first_block * 128)) q
          then file_byte h disk (first_block * 128 + (q - 0))
          else b₀)
      → b₂ ≡ (
          if fill_last
            && between
                ((last_block - first_block) * 128)
                (min 128 (h.num_bytes - last_block * 128))
                q
          then file_byte h disk (last_block * 128 + (q - (last_block - first_block) * 128))
          else b₁)
      → q < blocks * 128
      → first_block * 128 + q < h.num_bytes
      → between (position - first_block * 128) n q ≡ false
      → b₂ ≡ file_byte h disk (first_block * 128 + q)
  buffered b₀ b₁ b₂ q e₁ e₂ r s t = ground (
    arith,
    ap (file_byte h disk) at_first,
    λ (a : (last_block - first_block) * 128 ≤ q). ap (file_byte h disk) (at_last a),
  )
    where
      at_first : first_block * 128 + (q - 0) ≡ first_block * 128 + q
      at_first = omega arith

      at_last :
          (last_block - first_block) * 128 ≤ q
          → last_block * 128 + (q - (last_block - first_block) * 128) ≡ first_block * 128 + q
      at_last a = omega arith

-- What a write of k bytes at `position` leaves of the file and of the disk.
pub record Splices (h : FileHeader) (disk : Disk) (from : List ℕ) (k position : ℕ) (disk' : Disk)
    : Type 0 where
  pub on_disk : IsOnDisk h disk'
  pub bytes :
      (p : ℕ)
      → p < h.num_bytes
      → file_byte h disk' p
        ≡ (if between position k p then get_or from (p - position) 0 else file_byte h disk p)
  pub others : (s : ℕ) → has_sector h 0 h.num_sectors s ≡ false → disk'.sector s ≡ disk.sector s

has_sector_part :
    (h : FileHeader) (i n m s : ℕ)
    → i + n ≤ m
    → has_sector h 0 m s ≡ false
    → has_sector h i n s ≡ false
has_sector_part h i n m s l e = not_has_sector h i n s λ j a b r.
    let here : has_sector h 0 m s ≡ true =
      rw (← r) (has_sector_self h 0 m j (omega arith) (omega arith)) in
    cc

pub Splices-Written :
    (h : FileHeader) (disk disk' : Disk) (from buf : List ℕ) (n position : ℕ)
    → Distinct h
    → IsOnDisk h disk
    → 0 < n
    → position + n ≤ h.num_bytes
    → Written (position / 128) (1 + (position + n - 1) / 128 - position / 128) h buf disk disk'
    → ((q : ℕ)
        → q < (1 + (position + n - 1) / 128 - position / 128) * 128
        → position / 128 * 128 + q < h.num_bytes
        → get_or buf q 0 ≡ (
            if between (position - position / 128 * 128) n q
            then get_or from (q - (position - position / 128 * 128)) 0
            else file_byte h disk (position / 128 * 128 + q)))
    → Splices h disk from n position disk'
unfolding file_byte
Splices-Written h disk disk' from buf n position c d z l w f = record {
  on_disk = w.on_disk;
  bytes = λ p a. elim (Bool-cases (between first count (p / 128))) [
    | inl b ↦
        w.inside (p / 128) (p % 128) (ground arith) (ground arith) (omega arith)
        ∙ ap (λ k. get_or buf k 0) (index p (ground arith))
        ∙ f (p - first * 128) (ground arith) (ground arith)
        ∙ moved p (ground arith)
    | inr b ↦
        ap (λ (x : List ℕ). get_or x (p % 128) 0)
          (w.outside (sector h (p / 128))
            (not_has_sector h first count (sector h (p / 128)) (apart p a b)))
        ∙ kept p (ground arith)
  ];
  others =
      λ s e. w.outside s (has_sector_part h first count h.num_sectors s (omega (arith, d.sized)) e);
}
  where
    first : ℕ
    first = position / 128

    count : ℕ
    count = 1 + (position + n - 1) / 128 - first

    index : (p : ℕ) → first ≤ p / 128 → (p / 128 - first) * 128 + p % 128 ≡ p - first * 128
    index p a = omega arith

    moved :
        (p : ℕ)
        → first * 128 ≤ p
        → (if between (position - first * 128) n (p - first * 128)
            then get_or from (p - first * 128 - (position - first * 128)) 0
            else file_byte h disk (first * 128 + (p - first * 128)))
          ≡ (if between position n p then get_or from (p - position) 0 else file_byte h disk p)
    moved p a =
        let here : first * 128 + (p - first * 128) ≡ p = omega arith in
        let there : p - first * 128 - (position - first * 128) ≡ p - position = omega arith in
        let same : between (position - first * 128) n (p - first * 128) ≡ between position n p =
          ground arith in
        rw same (
          ap₂ (λ u v. if between position n p then get_or from u 0 else file_byte h disk v) there
            here)

    apart :
        (p : ℕ)
        → p < h.num_bytes
        → between first count (p / 128) ≡ false
        → (j : ℕ) → first ≤ j
        → j < first + count
        → sector h j ≢ sector h (p / 128)
    apart p a b j u v = elim (lt-cases j (p / 128)) [
      | inl less ↦ c j (p / 128) less (omega (arith, d.sized))
      | inr more ↦ elim (ℕ_discrete j (p / 128)) [
        | yes same ↦ absurd (ground arith)
        | no other ↦ λ e. c (p / 128) j (omega arith) (omega (arith, d.sized)) (sym e)
      ]
    ]

    kept :
        (p : ℕ)
        → between position n p ≡ false
        → file_byte h disk p
          ≡ (if between position n p then get_or from (p - position) 0 else file_byte h disk p)
    kept p b = rw b
