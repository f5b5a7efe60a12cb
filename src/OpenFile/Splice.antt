-- ===== src/OpenFile/Splice.antt =====
-- WriteAt against the bytes of the file, and ReadAt after WriteAt.
use operating_systems_assign.Prelude.{
  ℕ, ◌+◌, ◌-◌, ◌*◌, ◌/◌, ◌^◌, ◌≤◌, ◌<◌, ◌≡◌, refl, ap, sym, ◌∙◌, Bool, not, ◌&&◌, ◌||◌, some, List,
  ◌==◌, if◌then◌else◌, length, length-take, get_or, take, min, arith, inl, inr, ◌>>=◌, Bool-cases,
}
use operating_systems_assign.FileHeader.{FileHeader, sector_size, file_length}
use operating_systems_assign.OpenFile.{
  Disk, read_at, write_sectors, fill_sector, copy_into, write_range, write_at,
}
use operating_systems_assign.OpenFile.Bytes.{
  get_or-take, eq-tabulate, length-copy_into, get_or-copy_into, between,
}
use operating_systems_assign.OpenFile.Read.{
  IsOnDisk, file_byte, read_at_lem, clip_lem, out_of_file_lem,
}
use operating_systems_assign.OpenFile.Write.{Distinct, Written, write_sectors_lem}
use operating_systems_assign.OpenFile.WriteAt.{fill_sector_lem, buffered, Splices, Splices-Written}

module _ (memory : ℕ → List ℕ) (h : FileHeader) (disk : Disk) (from : List ℕ)
    (fresh : (k : ℕ) → length (memory k) ≡ k) (c : Distinct h) (d : IsOnDisk h disk) where
  module _ (n position : ℕ) (z : 0 < n) (l : position + n ≤ h.num_bytes) (m : n ≤ length from) where
    abbrev first : ℕ
    first = position / 128

    abbrev last : ℕ
    last = (position + n - 1) / 128

    abbrev count : ℕ
    count = 1 + last - first

    abbrev start : ℕ
    start = position - first * 128

    abbrev partial_first : Bool
    partial_first = not (position == first * 128)

    abbrev partial_last : Bool
    partial_last =
        not (position + n == (last + 1) * 128) && (not (first == last) || position == first * 128)

    abbrev Filled : Bool → ℕ → ℕ → List ℕ → List ℕ → Type 0
    Filled test i at buf buf' =
        (q : ℕ)
        → get_or buf' q 0 ≡ (
            if test && between at (min sector_size (h.num_bytes - i * sector_size)) q
            then file_byte h disk (i * sector_size + (q - at))
            else get_or buf q 0)

    taken : length (take n from) ≡ n
    taken = omega (arith, length-take n from)

    -- The buffer that goes to the disk.
    buffer_lem :
        (b₁ b₂ : List ℕ)
        → Filled partial_first first 0 (memory (count * 128)) b₁
        → Filled partial_last last ((last - first) * 128) b₁ b₂
        → start + length (take n from) ≤ length b₂
        → (q : ℕ) → q < count * 128
        → first * 128 + q < h.num_bytes
        → get_or (copy_into b₂ start (take n from)) q 0 ≡ (
            if between start n q
            then get_or from (q - start) 0
            else file_byte h disk (first * 128 + q))
    buffer_lem b₁ b₂ f₁ f₂ room q r s =
        get_or-copy_into b₂ start (take n from) q room
        ∙ rw taken (elim (Bool-cases (between start n q)) [
          | inl b ↦ rw b (get_or-take n from (q - start) (ground arith))
          | inr b ↦ rw b (
              buffered h disk n position d z l (get_or (memory (count * 128)) q 0) (get_or b₁ q 0)
                (get_or b₂ q 0) q (f₁ q) (f₂ q) r s b)
        ])

    finish :
        (b₁ b₂ : List ℕ)
        → length b₂ ≡ count * 128
        → Filled partial_first first 0 (memory (count * 128)) b₁
        → Filled partial_last last ((last - first) * 128) b₁ b₂
        → (disk' : Disk) × (write_sectors count first h disk (copy_into b₂ start (take n from))
            ≡ some disk')
          × Splices h disk from n position disk'
    finish b₁ b₂ size f₁ f₂ = written (
        write_sectors_lem count first h disk (copy_into b₂ start (take n from)) d c
          (omega (arith, d.sized)) (length-copy_into b₂ start (take n from) room ∙ size))
      where
        room : start + length (take n from) ≤ length b₂
        room = omega (arith, size, taken)

        written :
            (disk' : Disk) × (write_sectors count first h disk (copy_into b₂ start (take n from))
                ≡ some disk')
              × Written first count h (copy_into b₂ start (take n from)) disk disk'
            → (disk' : Disk) × (write_sectors count first h disk (copy_into b₂ start (take n from))
                ≡ some disk')
              × Splices h disk from n position disk'
        written (disk', e, w) = (
          disk',
          e,
          Splices-Written h disk disk' from (copy_into b₂ start (take n from)) n position c d z l w
              (buffer_lem b₁ b₂ f₁ f₂ room),
        )

    write_range_steps :
        (b₁ b₂ : List ℕ) (disk' : Disk)
        → fill_sector partial_first h disk first 0 (memory (count * 128)) ≡ some b₁
        → fill_sector partial_last h disk last ((last - first) * 128) b₁ ≡ some b₂
        → write_sectors count first h disk (copy_into b₂ start (take n from)) ≡ some disk'
        → write_range memory h disk from n position ≡ some disk'
    unfolding write_range
    write_range_steps b₁ b₂ disk' e₁ e₂ e₃ = rw (e₁, e₂) e₃

    abbrev Result : Type 0
    Result =
        (disk' : Disk) × (write_range memory h disk from n position ≡ some disk')
        × Splices h disk from n position disk'

    after_last :
        (b₁ : List ℕ)
        → fill_sector partial_first h disk first 0 (memory (count * 128)) ≡ some b₁
        → length b₁ ≡ count * 128
        → Filled partial_first first 0 (memory (count * 128)) b₁
        → (b₂ : List ℕ) × (fill_sector partial_last h disk last ((last - first) * 128) b₁ ≡ some b₂)
          × (length b₂ ≡ length b₁)
          × Filled partial_last last ((last - first) * 128) b₁ b₂
        → Result
    after_last b₁ e₁ s₁ f₁ (b₂, e₂, s₂, f₂) =
        let (disk', e₃, w) = finish b₁ b₂ (s₂ ∙ s₁) f₁ f₂ in
        (disk', write_range_steps b₁ b₂ disk' e₁ e₂ e₃, w)

    after_first :
        (b₁ : List ℕ) × (fill_sector partial_first h disk first 0 (memory (count * 128)) ≡ some b₁)
          × (length b₁ ≡ length (memory (count * 128)))
          × Filled partial_first first 0 (memory (count * 128)) b₁
        → Result
    after_first (b₁, e₁, s₁, f₁) = after_last b₁ e₁ (s₁ ∙ fresh (count * 128)) f₁ (
        fill_sector_lem partial_last h disk last ((last - first) * 128) b₁ d
          (omega (arith, s₁, fresh (count * 128))))

    write_range_lem : Result
    write_range_lem = after_first (
        fill_sector_lem partial_first h disk first 0 (memory (count * 128)) d
          (omega (arith, fresh (count * 128))))

  -- For a file on the disk with distinct sectors, buffers of the size asked for, and a position and a
  -- number of bytes whose sum is an int: WriteAt returns,
  -- with the number of bytes that lie inside the file, and has written these; the other bytes of
  -- the file and the other sectors of the disk are as they were.
  pub write_at_lem :
      (n position : ℕ)
      → n ≤ length from
      → position + n < 2 ^ 31
      → (disk' : Disk) × (write_at memory h disk from n position
          ≡ some (min n (h.num_bytes - position), disk'))
        × Splices h disk from (min n (h.num_bytes - position)) position disk'
  unfolding write_at file_length
  write_at_lem n position m small = elim (out_of_file_lem h n position) [
    | inl (out, e) ↦ (disk, rw (out, e) refl, rw e unchanged)
    | inr (inside, z) ↦
        let (disk', e, w) =
          write_range_lem (min n (h.num_bytes - position)) position z (omega arith) (omega arith) in
        (disk', rw (inside, clip_lem h.num_bytes n position small, e) refl, w)
  ]
    where
      unchanged : Splices h disk from 0 position disk
      unchanged = record { on_disk = d; bytes = λ p a. ground arith; others = λ s e. refl }

  -- For a file on the disk with distinct sectors, buffers of the size asked for, and a position and a
  -- number of bytes whose sum is an int: ReadAt after WriteAt at the same position returns the bytes written, up to the end of the file.
  pub read_at-write_at :
      (n position : ℕ)
      → n ≤ length from
      → position + n < 2 ^ 31
      → (write_at memory h disk from n position >>= λ r. read_at h r.1 n position)
        ≡ some (take (min n (h.num_bytes - position)) from)
  read_at-write_at n position m small = read_back (write_at_lem n position m small)
    where
      k : ℕ
      k = min n (h.num_bytes - position)

      read_back :
          (disk' : Disk) × (write_at memory h disk from n position ≡ some (k, disk'))
            × Splices h disk from k position disk'
          → (write_at memory h disk from n position >>= λ r. read_at h r.1 n position)
            ≡ some (take k from)
      read_back (disk', e, w) = rw e (
          read_at_lem h disk' n position w.on_disk small
          ∙ ap some (
              sym (
                eq-tabulate (take k from) (file_byte h disk') position k
                  (omega (arith, length-take k from))
                  λ i q.
                    get_or-take k from i q
                    ∙ sym (w.bytes (position + i) (omega arith) ∙ ground arith))))
