-- ===== src/FileHeader/Allocation.antt =====
-- What Allocate takes from the free map and what Deallocate gives back.
use operating_systems_assign.Prelude.{
  ℕ, zero, suc, ◌+◌, ◌≤◌, ◌<◌, ◌≡◌, refl, ap, ◌∙◌, ◌≢◌, inl, inr, Bool, true, false, ◌||◌, none,
  some, length, length-set, get_or, set, get_or-set_self, get_or-set_ne, lt→ltb, le→ltb, ◌==◌,
  arith, div_round_up, ℕ_discrete, lt-cases,
}
use operating_systems_assign.BitMap.{BitMap}
use operating_systems_assign.BitMap.View.{IsValid, bit}
use operating_systems_assign.BitMap.Find.{
  Found, find_clear, total_clear, total_clear-Writes, num_clear_lem,
}
use operating_systems_assign.FileHeader.{
  FileHeader, sector_size, num_direct, sized, allocate_loop, allocate,
}

-- Entry j of the table.
abbrev pub sector : FileHeader → ℕ → ℕ
sector h j = get_or h.data_sectors j 0

-- Is s one of the n entries from i on?
unfoldable pub has_sector : FileHeader → ℕ → ℕ → ℕ → Bool
has_sector h i zero s = false
has_sector h i (suc n) s = (sector h i == s) || has_sector h (i + 1) n s

-- The n entries from i on have been taken from the map b.
pub record Allocated (b : BitMap) (i n : ℕ) (h h' : FileHeader) (b' : BitMap) : Type 0 where
  pub valid : IsValid b'
  pub same_bits : b'.num_bits ≡ b.num_bits
  pub same_bytes : h'.num_bytes ≡ h.num_bytes
  pub same_sectors : h'.num_sectors ≡ h.num_sectors
  pub same_length : length h'.data_sectors ≡ length h.data_sectors
  pub kept : (j : ℕ) → j < i → sector h' j ≡ sector h j
  pub within : (j : ℕ) → i ≤ j → j < i + n → sector h' j < b.num_bits
  pub distinct : (j k : ℕ) → i ≤ j → j < k → k < i + n → sector h' j ≢ sector h' k
  pub was_clear : (j : ℕ) → i ≤ j → j < i + n → bit b (sector h' j) ≡ false
  pub bits : (s : ℕ) → bit b' s ≡ has_sector h' i n s || bit b s
  pub count : total_clear b' + n ≡ total_clear b

module _ (b : BitMap) (i n : ℕ) (h h' : FileHeader) (b' : BitMap) where
  Allocated-step :
      (k : ℕ) (b₁ : BitMap)
      → i < length h.data_sectors
      → Found b 0 k b₁
      → Allocated b₁ (i + 1) n (record h { data_sectors = set h.data_sectors i k }) h' b'
      → Allocated b i (suc n) h h' b'
  unfolding has_sector
  Allocated-step k b₁ l f a =
      let first : sector h' i ≡ k =
        a.kept i (omega arith) ∙ get_or-set_self h.data_sectors i k 0 l in
      record {
        valid = a.valid;
        same_bits = omega (arith, a.same_bits, f.writes.same_bits);
        same_bytes = a.same_bytes;
        same_sectors = a.same_sectors;
        same_length = omega (arith, a.same_length, length-set h.data_sectors i k);
        kept = λ j p. a.kept j (omega arith) ∙ get_or-set_ne h.data_sectors i j k 0 (omega arith);
        within = λ j p q. elim (ℕ_discrete i j) [
          | yes e ↦ rw (← e) (omega (arith, first, f.within))
          | no e ↦ omega (arith, a.within j (omega arith) (omega arith), f.writes.same_bits)
        ];
        distinct = λ j m p q r. elim (ℕ_discrete i j) [
          | yes e ↦
              let later = a.was_clear m (omega arith) (omega arith) in
              rw (← e, first) (λ same. ground (arith, later, f.writes.bits k, ap (bit b₁) same))
          | no e ↦ a.distinct j m (omega arith) q (omega arith)
        ];
        was_clear = λ j p q. elim (ℕ_discrete i j) [
          | yes e ↦ rw (← e, first) f.was_clear
          | no e ↦
              ground (arith, a.was_clear j (omega arith) (omega arith), f.writes.bits (sector h' j))
        ];
        bits = λ s. ground (arith, first, a.bits s, f.writes.bits s);
        count = omega (arith, a.count, total_clear-Writes b k b₁ f.was_clear f.within f.writes);
      }

-- With enough clear bits and room in the table the loop finds a sector in every round.
allocate_loop_lem :
    (n i : ℕ) (h : FileHeader) (b : BitMap)
    → IsValid b
    → n ≤ total_clear b
    → i + n ≤ num_direct
    → length h.data_sectors ≡ num_direct
    → (h' : FileHeader) × (b' : BitMap) × (allocate_loop n i h b ≡ some (h', b'))
      × Allocated b i n h h' b'
unfolding allocate_loop has_sector
allocate_loop_lem zero i h b v c r l = (
  h,
  b,
  refl,
  record {
    valid = v;
    same_bits = refl;
    same_bytes = refl;
    same_sectors = refl;
    same_length = refl;
    kept = λ j p. refl;
    within = λ j p q. absurd (omega arith);
    distinct = λ j m p q s. absurd (omega arith);
    was_clear = λ j p q. absurd (omega arith);
    bits = λ s. refl;
    count = omega arith;
  },
)
allocate_loop_lem (suc n) i h b v c r l =
    let (k, b₁, e, f) = find_clear b v (omega arith) in
    let (h', b', p, a) =
      allocate_loop_lem n (i + 1) (record h { data_sectors = set h.data_sectors i k }) b₁
        f.writes.valid (omega (arith, c, total_clear-Writes b k b₁ f.was_clear f.within f.writes))
        (omega arith) (length-set h.data_sectors i k ∙ l) in
    (
      h',
      b',
      rw (lt→ltb i 30 (omega arith), e) p,
      Allocated-step b i n h h' b' k b₁ (omega arith) f a,
    )

-- Past the last entry of the table the loop writes outside it.
allocate_loop_overrun :
    (n i : ℕ) (h : FileHeader) (b : BitMap)
    → IsValid b
    → n ≤ total_clear b
    → i ≤ num_direct
    → num_direct < i + n
    → allocate_loop n i h b ≡ none
unfolding allocate_loop
allocate_loop_overrun zero i h b v c r l = absurd (omega arith)
allocate_loop_overrun (suc n) i h b v c r l = elim (lt-cases i num_direct) [
  | inl room ↦
      let (k, b₁, e, f) = find_clear b v (omega arith) in
      rw (lt→ltb i 30 room, e)
        (allocate_loop_overrun n (i + 1) _ b₁ f.writes.valid
          (omega (arith, c, total_clear-Writes b k b₁ f.was_clear f.within f.writes)) (omega arith)
          (omega arith))
  | inr full ↦ rw (le→ltb i 30 full)
]

abbrev pub sectors_for : ℕ → ℕ
sectors_for file_size = div_round_up file_size sector_size

-- With enough clear sectors in a valid map, a full table, and a file of at most 30 sectors, Allocate succeeds: it records the
-- size, and the entries that the file uses are distinct sectors that were clear and are now marked;
-- every other bit is as it was, and the count of clear ones has gone down by their number.
pub allocate_lem :
    (h : FileHeader) (b : BitMap) (file_size : ℕ)
    → IsValid b
    → length h.data_sectors ≡ num_direct
    → sectors_for file_size ≤ total_clear b
    → sectors_for file_size ≤ num_direct
    → (h' : FileHeader) × (b' : BitMap) × (allocate h b file_size ≡ some (true, h', b'))
      × (h'.num_bytes ≡ file_size)
      × (h'.num_sectors ≡ sectors_for file_size)
      × Allocated b 0 (sectors_for file_size) (sized h file_size) h' b'
unfolding allocate
allocate_lem h b file_size v l c r =
    let (h', b', p, a) =
      allocate_loop_lem (sectors_for file_size) 0 (sized h file_size) b v c (omega arith) l in
    (
      h',
      b',
      rw (num_clear_lem b v, le→ltb (total_clear b) (sectors_for file_size) c, p) refl,
      a.same_bytes,
      a.same_sectors,
      a,
    )

-- With too few clear sectors in a valid map Allocate returns FALSE and leaves the map alone.
pub allocate_no_space :
    (h : FileHeader) (b : BitMap) (file_size : ℕ)
    → IsValid b
    → total_clear b < sectors_for file_size
    → (h' : FileHeader) × (allocate h b file_size ≡ some (false, h', b))
unfolding allocate
allocate_no_space h b file_size v c = (
  sized h file_size,
  rw (num_clear_lem b v, lt→ltb (total_clear b) (sectors_for file_size) c) refl,
)

-- Allocate checks the free space only: for a file of more than 30 sectors that the disk has room
-- for, it writes past the end of dataSectors.
pub allocate_overruns :
    (h : FileHeader) (b : BitMap) (file_size : ℕ)
    → IsValid b
    → sectors_for file_size ≤ total_clear b
    → num_direct < sectors_for file_size
    → allocate h b file_size ≡ none
unfolding allocate
allocate_overruns h b file_size v c r =
    rw
      (
        num_clear_lem b v,
        le→ltb (total_clear b) (sectors_for file_size) c,
        allocate_loop_overrun (sectors_for file_size) 0 (sized h file_size) b v c (omega arith)
            (omega arith),
      )
      refl
