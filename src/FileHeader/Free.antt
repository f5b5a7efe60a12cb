-- ===== src/FileHeader/Free.antt =====
-- What Deallocate gives back to the free map.
use operating_systems_assign.Prelude.{
  ℕ, zero, suc, ◌+◌, ◌≤◌, ◌<◌, ◌≡◌, refl, ap, subst, ◌∙◌, ◌≢◌, inl, inr, true, false, not, ◌&&◌,
  some, none, length, lt→ltb, arith, ℕ_discrete, Bool-cases,
}
use operating_systems_assign.BitMap.{BitMap}
use operating_systems_assign.BitMap.View.{IsValid, bit, Writes, test_lem, clear_lem}
use operating_systems_assign.BitMap.Find.{total_clear}
use operating_systems_assign.FileHeader.{
  FileHeader, num_direct, sized, allocate, deallocate_loop, deallocate,
}
use operating_systems_assign.FileHeader.Allocation.{
  sector, has_sector, Allocated, sectors_for, allocate_lem,
}

-- The n entries from i on are distinct marked sectors of the map.
pub record Owns (h : FileHeader) (i n : ℕ) (b : BitMap) : Type 0 where
  pub within : (j : ℕ) → i ≤ j → j < i + n → sector h j < b.num_bits
  pub marked : (j : ℕ) → i ≤ j → j < i + n → bit b (sector h j) ≡ true
  pub distinct : (j k : ℕ) → i ≤ j → j < k → k < i + n → sector h j ≢ sector h k

deallocate_loop_lem :
    (n i : ℕ) (h : FileHeader) (b : BitMap)
    → IsValid b
    → i + n ≤ num_direct
    → Owns h i n b
    → (b' : BitMap) × (deallocate_loop n i h b ≡ some b')
      × IsValid b'
      × (b'.num_bits ≡ b.num_bits)
      × ((s : ℕ) → bit b' s ≡ (not (has_sector h i n s) && bit b s))
unfolding deallocate_loop has_sector
deallocate_loop_lem zero i h b v r o = (b, refl, v, refl, λ s. refl)
deallocate_loop_lem (suc n) i h b v r o =
    let (c, e, w) = clear_lem b (sector h i) v here in
    let (b', p, v', m, bits) = deallocate_loop_lem n (i + 1) h c w.valid (omega arith) (rest c w) in
    (
      b',
      rw
          (
            lt→ltb i 30 (omega arith),
            test_lem b (sector h i) v here,
            o.marked i (omega arith) (omega arith),
            e,
          )
          p,
      v',
      m ∙ w.same_bits,
      λ s. ground (arith, bits s, w.bits s),
    )
  where
    here : sector h i < b.num_bits
    here = o.within i (omega arith) (omega arith)

    rest : (c : BitMap) → Writes b (sector h i) false c → Owns h (i + 1) n c
    rest c w = record {
      within = λ j p q. omega (arith, o.within j (omega arith) (omega arith), w.same_bits);
      marked = λ j p q. ground (
        arith,
        w.bits (sector h j),
        o.marked j (omega arith) (omega arith),
        o.distinct i j (omega arith) (omega arith) (omega arith),
      );
      distinct = λ j k p q l. o.distinct j k (omega arith) q (omega arith);
    }

-- Deallocate of a header of at most 30 sectors, which are distinct and marked in a valid map, clears
-- these sectors and no other bit, and the map stays valid.
pub deallocate_lem :
    (h : FileHeader) (b : BitMap)
    → IsValid b
    → h.num_sectors ≤ num_direct
    → Owns h 0 h.num_sectors b
    → (b' : BitMap) × (deallocate h b ≡ some b')
      × IsValid b'
      × (b'.num_bits ≡ b.num_bits)
      × ((s : ℕ) → bit b' s ≡ (not (has_sector h 0 h.num_sectors s) && bit b s))
unfolding deallocate
deallocate_lem h b v r o = deallocate_loop_lem h.num_sectors 0 h b v (omega arith) o

pub has_sector_marked :
    (h : FileHeader) (i n s : ℕ)
    → has_sector h i n s ≡ true
    → (j : ℕ) × (i ≤ j) × (j < i + n) × (sector h j ≡ s)
unfolding has_sector
has_sector_marked h i zero s e = cc
has_sector_marked h i (suc n) s e = elim (ℕ_discrete (sector h i) s) [
  | yes p ↦ (i, omega arith, omega arith, p)
  | no p ↦
      let (j, a, c, q) = has_sector_marked h (i + 1) n s (ground arith) in
      (j, omega arith, omega arith, q)
]

pub has_sector_self :
    (h : FileHeader) (i n j : ℕ) → i ≤ j → j < i + n → has_sector h i n (sector h j) ≡ true
unfolding has_sector
has_sector_self h i zero j p q = absurd (omega arith)
has_sector_self h i (suc n) j p q = elim (ℕ_discrete i j) [
  | yes e ↦ ground (arith, ap (sector h) e)
  | no e ↦ ground (arith, has_sector_self h (i + 1) n j (omega arith) (omega arith))
]

deallocate_loop_fails :
    (n i : ℕ) (h : FileHeader) (b : BitMap)
    → IsValid b
    → 0 < n
    → sector h i < b.num_bits
    → bit b (sector h i) ≡ false
    → deallocate_loop n i h b ≡ none
unfolding deallocate_loop
deallocate_loop_fails zero i h b v z l e = absurd (omega arith)
deallocate_loop_fails (suc n) i h b v z l e = ground (arith, test_lem b (sector h i) v l)

-- For a file of 1 to 30 sectors, which are distinct and marked in a valid map: Deallocate a second
-- time fails the ASSERT that the sectors are marked.
pub deallocate_twice :
    (h : FileHeader) (b b' : BitMap)
    → IsValid b
    → 0 < h.num_sectors
    → h.num_sectors ≤ num_direct
    → Owns h 0 h.num_sectors b
    → deallocate h b ≡ some b'
    → deallocate h b' ≡ none
unfolding deallocate
deallocate_twice h b b' v z r o e =
    let (c, p, v', m, bits) = deallocate_loop_lem h.num_sectors 0 h b v (omega arith) o in
    let same : c ≡ b' = cc in
    subst (λ x. deallocate_loop h.num_sectors 0 h x ≡ none) same
      (deallocate_loop_fails h.num_sectors 0 h c v' z
        (omega (arith, o.within 0 (omega arith) (omega arith), m))
        (ground (
          arith,
          bits (sector h 0),
          has_sector_self h 0 h.num_sectors 0 (omega arith) (omega arith),
        )))

-- What Allocate took is owned.
pub Allocated-Owns :
    (b b' : BitMap) (n : ℕ) (g h : FileHeader) → Allocated b 0 n g h b' → Owns h 0 n b'
Allocated-Owns b b' n g h a = record {
  within = λ j p q. omega (arith, a.within j p q, a.same_bits);
  marked = λ j p q. ground (arith, a.bits (sector h j), has_sector_self h 0 n j p q);
  distinct = a.distinct;
}

-- With enough clear sectors in a valid map, and a file of at most 30 sectors: Deallocate of what
-- Allocate has just taken gives back the free map, bit for bit.
pub deallocate-allocate :
    (h : FileHeader) (b : BitMap) (file_size : ℕ)
    → IsValid b
    → length h.data_sectors ≡ num_direct
    → sectors_for file_size ≤ total_clear b
    → sectors_for file_size ≤ num_direct
    → (h' : FileHeader) × (b' b'' : BitMap) × (allocate h b file_size ≡ some (true, h', b'))
      × (deallocate h' b' ≡ some b'')
      × ((s : ℕ) → bit b'' s ≡ bit b s)
unfolding deallocate
deallocate-allocate h b file_size v l c r =
    let (h', b', p, _, m, a) = allocate_lem h b file_size v l c r in
    let own = Allocated-Owns b b' (sectors_for file_size) (sized h file_size) h' a in
    let (b'', q, _, _, bits) =
      deallocate_loop_lem (sectors_for file_size) 0 h' b' a.valid (omega (arith, r)) own in
    (h', b', b'', p, ap (λ n. deallocate_loop n 0 h' b') m ∙ q, λ s. back h' b' b'' a bits s)
  where
    back :
        (h' : FileHeader) (b' b'' : BitMap)
        → Allocated b 0 (sectors_for file_size) (sized h file_size) h' b'
        → ((s : ℕ) → bit b'' s ≡ (not (has_sector h' 0 (sectors_for file_size) s) && bit b' s))
        → (s : ℕ) → bit b'' s ≡ bit b s
    back h' b' b'' a bits s = elim (Bool-cases (has_sector h' 0 (sectors_for file_size) s)) [
      | inl e ↦
          let (j, p, q, same) = has_sector_marked h' 0 (sectors_for file_size) s e in
          let free : bit b s ≡ false = rw (← same) (a.was_clear j p q) in ground (arith, bits s)
      | inr e ↦ ground (arith, bits s, a.bits s)
    ]
