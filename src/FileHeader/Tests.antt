-- ===== src/FileHeader/Tests.antt =====
-- The theorems on file headers at a map of forty bits, all clear or all set.
use operating_systems_assign.Prelude.{
  ℕ, zero, suc, ◌<◌, ◌≡◌, ◌≢◌, refl, true, none, some, [], ◌∷◌, arith, replicate, div_round_up,
}
use operating_systems_assign.Prelude.Bits.{digit}
use operating_systems_assign.BitMap.{BitMap, word}
use operating_systems_assign.BitMap.View.{IsValid, bit}
use operating_systems_assign.BitMap.Find.{clear_count, total_clear}
use operating_systems_assign.FileHeader.{FileHeader, sized, allocate, deallocate}
use operating_systems_assign.FileHeader.Allocation.{
  sector, Allocated, allocate_lem, allocate_overruns,
}
use operating_systems_assign.FileHeader.Free.{Owns, deallocate-allocate}

abbrev clear_map : BitMap
clear_map = record { num_bits = 40; num_words = 2; map = 0 ∷ 0 ∷ [] }

abbrev full_map : BitMap
full_map = record { num_bits = 4; num_words = 1; map = 15 ∷ [] }

abbrev fresh : FileHeader
fresh = record { num_bytes = 0; num_sectors = 0; data_sectors = replicate 30 7 }

-- A file of the sectors 2 and 1.
abbrev two_sectors : FileHeader
two_sectors = record { num_bytes = 200; num_sectors = 2; data_sectors = 2 ∷ 1 ∷ replicate 28 0 }

clear_map-IsValid : IsValid clear_map
clear_map-IsValid = record { stored = omega arith; small = omega arith }

full_map-IsValid : IsValid full_map
full_map-IsValid = record { stored = omega arith; small = omega arith }

clear_map-total : total_clear clear_map ≡ 40
unfolding total_clear clear_count bit word digit
clear_map-total = refl

full_map-total : total_clear full_map ≡ 0
unfolding total_clear clear_count bit word digit
full_map-total = refl

allocate_example :
    (h' : FileHeader) × (b' : BitMap) × (allocate fresh clear_map 300 ≡ some (true, h', b'))
    × (h'.num_bytes ≡ 300)
    × (h'.num_sectors ≡ 3)
    × Allocated clear_map 0 3 (sized fresh 300) h' b'
unfolding div_round_up
allocate_example =
    allocate_lem fresh clear_map 300 clear_map-IsValid refl (omega (arith, clear_map-total))
      (omega arith)

allocate_overruns_example : allocate fresh clear_map 4000 ≡ none
unfolding div_round_up
allocate_overruns_example =
    allocate_overruns fresh clear_map 4000 clear_map-IsValid (omega (arith, clear_map-total))
      (omega arith)

deallocate-allocate_example :
    (h' : FileHeader) × (b' b'' : BitMap) × (allocate fresh clear_map 300 ≡ some (true, h', b'))
    × (deallocate h' b' ≡ some b'')
    × ((s : ℕ) → bit b'' s ≡ bit clear_map s)
unfolding div_round_up
deallocate-allocate_example =
    deallocate-allocate fresh clear_map 300 clear_map-IsValid refl (omega (arith, clear_map-total))
      (omega arith)

first_two {ℓ} : (P : ℕ → Type ℓ) → P 0 → P 1 → (j : ℕ) → j < 2 → P j
first_two P p q zero l = p
first_two P p q (suc zero) l = q
first_two P p q (suc (suc j)) l = absurd (omega arith)

two_sectors-Owns : Owns two_sectors 0 2 full_map
unfolding bit word digit
two_sectors-Owns = record {
  within = λ j p q. first_two (λ j. sector two_sectors j < 4) (omega arith) (omega arith) j q;
  marked = λ j p q. first_two (λ j. bit full_map (sector two_sectors j) ≡ true) refl refl j q;
  distinct = λ j k p q l. distinct j k q l;
}
  where
    distinct : (j k : ℕ) → j < k → k < 2 → sector two_sectors j ≢ sector two_sectors k
    distinct zero zero q l = absurd (omega arith)
    distinct zero (suc zero) q l = λ e. absurd (omega arith)
    distinct (suc j) (suc zero) q l = absurd (omega arith)
    distinct j (suc (suc k)) q l = absurd (omega arith)
    distinct (suc j) zero q l = absurd (omega arith)
