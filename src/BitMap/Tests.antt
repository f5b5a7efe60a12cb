-- ===== src/BitMap/Tests.antt =====
-- The bitmap theorems at a map of ten bits, of which bits 0 and 2 are set.
use operating_systems_assign.Prelude.{ℕ, ◌≡◌, Option, some, [], ◌∷◌, arith}
use operating_systems_assign.BitMap.{BitMap, find}
use operating_systems_assign.BitMap.View.{IsValid}
use operating_systems_assign.BitMap.Find.{Finds, find_lem}

abbrev ten_bits : BitMap
ten_bits = record { num_bits = 10; num_words = 1; map = 5 ∷ [] }

ten_bits-IsValid : IsValid ten_bits
ten_bits-IsValid = record { stored = omega arith; small = omega arith }

find_example : (r : Option ℕ × BitMap) × (find ten_bits ≡ some r) × Finds ten_bits 0 r
find_example = find_lem ten_bits ten_bits-IsValid
