-- ===== src/LinkedList/Tests.antt =====
-- The theorems on sorted lists at a list of two elements.
use operating_systems_assign.Prelude.{ℕ, ◌+◌, ◌≡◌, refl, ◌&&◌, [], ◌∷◌, ◌==◌, if◌then◌else◌}
use operating_systems_assign.LinkedList.{ListElement, LinkedList, int_lt, sorted_insert}
use operating_systems_assign.LinkedList.Sorted.{AllFrom, IsSorted, count, sorted_insert_lem}

abbrev two_elements : LinkedList
two_elements = record { item = 7; key = 10 } ∷ record { item = 8; key = 30 } ∷ []

two_elements-IsSorted : IsSorted two_elements
unfolding IsSorted AllFrom int_lt
two_elements-IsSorted = ((refl, tt), (tt, tt))

sorted_insert_example :
    IsSorted (sorted_insert two_elements 9 20)
    × ((i k : ℕ)
        → count (sorted_insert two_elements 9 20) i k
          ≡ (if 9 == i && 20 == k then 1 else 0) + count two_elements i k)
sorted_insert_example = sorted_insert_lem two_elements 9 20 two_elements-IsSorted

abbrev first_element : ListElement
first_element = record { item = 7; key = 10 }

abbrev later_elements : LinkedList
later_elements = record { item = 8; key = 30 } ∷ []
