-- ===== src/AddrSpace/Tests.antt =====
-- The theorems on address spaces at a program of 100 bytes on a machine with two frames.
use operating_systems_assign.Prelude.{
  ℕ, ◌≡◌, Bool, none, some, List, [], ◌∷◌, replicate, length, arith, div_round_up,
}
use operating_systems_assign.BitMap.{BitMap}
use operating_systems_assign.BitMap.View.{IsValid}
use operating_systems_assign.AddrSpace.{
  Segment, NoffHeader, AddrSpace, num_pages, addr_space, load_from_executable,
}
use operating_systems_assign.AddrSpace.Consistent.{IsConsistent, contents}
use operating_systems_assign.AddrSpace.Load.{Loads, load_from_executable_lem}
use operating_systems_assign.AddrSpace.Create.{addr_space_lem}

abbrev segment_of : ℕ → Segment
segment_of n = record { virtual_addr = 0; in_file_addr = 40; size = n }

abbrev program : NoffHeader
program = record { code = segment_of 100; init_data = segment_of 0; uninit_data = segment_of 0 }

abbrev two_frames : BitMap
two_frames = record { num_bits = 2; num_words = 1; map = 1 ∷ [] }

two_frames-IsValid : IsValid two_frames
two_frames-IsValid = record { stored = omega arith; small = omega arith }

abbrev zero_pages : ℕ → List ℕ
zero_pages f = replicate 128 0

abbrev new_space : AddrSpace
new_space = addr_space program zero_pages zero_pages two_frames

new_space_facts :
    (length new_space.page_table ≡ 9)
    × IsConsistent new_space
    × ((p : ℕ) → contents new_space p ≡ none)
unfolding num_pages div_round_up
new_space_facts = addr_space_lem program zero_pages zero_pages two_frames two_frames-IsValid

load_from_executable_example :
    (r : Bool × AddrSpace) × (load_from_executable (λ n position. replicate n 7) new_space 3
      ≡ some r)
    × Loads new_space 3 r
unfolding num_pages div_round_up
load_from_executable_example =
    load_from_executable_lem (λ n position. replicate n 7) new_space 3 new_space_facts.1
      (omega (arith, new_space_facts.0))
