-- ===== src/BitMap.antt =====
-- dev2-filesys/nachos/code/userprog/bitmap.cc and bitmap.h (the copies of the other assignments are
-- the same file): a bitmap over 32-bit words. A method returns the new object; `none` is a failed
-- ASSERT.
pub mod View
pub mod Find
pub mod Create
mod Tests
use operating_systems_assign.Prelude.{
  ℕ, zero, suc, ◌+◌, ◌-◌, ◌/◌, ◌%◌, ◌^◌, bit_and, bit_or, Bool, true, false, not, ◌&&◌, Option,
  none, some, List, [], ◌∷◌, ltb, ◌==◌, if◌then◌else◌, get_or, set, ◌>>=◌, ◌>>◌, assert, is_nonneg,
  div_round_up, take,
}

pub record BitMap : Type 0 where
  pub num_bits : ℕ
  pub num_words : ℕ
  pub map : List ℕ

abbrev pub bits_in_word : ℕ
bits_in_word = 32

-- The condition of the three ASSERTs.
unfoldable pub in_range : BitMap → ℕ → Bool
in_range b which = is_nonneg which && ltb which b.num_bits

unfoldable pub word : BitMap → ℕ → ℕ
word b which = get_or b.map (which / bits_in_word) 0

pub mark : BitMap → ℕ → Option BitMap
mark b which = do
  assert (in_range b which)
  some (record b {
    map = set b.map (which / bits_in_word) (bit_or (word b which) (2 ^ (which % bits_in_word)));
  })

-- The complement of an unsigned word.
abbrev complement : ℕ → ℕ
complement w = 2 ^ 32 - 1 - w

unfoldable pub clear : BitMap → ℕ → Option BitMap
clear b which = do
  assert (in_range b which)
  some (record b {
    map =
        set b.map (which / bits_in_word)
          (bit_and (word b which) (complement (2 ^ (which % bits_in_word))));
  })

unfoldable pub test : BitMap → ℕ → Option Bool
test b which = do
  assert (in_range b which)
  some (not (bit_and (word b which) (2 ^ (which % bits_in_word)) == 0))

clear_all : ℕ → ℕ → BitMap → Option BitMap
clear_all zero i b = some b
clear_all (suc n) i b = clear b i >>= clear_all n (i + 1)

-- The constructor. `new unsigned int[numWords]` leaves what the memory held: `memory`.
pub bit_map : ℕ → List ℕ → Option BitMap
bit_map nitems memory = clear_all nitems 0 fresh
  where
    fresh : BitMap
    fresh = record {
      num_bits = nitems;
      num_words = div_round_up nitems bits_in_word;
      map = take (div_round_up nitems bits_in_word) memory;
    }

-- The loop of Find, `n` rounds from the end.
pub find_loop : ℕ → ℕ → BitMap → Option (Option ℕ × BitMap)
find_loop zero i b = some (none, b)
find_loop (suc n) i b = test b i >>= λ t. elim t [
  | true ↦ find_loop n (i + 1) b
  | false ↦ mark b i >>= λ b'. some (some i, b')
]

-- `none` in the pair is the result -1.
pub find : BitMap → Option (Option ℕ × BitMap)
find b = find_loop b.num_bits 0 b

pub num_clear_loop : ℕ → ℕ → ℕ → BitMap → Option ℕ
num_clear_loop zero i count b = some count
num_clear_loop (suc n) i count b =
    test b i >>= λ t. num_clear_loop n (i + 1) (if t then count else count + 1) b

pub num_clear : BitMap → Option ℕ
num_clear b = num_clear_loop b.num_bits 0 0 b
