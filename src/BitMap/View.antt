-- ===== src/BitMap/View.antt =====
-- The set of bits that a BitMap holds, and what mark, clear and test do to it.
use operating_systems_assign.Prelude.{
  ℕ, ◌*◌, ◌-◌, ◌/◌, ◌%◌, ◌^◌, ◌≤◌, ◌<◌, ◌≡◌, refl, ap, ◌≢◌, Bool, true, false, some, ◌==◌,
  if◌then◌else◌, length, get_or, set, length-set, get_or-set_self, get_or-set_ne, arith, bit_and,
  bit_or, ℕ_discrete, sym,
}
use operating_systems_assign.Prelude.Bits.{
  digit, digit-lt, digit-bit_and, digit-bit_or, digit-pow, digit-complement, bit_test-digit,
}
use operating_systems_assign.BitMap.{BitMap, in_range, word, mark, clear, test}

-- Enough words for the bits, and a bit number is a non-negative `int`.
pub record IsValid (b : BitMap) : Type 0 where
  pub stored : b.num_bits ≤ 32 * length b.map
  pub small : b.num_bits ≤ 2 ^ 31

-- Bit i of the map.
unfoldable pub bit : BitMap → ℕ → Bool
bit b i = digit (i % 32) (word b i) == 1

-- The set that holds i as `v` says, and every other number as `f` does.
abbrev pub update : (ℕ → Bool) → ℕ → Bool → ℕ → Bool
update f i v j = if i == j then v else f j

same_word : (i j : ℕ) → i ≢ j → i / 32 ≡ j / 32 → i % 32 ≢ j % 32
same_word i j h e = omega arith

pub in_range_lem : (b : BitMap) (i : ℕ) → IsValid b → i < b.num_bits → in_range b i ≡ true
unfolding in_range
in_range_lem b i v h = ground arith

pub test_lem : (b : BitMap) (i : ℕ) → IsValid b → i < b.num_bits → test b i ≡ some (bit b i)
unfolding test bit
test_lem b i v h = rw (in_range_lem b i v h) (ap some (bit_test-digit (i % 32) (word b i)))

-- What an operation that writes `v` to bit i leaves.
pub record Writes (b : BitMap) (i : ℕ) (v : Bool) (b' : BitMap) : Type 0 where
  pub valid : IsValid b'
  pub same_bits : b'.num_bits ≡ b.num_bits
  pub same_words : b'.num_words ≡ b.num_words
  pub bits : (j : ℕ) → bit b' j ≡ update (bit b) i v j

-- A word with digit i % 32 written, as the operations store it.
Writes-word :
    (b : BitMap) (i w : ℕ) (v : Bool)
    → IsValid b
    → i < b.num_bits
    → ((k : ℕ)
        → k < 32
        → (digit k w == 1) ≡ (if (i % 32) == k then v else (digit k (word b i) == 1)))
    → Writes b i v (record b { map = set b.map (i / 32) w })
unfolding bit word
Writes-word b i w v vb h d = record {
  valid = record { stored = omega (arith, length-set b.map (i / 32) w); small = vb.small };
  same_bits = refl;
  same_words = refl;
  bits = λ j. elim (ℕ_discrete (i / 32) (j / 32)) [
    | yes e ↦ ground (
      arith,
      ap (λ k. get_or (set b.map (i / 32) w) k 0) (sym e),
      get_or-set_self b.map (i / 32) w 0 (omega (arith, vb.stored)),
      ap (λ k. get_or b.map k 0) e,
      d (j % 32) (omega arith),
    )
    | no n ↦ rw (get_or-set_ne b.map (i / 32) (j / 32) w 0 n) (ground arith)
  ];
}

-- Mark sets bit i and leaves every other bit.
pub mark_lem :
    (b : BitMap) (i : ℕ)
    → IsValid b
    → i < b.num_bits
    → (b' : BitMap) × (mark b i ≡ some b') × Writes b i true b'
unfolding mark
mark_lem b i v h = (
  record b { map = set b.map (i / 32) (bit_or (word b i) (2 ^ (i % 32))) },
  rw (in_range_lem b i v h) refl,
  Writes-word b i _ true v h λ k hk. ground (
    arith,
    digit-bit_or k (word b i) (2 ^ (i % 32)),
    digit-pow (i % 32) k,
    digit-lt k (word b i),
  ),
)

-- Clear clears bit i and leaves every other bit.
pub clear_lem :
    (b : BitMap) (i : ℕ)
    → IsValid b
    → i < b.num_bits
    → (b' : BitMap) × (clear b i ≡ some b') × Writes b i false b'
unfolding clear
clear_lem b i v h = (
  record b { map = set b.map (i / 32) (bit_and (word b i) (2 ^ 32 - 1 - 2 ^ (i % 32))) },
  rw (in_range_lem b i v h) refl,
  Writes-word b i _ false v h λ k hk. ground (
    arith,
    digit-bit_and k (word b i) (2 ^ 32 - 1 - 2 ^ (i % 32)),
    digit-complement 32 (i % 32) k (omega arith) hk,
    digit-lt k (word b i),
  ),
)
