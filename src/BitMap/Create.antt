-- ===== src/BitMap/Create.antt =====
-- The constructor, and mark, clear and test as updates and look-ups of a set.
use operating_systems_assign.Prelude.{
  ℕ, zero, suc, ◌+◌, ◌*◌, ◌≤◌, ◌<◌, ◌^◌, ◌≡◌, refl, true, false, some, List, ◌==◌, if◌then◌else◌,
  length, length-take, take, arith, ◌>>=◌, div_round_up, ℕ_discrete, ap, ◌∙◌,
}
use operating_systems_assign.BitMap.{BitMap, mark, clear, test, clear_all, bit_map}
use operating_systems_assign.BitMap.View.{IsValid, bit, test_lem, mark_lem, clear_lem}

clear_all_lem :
    (n i : ℕ) (b : BitMap)
    → IsValid b
    → i + n ≡ b.num_bits
    → (b' : BitMap) × (clear_all n i b ≡ some b')
      × IsValid b'
      × (b'.num_bits ≡ b.num_bits)
      × ((j : ℕ) → j < i → bit b j ≡ false → bit b' j ≡ false)
      × ((j : ℕ) → i ≤ j → j < i + n → bit b' j ≡ false)
unfolding clear_all
clear_all_lem zero i b v e = (b, refl, v, refl, λ j h k. k, λ j h k. absurd (omega arith))
clear_all_lem (suc n) i b v e =
    let (c, p, w) = clear_lem b i v (omega arith) in
    let (b', q, v', s, low, high) =
      clear_all_lem n (i + 1) c w.valid (omega (arith, w.same_bits)) in
    (
      b',
      rw p q,
      v',
      omega (arith, w.same_bits),
      λ j h k. low j (omega arith) (ground (arith, w.bits j)),
      λ j h k. elim (ℕ_discrete i j) [
        | yes r ↦ low j (omega arith) (ground (arith, w.bits j))
        | no r ↦ high j (omega arith) (omega arith)
      ],
    )

-- A new bitmap of at most 2 ^ 31 bits, for which the memory has enough words, is valid, and Test
-- answers FALSE for every bit, whatever the memory held.
pub bit_map_lem :
    (n : ℕ) (memory : List ℕ)
    → n ≤ 2 ^ 31
    → n ≤ 32 * length memory
    → (b : BitMap) × (bit_map n memory ≡ some b)
      × IsValid b
      × (b.num_bits ≡ n)
      × ((j : ℕ) → j < n → test b j ≡ some false)
unfolding bit_map div_round_up
bit_map_lem n memory h m =
    let (b, p, v, s, low, high) =
      clear_all_lem n 0
        (record {
          num_bits = n;
          num_words = div_round_up n 32;
          map = take (div_round_up n 32) memory;
        })
        (record { stored = enough; small = h }) (omega arith) in
    (
      b,
      p,
      v,
      s,
      λ j k. test_lem b j v (omega (arith, s)) ∙ ap some (high j (omega arith) (omega arith)),
    )
  where
    enough : n ≤ 32 * length (take (div_round_up n 32) memory)
    enough = ground (arith, length-take (div_round_up n 32) memory)

-- On a valid bitmap, for two bits in range: after Mark or Clear of the one, Test of the other
-- answers the new value if they are the same, and what it answered before if not.
pub test_after_write :
    (b : BitMap) (i j : ℕ)
    → IsValid b
    → i < b.num_bits
    → j < b.num_bits
    → ((mark b i >>= λ b'. test b' j) ≡ (test b j >>= λ t. some (if i == j then true else t)))
      × ((clear b i >>= λ b'. test b' j) ≡ (test b j >>= λ t. some (if i == j then false else t)))
test_after_write b i j v hi hj =
    let (m, p, wm) = mark_lem b i v hi in
    let (c, q, wc) = clear_lem b i v hi in
    (
      rw (p, test_lem m j wm.valid (omega (arith, wm.same_bits)), test_lem b j v hj)
          (ap some (wm.bits j)),
      rw (q, test_lem c j wc.valid (omega (arith, wc.same_bits)), test_lem b j v hj)
          (ap some (wc.bits j)),
    )
