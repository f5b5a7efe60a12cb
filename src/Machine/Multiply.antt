-- ===== src/Machine/Multiply.antt =====
-- Mult of dev4-memory-management/nachos.tp4/code/machine/mipssim.cc: the multiplication of the
-- simulated machine, by shifts and sums of 32-bit words.
use operating_systems_assign.Prelude.{
  ℕ, zero, suc, ◌+◌, ◌-◌, ◌*◌, ◌/◌, ◌%◌, ◌^◌, Bool, not, ◌&&◌, ◌||◌, bit_and, bit_or, ltb, ◌==◌,
  if◌then◌else◌, is_nonneg,
}

-- -a and ~a for an int, and `>>= 1`, which keeps its sign.
unfoldable pub negate : ℕ → ℕ
negate a = (2 ^ 32 - a) % 2 ^ 32

unfoldable pub complement_word : ℕ → ℕ
complement_word w = 2 ^ 32 - 1 - w

unfoldable pub halve : ℕ → ℕ
halve a = if is_nonneg a then a / 2 else a / 2 + 2 ^ 31

-- The high and the low word of the sum that is built, and of the shifted b.
unfoldable pub add_low : ℕ → ℕ → ℕ
add_low lo b_lo = (lo + b_lo) % 2 ^ 32

unfoldable pub add_high : ℕ → ℕ → ℕ → ℕ → ℕ
add_high hi lo b_hi b_lo =
    let carried = if ltb (add_low lo b_lo) b_lo then (hi + 1) % 2 ^ 32 else hi in
    (carried + b_hi) % 2 ^ 32

unfoldable pub shift_high : ℕ → ℕ → ℕ
shift_high b_hi b_lo =
    let shifted = b_hi * 2 % 2 ^ 32 in
    if not (bit_and b_lo (2 ^ 31) == 0) then bit_or shifted 1 else shifted

-- The loop, n rounds from the end.
unfoldable pub mult_loop : ℕ → ℕ → ℕ → ℕ → ℕ → ℕ → ℕ × ℕ
mult_loop zero a b_hi b_lo hi lo = (hi, lo)
mult_loop (suc n) a b_hi b_lo hi lo =
    let odd = not (bit_and a 1 == 0) in
    let hi' = if odd then add_high hi lo b_hi b_lo else hi in
    let lo' = if odd then add_low lo b_lo else lo in
    let rest = mult_loop n (halve a) (shift_high b_hi b_lo) (b_lo * 2 % 2 ^ 32) hi' lo' in
    if odd && (bit_and a (2 ^ 32 - 2) == 0) then (hi', lo') else rest

-- The two's complement of a double word.
unfoldable pub negate_words : ℕ × ℕ → ℕ × ℕ
negate_words (hi, lo) =
    let lo' = (complement_word lo + 1) % 2 ^ 32 in
    (if lo' == 0 then (complement_word hi + 1) % 2 ^ 32 else complement_word hi, lo')

-- The absolute value that the loop works on.
unfoldable pub magnitude : Bool → ℕ → ℕ
magnitude signed_arith a = if signed_arith && not (is_nonneg a) then negate a else a

unfoldable pub is_negative : Bool → ℕ → ℕ → Bool
is_negative signed_arith a b =
    signed_arith && (if is_nonneg a then not (is_nonneg b) else is_nonneg b)

-- The words for *hiPtr and *loPtr.
unfoldable pub mult : ℕ → ℕ → Bool → ℕ × ℕ
mult a b signed_arith =
    let words = mult_loop 32 (magnitude signed_arith a) 0 (magnitude signed_arith b) 0 0 in
    if a == 0 || b == 0
    then (0, 0)
    else if is_negative signed_arith a b
    then negate_words words
    else words
