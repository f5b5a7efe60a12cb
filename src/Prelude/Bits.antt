-- ===== src/Prelude/Bits.antt =====
-- The binary digits of a number, and what bit_and and bit_or do to them. The source sets, clears
-- and tests one bit of a 32-bit word with |=, &= ~ and &.
use Prim.Native.Nat.{
  ℕ, zero, suc, ◌+◌, ◌-◌, ◌*◌, ◌/◌, ◌%◌, ◌^◌, ◌≤◌, ◌<◌, min, max, bit_and, bit_or, digits,
  bit_and-bitwise, bit_or-bitwise, bit_xor, differ, bit_xor-bitwise,
}
use mathlib.Core.Path.{◌≡◌, refl, ap, ap₂, sym, ◌∙◌}
use native.Mathlib.Nat.{pow-suc}
use mathlib.Core.Bool.{not}
use native.Mathlib.Omega.{arith}
use operating_systems_assign.Prelude.Tests.{◌==◌, if◌then◌else◌}

-- Digit k of w.
unfoldable pub digit : ℕ → ℕ → ℕ
digit zero w = w % 2
digit (suc k) w = digit k (w / 2)

no_digits : (z : ℕ → ℕ) (f : ℕ → ℕ → ℕ) (n b : ℕ) → digits z f n 0 b ≡ z b
no_digits z f zero b = refl
no_digits z f (suc n) b = refl

-- Any two numbers of rounds that are enough for the digits of a agree.
enough_rounds :
    (z : ℕ → ℕ) (f : ℕ → ℕ → ℕ) (a n m b : ℕ) → a ≤ min n m → digits z f n a b ≡ digits z f m a b
enough_rounds z f zero n m b h = no_digits z f n b ∙ sym (no_digits z f m b)
enough_rounds z f (suc a) (suc n) (suc m) b h =
    ap (λ r. r * 2 + f (suc a % 2) (b % 2))
      (enough_rounds z f (suc a / 2) n m (b / 2) (omega arith))
enough_rounds z f (suc a) zero m b h = absurd (omega arith)
enough_rounds z f (suc a) (suc n) zero b h = absurd (omega arith)

-- The lowest digit and the others, for an operation on digits that passes over leading zeros.
lowest_digit :
    (z : ℕ → ℕ) (f : ℕ → ℕ → ℕ)
    → ((b : ℕ) → z b ≡ z (b / 2) * 2 + f 0 (b % 2))
    → (a b : ℕ) → digits z f a a b ≡ digits z f (a / 2) (a / 2) (b / 2) * 2 + f (a % 2) (b % 2)
lowest_digit z f leading zero b = leading b
lowest_digit z f leading (suc a) b =
    ap (λ r. r * 2 + f (suc a % 2) (b % 2))
      (enough_rounds z f (suc a / 2) a (suc a / 2) (b / 2) (omega arith))

pub bit_and_step : (a b : ℕ) → bit_and a b ≡ bit_and (a / 2) (b / 2) * 2 + min (a % 2) (b % 2)
bit_and_step a b =
    bit_and-bitwise a b
    ∙ lowest_digit (λ c. zero) min (λ c. omega arith) a b
    ∙ ap (λ r. r * 2 + min (a % 2) (b % 2)) (sym (bit_and-bitwise (a / 2) (b / 2)))

pub bit_or_step : (a b : ℕ) → bit_or a b ≡ bit_or (a / 2) (b / 2) * 2 + max (a % 2) (b % 2)
bit_or_step a b =
    bit_or-bitwise a b
    ∙ lowest_digit (λ c. c) max (λ c. omega arith) a b
    ∙ ap (λ r. r * 2 + max (a % 2) (b % 2)) (sym (bit_or-bitwise (a / 2) (b / 2)))

bit_and_halves :
    (a b : ℕ)
    → (bit_and a b % 2 ≡ min (a % 2) (b % 2)) × (bit_and a b / 2 ≡ bit_and (a / 2) (b / 2))
bit_and_halves a b = omega (arith, bit_and_step a b)

bit_or_halves :
    (a b : ℕ) → (bit_or a b % 2 ≡ max (a % 2) (b % 2)) × (bit_or a b / 2 ≡ bit_or (a / 2) (b / 2))
bit_or_halves a b = omega (arith, bit_or_step a b)

pub digit-lt : (k w : ℕ) → digit k w < 2
unfolding digit
digit-lt zero w = omega arith
digit-lt (suc k) w = digit-lt k (w / 2)

pub digit-bit_and : (k a b : ℕ) → digit k (bit_and a b) ≡ min (digit k a) (digit k b)
unfolding digit
digit-bit_and zero a b = (bit_and_halves a b).0
digit-bit_and (suc k) a b = ap (digit k) (bit_and_halves a b).1 ∙ digit-bit_and k (a / 2) (b / 2)

pub digit-bit_or : (k a b : ℕ) → digit k (bit_or a b) ≡ max (digit k a) (digit k b)
unfolding digit
digit-bit_or zero a b = (bit_or_halves a b).0
digit-bit_or (suc k) a b = ap (digit k) (bit_or_halves a b).1 ∙ digit-bit_or k (a / 2) (b / 2)

pub bit_and-zero : (n a : ℕ) → a ≤ n → bit_and a 0 ≡ 0
bit_and-zero n zero h = refl
bit_and-zero zero (suc a) h = absurd (omega arith)
bit_and-zero (suc n) (suc a) h =
    omega (arith, bit_and_step (suc a) 0, bit_and-zero n (suc a / 2) (omega arith))

-- The two lowest bits.
pub bit_and-one : (a : ℕ) → bit_and a 1 ≡ a % 2
bit_and-one a = omega (arith, bit_and_step a 1, bit_and-zero (a / 2) (a / 2) (omega arith))

pub bit_and-three : (a : ℕ) → bit_and a 3 ≡ a % 4
bit_and-three a = omega (arith, bit_and_step a 3, bit_and-one (a / 2))

pow-half : (k : ℕ) → (2 ^ suc k / 2 ≡ 2 ^ k) × (2 ^ suc k % 2 ≡ 0)
pow-half k = omega (arith, pow-suc 2 k)

-- The bit that `&` with 1 << k leaves is digit k.
pub bit_and-pow : (k w : ℕ) → bit_and w (2 ^ k) ≡ digit k w * 2 ^ k
unfolding digit
bit_and-pow zero w = omega (arith, bit_and_step w 1, bit_and-zero (w / 2) (w / 2) (omega arith))
bit_and-pow (suc k) w =
    bit_and_step w (2 ^ suc k)
    ∙ ap₂ (λ m r. bit_and (w / 2) m * 2 + min (w % 2) r) (pow-half k).0 (pow-half k).1
    ∙ omega (arith, bit_and-pow k (w / 2), ap (λ t. digit k (w / 2) * t) (pow-suc 2 k))

digit-zero : (j : ℕ) → digit j 0 ≡ 0
unfolding digit
digit-zero zero = refl
digit-zero (suc j) = digit-zero j

-- Digit j of 1 << k.
pub digit-pow : (k j : ℕ) → digit j (2 ^ k) ≡ (if k == j then 1 else 0)
unfolding digit
digit-pow zero zero = refl
digit-pow zero (suc j) = digit-zero j ∙ ground arith
digit-pow (suc k) zero = (pow-half k).1 ∙ ground arith
digit-pow (suc k) (suc j) = ap (digit j) (pow-half k).0 ∙ digit-pow k j ∙ ground arith

pub pow-pos : (k : ℕ) → 0 < 2 ^ k
pow-pos zero = omega arith
pow-pos (suc k) = omega (arith, pow-suc 2 k, pow-pos k)

pow-lt : (k n : ℕ) → k < n → 2 ^ k < 2 ^ n
pow-lt k zero h = absurd (omega arith)
pow-lt zero (suc n) h = omega (arith, pow-suc 2 n, pow-pos n)
pow-lt (suc k) (suc n) h = omega (arith, pow-suc 2 n, pow-suc 2 k, pow-lt k n (omega arith))

digit-ones : (n j : ℕ) → j < n → digit j (2 ^ n - 1) ≡ 1
unfolding digit
digit-ones zero j h = absurd (omega arith)
digit-ones (suc n) zero h = omega (arith, pow-suc 2 n, pow-pos n)
digit-ones (suc n) (suc j) h =
    let half : (2 ^ suc n - 1) / 2 ≡ 2 ^ n - 1 = omega (arith, pow-suc 2 n, pow-pos n) in
    ap (digit j) half ∙ digit-ones n j (omega arith)

-- Digit j of ~(1 << k) in n bits.
pub digit-complement :
    (n k j : ℕ) → k < n → j < n → digit j (2 ^ n - 1 - 2 ^ k) ≡ (if k == j then 0 else 1)
unfolding digit
digit-complement zero k j p q = absurd (omega arith)
digit-complement (suc n) zero zero p q = omega (arith, pow-suc 2 n, pow-pos n)
digit-complement (suc n) zero (suc j) p q =
    let half : (2 ^ suc n - 1 - 1) / 2 ≡ 2 ^ n - 1 = omega (arith, pow-suc 2 n, pow-pos n) in
    ap (digit j) half ∙ digit-ones n j (omega arith) ∙ ground arith
digit-complement (suc n) (suc k) zero p q =
    let odd : (2 ^ suc n - 1 - 2 ^ suc k) % 2 ≡ 1 =
      omega (arith, pow-suc 2 n, pow-suc 2 k, pow-lt k n (omega arith)) in
    odd ∙ ground arith
digit-complement (suc n) (suc k) (suc j) p q =
    let half : (2 ^ suc n - 1 - 2 ^ suc k) / 2 ≡ 2 ^ n - 1 - 2 ^ k =
      omega (arith, pow-suc 2 n, pow-suc 2 k, pow-lt k n (omega arith)) in
    ap (digit j) half ∙ digit-complement n k j (omega arith) (omega arith) ∙ ground arith

-- The C test `w & (1 << k)`.
pub bit_test-digit : (k w : ℕ) → not (bit_and w (2 ^ k) == 0) ≡ (digit k w == 1)
bit_test-digit k w = by_value (digit k w) (digit-lt k w) (bit_and-pow k w)
  where
    by_value :
        (d : ℕ) → d < 2 → bit_and w (2 ^ k) ≡ d * 2 ^ k → not (bit_and w (2 ^ k) == 0) ≡ (d == 1)
    by_value zero h e = ground arith
    by_value (suc zero) h e = ground (arith, pow-pos k)
    by_value (suc (suc d)) h e = absurd (omega arith)

bit_xor_step : (a b : ℕ) → bit_xor a b ≡ bit_xor (a / 2) (b / 2) * 2 + differ (a % 2) (b % 2)
bit_xor_step a b =
    bit_xor-bitwise a b
    ∙ lowest_digit (λ c. c) differ (λ c. omega arith) a b
    ∙ ap (λ r. r * 2 + differ (a % 2) (b % 2)) (sym (bit_xor-bitwise (a / 2) (b / 2)))

differ-lt : (x y : ℕ) → x < 2 → y < 2 → differ x y < 2
differ-lt zero y p q = q
differ-lt (suc zero) zero p q = omega arith
differ-lt (suc zero) (suc zero) p q = omega arith
differ-lt (suc zero) (suc (suc y)) p q = absurd (omega arith)
differ-lt (suc (suc x)) y p q = absurd (omega arith)

bit_xor_halves :
    (a b : ℕ)
    → (bit_xor a b % 2 ≡ differ (a % 2) (b % 2)) × (bit_xor a b / 2 ≡ bit_xor (a / 2) (b / 2))
bit_xor_halves a b =
    omega (arith, bit_xor_step a b, differ-lt (a % 2) (b % 2) (omega arith) (omega arith))

pub digit-bit_xor : (k a b : ℕ) → digit k (bit_xor a b) ≡ differ (digit k a) (digit k b)
unfolding digit
digit-bit_xor zero a b = (bit_xor_halves a b).0
digit-bit_xor (suc k) a b = ap (digit k) (bit_xor_halves a b).1 ∙ digit-bit_xor k (a / 2) (b / 2)
