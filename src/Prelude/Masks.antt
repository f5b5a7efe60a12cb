-- ===== src/Prelude/Masks.antt =====
-- Masks whose lowest digits are 0.
use Prim.Native.Nat.{
  ℕ, zero, suc, ◌+◌, ◌*◌, ◌/◌, ◌%◌, ◌^◌, ◌<◌, bit_and, bit_or, max, min, bit_or-bitwise,
}
use mathlib.Core.Path.{◌≡◌, ap, ap₂, ◌∙◌}
use native.Mathlib.Omega.{arith}
use native.Mathlib.Nat.{pow-suc, div-div-eq-div-mul}
use operating_systems_assign.Prelude.Bits.{bit_and_step, bit_or_step}

bit_or-zero_left : (m : ℕ) → bit_or 0 m ≡ m
bit_or-zero_left m = bit_or-bitwise 0 m

-- `|` with a number whose n lowest digits are 0.
pub bit_or-high : (n e m : ℕ) → e < 2 ^ n → bit_or e (m * 2 ^ n) ≡ e + m * 2 ^ n
bit_or-high zero e m h =
    let none : e ≡ 0 = omega (arith, h) in
    let whole : m * 2 ^ 0 ≡ m = omega arith in
    ap₂ bit_or none whole ∙ bit_or-zero_left m ∙ omega (arith, none)
bit_or-high (suc n) e m h =
    let half : m * 2 ^ suc n / 2 ≡ m * 2 ^ n = omega (arith, ap (λ p. m * p) (pow-suc 2 n)) in
    let even : m * 2 ^ suc n % 2 ≡ 0 = omega (arith, ap (λ p. m * p) (pow-suc 2 n)) in
    bit_or_step e (m * 2 ^ suc n)
    ∙ ap₂ (λ q r. bit_or (e / 2) q * 2 + max (e % 2) r) half even
    ∙ ap (λ q. q * 2 + max (e % 2) 0) (bit_or-high n (e / 2) m (omega (arith, h, pow-suc 2 n)))
    ∙ omega (arith, ap (λ p. m * p) (pow-suc 2 n))

-- `&` with a number whose n lowest digits are 0.
pub bit_and-high : (n w m : ℕ) → bit_and w (m * 2 ^ n) ≡ bit_and (w / 2 ^ n) m * 2 ^ n
bit_and-high zero w m =
    let whole : m * 2 ^ 0 ≡ m = omega arith in
    let all : w ≡ w / 2 ^ 0 = omega arith in ap₂ bit_and all whole ∙ omega arith
bit_and-high (suc n) w m =
    let half : m * 2 ^ suc n / 2 ≡ m * 2 ^ n = omega (arith, ap (λ p. m * p) (pow-suc 2 n)) in
    let even : m * 2 ^ suc n % 2 ≡ 0 = omega (arith, ap (λ p. m * p) (pow-suc 2 n)) in
    let deeper : w / 2 / 2 ^ n ≡ w / 2 ^ suc n =
      div-div-eq-div-mul w 2 (2 ^ n) ∙ ap (λ p. w / p) (omega (arith, pow-suc 2 n)) in
    bit_and_step w (m * 2 ^ suc n)
    ∙ ap₂ (λ q r. bit_and (w / 2) q * 2 + min (w % 2) r) half even
    ∙ ap (λ q. q * 2 + min (w % 2) 0) (bit_and-high n (w / 2) m)
    ∙ ap (λ q. bit_and q m * 2 ^ n * 2 + min (w % 2) 0) deeper
    ∙ omega (arith, ap (λ p. bit_and (w / 2 ^ suc n) m * p) (pow-suc 2 n))
