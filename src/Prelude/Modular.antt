-- ===== src/Prelude/Modular.antt =====
-- Remainders by a power of two: what the wrap-around of machine words keeps.
use Prim.Native.Nat.{ℕ, zero, suc, ◌+◌, ◌-◌, ◌*◌, ◌/◌, ◌%◌, ◌^◌, ◌≤◌, bit_and, min}
use mathlib.Core.Path.{◌≡◌, sym, ap, ap₂, ◌∙◌}
use native.Mathlib.Omega.{arith}
use native.Mathlib.Nat.{
  pow-suc, add-mul-mod_self_right, mod-eq_of_lt, mod-lt, div-add-mod, div-div-eq-div-mul,
}
use operating_systems_assign.Prelude.Bits.{digit, pow-pos, bit_and_step, bit_and-zero}

-- A factor may be reduced first.
pub mul-mod : (k t x m : ℕ) → (k + t * (x % m)) % m ≡ (k + t * x) % m
mul-mod k t x m =
    let split : t * x ≡ t * (m * (x / m) + x % m) = ap (λ y. t * y) (sym (div-add-mod x m)) in
    let whole : k + t * x ≡ (k + t * (x % m)) + t * (x / m) * m = omega (arith, split) in
    sym (ap (λ s. s % m) whole ∙ add-mul-mod_self_right (k + t * (x % m)) (t * (x / m)) m)

-- The lowest digit and the others of a remainder.
pub mod-pow_suc : (n w : ℕ) → w % 2 ^ suc n ≡ (w / 2 % 2 ^ n) * 2 + w % 2
mod-pow_suc n w =
    let p = 2 ^ n in
    let q = w / 2 / p in
    let r = w / 2 % p in
    let split : w ≡ (r * 2 + w % 2) + q * 2 ^ suc n =
      omega (arith, div-add-mod (w / 2) p, ap (λ y. q * y) (pow-suc 2 n)) in
    ap (λ s. s % 2 ^ suc n) split
    ∙ add-mul-mod_self_right (r * 2 + w % 2) q (2 ^ suc n)
    ∙ mod-eq_of_lt (omega (arith, pow-suc 2 n, mod-lt (w / 2) (pow-pos n)))

-- `&` with n ones.
pub bit_and-ones : (n w : ℕ) → bit_and w (2 ^ n - 1) ≡ w % 2 ^ n
bit_and-ones zero w = bit_and-zero w w (omega arith) ∙ omega arith
bit_and-ones (suc n) w =
    bit_and_step w (2 ^ suc n - 1)
    ∙ ap₂ (λ m r. bit_and (w / 2) m * 2 + min (w % 2) r) (omega (arith, pow-suc 2 n, pow-pos n))
        (omega (arith, pow-suc 2 n, pow-pos n))
    ∙ ap (λ r. r * 2 + min (w % 2) 1) (bit_and-ones n (w / 2))
    ∙ omega (arith, mod-pow_suc n w)

-- Digit k by a division.
pub digit-div : (k w : ℕ) → digit k w ≡ w / 2 ^ k % 2
unfolding digit
digit-div zero w = omega arith
digit-div (suc k) w =
    digit-div k (w / 2)
    ∙ ap (λ q. q % 2) (div-div-eq-div-mul w 2 (2 ^ k))
    ∙ ap (λ p. w / p % 2) (omega (arith, pow-suc 2 k))

pub pow-split : (k m : ℕ) → k ≤ m → 2 ^ m ≡ 2 ^ (m - k) * 2 ^ k
pow-split zero m h = let none : m - 0 ≡ m = omega arith in omega (arith, ap (λ e. 2 ^ e) none)
pow-split (suc k) zero h = absurd (omega arith)
pow-split (suc k) (suc m) h =
    let same : suc m - suc k ≡ m - k = omega arith in
    let half = pow-split k m (omega arith) in
    pow-suc 2 m
    ∙ ap (λ p. p * 2) half
    ∙ omega arith
    ∙ ap₂ (λ e p. 2 ^ e * p) (sym same) (sym (pow-suc 2 k))
