-- ===== src/Machine/Rounds.antt =====
-- Mult of dev4-memory-management/nachos.tp4/code/machine/mipssim.cc round by round: the sum that its loop builds.
use operating_systems_assign.Prelude.{
  ℕ, zero, suc, ◌+◌, ◌-◌, ◌*◌, ◌/◌, ◌%◌, ◌^◌, ◌≤◌, ◌<◌, ◌≡◌, refl, sym, ap, ap₂, ◌∙◌, inl, inr,
  true, not, bit_and, bit_or, ltb, ◌==◌, ==_iff, Bool-cases, is_nonneg, arith,
}
use operating_systems_assign.Prelude.Bits.{bit_and-one, bit_and_step, bit_or_step, bit_test-digit}
use operating_systems_assign.Prelude.Modular.{
  mul-mod, mod-pow_suc, bit_and-ones, digit-div, pow-split,
}
use native.Mathlib.Nat.{mod-add-mod, add-mul-mod_self_right, mod-eq_of_lt, mul_assoc, zero-mod}
use operating_systems_assign.Machine.Multiply.{halve, add_low, add_high, shift_high, mult_loop}

-- The number that a high and a low word stand for.
abbrev pub double_word : ℕ → ℕ → ℕ
double_word hi lo = hi * 2 ^ 32 + lo

abbrev pub IsWord : ℕ → Type 0
IsWord w = w < 2 ^ 32

bit_or-zero : (n a : ℕ) → a ≤ n → bit_or a 0 ≡ a
bit_or-zero n zero h = refl
bit_or-zero zero (suc a) h = absurd (omega arith)
bit_or-zero (suc n) (suc a) h =
    omega (arith, bit_or_step (suc a) 0, bit_or-zero n (suc a / 2) (omega arith))

-- Setting the lowest bit of an even number.
bit_or-one : (w : ℕ) → w % 2 ≡ 0 → bit_or w 1 ≡ w + 1
bit_or-one w e = omega (arith, bit_or_step w 1, bit_or-zero (w / 2) (w / 2) (omega arith), e)

add_words :
    (hi lo b_hi b_lo : ℕ)
    → IsWord hi
    → IsWord lo
    → IsWord b_hi
    → IsWord b_lo
    → (double_word (add_high hi lo b_hi b_lo) (add_low lo b_lo)
        ≡ (double_word hi lo + double_word b_hi b_lo) % 2 ^ 64)
      × IsWord (add_high hi lo b_hi b_lo)
      × IsWord (add_low lo b_lo)
unfolding add_high add_low
add_words hi lo b_hi b_lo p q r s = elim (Bool-cases (ltb ((lo + b_lo) % 2 ^ 32) b_lo)) [
  | inl e ↦
      let carry : (lo + b_lo) % 2 ^ 32 < b_lo = ground (arith, e) in
      rw e (omega (arith, carry, p, q, r, s), omega arith, omega arith)
  | inr e ↦
      let no_carry : b_lo ≤ (lo + b_lo) % 2 ^ 32 = ground (arith, e) in
      rw e (omega (arith, no_carry, p, q, r, s), omega arith, omega arith)
]

top_bit : (w : ℕ) → IsWord w → not (bit_and w (2 ^ 31) == 0) ≡ (w / 2 ^ 31 == 1)
top_bit w h =
    bit_test-digit 31 w
    ∙ ap (λ d. d == 1) (digit-div 31 w)
    ∙ ap (λ d. d == 1) (mod-eq_of_lt (omega arith))

shift_words :
    (b_hi b_lo : ℕ)
    → IsWord b_hi
    → IsWord b_lo
    → (double_word (shift_high b_hi b_lo) (b_lo * 2 % 2 ^ 32) ≡ double_word b_hi b_lo * 2 % 2 ^ 64)
      × IsWord (shift_high b_hi b_lo)
unfolding shift_high
shift_words b_hi b_lo p q = elim (Bool-cases (b_lo / 2 ^ 31 == 1)) [
  | inl e ↦
      let high : 2 ^ 31 ≤ b_lo = omega (arith, (==_iff (b_lo / 2 ^ 31) 1).0 e) in
      rw (top_bit b_lo q, e, bit_or-one (b_hi * 2 % 2 ^ 32) (omega arith))
        (omega (arith, high, p, q), omega arith)
  | inr e ↦
      let low : b_lo < 2 ^ 31 = ground (arith, e, q) in
      rw (top_bit b_lo q, e) (omega (arith, low, p), omega arith)
]

-- 2 ^ 31 is nothing to a remainder by a smaller power of two.
mod-high_bit : (n w : ℕ) → n ≤ 31 → (w + 2 ^ 31) % 2 ^ n ≡ w % 2 ^ n
mod-high_bit n w h =
    ap (λ p. (w + p) % 2 ^ n) (pow-split n 31 h) ∙ add-mul-mod_self_right w (2 ^ (31 - n)) (2 ^ n)

-- The shift that keeps the sign gives the same low digits as a division.
mod-halve : (n a : ℕ) → n ≤ 31 → halve a % 2 ^ n ≡ a / 2 % 2 ^ n
unfolding halve
mod-halve n a h = elim (Bool-cases (is_nonneg a)) [
  | inl e ↦ rw e refl
  | inr e ↦ rw e (mod-high_bit n (a / 2) h)
]

halve-IsWord : (a : ℕ) → IsWord a → IsWord (halve a)
unfolding halve
halve-IsWord a h = elim (Bool-cases (is_nonneg a)) [
  | inl e ↦ rw e (omega arith)
  | inr e ↦ rw e (omega arith)
]

no_more_digits : (a : ℕ) → IsWord a → (bit_and a (2 ^ 32 - 2) == 0) ≡ true → a / 2 ≡ 0
no_more_digits a h e =
    let rest = bit_and_step a (2 ^ 32 - 2) in
    let low = bit_and-ones 31 (a / 2) in
    omega (arith, rest, low, (==_iff (bit_and a (2 ^ 32 - 2)) 0).0 e)

-- What the later rounds of the loop add.
later_digits :
    (n a s b b' : ℕ)
    → n ≤ 31
    → b' ≡ b * 2 % 2 ^ 64
    → (s + halve a % 2 ^ n * b') % 2 ^ 64 ≡ (s + a / 2 % 2 ^ n * 2 * b) % 2 ^ 64
later_digits n a s b b' h e =
    let t = a / 2 % 2 ^ n in
    ap₂ (λ x y. (s + x * y) % 2 ^ 64) (mod-halve n a h) e
    ∙ mul-mod s t (b * 2) (2 ^ 64)
    ∙ ap (λ x. (s + x) % 2 ^ 64) (sym (mul_assoc t b 2) ∙ omega arith)

-- The words of a number below 2 ^ 64.
abbrev pub Words : ℕ × ℕ → ℕ → Type 0
Words words value = (double_word words.0 words.1 ≡ value % 2 ^ 64) × IsWord words.0 × IsWord words.1

-- The sum that the loop builds is the product of the digits that are left of a with b.
pub mult_loop_lem :
    (n a b_hi b_lo hi lo : ℕ)
    → n ≤ 32
    → IsWord a
    → IsWord b_hi
    → IsWord b_lo
    → IsWord hi
    → IsWord lo
    → Words (mult_loop n a b_hi b_lo hi lo) (double_word hi lo + a % 2 ^ n * double_word b_hi b_lo)
unfolding mult_loop
mult_loop_lem zero a b_hi b_lo hi lo h w p q r s =
    let nothing : a % 2 ^ 0 ≡ 0 = omega arith in
    (
      sym (
          ap (λ x. (double_word hi lo + x * double_word b_hi b_lo) % 2 ^ 64) nothing
          ∙ omega (arith, r, s)),
      r,
      s,
    )
mult_loop_lem (suc n) a b_hi b_lo hi lo h w p q r s =
    let digits = mod-pow_suc n a in
    let b = double_word b_hi b_lo in
    let shifted = shift_words b_hi b_lo p q in
    elim (Bool-cases (a % 2 == 0)) [
      | inl e ↦
          let even : a % 2 ^ suc n ≡ a / 2 % 2 ^ n * 2 =
            omega (arith, digits, (==_iff (a % 2) 0).0 e) in
          let rest =
            mult_loop_lem n (halve a) (shift_high b_hi b_lo) (b_lo * 2 % 2 ^ 32) hi lo (omega arith)
              (halve-IsWord a w) shifted.1 (omega arith) r s in
          rw (bit_and-one a, e)
            (
              rest.0
                  ∙ later_digits n a (double_word hi lo) b _ (omega arith) shifted.0
                  ∙ ap (λ x. (double_word hi lo + x * b) % 2 ^ 64) (sym even),
              rest.1,
              rest.2,
            )
      | inr e ↦
          let odd : a % 2 ^ suc n ≡ a / 2 % 2 ^ n * 2 + 1 = ground (arith, digits, e) in
          let sum = add_words hi lo b_hi b_lo r s p q in
          rw (bit_and-one a, e)
            (elim (Bool-cases (bit_and a (2 ^ 32 - 2) == 0)) [
              | inl f ↦
                  let one : a % 2 ^ suc n ≡ 1 =
                    odd
                    ∙ ap (λ x. x % 2 ^ n * 2 + 1) (no_more_digits a w f)
                    ∙ omega (arith, zero-mod (2 ^ n)) in
                  rw f (
                    sum.0
                        ∙ ap (λ x. (double_word hi lo + x) % 2 ^ 64) (omega arith)
                        ∙ ap (λ x. (double_word hi lo + x * b) % 2 ^ 64) (sym one),
                    sum.1,
                    sum.2,
                  )
              | inr f ↦
                  let rest =
                    mult_loop_lem n (halve a) (shift_high b_hi b_lo) (b_lo * 2 % 2 ^ 32)
                      (add_high hi lo b_hi b_lo) (add_low lo b_lo) (omega arith) (halve-IsWord a w)
                      shifted.1 (omega arith) sum.1 sum.2 in
                  let t = a / 2 % 2 ^ n * 2 in
                  rw f (
                    rest.0
                        ∙ later_digits n a _ b _ (omega arith) shifted.0
                        ∙ ap (λ x. (x + t * b) % 2 ^ 64) sum.0
                        ∙ mod-add-mod (double_word hi lo + b) (2 ^ 64) (t * b)
                        ∙ ap (λ x. x % 2 ^ 64) (omega arith)
                        ∙ ap (λ x. (double_word hi lo + x * b) % 2 ^ 64) (sym odd),
                    rest.1,
                    rest.2,
                  )
            ])
    ]
