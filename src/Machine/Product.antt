-- ===== src/Machine/Product.antt =====
-- Mult of dev4-memory-management/nachos.tp4/code/machine/mipssim.cc gives the product of its factors,
-- as signed or as unsigned numbers.
use operating_systems_assign.Prelude.{
  ℕ, ◌+◌, ◌-◌, ◌*◌, ◌%◌, ◌^◌, ◌≤◌, ◌<◌, ◌≡◌, refl, sym, ap, ap₂, ◌∙◌, ◌⊎◌, inl, inr, Bool, true,
  false, not, ◌&&◌, ◌||◌, ◌==◌, ==_iff, if◌then◌else◌, Bool-cases, is_nonneg, arith,
}
use native.Mathlib.Nat.{mod-eq_of_lt, mul_comm, add-mul}
use operating_systems_assign.Machine.Multiply.{
  negate, complement_word, mult_loop, negate_words, magnitude, is_negative, mult,
}
use operating_systems_assign.Machine.Rounds.{double_word, IsWord, Words, mult_loop_lem}

-- An int as a number modulo 2 ^ 64, with its sign or without it.
unfoldable pub extended : Bool → ℕ → ℕ
extended signed_arith w = if signed_arith && not (is_nonneg w) then w + (2 ^ 64 - 2 ^ 32) else w

magnitude-IsWord : (signed : Bool) (a : ℕ) → IsWord a → IsWord (magnitude signed a)
unfolding magnitude negate
magnitude-IsWord signed a h = elim (Bool-cases (signed && not (is_nonneg a))) [
  | inl e ↦ rw e (omega arith)
  | inr e ↦ rw e h
]

negate_words_lem :
    (words : ℕ × ℕ)
    → IsWord words.0
    → IsWord words.1
    → double_word (negate_words words).0 (negate_words words).1
      ≡ (2 ^ 64 - double_word words.0 words.1) % 2 ^ 64
unfolding negate_words complement_word
negate_words_lem (hi, lo) p q = elim (Bool-cases ((2 ^ 32 - 1 - lo + 1) % 2 ^ 32 == 0)) [
  | inl e ↦ let zero_low : lo ≡ 0 = ground (arith, e, q) in rw e (omega (arith, zero_low, p))
  | inr e ↦ let some_low : 0 < lo = ground (arith, e, q) in rw e (omega (arith, some_low, p, q))
]

-- The loop gives the product of the magnitudes.
magnitudes : (a b : ℕ) → IsWord a → IsWord b → Words (mult_loop 32 a 0 b 0 0) (a * b)
magnitudes a b p q =
    let r =
      mult_loop_lem 32 a 0 b 0 0 (omega arith) p (omega arith) q (omega arith) (omega arith) in
    let digits : a % 2 ^ 32 ≡ a = mod-eq_of_lt p in
    (
      r.0
          ∙ ap (λ x. (double_word 0 0 + x * double_word 0 b) % 2 ^ 64) digits
          ∙ ap (λ x. x % 2 ^ 64) (omega arith),
      r.1,
      r.2,
    )

-- The product with the negative of x.
negative_factor :
    (x y : ℕ) → x ≤ 2 ^ 64 → (2 ^ 64 - x) * y % 2 ^ 64 ≡ (2 ^ 64 - x * y % 2 ^ 64) % 2 ^ 64
negative_factor x y h =
    let whole : (2 ^ 64 - x) * y + x * y ≡ 2 ^ 64 * y =
      sym (add-mul (2 ^ 64 - x) x y) ∙ ap (λ z. z * y) (omega (arith, h)) in
    omega (arith, whole)

negative_factors :
    (x y : ℕ) → x ≤ 2 ^ 64 → y ≤ 2 ^ 64 → (2 ^ 64 - x) * (2 ^ 64 - y) % 2 ^ 64 ≡ x * y % 2 ^ 64
negative_factors x y p q =
    let right = ap (λ z. z % 2 ^ 64) (mul_comm x (2 ^ 64 - y)) ∙ negative_factor y x q in
    let order = ap (λ z. z % 2 ^ 64) (mul_comm y x) in
    negative_factor x (2 ^ 64 - y) p ∙ omega (arith, right, order)

-- The factors of a signed multiplication.
signed_factor :
    (a : ℕ)
    → IsWord a
    → ((is_nonneg a ≡ true) × (extended true a ≡ magnitude true a))
      ⊎ ((is_nonneg a ≡ false)
          × (extended true a ≡ 2 ^ 64 - magnitude true a)
          × IsWord (magnitude true a))
unfolding extended magnitude negate
signed_factor a h = elim (Bool-cases (is_nonneg a)) [
  | inl e ↦ inl (e, rw e refl)
  | inr e ↦
      let high : 2 ^ 31 ≤ a = ground (arith, e) in
      inr (e, rw e (omega (arith, high, h)), rw e (omega arith))
]

-- The case without a zero factor.
unsigned_mult :
    (a b : ℕ)
    → IsWord a
    → IsWord b
    → (a == 0 || b == 0) ≡ false
    → double_word (mult a b false).0 (mult a b false).1
      ≡ extended false a * extended false b % 2 ^ 64
unfolding mult is_negative magnitude extended
unsigned_mult a b p q z = rw z (magnitudes a b p q).0

signed_mult :
    (a b : ℕ)
    → IsWord a
    → IsWord b
    → (a == 0 || b == 0) ≡ false
    → double_word (mult a b true).0 (mult a b true).1 ≡ extended true a * extended true b % 2 ^ 64
unfolding mult is_negative
signed_mult a b p q z =
    let x = magnitude true a in
    let y = magnitude true b in
    let wx = magnitude-IsWord true a p in
    let wy = magnitude-IsWord true b q in
    let product = magnitudes x y wx wy in
    let negated =
      negate_words_lem (mult_loop 32 x 0 y 0 0) product.1 product.2
      ∙ ap (λ r. (2 ^ 64 - r) % 2 ^ 64) product.0 in
    elim (signed_factor a p) [
      | inl c ↦ elim (signed_factor b q) [
        | inl d ↦ rw (z, c.0, d.0) (product.0 ∙ ap₂ (λ u v. u * v % 2 ^ 64) (sym c.1) (sym d.1))
        | inr d ↦
            rw (z, c.0, d.0)
              (negated
                ∙ ap (λ r. (2 ^ 64 - r % 2 ^ 64) % 2 ^ 64) (mul_comm x y)
                ∙ sym (negative_factor y x (omega (arith, wy)))
                ∙ ap (λ r. r % 2 ^ 64) (mul_comm (2 ^ 64 - y) x)
                ∙ ap₂ (λ u v. u * v % 2 ^ 64) (sym c.1) (sym d.1))
      ]
      | inr c ↦ elim (signed_factor b q) [
        | inl d ↦
            rw (z, c.0, d.0)
              (negated
                ∙ sym (negative_factor x y (omega (arith, wx)))
                ∙ ap₂ (λ u v. u * v % 2 ^ 64) (sym c.1) (sym d.1))
        | inr d ↦
            rw (z, c.0, d.0)
              (product.0
                ∙ sym (negative_factors x y (omega (arith, wx)) (omega (arith, wy)))
                ∙ ap₂ (λ u v. u * v % 2 ^ 64) (sym c.1) (sym d.1))
      ]
    ]

extended-zero : (signed_arith : Bool) → extended signed_arith 0 ≡ 0
unfolding extended
extended-zero true = refl
extended-zero false = refl

-- For any two 32-bit patterns, Mult gives the words of their product modulo 2 ^ 64, as signed or as
-- unsigned numbers.
pub mult_lem :
    (a b : ℕ) (signed_arith : Bool)
    → IsWord a
    → IsWord b
    → double_word (mult a b signed_arith).0 (mult a b signed_arith).1
      ≡ extended signed_arith a * extended signed_arith b % 2 ^ 64
unfolding mult
mult_lem a b signed p q = elim (Bool-cases (a == 0)) [
  | inl e ↦
      let zero_factor : extended signed a ≡ 0 =
        ap (extended signed) ((==_iff a 0).0 e) ∙ extended-zero signed in
      rw e (sym (ap (λ x. x * extended signed b % 2 ^ 64) zero_factor ∙ omega arith))
  | inr e ↦ elim (Bool-cases (b == 0)) [
    | inl f ↦
        let zero_factor : extended signed b ≡ 0 =
          ap (extended signed) ((==_iff b 0).0 f) ∙ extended-zero signed in
        rw (e, f) (sym (ap (λ x. extended signed a * x % 2 ^ 64) zero_factor ∙ omega arith))
    | inr f ↦ by_sign signed (rw (e, f) refl)
  ]
]
  where
    by_sign :
        (s : Bool)
        → (a == 0 || b == 0) ≡ false
        → double_word (mult a b s).0 (mult a b s).1 ≡ extended s a * extended s b % 2 ^ 64
    by_sign false z = unsigned_mult a b p q z
    by_sign true z = signed_mult a b p q z
