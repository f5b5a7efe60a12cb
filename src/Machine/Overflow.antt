-- ===== src/Machine/Overflow.antt =====
-- The tests for overflow in the additions and the subtraction of OneInstruction of
-- dev4-memory-management/nachos.tp4/code/machine/mipssim.cc.
use Prim.Native.Nat.{bit_xor, differ}
use operating_systems_assign.Prelude.{
  ℕ, ◌+◌, ◌/◌, ◌%◌, ◌^◌, ◌≤◌, ◌<◌, ◌≡◌, refl, ap, ap₂, ◌∙◌, ◌⊎◌, inl, inr, Bool, true, false, not,
  ◌&&◌, Option, ◌==◌, if◌then◌else◌, lt-cases, arith,
}
use operating_systems_assign.Prelude.Bits.{digit-bit_xor, bit_test-digit}
use operating_systems_assign.Prelude.Modular.{digit-div}
use operating_systems_assign.Machine.{Machine, ExceptionType, register, overflow}
use operating_systems_assign.Machine.Decode.{Instruction, op_add}
use operating_systems_assign.Machine.Operations.{plus, sign_bit, add_overflows, set_register, trap}
use operating_systems_assign.Machine.Execute.{execute}

-- The int with the pattern w is `lifted w - 2 ^ 31`.
abbrev pub lifted : ℕ → ℕ
lifted w = (w + 2 ^ 31) % 2 ^ 32

-- Are the signs of two words different?
signs : (a b : ℕ) → sign_bit (bit_xor a b) ≡ (differ (a / 2 ^ 31 % 2) (b / 2 ^ 31 % 2) == 1)
unfolding sign_bit
signs a b =
    bit_test-digit 31 (bit_xor a b)
    ∙ ap (λ d. d == 1) (digit-bit_xor 31 a b)
    ∙ ap₂ (λ x y. differ x y == 1) (digit-div 31 a) (digit-div 31 b)

sign-cases :
    (w : ℕ)
    → w < 2 ^ 32
    → ((w < 2 ^ 31) × (w / 2 ^ 31 % 2 ≡ 0)) ⊎ ((2 ^ 31 ≤ w) × (w / 2 ^ 31 % 2 ≡ 1))
sign-cases w h = elim (lt-cases w (2 ^ 31)) [
  | inl l ↦ inl (l, omega arith)
  | inr g ↦ inr (g, omega arith)
]

-- The sum of two ints is an int, and `plus` gives it, or the test finds that it is not.
abbrev Sum : ℕ → ℕ → Bool → Type 0
Sum a b overflows =
    ((overflows ≡ false) × (lifted (plus a b) + 2 ^ 31 ≡ lifted a + lifted b))
    ⊎ ((overflows ≡ true)
        × ((lifted a + lifted b < 2 ^ 31) ⊎ (2 ^ 32 + 2 ^ 31 ≤ lifted a + lifted b)))

add_test :
    (a b x da db dx ds : ℕ)
    → a / 2 ^ 31 % 2 ≡ da
    → b / 2 ^ 31 % 2 ≡ db
    → x / 2 ^ 31 % 2 ≡ dx
    → plus a b / 2 ^ 31 % 2 ≡ ds
    → add_overflows a b x ≡ (not (differ da db == 1) && (differ dx ds == 1))
unfolding add_overflows
add_test a b x da db dx ds e f g h =
    ap₂ (λ u v. not u && v) (signs a b) (signs x (plus a b))
    ∙ ap₂ (λ u v. not (differ u v == 1) && (differ (x / 2 ^ 31 % 2) (plus a b / 2 ^ 31 % 2) == 1)) e
        f
    ∙ ap₂ (λ u v. not (differ da db == 1) && (differ u v == 1)) g h

plus-lt : (a b : ℕ) → plus a b < 2 ^ 32
unfolding plus
plus-lt a b = omega arith

-- Where a and b have the sign d, so has the operand that is compared with the sum.
operand :
    (a b x d : ℕ) → (x ≡ a) ⊎ (x ≡ b) → a / 2 ^ 31 % 2 ≡ d → b / 2 ^ 31 % 2 ≡ d → x / 2 ^ 31 % 2 ≡ d
operand a b x d (inl e) f g = ap (λ w. w / 2 ^ 31 % 2) e ∙ f
operand a b x d (inr e) f g = ap (λ w. w / 2 ^ 31 % 2) e ∙ g

add_lem : (a b x : ℕ) → a < 2 ^ 32 → b < 2 ^ 32 → (x ≡ a) ⊎ (x ≡ b) → Sum a b (add_overflows a b x)
unfolding plus
add_lem a b x p q which = elim (sign-cases a p) [
  | inl (la, da) ↦ elim (sign-cases b q) [
    | inl (lb, db) ↦ elim (sign-cases (plus a b) (plus-lt a b)) [
      | inl (ls, ds) ↦
          inl (
            add_test a b x 0 0 0 0 da db (operand a b x 0 which da db) ds,
            omega (arith, la, lb, ls),
          )
      | inr (ls, ds) ↦ inr (
        add_test a b x 0 0 0 1 da db (operand a b x 0 which da db) ds,
        inr (omega (arith, la, lb, ls)),
      )
    ]
    | inr (lb, db) ↦ inl (add_test a b x 0 1 _ _ da db refl refl, omega (arith, la, lb, q))
  ]
  | inr (la, da) ↦ elim (sign-cases b q) [
    | inl (lb, db) ↦ inl (add_test a b x 1 0 _ _ da db refl refl, omega (arith, la, lb, p))
    | inr (lb, db) ↦ elim (sign-cases (plus a b) (plus-lt a b)) [
      | inl (ls, ds) ↦ inr (
        add_test a b x 1 1 1 0 da db (operand a b x 1 which da db) ds,
        inl (omega (arith, la, lb, ls, p, q)),
      )
      | inr (ls, ds) ↦ inl (
        add_test a b x 1 1 1 1 da db (operand a b x 1 which da db) ds,
        omega (arith, la, lb, ls, p, q),
      )
    ]
  ]
]

add_case :
    (kernel : ExceptionType → Machine → Option Machine) (i : Instruction) (pc : ℕ) (m : Machine)
    (overflows : Bool)
    → add_overflows (register m i.rs) (register m i.rt) (register m i.rs) ≡ overflows
    → execute kernel op_add i pc m ≡ (
        if overflows
        then trap kernel overflow 0 m
        else set_register i.rd (plus (register m i.rs) (register m i.rt)) pc m)
unfolding execute
add_case kernel i pc m overflows e = rw e refl

-- OP_ADD on two 32-bit patterns: where the sum of the two ints is an int, it goes to the register rd
-- and the machine goes on; where it is not, there is an overflow exception and rd is not set.
pub op_add_lem :
    (kernel : ExceptionType → Machine → Option Machine) (i : Instruction) (pc : ℕ) (m : Machine)
    → register m i.rs < 2 ^ 32
    → register m i.rt < 2 ^ 32
    → ((sum : ℕ) × (sum < 2 ^ 32)
        × (lifted sum + 2 ^ 31 ≡ lifted (register m i.rs) + lifted (register m i.rt))
        × (execute kernel op_add i pc m ≡ set_register i.rd sum pc m))
      ⊎ (((lifted (register m i.rs) + lifted (register m i.rt) < 2 ^ 31)
            ⊎ (2 ^ 32 + 2 ^ 31 ≤ lifted (register m i.rs) + lifted (register m i.rt)))
          × (execute kernel op_add i pc m ≡ trap kernel overflow 0 m))
op_add_lem kernel i pc m p q =
    let a = register m i.rs in
    let b = register m i.rt in
    elim (add_lem a b a p q (inl refl)) [
      | inl (fits, exact) ↦ inl (plus a b, plus-lt a b, exact, add_case kernel i pc m false fits)
      | inr (over, outside) ↦ inr (outside, add_case kernel i pc m true over)
    ]
