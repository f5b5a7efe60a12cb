-- ===== src/Machine/Operations.antt =====
-- The cases of Machine::OneInstruction of dev4-memory-management/nachos.tp4/code/machine/mipssim.cc. `none` is a failed ASSERT, or a division that the language
-- leaves undefined. An int is its 32-bit pattern.
use operating_systems_assign.Prelude.{
  ℕ, ◌+◌, ◌-◌, ◌*◌, ◌/◌, ◌%◌, ◌^◌, ◌⊎◌, inl, inr, Bool, true, false, not, ◌&&◌, Option, none, some,
  bit_and, bit_or, ltb, ◌==◌, if◌then◌else◌, is_nonneg, ◌>>=◌, ◌>>◌, assert,
}
use Prim.Native.Nat.{bit_xor}
use operating_systems_assign.Machine.{
  Machine, ExceptionType, load_reg, load_value_reg, register, write_register, raise_exception,
  read_mem, write_mem, address_error,
}
use operating_systems_assign.Machine.Multiply.{negate, magnitude, is_negative}

abbrev pub hi_reg : ℕ
hi_reg = 32

abbrev pub lo_reg : ℕ
lo_reg = 33

abbrev pub pc_reg : ℕ
pc_reg = 34

abbrev pub next_pc_reg : ℕ
next_pc_reg = 35

abbrev pub prev_pc_reg : ℕ
prev_pc_reg = 36

abbrev pub ret_addr_reg : ℕ
ret_addr_reg = 31

-- What the switch leaves for the end of OneInstruction.
pub record Executed : Type 0 where
  pub machine : Machine
  pub pc_after : ℕ
  pub next_load_reg : ℕ
  pub next_load_value : ℕ

-- Behind the switch, or at a `return` in it with the machine as it is then.
abbrev pub Outcome : Type 0
Outcome = Option (Machine ⊎ Executed)

-- Sums, differences and shifts of ints, and `<` on them.
unfoldable pub plus : ℕ → ℕ → ℕ
plus a b = (a + b) % 2 ^ 32

unfoldable pub minus : ℕ → ℕ → ℕ
minus a b = (a + (2 ^ 32 - b)) % 2 ^ 32

unfoldable pub shift_left : ℕ → ℕ → ℕ
shift_left a n = a * 2 ^ n % 2 ^ 32

unfoldable pub shift_right : ℕ → ℕ → ℕ
shift_right a n = if is_nonneg a then a / 2 ^ n else a / 2 ^ n + (2 ^ 32 - 2 ^ (32 - n))

unfoldable pub signed_lt : ℕ → ℕ → Bool
signed_lt a b = ltb ((a + 2 ^ 31) % 2 ^ 32) ((b + 2 ^ 31) % 2 ^ 32)

unfoldable pub sign_bit : ℕ → Bool
sign_bit a = not (bit_and a (2 ^ 31) == 0)

unfoldable pub truth : Bool → ℕ
truth b = if b then 1 else 0

-- The end of a case that sets register r to v, and no other.
unfoldable pub set_register : ℕ → ℕ → ℕ → Machine → Outcome
set_register r v pc_after m = some (
    inr (record {
      machine = write_register m r v;
      pc_after = pc_after;
      next_load_reg = 0;
      next_load_value = 0;
    }))

-- The end of a case that only sets pcAfter.
unfoldable pub go_to : ℕ → Machine → Outcome
go_to pc_after m =
    some (inr (record { machine = m; pc_after = pc_after; next_load_reg = 0; next_load_value = 0 }))

-- RaiseException and a `return`.
unfoldable pub trap :
    (ExceptionType → Machine → Option Machine) → ExceptionType → ℕ → Machine → Outcome
trap kernel which bad_vaddr m = raise_exception kernel which bad_vaddr m >>= λ m'. some (inl m')

-- The tests for overflow of a sum and of a difference; `x` is the operand that they compare with it.
unfoldable pub add_overflows : ℕ → ℕ → ℕ → Bool
add_overflows a b x = not (sign_bit (bit_xor a b)) && sign_bit (bit_xor x (plus a b))

unfoldable pub sub_overflows : ℕ → ℕ → Bool
sub_overflows a b = sign_bit (bit_xor a b) && sign_bit (bit_xor a (minus a b))

unfoldable pub branch_if : Bool → ℕ → ℕ → Machine → Outcome
branch_if taken extra pc_after m =
    go_to (if taken then plus (register m next_pc_reg) (shift_left extra 2) else pc_after) m

-- `registers[R31] = registers[NextPCReg] + 4`, and the same for another register.
unfoldable pub link : ℕ → Machine → Machine
link r m = write_register m r (plus (register m next_pc_reg) 4)

unfoldable pub jump : ℕ → ℕ → Machine → Outcome
jump extra pc_after m = go_to (bit_or (bit_and pc_after 4026531840) (shift_left extra 2)) m

unfoldable pub set_hi_lo : ℕ → ℕ → ℕ → Machine → Outcome
set_hi_lo hi lo pc_after m = set_register hi_reg hi pc_after (write_register m lo_reg lo)

-- The division of ints rounds to 0, and the remainder has the sign of the first.
unfoldable pub quotient : ℕ → ℕ → ℕ
quotient a b =
    let q = magnitude true a / magnitude true b in if is_negative true a b then negate q else q

unfoldable pub remainder : ℕ → ℕ → ℕ
remainder a b = let r = magnitude true a % magnitude true b in if is_nonneg a then r else negate r

unfoldable pub divide : ℕ → ℕ → ℕ → Machine → Outcome
divide a b pc_after m =
    if b == 0
    then set_hi_lo 0 0 pc_after m
    else if (a == 2 ^ 31) && (b == 2 ^ 32 - 1)
    then none
    else set_hi_lo (remainder a b) (quotient a b) pc_after m

unfoldable pub divide_unsigned : ℕ → ℕ → ℕ → Machine → Outcome
divide_unsigned a b pc_after m =
    if b == 0 then set_hi_lo 0 0 pc_after m else set_hi_lo (a % b) (a / b) pc_after m

-- A case behind its ReadMem: the register rt gets the value, changed by `convert`, with a delay.
unfoldable pub finish_load : ℕ → (ℕ → Machine → ℕ) → ℕ → Option ℕ × Machine → Outcome
finish_load rt convert pc_after (none, m) = some (inl m)
finish_load rt convert pc_after (some v, m) = some (
    inr (record {
      machine = m;
      pc_after = pc_after;
      next_load_reg = rt;
      next_load_value = convert v m;
    }))

unfoldable pub load_byte : Bool → ℕ → ℕ
load_byte signed v =
    if not (bit_and v 128 == 0) && signed then bit_or v 4294967040 else bit_and v 255

unfoldable pub load_half : Bool → ℕ → ℕ
load_half signed v =
    if not (bit_and v 32768 == 0) && signed then bit_or v 4294901760 else bit_and v 65535

-- Behind the ASSERT of LWL, LWR, SWL and SWR the inner switch has its case 0 only.
unfoldable pub load_right : ℕ → ℕ → Machine → ℕ
load_right rt v m =
    let old = if register m load_reg == rt then register m load_value_reg else register m rt in
    bit_or (bit_and old 4294967040) (bit_and (shift_right v 24) 255)

unfoldable pub load :
    (ExceptionType → Machine → Option Machine)
    → ℕ
    → ℕ
    → ℕ
    → (ℕ → Machine → ℕ)
    → ℕ
    → Machine
    → Outcome
load kernel address size rt convert pc_after m =
    read_mem kernel address size m >>= finish_load rt convert pc_after

-- A load of a half or a whole word, whose address must be aligned.
unfoldable pub aligned_load :
    (ExceptionType → Machine → Option Machine)
    → ℕ
    → ℕ
    → ℕ
    → (ℕ → Machine → ℕ)
    → ℕ
    → Machine
    → Outcome
aligned_load kernel address size rt convert pc_after m =
    if bit_and address (size - 1) == 0
    then load kernel address size rt convert pc_after m
    else trap kernel address_error address m

unfoldable pub finish_store : ℕ → Bool × Machine → Outcome
finish_store pc_after (false, m) = some (inl m)
finish_store pc_after (true, m) = go_to pc_after m

unfoldable pub store_value :
    (ExceptionType → Machine → Option Machine) → ℕ → ℕ → ℕ → ℕ → Machine → Outcome
store_value kernel address size v pc_after m =
    write_mem kernel address size v m >>= finish_store pc_after

-- SWL and SWR: the word is read, and written with what `convert` makes of it.
unfoldable pub store_read :
    (ExceptionType → Machine → Option Machine)
    → ℕ
    → (ℕ → Machine → ℕ)
    → ℕ
    → Option ℕ × Machine
    → Outcome
store_read kernel address convert pc_after (none, m) = some (inl m)
store_read kernel address convert pc_after (some v, m) =
    store_value kernel address 4 (convert v m) pc_after m

unfoldable pub store_part :
    (ExceptionType → Machine → Option Machine) → ℕ → (ℕ → Machine → ℕ) → ℕ → Machine → Outcome
store_part kernel address convert pc_after m =
    assert (bit_and address 3 == 0)
    >> (read_mem kernel address 4 m >>= store_read kernel address convert pc_after)
