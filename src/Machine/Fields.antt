-- ===== src/Machine/Fields.antt =====
-- Instruction::Decode of dev4-memory-management/nachos.tp4/code/machine/mipssim.cc on instructions
-- that are put together from their fields, as the manual of the processor lays them out.
use operating_systems_assign.Prelude.{
  ℕ, ◌+◌, ◌-◌, ◌*◌, ◌/◌, ◌%◌, ◌^◌, ◌<◌, ◌≡◌, ap, ap₂, ◌∙◌, not, bit_and, bit_or, ltb, ◌==◌,
  if◌then◌else◌, get_or, arith,
}
use operating_systems_assign.Prelude.Bits.{bit_test-digit}
use operating_systems_assign.Prelude.Modular.{bit_and-ones, digit-div}
use operating_systems_assign.Prelude.Masks.{bit_or-high, bit_and-high}
use operating_systems_assign.Machine.Decode.{
  OpCode, Format, op_res, op_bltz, op_bgez, op_bltzal, op_bgezal, op_unimp, ifmt, jfmt, rfmt,
  op_table, special_table, extra_of, branch_code, resolve, decode,
}

-- The operation, three registers, the amount of a shift and the function, from the highest bits on.
abbrev pub instruction : ℕ → ℕ → ℕ → ℕ → ℕ → ℕ → ℕ
instruction op rs rt rd shamt funct =
    ((((op * 32 + rs) * 32 + rt) * 32 + rd) * 32 + shamt) * 64 + funct

-- The last 16 bits, and the last 26.
abbrev pub immediate : ℕ → ℕ → ℕ → ℕ
immediate rd shamt funct = (rd * 32 + shamt) * 64 + funct

abbrev pub target : ℕ → ℕ → ℕ → ℕ → ℕ → ℕ
target rs rt rd shamt funct = (rs * 32 + rt) * 65536 + immediate rd shamt funct

-- The 32-bit pattern of a number of 16 bits with a sign.
abbrev pub sign_extended : ℕ → ℕ
sign_extended immediate = if ltb immediate 32768 then immediate else immediate + (2 ^ 32 - 65536)

-- The branch that the field rt of an instruction of operation BCOND asks for.
abbrev pub branch_of : ℕ → OpCode
branch_of rt =
    if rt == 0
    then op_bltz
    else if rt == 1
    then op_bgez
    else if rt == 16
    then op_bltzal
    else if rt == 17
    then op_bgezal
    else op_unimp

-- The field `extra`.
abbrev pub extra_field : Format → ℕ → ℕ → ℕ → ℕ → ℕ → ℕ
extra_field ifmt rs rt rd shamt funct = sign_extended (immediate rd shamt funct)
extra_field jfmt rs rt rd shamt funct = target rs rt rd shamt funct
extra_field rfmt rs rt rd shamt funct = shamt

-- The entry of opTable.
abbrev pub op_info : ℕ → OpCode × Format
op_info op = get_or op_table op (op_res, ifmt)

instruction_fields :
    (op rs rt rd shamt funct : ℕ)
    → op < 64
    → rs < 32
    → rt < 32
    → rd < 32
    → shamt < 32
    → funct < 64
    → (instruction op rs rt rd shamt funct / 2 ^ 26 % 64 ≡ op)
      × (instruction op rs rt rd shamt funct / 2 ^ 21 % 32 ≡ rs)
      × (instruction op rs rt rd shamt funct / 2 ^ 16 % 32 ≡ rt)
      × (instruction op rs rt rd shamt funct / 2 ^ 11 % 32 ≡ rd)
      × (instruction op rs rt rd shamt funct / 2 ^ 6 % 32 ≡ shamt)
      × (instruction op rs rt rd shamt funct % 64 ≡ funct)
      × (instruction op rs rt rd shamt funct % 65536 ≡ immediate rd shamt funct)
      × (instruction op rs rt rd shamt funct % 67108864 ≡ target rs rt rd shamt funct)
instruction_fields op rs rt rd shamt funct p q r s t u = omega arith

five_bits : (w : ℕ) → bit_and w 31 ≡ w % 32
five_bits w = bit_and-ones 5 w

six_bits : (w : ℕ) → bit_and w 63 ≡ w % 64
six_bits w = bit_and-ones 6 w

top_bit_of_half : (i : ℕ) → i < 65536 → not (bit_and i 32768 == 0) ≡ not (ltb i 32768)
top_bit_of_half i h = bit_test-digit 15 i ∙ ap (λ d. d == 1) (digit-div 15 i) ∙ ground (arith, h)

extend :
    (i : ℕ)
    → i < 65536
    → (if not (bit_and i 32768 == 0) then bit_or i 4294901760 else i) ≡ sign_extended i
extend i h =
    ap₂ (λ b e. if b then e else i) (top_bit_of_half i h) (bit_or-high 16 i 65535 h) ∙ ground arith

branch_code-shifted : (rt : ℕ) → branch_code (rt * 65536) ≡ branch_of rt
unfolding branch_code
branch_code-shifted rt = ground arith

extra_of_lem :
    (format : Format) (op rs rt rd shamt funct : ℕ)
    → op < 64
    → rs < 32
    → rt < 32
    → rd < 32
    → shamt < 32
    → funct < 64
    → extra_of format (instruction op rs rt rd shamt funct)
      ≡ extra_field format rs rt rd shamt funct
unfolding extra_of
extra_of_lem ifmt op rs rt rd shamt funct p q r s t u =
    let w = instruction op rs rt rd shamt funct in
    let low = bit_and-ones 16 w ∙ (instruction_fields op rs rt rd shamt funct p q r s t u).6 in
    ap (λ i. if not (bit_and i 32768 == 0) then bit_or i 4294901760 else i) low
    ∙ extend (immediate rd shamt funct) (omega arith)
extra_of_lem jfmt op rs rt rd shamt funct p q r s t u =
    bit_and-ones 26 (instruction op rs rt rd shamt funct)
    ∙ (instruction_fields op rs rt rd shamt funct p q r s t u).7
extra_of_lem rfmt op rs rt rd shamt funct p q r s t u =
    five_bits (instruction op rs rt rd shamt funct / 2 ^ 6)
    ∙ (instruction_fields op rs rt rd shamt funct p q r s t u).4

-- Decode gives back the three registers of any instruction. Its opCode is that of opTable for the
-- operation, or for SPECIAL that of specialTable for the function, or for BCOND that of the branch in
-- the field rt; `extra` is the amount of the shift, the immediate with its sign or the target of the
-- jump, as the format of opTable says.
pub decode_lem :
    (op rs rt rd shamt funct : ℕ)
    → op < 64
    → rs < 32
    → rt < 32
    → rd < 32
    → shamt < 32
    → funct < 64
    → ((decode (instruction op rs rt rd shamt funct)).op_code
        ≡ resolve (op_info op).0 (get_or special_table funct op_res) (branch_of rt))
      × ((decode (instruction op rs rt rd shamt funct)).rs ≡ rs)
      × ((decode (instruction op rs rt rd shamt funct)).rt ≡ rt)
      × ((decode (instruction op rs rt rd shamt funct)).rd ≡ rd)
      × ((decode (instruction op rs rt rd shamt funct)).extra
          ≡ extra_field (op_info op).1 rs rt rd shamt funct)
unfolding decode
decode_lem op rs rt rd shamt funct p q r s t u =
    let w = instruction op rs rt rd shamt funct in
    let fields = instruction_fields op rs rt rd shamt funct p q r s t u in
    let info = ap op_info (six_bits (w / 2 ^ 26) ∙ fields.0) in
    let from_special = ap (λ i. get_or special_table i op_res) (six_bits w ∙ fields.5) in
    let masked = bit_and-high 16 w 31 ∙ ap (λ i. i * 65536) (five_bits (w / 2 ^ 16) ∙ fields.2) in
    let from_bcond = ap branch_code masked ∙ branch_code-shifted rt in
    (
      ap
            (λ entry.
              resolve entry.0 (get_or special_table (bit_and w 63) op_res)
                (branch_code (bit_and w 2031616)))
            info
          ∙ ap₂ (resolve (op_info op).0) from_special from_bcond,
      five_bits (w / 2 ^ 21) ∙ fields.1,
      five_bits (w / 2 ^ 16) ∙ fields.2,
      five_bits (w / 2 ^ 11) ∙ fields.3,
      ap (λ entry. extra_of entry.1 w) info
          ∙ extra_of_lem (op_info op).1 op rs rt rd shamt funct p q r s t u,
    )
