-- ===== src/Machine/Decode.antt =====
-- The tables of dev4-memory-management/nachos.tp4/code/machine/mipssim.h and Instruction::Decode of
-- mipssim.cc, which takes the binary representation of an instruction apart.
use operating_systems_assign.Prelude.{
  ℕ, ◌/◌, ◌^◌, not, List, [], ◌∷◌, bit_and, bit_or, ◌==◌, if◌then◌else◌, get_or,
}

-- The values of opCode; special and bcond ask for further decoding.
pub data OpCode : Type 0 where
  op_add op_addi op_addiu op_addu op_and op_andi op_beq op_bgez op_bgezal op_bgtz : OpCode
  op_blez op_bltz op_bltzal op_bne op_div op_divu op_j op_jal op_jalr op_jr op_lb op_lbu : OpCode
  op_lh op_lhu op_lui op_lw op_lwl op_lwr op_mfhi op_mflo op_mthi op_mtlo op_mult : OpCode
  op_multu op_nor op_or op_ori op_rfe op_sb op_sh op_sll op_sllv op_slt op_slti op_sltiu : OpCode
  op_sltu op_sra op_srav op_srl op_srlv op_sub op_subu op_sw op_swl op_swr op_xor : OpCode
  op_xori op_syscall op_unimp op_res special bcond : OpCode

pub data Format : Type 0 where
  ifmt jfmt rfmt : Format

-- opTable, and specialTable for the last six bits of a special instruction.
abbrev pub op_table : List (OpCode × Format)
op_table =
    (special, rfmt)
    ∷ (bcond, ifmt)
    ∷ (op_j, jfmt)
    ∷ (op_jal, jfmt)
    ∷ (op_beq, ifmt)
    ∷ (op_bne, ifmt)
    ∷ (op_blez, ifmt)
    ∷ (op_bgtz, ifmt)
    ∷ (op_addi, ifmt)
    ∷ (op_addiu, ifmt)
    ∷ (op_slti, ifmt)
    ∷ (op_sltiu, ifmt)
    ∷ (op_andi, ifmt)
    ∷ (op_ori, ifmt)
    ∷ (op_xori, ifmt)
    ∷ (op_lui, ifmt)
    ∷ (op_unimp, ifmt)
    ∷ (op_unimp, ifmt)
    ∷ (op_unimp, ifmt)
    ∷ (op_unimp, ifmt)
    ∷ (op_res, ifmt)
    ∷ (op_res, ifmt)
    ∷ (op_res, ifmt)
    ∷ (op_res, ifmt)
    ∷ (op_res, ifmt)
    ∷ (op_res, ifmt)
    ∷ (op_res, ifmt)
    ∷ (op_res, ifmt)
    ∷ (op_res, ifmt)
    ∷ (op_res, ifmt)
    ∷ (op_res, ifmt)
    ∷ (op_res, ifmt)
    ∷ (op_lb, ifmt)
    ∷ (op_lh, ifmt)
    ∷ (op_lwl, ifmt)
    ∷ (op_lw, ifmt)
    ∷ (op_lbu, ifmt)
    ∷ (op_lhu, ifmt)
    ∷ (op_lwr, ifmt)
    ∷ (op_res, ifmt)
    ∷ (op_sb, ifmt)
    ∷ (op_sh, ifmt)
    ∷ (op_swl, ifmt)
    ∷ (op_sw, ifmt)
    ∷ (op_res, ifmt)
    ∷ (op_res, ifmt)
    ∷ (op_swr, ifmt)
    ∷ (op_res, ifmt)
    ∷ (op_unimp, ifmt)
    ∷ (op_unimp, ifmt)
    ∷ (op_unimp, ifmt)
    ∷ (op_unimp, ifmt)
    ∷ (op_res, ifmt)
    ∷ (op_res, ifmt)
    ∷ (op_res, ifmt)
    ∷ (op_res, ifmt)
    ∷ (op_unimp, ifmt)
    ∷ (op_unimp, ifmt)
    ∷ (op_unimp, ifmt)
    ∷ (op_unimp, ifmt)
    ∷ (op_res, ifmt)
    ∷ (op_res, ifmt)
    ∷ (op_res, ifmt)
    ∷ (op_res, ifmt)
    ∷ []

abbrev pub special_table : List OpCode
special_table =
    op_sll ∷ op_res ∷ op_srl ∷ op_sra ∷ op_sllv ∷ op_res ∷ op_srlv ∷ op_srav ∷ op_jr ∷ op_jalr
    ∷ op_res ∷ op_res ∷ op_syscall ∷ op_unimp ∷ op_res ∷ op_res ∷ op_mfhi ∷ op_mthi ∷ op_mflo
    ∷ op_mtlo ∷ op_res ∷ op_res ∷ op_res ∷ op_res ∷ op_mult ∷ op_multu ∷ op_div ∷ op_divu ∷ op_res
    ∷ op_res ∷ op_res ∷ op_res ∷ op_add ∷ op_addu ∷ op_sub ∷ op_subu ∷ op_and ∷ op_or ∷ op_xor
    ∷ op_nor ∷ op_res ∷ op_res ∷ op_slt ∷ op_sltu ∷ op_res ∷ op_res ∷ op_res ∷ op_res ∷ op_res
    ∷ op_res ∷ op_res ∷ op_res ∷ op_res ∷ op_res ∷ op_res ∷ op_res ∷ op_res ∷ op_res ∷ op_res
    ∷ op_res ∷ op_res ∷ op_res ∷ op_res ∷ op_res ∷ []

-- extra is an int, kept as its 32-bit pattern.
pub record Instruction : Type 0 where
  pub value : ℕ
  pub op_code : OpCode
  pub rs : ℕ
  pub rt : ℕ
  pub rd : ℕ
  pub extra : ℕ

-- The part of `extra` in each format.
unfoldable pub extra_of : Format → ℕ → ℕ
extra_of ifmt value =
    let immediate = bit_and value 65535 in
    if not (bit_and immediate 32768 == 0) then bit_or immediate 4294901760 else immediate
extra_of rfmt value = bit_and (value / 2 ^ 6) 31
extra_of jfmt value = bit_and value 67108863

-- The branches that compare a register with 0.
unfoldable pub branch_code : ℕ → OpCode
branch_code i =
    if i == 0
    then op_bltz
    else if i == 65536
    then op_bgez
    else if i == 1048576
    then op_bltzal
    else if i == 1114112
    then op_bgezal
    else op_unimp

-- The tests of opCode against SPECIAL and BCOND, with the codes that they give.
unfoldable pub resolve : OpCode → OpCode → OpCode → OpCode
resolve special from_special from_bcond = from_special
resolve bcond from_special from_bcond = from_bcond
resolve code from_special from_bcond = code

-- Decode sets the fields from `value`.
unfoldable pub decode : ℕ → Instruction
decode value =
    let info = get_or op_table (bit_and (value / 2 ^ 26) 63) (op_res, ifmt) in
    record {
      value = value;
      op_code =
          resolve info.0 (get_or special_table (bit_and value 63) op_res)
            (branch_code (bit_and value 2031616));
      rs = bit_and (value / 2 ^ 21) 31;
      rt = bit_and (value / 2 ^ 16) 31;
      rd = bit_and (value / 2 ^ 11) 31;
      extra = extra_of info.1 value;
    }
