-- ===== src/Machine/Execute.antt =====
-- Machine::OneInstruction of dev4-memory-management/nachos.tp4/code/machine/mipssim.cc. `none` is a
-- failed ASSERT, or a division that the language leaves undefined.
use operating_systems_assign.Prelude.{
  ℕ, ◌⊎◌, inl, inr, true, false, not, Option, none, some, bit_and, bit_or, ltb, ◌==◌, if◌then◌else◌,
  ◌>>=◌, ◌>>◌, assert,
}
use Prim.Native.Nat.{bit_xor}
use operating_systems_assign.Machine.{
  Machine, ExceptionType, register, write_register, delayed_load, read_mem, syscall, overflow,
  illegal_instr,
}
use operating_systems_assign.Machine.Multiply.{complement_word, mult}
use operating_systems_assign.Machine.Decode.{
  OpCode, Instruction, decode, op_add, op_addi, op_addiu, op_addu, op_and, op_andi, op_beq,
  op_bgezal, op_bgez, op_bgtz, op_blez, op_bltzal, op_bltz, op_bne, op_div, op_divu, op_jal, op_j,
  op_jalr, op_jr, op_lb, op_lbu, op_lh, op_lhu, op_lui, op_lw, op_lwl, op_lwr, op_mfhi, op_mflo,
  op_mthi, op_mtlo, op_mult, op_multu, op_nor, op_or, op_ori, op_sb, op_sh, op_sll, op_sllv, op_slt,
  op_slti, op_sltiu, op_sltu, op_sra, op_srav, op_srl, op_srlv, op_sub, op_subu, op_sw, op_swl,
  op_swr, op_syscall, op_xor, op_xori, op_res, op_unimp,
}
use operating_systems_assign.Machine.Operations.{
  hi_reg, lo_reg, pc_reg, next_pc_reg, prev_pc_reg, ret_addr_reg, Outcome, plus, minus, shift_left,
  shift_right, signed_lt, sign_bit, truth, set_register, go_to, trap, add_overflows, sub_overflows,
  branch_if, link, jump, set_hi_lo, divide, divide_unsigned, load_byte, load_half, load_right, load,
  aligned_load, store_value, store_part, Executed,
}

-- The switch; `pc` is pcAfter before it. OP_SRL shifts an int, like OP_SRA.
unfoldable pub execute :
    (ExceptionType → Machine → Option Machine) → OpCode → Instruction → ℕ → Machine → Outcome
execute kernel op_add i pc m =
    if add_overflows (register m i.rs) (register m i.rt) (register m i.rs)
    then trap kernel overflow 0 m
    else set_register i.rd (plus (register m i.rs) (register m i.rt)) pc m
execute kernel op_addi i pc m =
    if add_overflows (register m i.rs) i.extra i.extra
    then trap kernel overflow 0 m
    else set_register i.rt (plus (register m i.rs) i.extra) pc m
execute kernel op_addiu i pc m = set_register i.rt (plus (register m i.rs) i.extra) pc m
execute kernel op_addu i pc m = set_register i.rd (plus (register m i.rs) (register m i.rt)) pc m
execute kernel op_and i pc m = set_register i.rd (bit_and (register m i.rs) (register m i.rt)) pc m
execute kernel op_andi i pc m =
    set_register i.rt (bit_and (register m i.rs) (bit_and i.extra 65535)) pc m
execute kernel op_beq i pc m = branch_if (register m i.rs == register m i.rt) i.extra pc m
execute kernel op_bgezal i pc m =
    let m' = link ret_addr_reg m in branch_if (not (sign_bit (register m' i.rs))) i.extra pc m'
execute kernel op_bgez i pc m = branch_if (not (sign_bit (register m i.rs))) i.extra pc m
execute kernel op_bgtz i pc m = branch_if (signed_lt 0 (register m i.rs)) i.extra pc m
execute kernel op_blez i pc m = branch_if (not (signed_lt 0 (register m i.rs))) i.extra pc m
execute kernel op_bltzal i pc m =
    let m' = link ret_addr_reg m in branch_if (sign_bit (register m' i.rs)) i.extra pc m'
execute kernel op_bltz i pc m = branch_if (sign_bit (register m i.rs)) i.extra pc m
execute kernel op_bne i pc m = branch_if (not (register m i.rs == register m i.rt)) i.extra pc m
execute kernel op_div i pc m = divide (register m i.rs) (register m i.rt) pc m
execute kernel op_divu i pc m = divide_unsigned (register m i.rs) (register m i.rt) pc m
execute kernel op_jal i pc m = jump i.extra pc (link ret_addr_reg m)
execute kernel op_j i pc m = jump i.extra pc m
execute kernel op_jalr i pc m = let m' = link i.rd m in go_to (register m' i.rs) m'
execute kernel op_jr i pc m = go_to (register m i.rs) m
execute kernel op_lb i pc m =
    load kernel (plus (register m i.rs) i.extra) 1 i.rt (λ v m'. load_byte true v) pc m
execute kernel op_lbu i pc m =
    load kernel (plus (register m i.rs) i.extra) 1 i.rt (λ v m'. load_byte false v) pc m
execute kernel op_lh i pc m =
    aligned_load kernel (plus (register m i.rs) i.extra) 2 i.rt (λ v m'. load_half true v) pc m
execute kernel op_lhu i pc m =
    aligned_load kernel (plus (register m i.rs) i.extra) 2 i.rt (λ v m'. load_half false v) pc m
execute kernel op_lui i pc m = set_register i.rt (shift_left i.extra 16) pc m
execute kernel op_lw i pc m =
    aligned_load kernel (plus (register m i.rs) i.extra) 4 i.rt (λ v m'. v) pc m
execute kernel op_lwl i pc m =
    assert (bit_and (plus (register m i.rs) i.extra) 3 == 0)
    >> load kernel (plus (register m i.rs) i.extra) 4 i.rt (λ v m'. v) pc m
execute kernel op_lwr i pc m =
    assert (bit_and (plus (register m i.rs) i.extra) 3 == 0)
    >> load kernel (plus (register m i.rs) i.extra) 4 i.rt (load_right i.rt) pc m
execute kernel op_mfhi i pc m = set_register i.rd (register m hi_reg) pc m
execute kernel op_mflo i pc m = set_register i.rd (register m lo_reg) pc m
execute kernel op_mthi i pc m = set_register hi_reg (register m i.rs) pc m
execute kernel op_mtlo i pc m = set_register lo_reg (register m i.rs) pc m
execute kernel op_mult i pc m =
    let words = mult (register m i.rs) (register m i.rt) true in set_hi_lo words.0 words.1 pc m
execute kernel op_multu i pc m =
    let words = mult (register m i.rs) (register m i.rt) false in set_hi_lo words.0 words.1 pc m
execute kernel op_nor i pc m =
    set_register i.rd (complement_word (bit_or (register m i.rs) (register m i.rt))) pc m
execute kernel op_or i pc m = set_register i.rd (bit_or (register m i.rs) (register m i.rs)) pc m
execute kernel op_ori i pc m =
    set_register i.rt (bit_or (register m i.rs) (bit_and i.extra 65535)) pc m
execute kernel op_sb i pc m =
    store_value kernel (plus (register m i.rs) i.extra) 1 (register m i.rt) pc m
execute kernel op_sh i pc m =
    store_value kernel (plus (register m i.rs) i.extra) 2 (register m i.rt) pc m
execute kernel op_sll i pc m = set_register i.rd (shift_left (register m i.rt) i.extra) pc m
execute kernel op_sllv i pc m =
    set_register i.rd (shift_left (register m i.rt) (bit_and (register m i.rs) 31)) pc m
execute kernel op_slt i pc m =
    set_register i.rd (truth (signed_lt (register m i.rs) (register m i.rt))) pc m
execute kernel op_slti i pc m = set_register i.rt (truth (signed_lt (register m i.rs) i.extra)) pc m
execute kernel op_sltiu i pc m = set_register i.rt (truth (ltb (register m i.rs) i.extra)) pc m
execute kernel op_sltu i pc m =
    set_register i.rd (truth (ltb (register m i.rs) (register m i.rt))) pc m
execute kernel op_sra i pc m = set_register i.rd (shift_right (register m i.rt) i.extra) pc m
execute kernel op_srav i pc m =
    set_register i.rd (shift_right (register m i.rt) (bit_and (register m i.rs) 31)) pc m
execute kernel op_srl i pc m = set_register i.rd (shift_right (register m i.rt) i.extra) pc m
execute kernel op_srlv i pc m =
    set_register i.rd (shift_right (register m i.rt) (bit_and (register m i.rs) 31)) pc m
execute kernel op_sub i pc m =
    if sub_overflows (register m i.rs) (register m i.rt)
    then trap kernel overflow 0 m
    else set_register i.rd (minus (register m i.rs) (register m i.rt)) pc m
execute kernel op_subu i pc m = set_register i.rd (minus (register m i.rs) (register m i.rt)) pc m
execute kernel op_sw i pc m =
    store_value kernel (plus (register m i.rs) i.extra) 4 (register m i.rt) pc m
execute kernel op_swl i pc m =
    store_part kernel (plus (register m i.rs) i.extra) (λ v m'. register m' i.rt) pc m
execute kernel op_swr i pc m =
    store_part kernel (plus (register m i.rs) i.extra)
      (λ v m'. bit_or (bit_and v 16777215) (shift_left (register m' i.rt) 24)) pc m
execute kernel op_syscall i pc m = trap kernel syscall 0 m
execute kernel op_xor i pc m = set_register i.rd (bit_xor (register m i.rs) (register m i.rt)) pc m
execute kernel op_xori i pc m =
    set_register i.rt (bit_xor (register m i.rs) (bit_and i.extra 65535)) pc m
execute kernel op_res i pc m = trap kernel illegal_instr 0 m
execute kernel op_unimp i pc m = trap kernel illegal_instr 0 m
execute kernel code i pc m = none

-- The delayed load and the program counters, behind the switch.
unfoldable pub advance : Machine ⊎ Executed → Option Machine
advance (inl m) = some m
advance (inr x) =
    let loaded = delayed_load x.next_load_reg x.next_load_value x.machine in
    let past = write_register loaded prev_pc_reg (register loaded pc_reg) in
    let present = write_register past pc_reg (register past next_pc_reg) in
    some (write_register present next_pc_reg x.pc_after)

-- From the fetched instruction on.
unfoldable pub run_raw :
    (ExceptionType → Machine → Option Machine) → Option ℕ × Machine → Option Machine
run_raw kernel (none, m) = some m
run_raw kernel (some raw, m) =
    execute kernel (decode raw).op_code (decode raw) (plus (register m next_pc_reg) 4) m >>= advance

unfoldable pub one_instruction :
    (ExceptionType → Machine → Option Machine) → Machine → Option Machine
one_instruction kernel m = read_mem kernel (register m pc_reg) 4 m >>= run_raw kernel
