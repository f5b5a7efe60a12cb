-- ===== src/Machine/Zero.antt =====
-- Register 0 of the simulated machine in OneInstruction of
-- dev4-memory-management/nachos.tp4/code/machine/mipssim.cc.
use operating_systems_assign.Prelude.{
  ℕ, ◌≡◌, ◌∙◌, inl, inr, true, false, Option, none, some, bit_and, bit_or, ◌==◌, subst, ◌>>=◌,
}
use operating_systems_assign.Machine.{
  Machine, ExceptionType, register, write_register, delayed_load, read_mem, syscall, overflow,
  illegal_instr,
}
use operating_systems_assign.Machine.Decode.{
  OpCode, Instruction, decode, op_add, op_addi, op_addiu, op_addu, op_and, op_andi, op_beq,
  op_bgezal, op_bgez, op_bgtz, op_blez, op_bltzal, op_bltz, op_bne, op_div, op_divu, op_jal, op_j,
  op_jalr, op_jr, op_lb, op_lbu, op_lh, op_lhu, op_lui, op_lw, op_lwl, op_lwr, op_mfhi, op_mflo,
  op_mthi, op_mtlo, op_mult, op_multu, op_nor, op_or, op_ori, op_sb, op_sh, op_sll, op_sllv, op_slt,
  op_slti, op_sltiu, op_sltu, op_sra, op_srav, op_srl, op_srlv, op_sub, op_subu, op_sw, op_swl,
  op_swr, op_syscall, op_xor, op_xori, op_res, op_unimp, op_rfe, special, bcond,
}
use operating_systems_assign.Machine.Operations.{
  pc_reg, next_pc_reg, prev_pc_reg, Outcome, plus, shift_left, set_register, go_to, add_overflows,
  sub_overflows, branch_if, jump, set_hi_lo, load_byte, load_half, load_right,
}
use operating_systems_assign.Machine.Execute.{execute, advance, run_raw, one_instruction}
use operating_systems_assign.Machine.Cases.{
  Handler, ZeroIn, KeepsZero, Leaves, Failed, set_other, delayed_load_zero, trap_lem, read_mem_lem,
  if-Leaves, assert-Leaves, load-Leaves, aligned_load-Leaves, store_value-Leaves, store_part-Leaves,
  divide-Leaves, divide_unsigned-Leaves,
}

module _ (kernel : Handler) (keeps : KeepsZero kernel) where
  execute-Leaves :
      (code : OpCode) (i : Instruction) (pc : ℕ) (m : Machine) → Leaves (execute kernel code i pc m)
  unfolding execute set_register go_to branch_if jump set_hi_lo
  execute-Leaves op_add i pc m =
      if-Leaves kernel keeps (add_overflows (register m i.rs) (register m i.rt) (register m i.rs)) _
        _ (trap_lem kernel keeps overflow 0 m) tt
  execute-Leaves op_addi i pc m =
      if-Leaves kernel keeps (add_overflows (register m i.rs) i.extra i.extra) _ _
        (trap_lem kernel keeps overflow 0 m) tt
  execute-Leaves op_addiu i pc m = tt
  execute-Leaves op_addu i pc m = tt
  execute-Leaves op_and i pc m = tt
  execute-Leaves op_andi i pc m = tt
  execute-Leaves op_beq i pc m = tt
  execute-Leaves op_bgezal i pc m = tt
  execute-Leaves op_bgez i pc m = tt
  execute-Leaves op_bgtz i pc m = tt
  execute-Leaves op_blez i pc m = tt
  execute-Leaves op_bltzal i pc m = tt
  execute-Leaves op_bltz i pc m = tt
  execute-Leaves op_bne i pc m = tt
  execute-Leaves op_div i pc m = divide-Leaves kernel keeps (register m i.rs) (register m i.rt) pc m
  execute-Leaves op_divu i pc m =
      divide_unsigned-Leaves kernel keeps (register m i.rs) (register m i.rt) pc m
  execute-Leaves op_jal i pc m = tt
  execute-Leaves op_j i pc m = tt
  execute-Leaves op_jalr i pc m = tt
  execute-Leaves op_jr i pc m = tt
  execute-Leaves op_lb i pc m =
      load-Leaves kernel keeps (plus (register m i.rs) i.extra) 1 i.rt (λ v m'. load_byte true v) pc
        m
  execute-Leaves op_lbu i pc m =
      load-Leaves kernel keeps (plus (register m i.rs) i.extra) 1 i.rt (λ v m'. load_byte false v)
        pc m
  execute-Leaves op_lh i pc m =
      aligned_load-Leaves kernel keeps (plus (register m i.rs) i.extra) 2 i.rt
        (λ v m'. load_half true v) pc m
  execute-Leaves op_lhu i pc m =
      aligned_load-Leaves kernel keeps (plus (register m i.rs) i.extra) 2 i.rt
        (λ v m'. load_half false v) pc m
  execute-Leaves op_lui i pc m = tt
  execute-Leaves op_lw i pc m =
      aligned_load-Leaves kernel keeps (plus (register m i.rs) i.extra) 4 i.rt (λ v m'. v) pc m
  execute-Leaves op_lwl i pc m =
      assert-Leaves kernel keeps (bit_and (plus (register m i.rs) i.extra) 3 == 0) _
        (load-Leaves kernel keeps (plus (register m i.rs) i.extra) 4 i.rt (λ v m'. v) pc m)
  execute-Leaves op_lwr i pc m =
      assert-Leaves kernel keeps (bit_and (plus (register m i.rs) i.extra) 3 == 0) _
        (load-Leaves kernel keeps (plus (register m i.rs) i.extra) 4 i.rt (load_right i.rt) pc m)
  execute-Leaves op_mfhi i pc m = tt
  execute-Leaves op_mflo i pc m = tt
  execute-Leaves op_mthi i pc m = tt
  execute-Leaves op_mtlo i pc m = tt
  execute-Leaves op_mult i pc m = tt
  execute-Leaves op_multu i pc m = tt
  execute-Leaves op_nor i pc m = tt
  execute-Leaves op_or i pc m = tt
  execute-Leaves op_ori i pc m = tt
  execute-Leaves op_sb i pc m =
      store_value-Leaves kernel keeps (plus (register m i.rs) i.extra) 1 (register m i.rt) pc m
  execute-Leaves op_sh i pc m =
      store_value-Leaves kernel keeps (plus (register m i.rs) i.extra) 2 (register m i.rt) pc m
  execute-Leaves op_sll i pc m = tt
  execute-Leaves op_sllv i pc m = tt
  execute-Leaves op_slt i pc m = tt
  execute-Leaves op_slti i pc m = tt
  execute-Leaves op_sltiu i pc m = tt
  execute-Leaves op_sltu i pc m = tt
  execute-Leaves op_sra i pc m = tt
  execute-Leaves op_srav i pc m = tt
  execute-Leaves op_srl i pc m = tt
  execute-Leaves op_srlv i pc m = tt
  execute-Leaves op_sub i pc m =
      if-Leaves kernel keeps (sub_overflows (register m i.rs) (register m i.rt)) _ _
        (trap_lem kernel keeps overflow 0 m) tt
  execute-Leaves op_subu i pc m = tt
  execute-Leaves op_sw i pc m =
      store_value-Leaves kernel keeps (plus (register m i.rs) i.extra) 4 (register m i.rt) pc m
  execute-Leaves op_swl i pc m =
      store_part-Leaves kernel keeps (plus (register m i.rs) i.extra) (λ v m'. register m' i.rt) pc
        m
  execute-Leaves op_swr i pc m =
      store_part-Leaves kernel keeps (plus (register m i.rs) i.extra)
        (λ v m'. bit_or (bit_and v 16777215) (shift_left (register m' i.rt) 24)) pc m
  execute-Leaves op_syscall i pc m = trap_lem kernel keeps syscall 0 m
  execute-Leaves op_xor i pc m = tt
  execute-Leaves op_xori i pc m = tt
  execute-Leaves op_res i pc m = trap_lem kernel keeps illegal_instr 0 m
  execute-Leaves op_unimp i pc m = trap_lem kernel keeps illegal_instr 0 m
  execute-Leaves op_rfe i pc m = tt
  execute-Leaves special i pc m = tt
  execute-Leaves bcond i pc m = tt

  advanced : (o : Outcome) → Leaves o → ZeroIn (o >>= advance)
  unfolding advance register write_register
  advanced none h = tt
  advanced (some (inl m)) h = h
  advanced (some (inr x)) h =
      let m = delayed_load x.next_load_reg x.next_load_value x.machine in
      let past = write_register m prev_pc_reg (register m pc_reg) in
      let present = write_register past pc_reg (register past next_pc_reg) in
      set_other present.registers 34 x.pc_after
      ∙ set_other past.registers 33 (register past next_pc_reg)
      ∙ set_other m.registers 35 (register m pc_reg)
      ∙ delayed_load_zero x.next_load_reg x.next_load_value x.machine

  ran : (o : Option (Option ℕ × Machine)) → Failed o → ZeroIn (o >>= run_raw kernel)
  unfolding run_raw
  ran none h = tt
  ran (some (none, m)) h = h
  ran (some (some raw, m)) h =
      let pc = plus (register m next_pc_reg) 4 in
      advanced (execute kernel (decode raw).op_code (decode raw) pc m)
        (execute-Leaves (decode raw).op_code (decode raw) pc m)

zero_of : (o : Option Machine) (m : Machine) → ZeroIn o → o ≡ some m → register m 0 ≡ 0
zero_of o m h e = subst ZeroIn e h

-- Whatever register 0 holds before, it is 0 when OneInstruction returns, behind an exception too, for
-- every exception handler that keeps it at 0.
pub one_instruction_zero :
    (kernel : ExceptionType → Machine → Option Machine) (m m' : Machine)
    → KeepsZero kernel
    → one_instruction kernel m ≡ some m'
    → register m' 0 ≡ 0
unfolding one_instruction
one_instruction_zero kernel m m' keeps ends =
    zero_of (one_instruction kernel m) m'
      (ran kernel keeps (read_mem kernel (register m pc_reg) 4 m)
        (read_mem_lem kernel keeps (register m pc_reg) 4 m))
      ends
