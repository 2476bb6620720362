-- ===== src/Instruction/Correct/Immediate.antt =====
-- src/Instruction.cpp: the operations on a register and an immediate.
use dbtranslator.Base.{ℕ, arith}
use dbtranslator.Cpu.{reg, reg-IsWord, CpuState}
use dbtranslator.Llvm.Semantics.{Llvm}
use dbtranslator.Llvm.Builder.{IrData}
use dbtranslator.Llvm.Exec.{exec}
use dbtranslator.Instruction.Kind.{addi, slti, sltiu, xori, ori, andi, slli, srli, srai}
use dbtranslator.Instruction.Generate.{generate}
use dbtranslator.Instruction.Build.Immediate.{
  addi_build_ir, slti_build_ir, sltiu_build_ir, xori_build_ir, ori_build_ir, andi_build_ir,
  slli_build_ir, srli_build_ir, srai_build_ir,
}
use dbtranslator.Instruction.Fields.Meaning.{
  low_immediate-imm_i, imm_i-IsWord, shamt-rs2, imm_i-rs2,
}
use dbtranslator.Riscv.Fields.{rs1, rs2, imm_i}
use dbtranslator.Riscv.Step.{step_with}
use dbtranslator.Instruction.Correct.Registers.{
  IsReady, ImplementsRaw, read_src1, write_dest, update_pc_lem, zext_bool,
}

module _ (llvm : Llvm) (ir_data : IrData) {w : ℕ} {s : CpuState} (ready : IsReady w s) where
  pub addi_correct : ImplementsRaw llvm ir_data addi w s
  unfolding generate exec addi_build_ir step_with
  addi_correct = rw (
    read_src1 ready,
    low_immediate-imm_i w,
    llvm.add_law (reg s (rs1 w)) (imm_i w) (reg-IsWord ready.valid (rs1 w)) (imm_i-IsWord w),
    write_dest ready,
    update_pc_lem llvm,
    ready.valid.counter,
  )

  pub slti_correct : ImplementsRaw llvm ir_data slti w s
  unfolding generate exec slti_build_ir step_with
  slti_correct = rw (
    read_src1 ready,
    low_immediate-imm_i w,
    llvm.slt_law (reg s (rs1 w)) (imm_i w) (reg-IsWord ready.valid (rs1 w)) (imm_i-IsWord w),
    zext_bool llvm,
    write_dest ready,
    update_pc_lem llvm,
    ready.valid.counter,
  )

  pub sltiu_correct : ImplementsRaw llvm ir_data sltiu w s
  unfolding generate exec sltiu_build_ir step_with
  sltiu_correct = rw (
    read_src1 ready,
    low_immediate-imm_i w,
    llvm.ult_law (reg s (rs1 w)) (imm_i w) (reg-IsWord ready.valid (rs1 w)) (imm_i-IsWord w),
    zext_bool llvm,
    write_dest ready,
    update_pc_lem llvm,
    ready.valid.counter,
  )

  pub xori_correct : ImplementsRaw llvm ir_data xori w s
  unfolding generate exec xori_build_ir step_with
  xori_correct = rw (
    read_src1 ready,
    low_immediate-imm_i w,
    llvm.xor_law (reg s (rs1 w)) (imm_i w) (reg-IsWord ready.valid (rs1 w)) (imm_i-IsWord w),
    write_dest ready,
    update_pc_lem llvm,
    ready.valid.counter,
  )

  pub ori_correct : ImplementsRaw llvm ir_data ori w s
  unfolding generate exec ori_build_ir step_with
  ori_correct = rw (
    read_src1 ready,
    low_immediate-imm_i w,
    llvm.or_law (reg s (rs1 w)) (imm_i w) (reg-IsWord ready.valid (rs1 w)) (imm_i-IsWord w),
    write_dest ready,
    update_pc_lem llvm,
    ready.valid.counter,
  )

  pub andi_correct : ImplementsRaw llvm ir_data andi w s
  unfolding generate exec andi_build_ir step_with
  andi_correct = rw (
    read_src1 ready,
    low_immediate-imm_i w,
    llvm.and_law (reg s (rs1 w)) (imm_i w) (reg-IsWord ready.valid (rs1 w)) (imm_i-IsWord w),
    write_dest ready,
    update_pc_lem llvm,
    ready.valid.counter,
  )

  pub slli_correct : ImplementsRaw llvm ir_data slli w s
  unfolding generate exec slli_build_ir step_with
  slli_correct = rw (
    read_src1 ready,
    shamt-rs2 w,
    llvm.shl_law (reg s (rs1 w)) (rs2 w) (reg-IsWord ready.valid (rs1 w)) (omega arith),
    imm_i-rs2 w,
    write_dest ready,
    update_pc_lem llvm,
    ready.valid.counter,
  )

  pub srli_correct : ImplementsRaw llvm ir_data srli w s
  unfolding generate exec srli_build_ir step_with
  srli_correct = rw (
    read_src1 ready,
    shamt-rs2 w,
    llvm.lshr_law (reg s (rs1 w)) (rs2 w) (reg-IsWord ready.valid (rs1 w)) (omega arith),
    imm_i-rs2 w,
    write_dest ready,
    update_pc_lem llvm,
    ready.valid.counter,
  )

  pub srai_correct : ImplementsRaw llvm ir_data srai w s
  unfolding generate exec srai_build_ir step_with
  srai_correct = rw (
    read_src1 ready,
    shamt-rs2 w,
    llvm.ashr_law (reg s (rs1 w)) (rs2 w) (reg-IsWord ready.valid (rs1 w)) (omega arith),
    imm_i-rs2 w,
    write_dest ready,
    update_pc_lem llvm,
    ready.valid.counter,
  )
