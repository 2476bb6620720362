-- ===== src/Instruction/Correct/Branch.antt =====
-- src/Instruction.cpp: the conditional branches.
use dbtranslator.Base.{ℕ, arith}
use dbtranslator.Instruction.Kind.{beq, bne, blt, bge, bltu, bgeu}
use dbtranslator.Instruction.Build.Branch.{
  beq_build_ir, bne_build_ir, blt_build_ir, bge_build_ir, bltu_build_ir, bgeu_build_ir,
}
use dbtranslator.Cpu.{reg, reg-IsWord, CpuState}
use dbtranslator.Llvm.Semantics.{Llvm}
use dbtranslator.Llvm.Builder.{IrData}
use dbtranslator.Llvm.Exec.{exec}
use dbtranslator.Instruction.Generate.{generate}
use dbtranslator.Instruction.Fields.Meaning.{branch_offset-imm_b, imm_b-IsWord}
use dbtranslator.Riscv.Fields.{rs1, rs2, imm_b}
use dbtranslator.Riscv.Step.{step_with}
use dbtranslator.Instruction.Correct.Registers.{
  IsReady, ImplementsRaw, read_src1, read_src2, select_word,
}

module _ (llvm : Llvm) (ir_data : IrData) {w : ℕ} {s : CpuState} (ready : IsReady w s) where
  pub beq_correct : ImplementsRaw llvm ir_data beq w s
  unfolding generate exec beq_build_ir step_with
  beq_correct = rw (
    read_src1 ready,
    read_src2 ready,
    llvm.eq_law (reg s (rs1 w)) (reg s (rs2 w)) (reg-IsWord ready.valid (rs1 w))
        (reg-IsWord ready.valid (rs2 w)),
    branch_offset-imm_b w,
    llvm.add_law s.pc (imm_b w) ready.valid.counter (imm_b-IsWord w),
    llvm.add_law s.pc 4 ready.valid.counter (omega arith),
    select_word,
  )

  pub bne_correct : ImplementsRaw llvm ir_data bne w s
  unfolding generate exec bne_build_ir step_with
  bne_correct = rw (
    read_src1 ready,
    read_src2 ready,
    llvm.ne_law (reg s (rs1 w)) (reg s (rs2 w)) (reg-IsWord ready.valid (rs1 w))
        (reg-IsWord ready.valid (rs2 w)),
    branch_offset-imm_b w,
    llvm.add_law s.pc (imm_b w) ready.valid.counter (imm_b-IsWord w),
    llvm.add_law s.pc 4 ready.valid.counter (omega arith),
    select_word,
  )

  pub blt_correct : ImplementsRaw llvm ir_data blt w s
  unfolding generate exec blt_build_ir step_with
  blt_correct = rw (
    read_src1 ready,
    read_src2 ready,
    llvm.slt_law (reg s (rs1 w)) (reg s (rs2 w)) (reg-IsWord ready.valid (rs1 w))
        (reg-IsWord ready.valid (rs2 w)),
    branch_offset-imm_b w,
    llvm.add_law s.pc (imm_b w) ready.valid.counter (imm_b-IsWord w),
    llvm.add_law s.pc 4 ready.valid.counter (omega arith),
    select_word,
  )

  pub bge_correct : ImplementsRaw llvm ir_data bge w s
  unfolding generate exec bge_build_ir step_with
  bge_correct = rw (
    read_src1 ready,
    read_src2 ready,
    llvm.sge_law (reg s (rs1 w)) (reg s (rs2 w)) (reg-IsWord ready.valid (rs1 w))
        (reg-IsWord ready.valid (rs2 w)),
    branch_offset-imm_b w,
    llvm.add_law s.pc (imm_b w) ready.valid.counter (imm_b-IsWord w),
    llvm.add_law s.pc 4 ready.valid.counter (omega arith),
    select_word,
  )

  pub bltu_correct : ImplementsRaw llvm ir_data bltu w s
  unfolding generate exec bltu_build_ir step_with
  bltu_correct = rw (
    read_src1 ready,
    read_src2 ready,
    llvm.ult_law (reg s (rs1 w)) (reg s (rs2 w)) (reg-IsWord ready.valid (rs1 w))
        (reg-IsWord ready.valid (rs2 w)),
    branch_offset-imm_b w,
    llvm.add_law s.pc (imm_b w) ready.valid.counter (imm_b-IsWord w),
    llvm.add_law s.pc 4 ready.valid.counter (omega arith),
    select_word,
  )

  pub bgeu_correct : ImplementsRaw llvm ir_data bgeu w s
  unfolding generate exec bgeu_build_ir step_with
  bgeu_correct = rw (
    read_src1 ready,
    read_src2 ready,
    llvm.uge_law (reg s (rs1 w)) (reg s (rs2 w)) (reg-IsWord ready.valid (rs1 w))
        (reg-IsWord ready.valid (rs2 w)),
    branch_offset-imm_b w,
    llvm.add_law s.pc (imm_b w) ready.valid.counter (imm_b-IsWord w),
    llvm.add_law s.pc 4 ready.valid.counter (omega arith),
    select_word,
  )
