-- ===== src/Instruction/Correct/Jump.antt =====
-- src/Instruction.cpp: lui, auipc, jal and jalr.
use Prim.Native.Nat.{bit_and}
use dbtranslator.Base.{
  sym, ap, ◌∙◌, some, ℕ, ◌/◌, ◌^◌, ◌*◌, ◌≡◌, arith, IsWord, add32, add32-IsWord, add32_comm,
  bit_and_mask, and_high_mask,
}
use dbtranslator.Instruction.Kind.{lui, auipc, jal, jalr}
use dbtranslator.Instruction.Build.Jump.{lui_build_ir, auipc_build_ir, jal_build_ir, jalr_build_ir}
use dbtranslator.Cpu.{set_reg, reg, reg-IsWord, CpuState}
use dbtranslator.Llvm.Semantics.{Llvm}
use dbtranslator.Llvm.Builder.{IrData}
use dbtranslator.Llvm.Exec.{exec}
use dbtranslator.Instruction.Generate.{generate}
use dbtranslator.Instruction.Fields.Meaning.{
  low_immediate-imm_i, imm_i-IsWord, upper_immediate-imm_u, imm_u-IsWord,
}
use dbtranslator.Instruction.Fields.Jump.{
  near_offset, near_offset-IsWord, jump_offset-near, jump_offset-imm_j_iff,
}
use dbtranslator.Riscv.Fields.{rd, bits, rs1, imm_i, imm_u}
use dbtranslator.Riscv.Step.{jump, step_with}
use dbtranslator.Instruction.Correct.Registers.{
  IsReady, ImplementsRaw, read_src1, write_dest, update_pc_lem,
}

-- Clearing the lowest bit.
and_even : (t : ℕ) → IsWord t → bit_and t 0xFFFFFFFE ≡ t / 2 * 2
and_even t h = omega (arith, and_high_mask 1 t 0x7FFFFFFF, bit_and_mask 31 (t / 2 ^ 1))

module _ (llvm : Llvm) (ir_data : IrData) {w : ℕ} {s : CpuState} (ready : IsReady w s) where
  pub lui_correct : ImplementsRaw llvm ir_data lui w s
  unfolding generate exec lui_build_ir step_with
  lui_correct = rw (
    upper_immediate-imm_u w ready.fits,
    write_dest ready,
    update_pc_lem llvm,
    ready.valid.counter,
  )

  pub auipc_correct : ImplementsRaw llvm ir_data auipc w s
  unfolding generate exec auipc_build_ir step_with
  auipc_correct = rw (
    upper_immediate-imm_u w ready.fits,
    llvm.add_law (imm_u w) s.pc (imm_u-IsWord w) ready.valid.counter,
    write_dest ready,
    llvm.add_law s.pc 4 ready.valid.counter (omega arith),
    add32_comm (imm_u w) s.pc,
  )

  pub jal_exact :
      exec llvm (generate jal w ir_data) s
      ≡ some (tt, jump (set_reg s (rd w) (add32 s.pc 4)) (add32 s.pc (near_offset w)))
  unfolding generate exec jal_build_ir
  jal_exact = rw (
    jump_offset-near w,
    llvm.add_law 4 s.pc (omega arith) ready.valid.counter,
    write_dest ready,
    llvm.add_law (near_offset w) s.pc (near_offset-IsWord w) ready.valid.counter,
    add32_comm 4 s.pc,
    add32_comm (near_offset w) s.pc,
  )

  -- Where bits 19 and 20 of the offset agree.
  pub jal_correct : bits w 19 1 ≡ bits w 31 1 → ImplementsRaw llvm ir_data jal w s
  unfolding step_with
  jal_correct same_bits =
      let offset = sym (jump_offset-near w) ∙ (jump_offset-imm_j_iff w).1 same_bits in
      jal_exact
      ∙ ap (λ (v : ℕ). some (tt, jump (set_reg s (rd w) (add32 s.pc 4)) (add32 s.pc v))) offset

  pub jalr_correct : ImplementsRaw llvm ir_data jalr w s
  unfolding generate exec jalr_build_ir step_with
  jalr_correct =
      let target = add32 (reg s (rs1 w)) (imm_i w) in
      let fits = add32-IsWord (reg s (rs1 w)) (imm_i w) in
      rw (
        read_src1 ready,
        llvm.add_law s.pc 4 ready.valid.counter (omega arith),
        write_dest ready,
        low_immediate-imm_i w,
        llvm.add_law (reg s (rs1 w)) (imm_i w) (reg-IsWord ready.valid (rs1 w)) (imm_i-IsWord w),
        llvm.and_law target 0xFFFFFFFE fits (omega arith),
        and_even target fits,
      )
