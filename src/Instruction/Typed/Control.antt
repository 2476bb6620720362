-- ===== src/Instruction/Typed/Control.antt =====
-- src/Instruction.cpp: the code that the bodies of the upper immediates, the jumps and the branches build is
-- typed.
use dbtranslator.Base.{ℕ}
use dbtranslator.Llvm.Builder.{IrData}
use dbtranslator.Llvm.Typing.{IsTyped}
use dbtranslator.Instruction.Counter.{update_pc}
use dbtranslator.Instruction.Build.Jump.{lui_build_ir, auipc_build_ir, jal_build_ir, jalr_build_ir}
use dbtranslator.Instruction.Build.Branch.{
  beq_build_ir, bne_build_ir, blt_build_ir, bge_build_ir, bltu_build_ir, bgeu_build_ir,
}
use dbtranslator.Instruction.Typed.Inside.{inside}

module _ (w : ℕ) (ir_data : IrData) where
  pub lui-IsTyped : IsTyped (lui_build_ir w ir_data)
  unfolding IsTyped lui_build_ir update_pc
  lui-IsTyped = simp inside λ _ _ _ _ _ _ _. tt

  pub auipc-IsTyped : IsTyped (auipc_build_ir w ir_data)
  unfolding IsTyped auipc_build_ir
  auipc-IsTyped = simp inside λ _ _ _ _ _ _ _ _. tt

  pub jal-IsTyped : IsTyped (jal_build_ir w ir_data)
  unfolding IsTyped jal_build_ir
  jal-IsTyped = simp inside λ _ _ _ _ _ _ _ _. tt

  pub jalr-IsTyped : IsTyped (jalr_build_ir w ir_data)
  unfolding IsTyped jalr_build_ir
  jalr-IsTyped = simp inside λ _ _ _ _ _ _ _ _ _ _ _. tt

  pub beq-IsTyped : IsTyped (beq_build_ir w ir_data)
  unfolding IsTyped beq_build_ir
  beq-IsTyped = simp inside λ _ _ _ _ _ _ _ _ _ _ _ _. tt

  pub bne-IsTyped : IsTyped (bne_build_ir w ir_data)
  unfolding IsTyped bne_build_ir
  bne-IsTyped = simp inside λ _ _ _ _ _ _ _ _ _ _ _ _. tt

  pub blt-IsTyped : IsTyped (blt_build_ir w ir_data)
  unfolding IsTyped blt_build_ir
  blt-IsTyped = simp inside λ _ _ _ _ _ _ _ _ _ _ _ _. tt

  pub bge-IsTyped : IsTyped (bge_build_ir w ir_data)
  unfolding IsTyped bge_build_ir
  bge-IsTyped = simp inside λ _ _ _ _ _ _ _ _ _ _ _ _. tt

  pub bltu-IsTyped : IsTyped (bltu_build_ir w ir_data)
  unfolding IsTyped bltu_build_ir
  bltu-IsTyped = simp inside λ _ _ _ _ _ _ _ _ _ _ _ _. tt

  pub bgeu-IsTyped : IsTyped (bgeu_build_ir w ir_data)
  unfolding IsTyped bgeu_build_ir
  bgeu-IsTyped = simp inside λ _ _ _ _ _ _ _ _ _ _ _ _. tt
