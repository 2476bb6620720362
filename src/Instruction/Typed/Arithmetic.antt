-- ===== src/Instruction/Typed/Arithmetic.antt =====
-- src/Instruction.cpp: the code that the bodies of the operations on registers and immediates build is
-- typed.
use dbtranslator.Base.{ℕ}
use dbtranslator.Llvm.Builder.{IrData}
use dbtranslator.Llvm.Typing.{IsTyped}
use dbtranslator.Instruction.Counter.{update_pc}
use dbtranslator.Instruction.Build.Immediate.{
  addi_build_ir, slti_build_ir, sltiu_build_ir, xori_build_ir, ori_build_ir, andi_build_ir,
  slli_build_ir, srli_build_ir, srai_build_ir,
}
use dbtranslator.Instruction.Build.Register.{
  add_build_ir, sub_build_ir, sll_build_ir, slt_build_ir, sltu_build_ir, xor_build_ir, srl_build_ir,
  sra_build_ir, or_build_ir, and_build_ir,
}
use dbtranslator.Instruction.Typed.Inside.{inside}

module _ (w : ℕ) (ir_data : IrData) where
  pub addi-IsTyped : IsTyped (addi_build_ir w ir_data)
  unfolding IsTyped addi_build_ir update_pc
  addi-IsTyped = simp inside λ _ _ _ _ _ _ _ _ _ _. tt

  pub slti-IsTyped : IsTyped (slti_build_ir w ir_data)
  unfolding IsTyped slti_build_ir update_pc
  slti-IsTyped = simp inside λ _ _ _ _ _ _ _ _ _ _ _. tt

  pub sltiu-IsTyped : IsTyped (sltiu_build_ir w ir_data)
  unfolding IsTyped sltiu_build_ir update_pc
  sltiu-IsTyped = simp inside λ _ _ _ _ _ _ _ _ _ _ _. tt

  pub xori-IsTyped : IsTyped (xori_build_ir w ir_data)
  unfolding IsTyped xori_build_ir update_pc
  xori-IsTyped = simp inside λ _ _ _ _ _ _ _ _ _ _. tt

  pub ori-IsTyped : IsTyped (ori_build_ir w ir_data)
  unfolding IsTyped ori_build_ir update_pc
  ori-IsTyped = simp inside λ _ _ _ _ _ _ _ _ _ _. tt

  pub andi-IsTyped : IsTyped (andi_build_ir w ir_data)
  unfolding IsTyped andi_build_ir update_pc
  andi-IsTyped = simp inside λ _ _ _ _ _ _ _ _ _ _. tt

  pub slli-IsTyped : IsTyped (slli_build_ir w ir_data)
  unfolding IsTyped slli_build_ir update_pc
  slli-IsTyped = simp inside λ _ _ _ _ _ _ _ _ _ _. tt

  pub srli-IsTyped : IsTyped (srli_build_ir w ir_data)
  unfolding IsTyped srli_build_ir update_pc
  srli-IsTyped = simp inside λ _ _ _ _ _ _ _ _ _ _. tt

  pub srai-IsTyped : IsTyped (srai_build_ir w ir_data)
  unfolding IsTyped srai_build_ir update_pc
  srai-IsTyped = simp inside λ _ _ _ _ _ _ _ _ _ _. tt

  pub add-IsTyped : IsTyped (add_build_ir w ir_data)
  unfolding IsTyped add_build_ir update_pc
  add-IsTyped = simp inside λ _ _ _ _ _ _ _ _ _ _ _ _. tt

  pub sub-IsTyped : IsTyped (sub_build_ir w ir_data)
  unfolding IsTyped sub_build_ir update_pc
  sub-IsTyped = simp inside λ _ _ _ _ _ _ _ _ _ _ _ _. tt

  pub sll-IsTyped : IsTyped (sll_build_ir w ir_data)
  unfolding IsTyped sll_build_ir update_pc
  sll-IsTyped = simp inside λ _ _ _ _ _ _ _ _ _ _ _ _. tt

  pub slt-IsTyped : IsTyped (slt_build_ir w ir_data)
  unfolding IsTyped slt_build_ir update_pc
  slt-IsTyped = simp inside λ _ _ _ _ _ _ _ _ _ _ _ _ _. tt

  pub sltu-IsTyped : IsTyped (sltu_build_ir w ir_data)
  unfolding IsTyped sltu_build_ir update_pc
  sltu-IsTyped = simp inside λ _ _ _ _ _ _ _ _ _ _ _ _ _. tt

  pub xor-IsTyped : IsTyped (xor_build_ir w ir_data)
  unfolding IsTyped xor_build_ir update_pc
  xor-IsTyped = simp inside λ _ _ _ _ _ _ _ _ _ _ _ _. tt

  pub srl-IsTyped : IsTyped (srl_build_ir w ir_data)
  unfolding IsTyped srl_build_ir update_pc
  srl-IsTyped = simp inside λ _ _ _ _ _ _ _ _ _ _ _ _. tt

  pub sra-IsTyped : IsTyped (sra_build_ir w ir_data)
  unfolding IsTyped sra_build_ir update_pc
  sra-IsTyped = simp inside λ _ _ _ _ _ _ _ _ _ _ _ _. tt

  pub or-IsTyped : IsTyped (or_build_ir w ir_data)
  unfolding IsTyped or_build_ir update_pc
  or-IsTyped = simp inside λ _ _ _ _ _ _ _ _ _ _ _ _. tt

  pub and-IsTyped : IsTyped (and_build_ir w ir_data)
  unfolding IsTyped and_build_ir update_pc
  and-IsTyped = simp inside λ _ _ _ _ _ _ _ _ _ _ _ _. tt
