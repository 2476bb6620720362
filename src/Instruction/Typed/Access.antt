-- ===== src/Instruction/Typed/Access.antt =====
-- src/Instruction.cpp: the code that the bodies of the loads and the stores build is
-- typed.
use dbtranslator.Base.{ℕ}
use dbtranslator.Llvm.Builder.{IrData}
use dbtranslator.Llvm.Typing.{IsTyped}
use dbtranslator.Instruction.Counter.{update_pc}
use dbtranslator.Instruction.Build.Load.{
  lb_build_ir, lh_build_ir, lw_build_ir, lbu_build_ir, lhu_build_ir,
}
use dbtranslator.Instruction.Build.Store.{sb_build_ir, sh_build_ir, sw_build_ir}
use dbtranslator.Instruction.Correct.Registers.{IsWired}
use dbtranslator.Instruction.Typed.Inside.{inside}

module _ (w : ℕ) (ir_data : IrData) (wired : IsWired ir_data) where
  pub lb-IsTyped : IsTyped (lb_build_ir w ir_data)
  unfolding IsTyped lb_build_ir update_pc
  lb-IsTyped = simp (wired, inside) λ _ _ _ _ _ _ _ _ _ _ _ _ _ _. tt

  pub lh-IsTyped : IsTyped (lh_build_ir w ir_data)
  unfolding IsTyped lh_build_ir update_pc
  lh-IsTyped = simp (wired, inside) λ _ _ _ _ _ _ _ _ _ _ _ _ _ _. tt

  pub lw-IsTyped : IsTyped (lw_build_ir w ir_data)
  unfolding IsTyped lw_build_ir update_pc
  lw-IsTyped = simp (wired, inside) λ _ _ _ _ _ _ _ _ _ _ _ _ _ _. tt

  pub lbu-IsTyped : IsTyped (lbu_build_ir w ir_data)
  unfolding IsTyped lbu_build_ir update_pc
  lbu-IsTyped = simp (wired, inside) λ _ _ _ _ _ _ _ _ _ _ _ _ _ _. tt

  pub lhu-IsTyped : IsTyped (lhu_build_ir w ir_data)
  unfolding IsTyped lhu_build_ir update_pc
  lhu-IsTyped = simp (wired, inside) λ _ _ _ _ _ _ _ _ _ _ _ _ _ _. tt

  pub sb-IsTyped : IsTyped (sb_build_ir w ir_data)
  unfolding IsTyped sb_build_ir update_pc
  sb-IsTyped = simp (wired, inside) λ _ _ _ _ _ _ _ _ _ _ _ _ _. tt

  pub sh-IsTyped : IsTyped (sh_build_ir w ir_data)
  unfolding IsTyped sh_build_ir update_pc
  sh-IsTyped = simp (wired, inside) λ _ _ _ _ _ _ _ _ _ _ _ _ _. tt

  pub sw-IsTyped : IsTyped (sw_build_ir w ir_data)
  unfolding IsTyped sw_build_ir update_pc
  sw-IsTyped = simp (wired, inside) λ _ _ _ _ _ _ _ _ _ _ _ _ _. tt
