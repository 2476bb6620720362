-- ===== src/Instruction/Correct/System.antt =====
-- src/Instruction.cpp: fences and pauses.
use dbtranslator.Base.{ℕ}
use dbtranslator.Instruction.Kind.{fence, fencetso, pause}
use dbtranslator.Instruction.Build.System.{fence_build_ir, fencetso_build_ir, pause_build_ir}
use dbtranslator.Cpu.{CpuState}
use dbtranslator.Llvm.Semantics.{Llvm}
use dbtranslator.Llvm.Builder.{IrData}
use dbtranslator.Llvm.Exec.{exec}
use dbtranslator.Instruction.Generate.{generate}
use dbtranslator.Riscv.Step.{step_with}
use dbtranslator.Instruction.Correct.Registers.{IsReady, ImplementsRaw, update_pc_lem}

module _ (llvm : Llvm) (ir_data : IrData) {w : ℕ} {s : CpuState} (ready : IsReady w s) where
  pub fence_correct : ImplementsRaw llvm ir_data fence w s
  unfolding generate exec fence_build_ir step_with
  fence_correct = update_pc_lem llvm s ready.valid.counter

  pub fencetso_correct : ImplementsRaw llvm ir_data fencetso w s
  unfolding generate exec fencetso_build_ir step_with
  fencetso_correct = update_pc_lem llvm s ready.valid.counter

  pub pause_correct : ImplementsRaw llvm ir_data pause w s
  unfolding generate exec pause_build_ir step_with
  pause_correct = update_pc_lem llvm s ready.valid.counter
