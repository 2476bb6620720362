-- ===== src/Instruction/Correct/Load.antt =====
-- src/Instruction.cpp: the loads.
use dbtranslator.Base.{ℕ, ◌^◌, ◌<◌, ◌≡◌, some, inl, inr, Option-cases}
use dbtranslator.Instruction.Kind.{lb, lh, lw, lbu, lhu}
use dbtranslator.Instruction.Build.Load.{
  lb_build_ir, lh_build_ir, lw_build_ir, lbu_build_ir, lhu_build_ir,
}
use dbtranslator.Cpu.{reg, reg-IsWord, CpuState}
use dbtranslator.Memory.Access.{read_bound}
use dbtranslator.Memory.{read8, read16, read32}
use dbtranslator.Llvm.Semantics.{Llvm}
use dbtranslator.Llvm.Builder.{IrData}
use dbtranslator.Llvm.Exec.{exec}
use dbtranslator.Instruction.Generate.{generate}
use dbtranslator.Instruction.Fields.Meaning.{low_immediate-imm_i, imm_i-IsWord}
use dbtranslator.Riscv.Fields.{rs1, imm_i}
use dbtranslator.Riscv.Step.{step_with, load_address}
use dbtranslator.Instruction.Correct.Registers.{
  IsReady, ImplementsRaw, read_src1, write_dest, update_pc_lem, IsWired,
}

module _ (llvm : Llvm) (ir_data : IrData) (wired : IsWired ir_data) {w : ℕ} {s : CpuState}
    (ready : IsReady w s) where
  abbrev bound :
      (v : ℕ)
      → (read8 s.manager (load_address (reg s (rs1 w)) w) ≡ some v → v < 2 ^ 8)
        × (read16 s.manager (load_address (reg s (rs1 w)) w) ≡ some v → v < 2 ^ 16)
        × (read32 s.manager (load_address (reg s (rs1 w)) w) ≡ some v → v < 2 ^ 32)
  bound v = read_bound s.manager (load_address (reg s (rs1 w)) w) v ready.valid.memory

  pub lb_correct : ImplementsRaw llvm ir_data lb w s
  unfolding generate exec lb_build_ir step_with
  lb_correct = elim (Option-cases (read8 s.manager (load_address (reg s (rs1 w)) w))) [
    | inl fault ↦ rw (
      wired,
      read_src1 ready,
      low_immediate-imm_i w,
      llvm.add_law (reg s (rs1 w)) (imm_i w) (reg-IsWord ready.valid (rs1 w)) (imm_i-IsWord w),
      fault,
    )
    | inr (v, loaded) ↦ rw (
      wired,
      read_src1 ready,
      low_immediate-imm_i w,
      llvm.add_law (reg s (rs1 w)) (imm_i w) (reg-IsWord ready.valid (rs1 w)) (imm_i-IsWord w),
      loaded,
      llvm.sext_byte v ((bound v).0 loaded),
      write_dest ready,
      update_pc_lem llvm,
      ready.valid.counter,
    )
  ]

  pub lh_correct : ImplementsRaw llvm ir_data lh w s
  unfolding generate exec lh_build_ir step_with
  lh_correct = elim (Option-cases (read16 s.manager (load_address (reg s (rs1 w)) w))) [
    | inl fault ↦ rw (
      wired,
      read_src1 ready,
      low_immediate-imm_i w,
      llvm.add_law (reg s (rs1 w)) (imm_i w) (reg-IsWord ready.valid (rs1 w)) (imm_i-IsWord w),
      fault,
    )
    | inr (v, loaded) ↦ rw (
      wired,
      read_src1 ready,
      low_immediate-imm_i w,
      llvm.add_law (reg s (rs1 w)) (imm_i w) (reg-IsWord ready.valid (rs1 w)) (imm_i-IsWord w),
      loaded,
      llvm.sext_half v ((bound v).1 loaded),
      write_dest ready,
      update_pc_lem llvm,
      ready.valid.counter,
    )
  ]

  pub lw_correct : ImplementsRaw llvm ir_data lw w s
  unfolding generate exec lw_build_ir step_with
  lw_correct = elim (Option-cases (read32 s.manager (load_address (reg s (rs1 w)) w))) [
    | inl fault ↦ rw (
      wired,
      read_src1 ready,
      low_immediate-imm_i w,
      llvm.add_law (reg s (rs1 w)) (imm_i w) (reg-IsWord ready.valid (rs1 w)) (imm_i-IsWord w),
      fault,
    )
    | inr (v, loaded) ↦ rw (
      wired,
      read_src1 ready,
      low_immediate-imm_i w,
      llvm.add_law (reg s (rs1 w)) (imm_i w) (reg-IsWord ready.valid (rs1 w)) (imm_i-IsWord w),
      loaded,
      write_dest ready,
      update_pc_lem llvm,
      ready.valid.counter,
    )
  ]

  pub lbu_correct : ImplementsRaw llvm ir_data lbu w s
  unfolding generate exec lbu_build_ir step_with
  lbu_correct = elim (Option-cases (read8 s.manager (load_address (reg s (rs1 w)) w))) [
    | inl fault ↦ rw (
      wired,
      read_src1 ready,
      low_immediate-imm_i w,
      llvm.add_law (reg s (rs1 w)) (imm_i w) (reg-IsWord ready.valid (rs1 w)) (imm_i-IsWord w),
      fault,
    )
    | inr (v, loaded) ↦ rw (
      wired,
      read_src1 ready,
      low_immediate-imm_i w,
      llvm.add_law (reg s (rs1 w)) (imm_i w) (reg-IsWord ready.valid (rs1 w)) (imm_i-IsWord w),
      loaded,
      llvm.zext_byte v ((bound v).0 loaded),
      write_dest ready,
      update_pc_lem llvm,
      ready.valid.counter,
    )
  ]

  pub lhu_correct : ImplementsRaw llvm ir_data lhu w s
  unfolding generate exec lhu_build_ir step_with
  lhu_correct = elim (Option-cases (read16 s.manager (load_address (reg s (rs1 w)) w))) [
    | inl fault ↦ rw (
      wired,
      read_src1 ready,
      low_immediate-imm_i w,
      llvm.add_law (reg s (rs1 w)) (imm_i w) (reg-IsWord ready.valid (rs1 w)) (imm_i-IsWord w),
      fault,
    )
    | inr (v, loaded) ↦ rw (
      wired,
      read_src1 ready,
      low_immediate-imm_i w,
      llvm.add_law (reg s (rs1 w)) (imm_i w) (reg-IsWord ready.valid (rs1 w)) (imm_i-IsWord w),
      loaded,
      llvm.zext_half v ((bound v).1 loaded),
      write_dest ready,
      update_pc_lem llvm,
      ready.valid.counter,
    )
  ]
