-- ===== src/Instruction/Correct/Store.antt =====
-- src/Instruction.cpp: the stores.
use dbtranslator.Base.{ℕ, ◌%◌, ◌^◌, inl, inr, Option-cases}
use dbtranslator.Instruction.Kind.{sb, sh, sw}
use dbtranslator.Instruction.Build.Store.{sb_build_ir, sh_build_ir, sw_build_ir}
use dbtranslator.Cpu.{reg, reg-IsWord, CpuState}
use dbtranslator.Memory.{write8, write16, write32}
use dbtranslator.Llvm.Semantics.{Llvm}
use dbtranslator.Llvm.Builder.{IrData}
use dbtranslator.Llvm.Exec.{exec}
use dbtranslator.Instruction.Generate.{generate}
use dbtranslator.Instruction.Fields.Meaning.{store_offset-imm_s, imm_s-IsWord}
use dbtranslator.Riscv.Fields.{rs1, rs2, imm_s}
use dbtranslator.Riscv.Step.{step_with, store_address}
use dbtranslator.Instruction.Correct.Registers.{
  IsReady, ImplementsRaw, read_src1, read_src2, update_pc_lem, IsWired,
}

module _ (llvm : Llvm) (ir_data : IrData) (wired : IsWired ir_data) {w : ℕ} {s : CpuState}
    (ready : IsReady w s) where
  pub sb_correct : ImplementsRaw llvm ir_data sb w s
  unfolding generate exec sb_build_ir step_with
  sb_correct =
      elim (Option-cases
        (write8 s.manager (store_address (reg s (rs1 w)) w) (reg s (rs2 w) % 2 ^ 8))) [
          | inl fault ↦ rw (
            wired,
            read_src1 ready,
            read_src2 ready,
            store_offset-imm_s w,
            llvm.add_law (reg s (rs1 w)) (imm_s w) (reg-IsWord ready.valid (rs1 w))
                (imm_s-IsWord w),
            fault,
          )
          | inr (m, stored) ↦ rw (
            wired,
            read_src1 ready,
            read_src2 ready,
            store_offset-imm_s w,
            llvm.add_law (reg s (rs1 w)) (imm_s w) (reg-IsWord ready.valid (rs1 w))
                (imm_s-IsWord w),
            stored,
            update_pc_lem llvm,
            ready.valid.counter,
          )
        ]

  pub sh_correct : ImplementsRaw llvm ir_data sh w s
  unfolding generate exec sh_build_ir step_with
  sh_correct =
      elim (Option-cases
        (write16 s.manager (store_address (reg s (rs1 w)) w) (reg s (rs2 w) % 2 ^ 16))) [
          | inl fault ↦ rw (
            wired,
            read_src1 ready,
            read_src2 ready,
            store_offset-imm_s w,
            llvm.add_law (reg s (rs1 w)) (imm_s w) (reg-IsWord ready.valid (rs1 w))
                (imm_s-IsWord w),
            fault,
          )
          | inr (m, stored) ↦ rw (
            wired,
            read_src1 ready,
            read_src2 ready,
            store_offset-imm_s w,
            llvm.add_law (reg s (rs1 w)) (imm_s w) (reg-IsWord ready.valid (rs1 w))
                (imm_s-IsWord w),
            stored,
            update_pc_lem llvm,
            ready.valid.counter,
          )
        ]

  pub sw_correct : ImplementsRaw llvm ir_data sw w s
  unfolding generate exec sw_build_ir step_with
  sw_correct =
      elim (Option-cases (write32 s.manager (store_address (reg s (rs1 w)) w) (reg s (rs2 w)))) [
        | inl fault ↦ rw (
          wired,
          read_src1 ready,
          read_src2 ready,
          store_offset-imm_s w,
          llvm.add_law (reg s (rs1 w)) (imm_s w) (reg-IsWord ready.valid (rs1 w)) (imm_s-IsWord w),
          fault,
        )
        | inr (m, stored) ↦ rw (
          wired,
          read_src1 ready,
          read_src2 ready,
          store_offset-imm_s w,
          llvm.add_law (reg s (rs1 w)) (imm_s w) (reg-IsWord ready.valid (rs1 w)) (imm_s-IsWord w),
          stored,
          update_pc_lem llvm,
          ready.valid.counter,
        )
      ]
