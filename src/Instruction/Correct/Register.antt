-- ===== src/Instruction/Correct/Register.antt =====
-- src/Instruction.cpp: the operations on two registers.
use dbtranslator.Base.{ℕ, ◌%◌, ◌^◌, ◌<◌, ◌≤◌, ◌≡◌, ◌∙◌, arith, none, some, false, signed_ltb, ltb}
use dbtranslator.Instruction.Kind.{add, sub, sll, srl, sra, xor, or, and, slt, sltu}
use dbtranslator.Instruction.Build.Register.{
  add_build_ir, sub_build_ir, sll_build_ir, srl_build_ir, sra_build_ir, xor_build_ir, or_build_ir,
  and_build_ir, slt_build_ir, sltu_build_ir,
}
use dbtranslator.Cpu.{reg, reg-IsWord, CpuState, set_reg}
use dbtranslator.Llvm.Semantics.{Llvm}
use dbtranslator.Llvm.Builder.{IrData}
use dbtranslator.Llvm.Exec.{exec}
use dbtranslator.Instruction.Generate.{generate}
use dbtranslator.Riscv.Fields.{rd, rs1, rs2}
use dbtranslator.Riscv.Step.{step_with, next}
use dbtranslator.Instruction.Correct.Registers.{
  IsReady, ImplementsRaw, read_src1, read_src2, write_dest, update_pc_lem,
}

signed_ltb_self : (a : ℕ) → signed_ltb a a ≡ false
unfolding signed_ltb
signed_ltb_self a = ground arith

ltb_self : (a : ℕ) → ltb a a ≡ false
ltb_self a = ground arith

low_amount : {a : ℕ} → a < 32 → a % 2 ^ 5 ≡ a
low_amount h = omega arith

module _ (llvm : Llvm) (ir_data : IrData) {w : ℕ} {s : CpuState} (ready : IsReady w s) where
  pub add_correct : ImplementsRaw llvm ir_data add w s
  unfolding generate exec add_build_ir step_with
  add_correct = rw (
    read_src1 ready,
    read_src2 ready,
    llvm.add_law (reg s (rs1 w)) (reg s (rs2 w)) (reg-IsWord ready.valid (rs1 w))
        (reg-IsWord ready.valid (rs2 w)),
    write_dest ready,
    update_pc_lem llvm,
    ready.valid.counter,
  )

  pub sub_correct : ImplementsRaw llvm ir_data sub w s
  unfolding generate exec sub_build_ir step_with
  sub_correct = rw (
    read_src1 ready,
    read_src2 ready,
    llvm.sub_law (reg s (rs1 w)) (reg s (rs2 w)) (reg-IsWord ready.valid (rs1 w))
        (reg-IsWord ready.valid (rs2 w)),
    write_dest ready,
    update_pc_lem llvm,
    ready.valid.counter,
  )

  pub xor_correct : ImplementsRaw llvm ir_data xor w s
  unfolding generate exec xor_build_ir step_with
  xor_correct = rw (
    read_src1 ready,
    read_src2 ready,
    llvm.xor_law (reg s (rs1 w)) (reg s (rs2 w)) (reg-IsWord ready.valid (rs1 w))
        (reg-IsWord ready.valid (rs2 w)),
    write_dest ready,
    update_pc_lem llvm,
    ready.valid.counter,
  )

  pub or_correct : ImplementsRaw llvm ir_data or w s
  unfolding generate exec or_build_ir step_with
  or_correct = rw (
    read_src1 ready,
    read_src2 ready,
    llvm.or_law (reg s (rs1 w)) (reg s (rs2 w)) (reg-IsWord ready.valid (rs1 w))
        (reg-IsWord ready.valid (rs2 w)),
    write_dest ready,
    update_pc_lem llvm,
    ready.valid.counter,
  )

  pub and_correct : ImplementsRaw llvm ir_data and w s
  unfolding generate exec and_build_ir step_with
  and_correct = rw (
    read_src1 ready,
    read_src2 ready,
    llvm.and_law (reg s (rs1 w)) (reg s (rs2 w)) (reg-IsWord ready.valid (rs1 w))
        (reg-IsWord ready.valid (rs2 w)),
    write_dest ready,
    update_pc_lem llvm,
    ready.valid.counter,
  )

  pub sll_correct : reg s (rs2 w) < 32 → ImplementsRaw llvm ir_data sll w s
  unfolding generate exec sll_build_ir step_with
  sll_correct small = rw (
    read_src1 ready,
    read_src2 ready,
    llvm.shl_law (reg s (rs1 w)) (reg s (rs2 w)) (reg-IsWord ready.valid (rs1 w)) small,
    low_amount small,
    write_dest ready,
    update_pc_lem llvm,
    ready.valid.counter,
  )

  pub sll_poison : 32 ≤ reg s (rs2 w) → exec llvm (generate sll w ir_data) s ≡ none
  unfolding generate exec sll_build_ir
  sll_poison large =
      rw (read_src1 ready, read_src2 ready, llvm.shl_poison (reg s (rs1 w)) (reg s (rs2 w)) large)

  pub srl_correct : reg s (rs2 w) < 32 → ImplementsRaw llvm ir_data srl w s
  unfolding generate exec srl_build_ir step_with
  srl_correct small = rw (
    read_src1 ready,
    read_src2 ready,
    llvm.lshr_law (reg s (rs1 w)) (reg s (rs2 w)) (reg-IsWord ready.valid (rs1 w)) small,
    low_amount small,
    write_dest ready,
    update_pc_lem llvm,
    ready.valid.counter,
  )

  pub srl_poison : 32 ≤ reg s (rs2 w) → exec llvm (generate srl w ir_data) s ≡ none
  unfolding generate exec srl_build_ir
  srl_poison large =
      rw (read_src1 ready, read_src2 ready, llvm.lshr_poison (reg s (rs1 w)) (reg s (rs2 w)) large)

  pub sra_correct : reg s (rs2 w) < 32 → ImplementsRaw llvm ir_data sra w s
  unfolding generate exec sra_build_ir step_with
  sra_correct small = rw (
    read_src1 ready,
    read_src2 ready,
    llvm.ashr_law (reg s (rs1 w)) (reg s (rs2 w)) (reg-IsWord ready.valid (rs1 w)) small,
    low_amount small,
    write_dest ready,
    update_pc_lem llvm,
    ready.valid.counter,
  )

  pub sra_poison : 32 ≤ reg s (rs2 w) → exec llvm (generate sra w ir_data) s ≡ none
  unfolding generate exec sra_build_ir
  sra_poison large =
      rw (read_src1 ready, read_src2 ready, llvm.ashr_poison (reg s (rs1 w)) (reg s (rs2 w)) large)

  pub slt_zero : exec llvm (generate slt w ir_data) s ≡ some (tt, next (set_reg s (rd w) 0))
  unfolding generate exec slt_build_ir
  slt_zero = rw (
    read_src1 ready,
    read_src1 ready,
    llvm.slt_law (reg s (rs1 w)) (reg s (rs1 w)) (reg-IsWord ready.valid (rs1 w))
        (reg-IsWord ready.valid (rs1 w)),
    signed_ltb_self (reg s (rs1 w)),
    llvm.zext_bit 0 (omega arith),
    write_dest ready,
    update_pc_lem llvm,
    ready.valid.counter,
  )

  pub slt_correct :
      signed_ltb (reg s (rs1 w)) (reg s (rs2 w)) ≡ false → ImplementsRaw llvm ir_data slt w s
  unfolding step_with
  slt_correct unset = slt_zero ∙ rw unset

  pub sltu_zero : exec llvm (generate sltu w ir_data) s ≡ some (tt, next (set_reg s (rd w) 0))
  unfolding generate exec sltu_build_ir
  sltu_zero = rw (
    read_src1 ready,
    read_src1 ready,
    llvm.ult_law (reg s (rs1 w)) (reg s (rs1 w)) (reg-IsWord ready.valid (rs1 w))
        (reg-IsWord ready.valid (rs1 w)),
    ltb_self (reg s (rs1 w)),
    llvm.zext_bit 0 (omega arith),
    write_dest ready,
    update_pc_lem llvm,
    ready.valid.counter,
  )

  pub sltu_correct :
      ltb (reg s (rs1 w)) (reg s (rs2 w)) ≡ false → ImplementsRaw llvm ir_data sltu w s
  unfolding step_with
  sltu_correct unset = sltu_zero ∙ rw unset
