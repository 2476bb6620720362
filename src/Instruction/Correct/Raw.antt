-- ===== src/Instruction/Correct/Raw.antt =====
-- src/Instruction.cpp: `generate`, with register 0 as the bodies treat it.
use dbtranslator.Base.{ℕ, ◌<◌, ◌≡◌, false, ltb, signed_ltb}
use dbtranslator.Cpu.{reg, CpuState}
use dbtranslator.Llvm.Semantics.{Llvm}
use dbtranslator.Llvm.Builder.{IrData}
use dbtranslator.Instruction.Kind.{
  Instr, unknown, lui, auipc, jal, jalr, beq, bne, blt, bge, bltu, bgeu, lb, lh, lw, lbu, lhu, sb,
  sh, sw, addi, slti, sltiu, xori, ori, andi, slli, srli, srai, add, sub, sll, slt, sltu, xor, srl,
  sra, or, and, fence, fencetso, pause, ecall, ebreak,
}
use dbtranslator.Instruction.Correct.Registers.{ImplementsRaw, IsReady, ImplementsRaw, IsWired}
use dbtranslator.Instruction.Correct.Jump.{lui_correct, auipc_correct, jal_correct, jalr_correct}
use dbtranslator.Instruction.Correct.Branch.{
  beq_correct, bne_correct, blt_correct, bge_correct, bltu_correct, bgeu_correct,
}
use dbtranslator.Instruction.Correct.Load.{
  lb_correct, lh_correct, lw_correct, lbu_correct, lhu_correct,
}
use dbtranslator.Instruction.Correct.Store.{sb_correct, sh_correct, sw_correct}
use dbtranslator.Instruction.Correct.Immediate.{
  addi_correct, slti_correct, sltiu_correct, xori_correct, ori_correct, andi_correct, slli_correct,
  srli_correct, srai_correct,
}
use dbtranslator.Instruction.Correct.Register.{
  add_correct, sub_correct, xor_correct, or_correct, and_correct, sll_correct, srl_correct,
  sra_correct, slt_correct, sltu_correct,
}
use dbtranslator.Instruction.Correct.System.{fence_correct, fencetso_correct, pause_correct}
use dbtranslator.Riscv.Fields.{bits, rs1, rs2}

-- Where the body of an instruction does what the manual says, but for register 0: a jal's word has
-- the same bits 19 and 31; a shift by a register is by less than 32; and a comparison of two registers
-- does not hold.
abbrev pub IsFaithful : Instr → ℕ → CpuState → Type 0
IsFaithful unknown w s = ⊥
IsFaithful ecall w s = ⊥
IsFaithful ebreak w s = ⊥
IsFaithful jal w s = bits w 19 1 ≡ bits w 31 1
IsFaithful sll w s = reg s (rs2 w) < 32
IsFaithful srl w s = reg s (rs2 w) < 32
IsFaithful sra w s = reg s (rs2 w) < 32
IsFaithful slt w s = signed_ltb (reg s (rs1 w)) (reg s (rs2 w)) ≡ false
IsFaithful sltu w s = ltb (reg s (rs1 w)) (reg s (rs2 w)) ≡ false
IsFaithful _ w s = Unit

-- On a word and a well-formed state, with the memory functions declared, and where a jal's word has
-- the same bits 19 and 31, a shift is by less than 32 and a comparison of registers does not hold,
-- the code built for an instruction other than an ecall, an ebreak and an unknown one does the
-- instruction's step as if register 0 were read and written as any other register is.
pub generate_raw :
    (llvm : Llvm) (ir_data : IrData) (i : Instr) (w : ℕ) (s : CpuState)
    → IsWired ir_data
    → IsReady w s
    → IsFaithful i w s
    → ImplementsRaw llvm ir_data i w s
generate_raw llvm ir_data unknown w s wired ready h = absurd h
generate_raw llvm ir_data lui w s wired ready h = lui_correct llvm ir_data ready
generate_raw llvm ir_data auipc w s wired ready h = auipc_correct llvm ir_data ready
generate_raw llvm ir_data jal w s wired ready h = jal_correct llvm ir_data ready h
generate_raw llvm ir_data jalr w s wired ready h = jalr_correct llvm ir_data ready
generate_raw llvm ir_data beq w s wired ready h = beq_correct llvm ir_data ready
generate_raw llvm ir_data bne w s wired ready h = bne_correct llvm ir_data ready
generate_raw llvm ir_data blt w s wired ready h = blt_correct llvm ir_data ready
generate_raw llvm ir_data bge w s wired ready h = bge_correct llvm ir_data ready
generate_raw llvm ir_data bltu w s wired ready h = bltu_correct llvm ir_data ready
generate_raw llvm ir_data bgeu w s wired ready h = bgeu_correct llvm ir_data ready
generate_raw llvm ir_data lb w s wired ready h = lb_correct llvm ir_data wired ready
generate_raw llvm ir_data lh w s wired ready h = lh_correct llvm ir_data wired ready
generate_raw llvm ir_data lw w s wired ready h = lw_correct llvm ir_data wired ready
generate_raw llvm ir_data lbu w s wired ready h = lbu_correct llvm ir_data wired ready
generate_raw llvm ir_data lhu w s wired ready h = lhu_correct llvm ir_data wired ready
generate_raw llvm ir_data sb w s wired ready h = sb_correct llvm ir_data wired ready
generate_raw llvm ir_data sh w s wired ready h = sh_correct llvm ir_data wired ready
generate_raw llvm ir_data sw w s wired ready h = sw_correct llvm ir_data wired ready
generate_raw llvm ir_data addi w s wired ready h = addi_correct llvm ir_data ready
generate_raw llvm ir_data slti w s wired ready h = slti_correct llvm ir_data ready
generate_raw llvm ir_data sltiu w s wired ready h = sltiu_correct llvm ir_data ready
generate_raw llvm ir_data xori w s wired ready h = xori_correct llvm ir_data ready
generate_raw llvm ir_data ori w s wired ready h = ori_correct llvm ir_data ready
generate_raw llvm ir_data andi w s wired ready h = andi_correct llvm ir_data ready
generate_raw llvm ir_data slli w s wired ready h = slli_correct llvm ir_data ready
generate_raw llvm ir_data srli w s wired ready h = srli_correct llvm ir_data ready
generate_raw llvm ir_data srai w s wired ready h = srai_correct llvm ir_data ready
generate_raw llvm ir_data add w s wired ready h = add_correct llvm ir_data ready
generate_raw llvm ir_data sub w s wired ready h = sub_correct llvm ir_data ready
generate_raw llvm ir_data sll w s wired ready h = sll_correct llvm ir_data ready h
generate_raw llvm ir_data slt w s wired ready h = slt_correct llvm ir_data ready h
generate_raw llvm ir_data sltu w s wired ready h = sltu_correct llvm ir_data ready h
generate_raw llvm ir_data xor w s wired ready h = xor_correct llvm ir_data ready
generate_raw llvm ir_data srl w s wired ready h = srl_correct llvm ir_data ready h
generate_raw llvm ir_data sra w s wired ready h = sra_correct llvm ir_data ready h
generate_raw llvm ir_data or w s wired ready h = or_correct llvm ir_data ready
generate_raw llvm ir_data and w s wired ready h = and_correct llvm ir_data ready
generate_raw llvm ir_data fence w s wired ready h = fence_correct llvm ir_data ready
generate_raw llvm ir_data fencetso w s wired ready h = fencetso_correct llvm ir_data ready
generate_raw llvm ir_data pause w s wired ready h = pause_correct llvm ir_data ready
generate_raw llvm ir_data ecall w s wired ready h = absurd h
generate_raw llvm ir_data ebreak w s wired ready h = absurd h
