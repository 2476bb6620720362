-- ===== src/Instruction/Generate.antt =====
-- src/Instruction.cpp: `generate` makes an object of the instruction's class and has it build.
use dbtranslator.Base.{ℕ}
use dbtranslator.Llvm.Builder.{IrData, Build, done}
use dbtranslator.Instruction.Kind.{
  Instr, unknown, lui, auipc, jal, jalr, beq, bne, blt, bge, bltu, bgeu, lb, lh, lw, lbu, lhu, sb,
  sh, sw, addi, slti, sltiu, xori, ori, andi, slli, srli, srai, add, sub, sll, slt, sltu, xor, srl,
  sra, or, and, fence, fencetso, pause, ecall, ebreak,
}
use dbtranslator.Instruction.Class.{
  build_ir, lui_instruction, auipc_instruction, jal_instruction, jalr_instruction, beq_instruction,
  bne_instruction, blt_instruction, bge_instruction, bltu_instruction, bgeu_instruction,
  lb_instruction, lh_instruction, lw_instruction, lbu_instruction, lhu_instruction, sb_instruction,
  sh_instruction, sw_instruction, addi_instruction, slti_instruction, sltiu_instruction,
  xori_instruction, ori_instruction, andi_instruction, slli_instruction, srli_instruction,
  srai_instruction, add_instruction, sub_instruction, sll_instruction, slt_instruction,
  sltu_instruction, xor_instruction, srl_instruction, sra_instruction, or_instruction,
  and_instruction, fence_instruction, fencetso_instruction, pause_instruction, ecall_instruction,
  ebreak_instruction,
}

unfoldable pub generate : Instr → ℕ → IrData → Build (Unit {0})
unfolding build_ir
generate unknown w ir_data = done tt
generate lui w ir_data = build_ir (lui_instruction w) ir_data
generate auipc w ir_data = build_ir (auipc_instruction w) ir_data
generate jal w ir_data = build_ir (jal_instruction w) ir_data
generate jalr w ir_data = build_ir (jalr_instruction w) ir_data
generate beq w ir_data = build_ir (beq_instruction w) ir_data
generate bne w ir_data = build_ir (bne_instruction w) ir_data
generate blt w ir_data = build_ir (blt_instruction w) ir_data
generate bge w ir_data = build_ir (bge_instruction w) ir_data
generate bltu w ir_data = build_ir (bltu_instruction w) ir_data
generate bgeu w ir_data = build_ir (bgeu_instruction w) ir_data
generate lb w ir_data = build_ir (lb_instruction w) ir_data
generate lh w ir_data = build_ir (lh_instruction w) ir_data
generate lw w ir_data = build_ir (lw_instruction w) ir_data
generate lbu w ir_data = build_ir (lbu_instruction w) ir_data
generate lhu w ir_data = build_ir (lhu_instruction w) ir_data
generate sb w ir_data = build_ir (sb_instruction w) ir_data
generate sh w ir_data = build_ir (sh_instruction w) ir_data
generate sw w ir_data = build_ir (sw_instruction w) ir_data
generate addi w ir_data = build_ir (addi_instruction w) ir_data
generate slti w ir_data = build_ir (slti_instruction w) ir_data
generate sltiu w ir_data = build_ir (sltiu_instruction w) ir_data
generate xori w ir_data = build_ir (xori_instruction w) ir_data
generate ori w ir_data = build_ir (ori_instruction w) ir_data
generate andi w ir_data = build_ir (andi_instruction w) ir_data
generate slli w ir_data = build_ir (slli_instruction w) ir_data
generate srli w ir_data = build_ir (srli_instruction w) ir_data
generate srai w ir_data = build_ir (srai_instruction w) ir_data
generate add w ir_data = build_ir (add_instruction w) ir_data
generate sub w ir_data = build_ir (sub_instruction w) ir_data
generate sll w ir_data = build_ir (sll_instruction w) ir_data
generate slt w ir_data = build_ir (slt_instruction w) ir_data
generate sltu w ir_data = build_ir (sltu_instruction w) ir_data
generate xor w ir_data = build_ir (xor_instruction w) ir_data
generate srl w ir_data = build_ir (srl_instruction w) ir_data
generate sra w ir_data = build_ir (sra_instruction w) ir_data
generate or w ir_data = build_ir (or_instruction w) ir_data
generate and w ir_data = build_ir (and_instruction w) ir_data
generate fence w ir_data = build_ir (fence_instruction w) ir_data
generate fencetso w ir_data = build_ir (fencetso_instruction w) ir_data
generate pause w ir_data = build_ir (pause_instruction w) ir_data
generate ecall w ir_data = build_ir (ecall_instruction w) ir_data
generate ebreak w ir_data = build_ir (ebreak_instruction w) ir_data
