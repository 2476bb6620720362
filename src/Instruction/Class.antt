-- ===== src/Instruction/Class.antt =====
-- include/dbtranslator/Instruction.h: `Instruction` and the classes that derive from it.
use dbtranslator.Base.{ℕ}
use dbtranslator.Llvm.Builder.{IrData, Build}
use dbtranslator.Instruction.Build.Jump.{lui_build_ir, auipc_build_ir, jal_build_ir, jalr_build_ir}
use dbtranslator.Instruction.Build.Branch.{
  beq_build_ir, bne_build_ir, blt_build_ir, bge_build_ir, bltu_build_ir, bgeu_build_ir,
}
use dbtranslator.Instruction.Build.Load.{
  lb_build_ir, lh_build_ir, lw_build_ir, lbu_build_ir, lhu_build_ir,
}
use dbtranslator.Instruction.Build.Store.{sb_build_ir, sh_build_ir, sw_build_ir}
use dbtranslator.Instruction.Build.Immediate.{
  addi_build_ir, slti_build_ir, sltiu_build_ir, xori_build_ir, ori_build_ir, andi_build_ir,
  slli_build_ir, srli_build_ir, srai_build_ir,
}
use dbtranslator.Instruction.Build.Register.{
  add_build_ir, sub_build_ir, sll_build_ir, srl_build_ir, sra_build_ir, xor_build_ir, or_build_ir,
  and_build_ir, slt_build_ir, sltu_build_ir,
}
use dbtranslator.Instruction.Build.System.{
  fence_build_ir, fencetso_build_ir, pause_build_ir, ecall_build_ir, ebreak_build_ir,
}

-- A class per instruction; each object holds `InstructionData`, which the base class's constructor
-- sets.
pub data Instruction : Type 0 where
  lui_instruction auipc_instruction jal_instruction jalr_instruction beq_instruction bne_instruction
        blt_instruction bge_instruction bltu_instruction bgeu_instruction lb_instruction
        lh_instruction lw_instruction lbu_instruction lhu_instruction sb_instruction sh_instruction
        sw_instruction addi_instruction slti_instruction sltiu_instruction xori_instruction
        ori_instruction andi_instruction slli_instruction srli_instruction srai_instruction
        add_instruction sub_instruction sll_instruction slt_instruction sltu_instruction
        xor_instruction srl_instruction sra_instruction or_instruction and_instruction
        fence_instruction fencetso_instruction pause_instruction ecall_instruction
        ebreak_instruction :
      ℕ → Instruction

-- The virtual function, by the class of the object.
unfoldable pub build_ir : Instruction → IrData → Build (Unit {0})
build_ir (lui_instruction w) ir_data = lui_build_ir w ir_data
build_ir (auipc_instruction w) ir_data = auipc_build_ir w ir_data
build_ir (jal_instruction w) ir_data = jal_build_ir w ir_data
build_ir (jalr_instruction w) ir_data = jalr_build_ir w ir_data
build_ir (beq_instruction w) ir_data = beq_build_ir w ir_data
build_ir (bne_instruction w) ir_data = bne_build_ir w ir_data
build_ir (blt_instruction w) ir_data = blt_build_ir w ir_data
build_ir (bge_instruction w) ir_data = bge_build_ir w ir_data
build_ir (bltu_instruction w) ir_data = bltu_build_ir w ir_data
build_ir (bgeu_instruction w) ir_data = bgeu_build_ir w ir_data
build_ir (lb_instruction w) ir_data = lb_build_ir w ir_data
build_ir (lh_instruction w) ir_data = lh_build_ir w ir_data
build_ir (lw_instruction w) ir_data = lw_build_ir w ir_data
build_ir (lbu_instruction w) ir_data = lbu_build_ir w ir_data
build_ir (lhu_instruction w) ir_data = lhu_build_ir w ir_data
build_ir (sb_instruction w) ir_data = sb_build_ir w ir_data
build_ir (sh_instruction w) ir_data = sh_build_ir w ir_data
build_ir (sw_instruction w) ir_data = sw_build_ir w ir_data
build_ir (addi_instruction w) ir_data = addi_build_ir w ir_data
build_ir (slti_instruction w) ir_data = slti_build_ir w ir_data
build_ir (sltiu_instruction w) ir_data = sltiu_build_ir w ir_data
build_ir (xori_instruction w) ir_data = xori_build_ir w ir_data
build_ir (ori_instruction w) ir_data = ori_build_ir w ir_data
build_ir (andi_instruction w) ir_data = andi_build_ir w ir_data
build_ir (slli_instruction w) ir_data = slli_build_ir w ir_data
build_ir (srli_instruction w) ir_data = srli_build_ir w ir_data
build_ir (srai_instruction w) ir_data = srai_build_ir w ir_data
build_ir (add_instruction w) ir_data = add_build_ir w ir_data
build_ir (sub_instruction w) ir_data = sub_build_ir w ir_data
build_ir (sll_instruction w) ir_data = sll_build_ir w ir_data
build_ir (slt_instruction w) ir_data = slt_build_ir w ir_data
build_ir (sltu_instruction w) ir_data = sltu_build_ir w ir_data
build_ir (xor_instruction w) ir_data = xor_build_ir w ir_data
build_ir (srl_instruction w) ir_data = srl_build_ir w ir_data
build_ir (sra_instruction w) ir_data = sra_build_ir w ir_data
build_ir (or_instruction w) ir_data = or_build_ir w ir_data
build_ir (and_instruction w) ir_data = and_build_ir w ir_data
build_ir (fence_instruction w) ir_data = fence_build_ir w ir_data
build_ir (fencetso_instruction w) ir_data = fencetso_build_ir w ir_data
build_ir (pause_instruction w) ir_data = pause_build_ir w ir_data
build_ir (ecall_instruction w) ir_data = ecall_build_ir w ir_data
build_ir (ebreak_instruction w) ir_data = ebreak_build_ir w ir_data
