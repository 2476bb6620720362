-- ===== src/Instruction/Typed.antt =====
-- src/Instruction.cpp: the types of the code that `generate` builds.
mod Inside
mod Control
mod Access
mod Arithmetic
use dbtranslator.Base.{ℕ}
use dbtranslator.Llvm.Builder.{IrData}
use dbtranslator.Llvm.Typing.{IsTyped}
use dbtranslator.Instruction.Counter.{update_pc}
use dbtranslator.Instruction.Build.System.{
  ecall_build_ir, ebreak_build_ir, fence_build_ir, fencetso_build_ir, pause_build_ir,
}
use dbtranslator.Instruction.Generate.{generate}
use dbtranslator.Instruction.Kind.{
  Instr, unknown, lui, auipc, jal, jalr, beq, bne, blt, bge, bltu, bgeu, lb, lh, lw, lbu, lhu, sb,
  sh, sw, addi, slti, sltiu, xori, ori, andi, slli, srli, srai, add, sub, sll, slt, sltu, xor, srl,
  sra, or, and, fence, fencetso, pause, ecall, ebreak,
}
use dbtranslator.Instruction.Correct.Registers.{IsWired}
use dbtranslator.Instruction.Typed.Control.{
  lui-IsTyped, auipc-IsTyped, jal-IsTyped, jalr-IsTyped, beq-IsTyped, bne-IsTyped, blt-IsTyped,
  bge-IsTyped, bltu-IsTyped, bgeu-IsTyped,
}
use dbtranslator.Instruction.Typed.Access.{
  lb-IsTyped, lh-IsTyped, lw-IsTyped, lbu-IsTyped, lhu-IsTyped, sb-IsTyped, sh-IsTyped, sw-IsTyped,
}
use dbtranslator.Instruction.Typed.Arithmetic.{
  addi-IsTyped, slti-IsTyped, sltiu-IsTyped, xori-IsTyped, ori-IsTyped, andi-IsTyped, slli-IsTyped,
  srli-IsTyped, srai-IsTyped, add-IsTyped, sub-IsTyped, sll-IsTyped, slt-IsTyped, sltu-IsTyped,
  xor-IsTyped, srl-IsTyped, sra-IsTyped, or-IsTyped, and-IsTyped,
}

update_pc-IsTyped : IsTyped update_pc
unfolding IsTyped update_pc
update_pc-IsTyped = λ _ _ _ _. tt

-- With the memory functions declared, the code built for any instruction from any word is typed:
-- every instruction of LLVM in it has operands of the sorts that it takes, each access calls a
-- declared function with arguments of its signature, and every element that is addressed lies in the
-- register array.
pub generate-IsTyped :
    (ir_data : IrData) (i : Instr) (w : ℕ) → IsWired ir_data → IsTyped (generate i w ir_data)
unfolding generate IsTyped ecall_build_ir ebreak_build_ir fence_build_ir fencetso_build_ir
    pause_build_ir
generate-IsTyped ir_data unknown w wired = tt
generate-IsTyped ir_data ecall w wired = tt
generate-IsTyped ir_data lui w wired = lui-IsTyped w ir_data
generate-IsTyped ir_data auipc w wired = auipc-IsTyped w ir_data
generate-IsTyped ir_data jal w wired = jal-IsTyped w ir_data
generate-IsTyped ir_data jalr w wired = jalr-IsTyped w ir_data
generate-IsTyped ir_data beq w wired = beq-IsTyped w ir_data
generate-IsTyped ir_data bne w wired = bne-IsTyped w ir_data
generate-IsTyped ir_data blt w wired = blt-IsTyped w ir_data
generate-IsTyped ir_data bge w wired = bge-IsTyped w ir_data
generate-IsTyped ir_data bltu w wired = bltu-IsTyped w ir_data
generate-IsTyped ir_data bgeu w wired = bgeu-IsTyped w ir_data
generate-IsTyped ir_data lb w wired = lb-IsTyped w ir_data wired
generate-IsTyped ir_data lh w wired = lh-IsTyped w ir_data wired
generate-IsTyped ir_data lw w wired = lw-IsTyped w ir_data wired
generate-IsTyped ir_data lbu w wired = lbu-IsTyped w ir_data wired
generate-IsTyped ir_data lhu w wired = lhu-IsTyped w ir_data wired
generate-IsTyped ir_data sb w wired = sb-IsTyped w ir_data wired
generate-IsTyped ir_data sh w wired = sh-IsTyped w ir_data wired
generate-IsTyped ir_data sw w wired = sw-IsTyped w ir_data wired
generate-IsTyped ir_data addi w wired = addi-IsTyped w ir_data
generate-IsTyped ir_data slti w wired = slti-IsTyped w ir_data
generate-IsTyped ir_data sltiu w wired = sltiu-IsTyped w ir_data
generate-IsTyped ir_data xori w wired = xori-IsTyped w ir_data
generate-IsTyped ir_data ori w wired = ori-IsTyped w ir_data
generate-IsTyped ir_data andi w wired = andi-IsTyped w ir_data
generate-IsTyped ir_data slli w wired = slli-IsTyped w ir_data
generate-IsTyped ir_data srli w wired = srli-IsTyped w ir_data
generate-IsTyped ir_data srai w wired = srai-IsTyped w ir_data
generate-IsTyped ir_data add w wired = add-IsTyped w ir_data
generate-IsTyped ir_data sub w wired = sub-IsTyped w ir_data
generate-IsTyped ir_data sll w wired = sll-IsTyped w ir_data
generate-IsTyped ir_data slt w wired = slt-IsTyped w ir_data
generate-IsTyped ir_data sltu w wired = sltu-IsTyped w ir_data
generate-IsTyped ir_data xor w wired = xor-IsTyped w ir_data
generate-IsTyped ir_data srl w wired = srl-IsTyped w ir_data
generate-IsTyped ir_data sra w wired = sra-IsTyped w ir_data
generate-IsTyped ir_data or w wired = or-IsTyped w ir_data
generate-IsTyped ir_data and w wired = and-IsTyped w ir_data
generate-IsTyped ir_data fence w wired = update_pc-IsTyped
generate-IsTyped ir_data fencetso w wired = update_pc-IsTyped
generate-IsTyped ir_data pause w wired = update_pc-IsTyped
generate-IsTyped ir_data ebreak w wired = update_pc-IsTyped
