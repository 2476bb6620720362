-- ===== src/Tests/Instruction.antt =====
-- Instruction words, decoded, and the code built for them.
use dbtranslator.Base.{
  ◌%◌, ◌^◌, ◌-◌, ℕ, ◌^◌, ◌<◌, ◌≡◌, ◌↔◌, refl, none, some, [], ◌∷◌, arith, add32,
}
use dbtranslator.Cpu.{read_register, write_register, set_reg}
use dbtranslator.Llvm.Builder.{
  IrData, callee_read8, callee_read16, callee_read32, callee_write8, callee_write16, callee_write32,
}
use dbtranslator.Llvm.Exec.{exec}
use dbtranslator.Llvm.Reference.{reference}
use dbtranslator.Instruction.Kind.{add, addi, slt, sltu, sll, srl, sra, xor, jal, jalr}
use dbtranslator.Instruction.Build.Immediate.{addi_build_ir}
use dbtranslator.Instruction.Fields.{
  fill, reg_dest, reg_src1, reg_src2, shamt, low_immediate, store_offset, branch_offset,
  upper_immediate, jump_offset,
}
use dbtranslator.Instruction.Fields.Meaning.{fields_correct}
use dbtranslator.Instruction.Fields.Jump.{jump_offset-imm_j_iff}
use dbtranslator.Instruction.Decode.{decode}
use dbtranslator.Instruction.Decode.Complete.{decode_complete}
use dbtranslator.Instruction.Decode.Sound.{Accepts}
use dbtranslator.Instruction.Decode.Exact.{decode_exact}
use dbtranslator.Instruction.Counter.{update_pc}
use dbtranslator.Instruction.Generate.{generate}
use dbtranslator.Instruction.Correct.Registers.{IsReady, Implements}
use dbtranslator.Instruction.Correct.Supported.{generate_correct, generate-IsLegal}
use dbtranslator.Instruction.Correct.Deviation.{
  LinksInZero, jalr-LinksInZero, jal-LinksInZero, shifts_unmasked, comparisons_unset,
}
use dbtranslator.Riscv.Fields.{rd, rs1, rs2, imm_i, imm_s, imm_b, imm_u, bits, imm_j}
use dbtranslator.Riscv.Step.{next}
use dbtranslator.Riscv.Invariant.{IsLegal}
use dbtranslator.Tests.Sample.{at, at-IsLegal}

-- The memory functions of `addMemoryInterface`.
abbrev interface : IrData
interface = record {
  memory_functions =
      callee_read8 ∷ callee_read16 ∷ callee_read32 ∷ callee_write8 ∷ callee_write16 ∷ callee_write32
      ∷ [];
}

state-IsReady : (w : ℕ) → w < 2 ^ 32 → IsReady w (at 0x1000 40 7)
state-IsReady w fits =
    let legal = at-IsLegal 0x1000 40 7 (omega arith) (omega arith) (omega arith) in
    record { fits = fits; valid = legal.valid }

-- addi x1, x1, 5
generate_correct_example : Implements reference interface addi 0x00508093 (at 0x1000 40 7)
generate_correct_example =
    generate_correct reference interface addi 0x00508093 (at 0x1000 40 7) refl (omega arith)
      (at-IsLegal 0x1000 40 7 (omega arith) (omega arith) (omega arith)) (tt, omega arith)

generate-IsLegal_example : IsLegal (at 0x1004 45 7)
unfolding exec generate addi_build_ir update_pc reg_dest reg_src1 low_immediate fill read_register
    write_register add32
generate-IsLegal_example =
    generate-IsLegal reference interface addi 0x00508093 (at 0x1000 40 7) (at 0x1004 45 7) refl
      (omega arith) (at-IsLegal 0x1000 40 7 (omega arith) (omega arith) (omega arith))
      (tt, omega arith) refl

-- add x1, x1, x2
decode_complete_example : decode 0x002080B3 ≡ add
decode_complete_example = decode_complete add 0x002080B3 (omega arith) (refl, refl, refl) (λ e. cc)

decode_exact_example : (decode 0x0220C0B3 ≡ xor) ↔ Accepts xor 0x0220C0B3
decode_exact_example = decode_exact xor 0x0220C0B3 (omega arith) (λ e. cc)

jump_offset-imm_j_iff_example :
    (jump_offset 0x8000006F ≡ imm_j 0x8000006F) ↔ (bits 0x8000006F 19 1 ≡ bits 0x8000006F 31 1)
jump_offset-imm_j_iff_example = jump_offset-imm_j_iff 0x8000006F

-- jalr x0, 0(x1), the return from a function
jalr-LinksInZero_example : LinksInZero reference interface jalr 0x00008067 (at 0x1000 40 7)
jalr-LinksInZero_example =
    jalr-LinksInZero reference interface 0x00008067 (at 0x1000 40 7)
      (state-IsReady 0x00008067 (omega arith)) refl

-- jal x0, 8
jal-LinksInZero_example : LinksInZero reference interface jal 0x0080006F (at 0x1000 40 7)
jal-LinksInZero_example =
    jal-LinksInZero reference interface 0x0080006F (at 0x1000 40 7)
      (state-IsReady 0x0080006F (omega arith)) refl refl

-- Shifts of x2 by x1, which holds 40.
shifts_unmasked_example :
    (exec reference (generate sll 0x00111133 interface) (at 0x1000 40 7) ≡ none)
    × (exec reference (generate srl 0x00111133 interface) (at 0x1000 40 7) ≡ none)
    × (exec reference (generate sra 0x00111133 interface) (at 0x1000 40 7) ≡ none)
shifts_unmasked_example =
    shifts_unmasked reference interface 0x00111133 (at 0x1000 40 7)
      (state-IsReady 0x00111133 (omega arith)) (omega arith)

-- Comparisons of x2, which holds 7, with x1, into x3.
comparisons_unset_example :
    (exec reference (generate slt 0x001121B3 interface) (at 0x1000 40 7)
      ≡ some (tt, next (set_reg (at 0x1000 40 7) 3 0)))
    × (exec reference (generate sltu 0x001121B3 interface) (at 0x1000 40 7)
        ≡ some (tt, next (set_reg (at 0x1000 40 7) 3 0)))
comparisons_unset_example =
    comparisons_unset reference interface 0x001121B3 (at 0x1000 40 7)
      (state-IsReady 0x001121B3 (omega arith))

-- sw x2, -4(x1)
fields_correct_example :
    (reg_dest 0xFE20AE23 ≡ rd 0xFE20AE23)
    × (reg_src1 0xFE20AE23 ≡ rs1 0xFE20AE23)
    × (reg_src2 0xFE20AE23 ≡ rs2 0xFE20AE23)
    × (shamt 0xFE20AE23 ≡ imm_i 0xFE20AE23 % 2 ^ 5)
    × (low_immediate 0xFE20AE23 ≡ imm_i 0xFE20AE23)
    × (store_offset 0xFE20AE23 ≡ imm_s 0xFE20AE23)
    × (branch_offset 0xFE20AE23 ≡ imm_b 0xFE20AE23)
    × (upper_immediate 0xFE20AE23 ≡ imm_u 0xFE20AE23)
fields_correct_example = fields_correct 0xFE20AE23 (omega arith)

minus_four : store_offset 0xFE20AE23 ≡ 2 ^ 32 - 4
unfolding store_offset fill
minus_four = refl
