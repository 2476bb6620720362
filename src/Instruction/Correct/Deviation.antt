-- ===== src/Instruction/Correct/Deviation.antt =====
-- src/Instruction.cpp: where the code built for an instruction departs from the manual: jumps and register 0,
-- shifts and comparisons of two registers.
use dbtranslator.Base.{◌∙◌, ℕ, ◌*◌, ◌/◌, ◌≡◌, none, ◌≤◌, some, arith, add32}
use dbtranslator.Cpu.{CpuState, reg, set_reg, reg-set_reg_self}
use dbtranslator.Llvm.Semantics.{Llvm}
use dbtranslator.Llvm.Builder.{IrData}
use dbtranslator.Llvm.Exec.{exec}
use dbtranslator.Instruction.Kind.{Instr, jal, jalr, sll, srl, sra, slt, sltu}
use dbtranslator.Instruction.Generate.{generate}
use dbtranslator.Instruction.Correct.Jump.{jal_correct, jalr_correct}
use dbtranslator.Instruction.Correct.Registers.{IsReady}
use dbtranslator.Riscv.Fields.{bits, rd, rs1, rs2, imm_i, imm_j}
use dbtranslator.Riscv.Step.{step_with, next}
use dbtranslator.Instruction.Correct.Register.{
  sll_poison, srl_poison, sra_poison, slt_zero, sltu_zero,
}

-- The code runs, and leaves the address of the next instruction in register 0.
abbrev pub LinksInZero : Llvm → IrData → Instr → ℕ → CpuState → Type 0
LinksInZero llvm ir_data i w s =
    (t : CpuState) × (exec llvm (generate i w ir_data) s ≡ some (tt, t)) × (reg t 0 ≡ add32 s.pc 4)

-- On a word and a well-formed state, the code built for a jalr whose destination is
-- register 0 leaves the address of the next instruction there.
pub jalr-LinksInZero :
    (llvm : Llvm) (ir_data : IrData) (w : ℕ) (s : CpuState)
    → IsReady w s
    → rd w ≡ 0
    → LinksInZero llvm ir_data jalr w s
unfolding step_with
jalr-LinksInZero llvm ir_data w s ready destination = (
  record (set_reg s 0 (add32 s.pc 4)) { pc = add32 (reg s (rs1 w)) (imm_i w) / 2 * 2 },
  jalr_correct llvm ir_data ready ∙ rw destination,
  reg-set_reg_self ready.valid 0 (add32 s.pc 4) (omega arith),
)

-- On a word and a well-formed state, the code built for a jal whose destination is
-- register 0, and whose word has the same bits 19 and 31, leaves the address of the next instruction
-- there.
pub jal-LinksInZero :
    (llvm : Llvm) (ir_data : IrData) (w : ℕ) (s : CpuState)
    → IsReady w s
    → rd w ≡ 0
    → bits w 19 1 ≡ bits w 31 1
    → LinksInZero llvm ir_data jal w s
unfolding step_with
jal-LinksInZero llvm ir_data w s ready destination near = (
  record (set_reg s 0 (add32 s.pc 4)) { pc = add32 s.pc (imm_j w) },
  jal_correct llvm ir_data ready near ∙ rw destination,
  reg-set_reg_self ready.valid 0 (add32 s.pc 4) (omega arith),
)

-- On a word and a well-formed state, the code built for a shift by a register has no
-- defined result where the register holds 32 or more.
pub shifts_unmasked :
    (llvm : Llvm) (ir_data : IrData) (w : ℕ) (s : CpuState)
    → IsReady w s
    → 32 ≤ reg s (rs2 w)
    → (exec llvm (generate sll w ir_data) s ≡ none)
      × (exec llvm (generate srl w ir_data) s ≡ none)
      × (exec llvm (generate sra w ir_data) s ≡ none)
shifts_unmasked llvm ir_data w s ready large = (
  sll_poison llvm ir_data ready large,
  srl_poison llvm ir_data ready large,
  sra_poison llvm ir_data ready large,
)

-- On a word and a well-formed state, the code built for a comparison of two registers
-- sets the destination to 0, whatever the registers hold.
pub comparisons_unset :
    (llvm : Llvm) (ir_data : IrData) (w : ℕ) (s : CpuState)
    → IsReady w s
    → (exec llvm (generate slt w ir_data) s ≡ some (tt, next (set_reg s (rd w) 0)))
      × (exec llvm (generate sltu w ir_data) s ≡ some (tt, next (set_reg s (rd w) 0)))
comparisons_unset llvm ir_data w s ready =
    (slt_zero llvm ir_data ready, sltu_zero llvm ir_data ready)
