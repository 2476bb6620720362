-- ===== src/Instruction/Correct/Exact.antt =====
-- src/Instruction.cpp: `generate`, with nothing assumed of the word or of what the registers hold.
use mathlib.Core.Path.{subst}
use dbtranslator.Base.{
  add32-IsWord, ℕ, ◌≡◌, refl, Option, none, some, ltb, ltb→lt, if◌then◌else◌, ◌>>=◌, add32, arith,
  Bool-cases, inl, inr,
}
use dbtranslator.Cpu.{set_reg-IsValid, CpuState, IsValid, reg, set_reg}
use dbtranslator.Llvm.Semantics.{Llvm}
use dbtranslator.Llvm.Builder.{IrData}
use dbtranslator.Llvm.Exec.{exec}
use dbtranslator.Instruction.Kind.{Instr, unknown, jal, sll, slt, sltu, srl, sra, ecall, ebreak}
use dbtranslator.Instruction.Fields.Jump.{near_offset}
use dbtranslator.Instruction.Generate.{generate}
use dbtranslator.Instruction.Build.System.{ecall_build_ir, ebreak_build_ir}
use dbtranslator.Instruction.Correct.Registers.{IsReady, IsWired, update_pc_lem}
use dbtranslator.Instruction.Correct.Register.{
  sll_poison, srl_poison, sra_poison, slt_zero, sltu_zero,
}
use dbtranslator.Instruction.Correct.Jump.{jal_exact}
use dbtranslator.Instruction.Correct.Raw.{generate_raw}
use dbtranslator.Riscv.Fields.{rd, rs2}
use dbtranslator.Riscv.Step.{next, jump, raw_step}
use dbtranslator.Riscv.Invariant.{IsValid-IsClosed}
use dbtranslator.Riscv.Preserve.{raw_step-IsValid}

-- A shift has a result where its amount is less than 32.
abbrev pub shift_step : Instr → ℕ → CpuState → Option CpuState
shift_step i w s = if ltb (reg s (rs2 w)) 32 then raw_step i w s else none

-- What the built code does: nothing for unknown words and ecalls, no more than going on for
-- ebreaks, a jump by `near_offset` for jal, no result for a shift by 32 or more, 0 for a comparison
-- of registers, and for all else the manual's step with a register 0 like any other.
abbrev pub built_step : Instr → ℕ → CpuState → Option CpuState
built_step unknown w s = some s
built_step ecall w s = some s
built_step ebreak w s = some (next s)
built_step jal w s = some (jump (set_reg s (rd w) (add32 s.pc 4)) (add32 s.pc (near_offset w)))
built_step sll w s = shift_step sll w s
built_step srl w s = shift_step srl w s
built_step sra w s = shift_step sra w s
built_step slt w s = some (next (set_reg s (rd w) 0))
built_step sltu w s = some (next (set_reg s (rd w) 0))
built_step i w s = raw_step i w s

-- On a word and a well-formed state, with the memory functions declared, the code built for any
-- instruction does what `built_step` does, and has no result where that has none.
pub generate_exact :
    (llvm : Llvm) (ir_data : IrData) (i : Instr) (w : ℕ) (s : CpuState)
    → IsWired ir_data
    → IsReady w s
    → exec llvm (generate i w ir_data) s ≡ (built_step i w s >>= λ s'. some (tt, s'))
unfolding generate exec ecall_build_ir ebreak_build_ir
generate_exact llvm ir_data unknown w s wired ready = refl
generate_exact llvm ir_data ecall w s wired ready = refl
generate_exact llvm ir_data ebreak w s wired ready = update_pc_lem llvm s ready.valid.counter
generate_exact llvm ir_data jal w s wired ready = jal_exact llvm ir_data ready
generate_exact llvm ir_data slt w s wired ready = slt_zero llvm ir_data ready
generate_exact llvm ir_data sltu w s wired ready = sltu_zero llvm ir_data ready
generate_exact llvm ir_data sll w s wired ready = elim (Bool-cases (ltb (reg s (rs2 w)) 32)) [
  | inl small ↦ rw small (generate_raw llvm ir_data sll w s wired ready (ltb→lt _ _ small))
  | inr large ↦ rw large (sll_poison llvm ir_data ready (ground arith))
]
generate_exact llvm ir_data srl w s wired ready = elim (Bool-cases (ltb (reg s (rs2 w)) 32)) [
  | inl small ↦ rw small (generate_raw llvm ir_data srl w s wired ready (ltb→lt _ _ small))
  | inr large ↦ rw large (srl_poison llvm ir_data ready (ground arith))
]
generate_exact llvm ir_data sra w s wired ready = elim (Bool-cases (ltb (reg s (rs2 w)) 32)) [
  | inl small ↦ rw small (generate_raw llvm ir_data sra w s wired ready (ltb→lt _ _ small))
  | inr large ↦ rw large (sra_poison llvm ir_data ready (ground arith))
]
generate_exact llvm ir_data i w s wired ready = generate_raw llvm ir_data i w s wired ready tt

shift_step-IsValid :
    (i : Instr) (w : ℕ) {s s' : CpuState} → IsValid s → shift_step i w s ≡ some s' → IsValid s'
shift_step-IsValid i w {s} valid e = elim (Bool-cases (ltb (reg s (rs2 w)) 32)) [
  | inl small ↦ raw_step-IsValid i w valid (rw small at e)
  | inr large ↦ let faults = rw large at e in cc
]

-- What the built code does to a well-formed state leaves it well-formed.
pub built_step-IsValid :
    (i : Instr) (w : ℕ) {s s' : CpuState} → IsValid s → built_step i w s ≡ some s' → IsValid s'
built_step-IsValid unknown w valid e = subst IsValid (cc) valid
built_step-IsValid ecall w valid e = subst IsValid (cc) valid
built_step-IsValid ebreak w {s} valid e =
    subst IsValid (cc) (IsValid-IsClosed.jumped valid (add32 s.pc 4) (add32-IsWord s.pc 4))
built_step-IsValid jal w {s} valid e = subst IsValid (cc) (
    IsValid-IsClosed.jumped (set_reg-IsValid valid (rd w) _ (add32-IsWord s.pc 4)) _
      (add32-IsWord s.pc (near_offset w)))
built_step-IsValid slt w {s} valid e =
    subst IsValid (cc) (
      IsValid-IsClosed.jumped (set_reg-IsValid valid (rd w) 0 (omega arith)) _
        (add32-IsWord s.pc 4))
built_step-IsValid sltu w {s} valid e =
    subst IsValid (cc) (
      IsValid-IsClosed.jumped (set_reg-IsValid valid (rd w) 0 (omega arith)) _
        (add32-IsWord s.pc 4))
built_step-IsValid sll w valid e = shift_step-IsValid sll w valid e
built_step-IsValid srl w valid e = shift_step-IsValid srl w valid e
built_step-IsValid sra w valid e = shift_step-IsValid sra w valid e
built_step-IsValid i w valid e = raw_step-IsValid i w valid e
