-- ===== src/Instruction/Correct/Registers.antt =====
-- Reads and writes of the register file from code that src/Instruction.cpp builds.
use dbtranslator.Base.{
  ℕ, [], ◌∷◌, Bool, true, false, ◌≡◌, refl, some, arith, if◌then◌else◌, IsWord, ◌>>=◌,
}
use dbtranslator.Cpu.{
  CpuState, IsValid, reg, set_reg, read_register, write_register, read_register-lt,
  write_register-lt,
}
use dbtranslator.Llvm.Semantics.{Llvm}
use dbtranslator.Llvm.Builder.{
  IrData, bit, word, callee_read8, callee_read16, callee_read32, callee_write8, callee_write16,
  callee_write32,
}
use dbtranslator.Llvm.Exec.{exec, zext_value, select_value}
use dbtranslator.Instruction.Kind.{Instr}
use dbtranslator.Instruction.Fields.{reg_dest, reg_src1, reg_src2}
use dbtranslator.Instruction.Fields.Meaning.{reg_dest-rd, reg_src1-rs1, reg_src2-rs2}
use dbtranslator.Instruction.Counter.{update_pc}
use dbtranslator.Instruction.Generate.{generate}
use dbtranslator.Riscv.Fields.{rd, rs1, rs2}
use dbtranslator.Riscv.Step.{next, as_bit, step, raw_step}

-- A word, and a well-formed state.
pub record IsReady (w : ℕ) (s : CpuState) : Type 0 where
  pub fits : IsWord w
  pub valid : IsValid s

-- The code built for the instruction, run on the state, ends in the state after the instruction's
-- step, or has no result where the step has none.
abbrev pub Implements : Llvm → IrData → Instr → ℕ → CpuState → Type 0
Implements llvm ir_data i w s =
    exec llvm (generate i w ir_data) s ≡ (step i w s >>= λ s'. some (tt, s'))

-- The same of the steps in which register 0 is written as any other register is.
abbrev pub ImplementsRaw : Llvm → IrData → Instr → ℕ → CpuState → Type 0
ImplementsRaw llvm ir_data i w s =
    exec llvm (generate i w ir_data) s ≡ (raw_step i w s >>= λ s'. some (tt, s'))

module _ {w : ℕ} {s : CpuState} (ready : IsReady w s) where
  pub read_src1 : read_register s (reg_src1 w) ≡ some (reg s (rs1 w))
  read_src1 = rw (reg_src1-rs1 w) (read_register-lt ready.valid (rs1 w) (omega arith))

  pub read_src2 : read_register s (reg_src2 w) ≡ some (reg s (rs2 w))
  read_src2 = rw (reg_src2-rs2 w) (read_register-lt ready.valid (rs2 w) (omega arith))

  pub write_dest : (v : ℕ) → write_register s (reg_dest w) v ≡ some (set_reg s (rd w) v)
  write_dest v = rw (reg_dest-rd w) (write_register-lt ready.valid (rd w) v (omega arith))

-- `updatePC` moves to the next instruction.
pub update_pc_lem :
    (llvm : Llvm) (s : CpuState) → IsWord s.pc → exec llvm update_pc s ≡ some (tt, next s)
unfolding exec update_pc
update_pc_lem llvm s h = rw (llvm.add_law s.pc 4 h (omega arith))

-- The extension of a test's result.
pub zext_bool : (llvm : Llvm) (b : Bool) → zext_value llvm (bit b) ≡ some (word (as_bit b))
unfolding zext_value
zext_bool llvm true = rw (llvm.zext_bit 1 (omega arith))
zext_bool llvm false = rw (llvm.zext_bit 0 (omega arith))

pub select_word :
    (b : Bool) (p q : ℕ) → select_value (bit b) (word p) (word q) ≡ some (word (if b then p else q))
unfolding select_value
select_word true p q = refl
select_word false p q = refl

-- The functions that `addMemoryInterface` declares, in its order.
abbrev pub IsWired : IrData → Type 0
IsWired ir_data =
    ir_data.memory_functions
    ≡ callee_read8 ∷ callee_read16 ∷ callee_read32 ∷ callee_write8 ∷ callee_write16 ∷ callee_write32
      ∷ []
