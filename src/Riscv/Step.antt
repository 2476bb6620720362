-- ===== src/Riscv/Step.antt =====
-- One step of an RV32I processor: register 0 reads as 0 and is never written.
use Prim.Native.Nat.{bit_and, bit_or, bit_xor}
use mathlib.Core.Bool.{not}
use dbtranslator.Base.{
  ℕ, ◌*◌, ◌/◌, ◌%◌, ◌^◌, Bool, false, Option, none, some, ltb, ◌==◌, if◌then◌else◌, ◌>>=◌, add32,
  sub32, sra32, sext32, signed_ltb,
}
use dbtranslator.Memory.{MemoryManager, read8, read16, read32, write8, write16, write32}
use dbtranslator.Cpu.{CpuState, reg, set_reg}
use dbtranslator.Instruction.Kind.{
  Instr, lui, auipc, jal, jalr, beq, bne, blt, bge, bltu, bgeu, lb, lh, lw, lbu, lhu, sb, sh, sw,
  addi, slti, sltiu, xori, ori, andi, slli, srli, srai, add, sub, sll, slt, sltu, xor, srl, sra, or,
  and, fence, fencetso, pause,
}
use dbtranslator.Riscv.Fields.{rd, rs1, rs2, imm_i, imm_s, imm_b, imm_u, imm_j}

abbrev pub x : CpuState → ℕ → ℕ
x s i = if i == 0 then 0 else reg s i

abbrev pub write_rd : CpuState → ℕ → ℕ → CpuState
write_rd s i v = if i == 0 then s else set_reg s i v

abbrev pub next : CpuState → CpuState
next s = record s { pc = add32 s.pc 4 }

abbrev pub jump : CpuState → ℕ → CpuState
jump s target = record s { pc = target }

abbrev pub as_bit : Bool → ℕ
as_bit b = if b then 1 else 0

-- The operations of the ALU; the shift amount is the low five bits of the second operand.
unfoldable pub alu : Instr → ℕ → ℕ → ℕ
alu add a b = add32 a b
alu sub a b = sub32 a b
alu sll a b = a * 2 ^ (b % 2 ^ 5) % 2 ^ 32
alu slt a b = as_bit (signed_ltb a b)
alu sltu a b = as_bit (ltb a b)
alu xor a b = bit_xor a b
alu srl a b = a / 2 ^ (b % 2 ^ 5)
alu sra a b = sra32 a (b % 2 ^ 5)
alu or a b = bit_or a b
alu and a b = bit_and a b
alu _ a b = 0

-- Whether a conditional branch is taken.
unfoldable pub taken : Instr → ℕ → ℕ → Bool
taken beq a b = a == b
taken bne a b = not (a == b)
taken blt a b = signed_ltb a b
taken bge a b = not (signed_ltb a b)
taken bltu a b = ltb a b
taken bgeu a b = not (ltb a b)
taken _ a b = false

-- A branch on the operands `a` and `b`.
unfoldable pub branch_step : Instr → ℕ → ℕ → ℕ → CpuState → Option CpuState
branch_step i a b w s = some (jump s (if taken i a b then add32 s.pc (imm_b w) else add32 s.pc 4))

-- The address of a load or a store from the base `a`.
abbrev pub load_address : ℕ → ℕ → ℕ
load_address a w = add32 a (imm_i w)

abbrev pub store_address : ℕ → ℕ → ℕ
store_address a w = add32 a (imm_s w)

unfoldable pub store_step : Option MemoryManager → CpuState → Option CpuState
store_step stored s = stored >>= λ m. some (next (record s { manager = m }))

-- The steps, from a way to write the destination and the values of the two source registers.
module _ (write : CpuState → ℕ → ℕ → CpuState) (a b : ℕ) where
  unfoldable pub register_step : Instr → ℕ → CpuState → Option CpuState
  register_step i w s = some (next (write s (rd w) (alu i a b)))

  unfoldable pub immediate_step : Instr → ℕ → CpuState → Option CpuState
  immediate_step i w s = some (next (write s (rd w) (alu i a (imm_i w))))

  -- A load from memory that does not exist, or a store to it, has no result.
  unfoldable pub load_step : (ℕ → ℕ) → Option ℕ → ℕ → CpuState → Option CpuState
  load_step extend loaded w s = loaded >>= λ v. some (next (write s (rd w) (extend v)))

  -- `none` also stands for the instructions that leave the program for its environment.
  unfoldable pub step_with : Instr → ℕ → CpuState → Option CpuState
  unfolding alu taken register_step immediate_step branch_step load_step store_step
  step_with lui w s = some (next (write s (rd w) (imm_u w)))
  step_with auipc w s = some (next (write s (rd w) (add32 s.pc (imm_u w))))
  step_with jal w s = some (jump (write s (rd w) (add32 s.pc 4)) (add32 s.pc (imm_j w)))
  step_with jalr w s = some (jump (write s (rd w) (add32 s.pc 4)) (add32 a (imm_i w) / 2 * 2))
  step_with beq w s = branch_step beq a b w s
  step_with bne w s = branch_step bne a b w s
  step_with blt w s = branch_step blt a b w s
  step_with bge w s = branch_step bge a b w s
  step_with bltu w s = branch_step bltu a b w s
  step_with bgeu w s = branch_step bgeu a b w s
  step_with lb w s = load_step (sext32 8) (read8 s.manager (load_address a w)) w s
  step_with lh w s = load_step (sext32 16) (read16 s.manager (load_address a w)) w s
  step_with lw w s = load_step (λ v. v) (read32 s.manager (load_address a w)) w s
  step_with lbu w s = load_step (λ v. v) (read8 s.manager (load_address a w)) w s
  step_with lhu w s = load_step (λ v. v) (read16 s.manager (load_address a w)) w s
  step_with sb w s = store_step (write8 s.manager (store_address a w) (b % 2 ^ 8)) s
  step_with sh w s = store_step (write16 s.manager (store_address a w) (b % 2 ^ 16)) s
  step_with sw w s = store_step (write32 s.manager (store_address a w) b) s
  step_with addi w s = immediate_step add w s
  step_with slti w s = immediate_step slt w s
  step_with sltiu w s = immediate_step sltu w s
  step_with xori w s = immediate_step xor w s
  step_with ori w s = immediate_step or w s
  step_with andi w s = immediate_step and w s
  step_with slli w s = immediate_step sll w s
  step_with srli w s = immediate_step srl w s
  step_with srai w s = immediate_step sra w s
  step_with add w s = register_step add w s
  step_with sub w s = register_step sub w s
  step_with sll w s = register_step sll w s
  step_with slt w s = register_step slt w s
  step_with sltu w s = register_step sltu w s
  step_with xor w s = register_step xor w s
  step_with srl w s = register_step srl w s
  step_with sra w s = register_step sra w s
  step_with or w s = register_step or w s
  step_with and w s = register_step and w s
  step_with fence w s = some (next s)
  step_with fencetso w s = some (next s)
  step_with pause w s = some (next s)
  step_with _ w s = none

-- The steps of the processor, whose register 0 is not written.
abbrev pub step : Instr → ℕ → CpuState → Option CpuState
step i w s = step_with write_rd (x s (rs1 w)) (x s (rs2 w)) i w s

-- The same steps of a register file in which register 0 is a register like any other.
abbrev pub raw_step : Instr → ℕ → CpuState → Option CpuState
raw_step i w s = step_with set_reg (reg s (rs1 w)) (reg s (rs2 w)) i w s
