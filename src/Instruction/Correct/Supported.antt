-- ===== src/Instruction/Correct/Supported.antt =====
-- src/Instruction.cpp: `generate`, for every instruction whose body follows the manual.
use dbtranslator.Base.{
  add32, ◌/◌, ◌*◌, arith, ap, sext32, refl, sym, ◌∙◌, Option, none, some, ◌>>=◌, IsWord, ℕ, ◌≡◌,
  ◌≢◌,
}
use dbtranslator.Cpu.{CpuState}
use dbtranslator.Llvm.Semantics.{Llvm}
use dbtranslator.Llvm.Builder.{IrData}
use dbtranslator.Instruction.Kind.{
  Instr, unknown, lui, auipc, jal, jalr, beq, bne, blt, bge, bltu, bgeu, lb, lh, lw, lbu, lhu, sb,
  sh, sw, addi, slti, sltiu, xori, ori, andi, slli, srli, srai, add, sub, sll, slt, sltu, xor, srl,
  sra, or, and, fence, fencetso, pause, ecall, ebreak,
}
use dbtranslator.Instruction.Correct.Registers.{Implements, IsWired}
use dbtranslator.Riscv.Fields.{rs2, imm_i, imm_j, rd, rs1}
use dbtranslator.Memory.{read8, read16, read32}
use dbtranslator.Cpu.{reg, set_reg}
use dbtranslator.Instruction.Correct.Raw.{IsFaithful, generate_raw}
use native.Mathlib.Decide.{ℕ_discrete}
use dbtranslator.Riscv.Step.{
  raw_step, load_step, load_address, register_step, immediate_step, write_rd, next, jump, step_with,
  x, step,
}
use dbtranslator.Riscv.Invariant.{IsLegal}
use dbtranslator.Riscv.Preserve.{step-IsLegal}
use dbtranslator.Llvm.Exec.{exec}
use dbtranslator.Instruction.Generate.{generate}

-- The instruction has no destination, or one that is not register 0.
abbrev pub KeepsZero : Instr → ℕ → Type 0
KeepsZero unknown w = Unit
KeepsZero beq w = Unit
KeepsZero bne w = Unit
KeepsZero blt w = Unit
KeepsZero bge w = Unit
KeepsZero bltu w = Unit
KeepsZero bgeu w = Unit
KeepsZero sb w = Unit
KeepsZero sh w = Unit
KeepsZero sw w = Unit
KeepsZero fence w = Unit
KeepsZero fencetso w = Unit
KeepsZero pause w = Unit
KeepsZero ecall w = Unit
KeepsZero ebreak w = Unit
KeepsZero _ w = rd w ≢ 0

-- Where the body of an instruction does what the manual says.
abbrev pub IsSupported : Instr → ℕ → CpuState → Type 0
IsSupported i w s = IsFaithful i w s × KeepsZero i w

-- Only register 0 is written differently.
write_other : (s : CpuState) (i v : ℕ) → i ≢ 0 → set_reg s i v ≡ write_rd s i v
write_other s i v n = ground arith

-- A load into another register.
load_other :
    (a b : ℕ) (extend : ℕ → ℕ) (loaded : Option ℕ) (w : ℕ) (s : CpuState)
    → rd w ≢ 0
    → load_step set_reg a b extend loaded w s ≡ load_step write_rd a b extend loaded w s
unfolding load_step
load_other a b extend none w s n = refl
load_other a b extend (some v) w s n = ap (λ t. some (next t)) (write_other s (rd w) (extend v) n)

-- Where register 0 is not the destination, both ways to write do the same.
step_other :
    (a b : ℕ) (i : Instr) (w : ℕ) (s : CpuState)
    → KeepsZero i w
    → step_with set_reg a b i w s ≡ step_with write_rd a b i w s
unfolding step_with register_step immediate_step
step_other a b unknown w s n = refl
step_other a b lui w s n = ap (λ t. some (next t)) (write_other s (rd w) _ n)
step_other a b auipc w s n = ap (λ t. some (next t)) (write_other s (rd w) _ n)
step_other a b jal w s n = ap (λ t. some (jump t (add32 s.pc (imm_j w)))) (write_other s (rd w) _ n)
step_other a b jalr w s n =
    ap (λ t. some (jump t (add32 a (imm_i w) / 2 * 2))) (write_other s (rd w) _ n)
step_other a b beq w s n = refl
step_other a b bne w s n = refl
step_other a b blt w s n = refl
step_other a b bge w s n = refl
step_other a b bltu w s n = refl
step_other a b bgeu w s n = refl
step_other a b lb w s n = load_other a b (sext32 8) (read8 s.manager (load_address a w)) w s n
step_other a b lh w s n = load_other a b (sext32 16) (read16 s.manager (load_address a w)) w s n
step_other a b lw w s n = load_other a b (λ v. v) (read32 s.manager (load_address a w)) w s n
step_other a b lbu w s n = load_other a b (λ v. v) (read8 s.manager (load_address a w)) w s n
step_other a b lhu w s n = load_other a b (λ v. v) (read16 s.manager (load_address a w)) w s n
step_other a b sb w s n = refl
step_other a b sh w s n = refl
step_other a b sw w s n = refl
step_other a b addi w s n = ap (λ t. some (next t)) (write_other s (rd w) _ n)
step_other a b slti w s n = ap (λ t. some (next t)) (write_other s (rd w) _ n)
step_other a b sltiu w s n = ap (λ t. some (next t)) (write_other s (rd w) _ n)
step_other a b xori w s n = ap (λ t. some (next t)) (write_other s (rd w) _ n)
step_other a b ori w s n = ap (λ t. some (next t)) (write_other s (rd w) _ n)
step_other a b andi w s n = ap (λ t. some (next t)) (write_other s (rd w) _ n)
step_other a b slli w s n = ap (λ t. some (next t)) (write_other s (rd w) _ n)
step_other a b srli w s n = ap (λ t. some (next t)) (write_other s (rd w) _ n)
step_other a b srai w s n = ap (λ t. some (next t)) (write_other s (rd w) _ n)
step_other a b add w s n = ap (λ t. some (next t)) (write_other s (rd w) _ n)
step_other a b sub w s n = ap (λ t. some (next t)) (write_other s (rd w) _ n)
step_other a b sll w s n = ap (λ t. some (next t)) (write_other s (rd w) _ n)
step_other a b slt w s n = ap (λ t. some (next t)) (write_other s (rd w) _ n)
step_other a b sltu w s n = ap (λ t. some (next t)) (write_other s (rd w) _ n)
step_other a b xor w s n = ap (λ t. some (next t)) (write_other s (rd w) _ n)
step_other a b srl w s n = ap (λ t. some (next t)) (write_other s (rd w) _ n)
step_other a b sra w s n = ap (λ t. some (next t)) (write_other s (rd w) _ n)
step_other a b or w s n = ap (λ t. some (next t)) (write_other s (rd w) _ n)
step_other a b and w s n = ap (λ t. some (next t)) (write_other s (rd w) _ n)
step_other a b fence w s n = refl
step_other a b fencetso w s n = refl
step_other a b pause w s n = refl
step_other a b ecall w s n = refl
step_other a b ebreak w s n = refl

-- On a legal state register 0 reads as any other register does.
reg-x : {s : CpuState} → IsLegal s → (i : ℕ) → reg s i ≡ x s i
reg-x legal i = elim (ℕ_discrete i 0) [ yes e ↦ rw e legal.zero | no n ↦ ground arith ]

raw_step-step :
    (i : Instr) (w : ℕ) (s : CpuState) → IsLegal s → KeepsZero i w → raw_step i w s ≡ step i w s
raw_step-step i w s legal other =
    ap (λ t. step_with set_reg t (reg s (rs2 w)) i w s) (reg-x legal (rs1 w))
    ∙ ap (λ t. step_with set_reg (x s (rs1 w)) t i w s) (reg-x legal (rs2 w))
    ∙ step_other (x s (rs1 w)) (x s (rs2 w)) i w s other

-- On a word and a legal state, with the memory functions declared, the code built for a supported
-- instruction ends in the state after the instruction's step, or has no result where the step has
-- none.
pub generate_correct :
    (llvm : Llvm) (ir_data : IrData) (i : Instr) (w : ℕ) (s : CpuState)
    → IsWired ir_data
    → IsWord w
    → IsLegal s
    → IsSupported i w s
    → Implements llvm ir_data i w s
generate_correct llvm ir_data i w s wired fits legal (faithful, other) =
    rw (← raw_step-step i w s legal other)
      (generate_raw llvm ir_data i w s wired (record { fits = fits; valid = legal.valid }) faithful)

abbrev returned : Option CpuState → Option (Unit {0} × CpuState)
returned o = o >>= λ t. some (tt, t)

same_state : (o : Option CpuState) (s' : CpuState) → returned o ≡ some (tt, s') → o ≡ some s'
same_state none s' h = cc
same_state (some t) s' h = cc

-- On a word and a legal state, with the memory functions declared, the code built for a supported
-- instruction leaves the state legal: of its widths, with 0 in register 0.
pub generate-IsLegal :
    (llvm : Llvm) (ir_data : IrData) (i : Instr) (w : ℕ) (s s' : CpuState)
    → IsWired ir_data
    → IsWord w
    → IsLegal s
    → IsSupported i w s
    → exec llvm (generate i w ir_data) s ≡ some (tt, s')
    → IsLegal s'
generate-IsLegal llvm ir_data i w s s' wired fits legal supported runs =
    let implemented = generate_correct llvm ir_data i w s wired fits legal supported in
    step-IsLegal i w legal (same_state (step i w s) s' (sym implemented ∙ runs))
