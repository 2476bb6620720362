-- ===== src/Riscv/Preserve.antt =====
-- Every RV32I step leads from a legal state to a legal one, and a step that does not transfer
-- control moves to the next word.
use dbtranslator.Base.{
  IsWord, ◌<◌, ℕ, ◌%◌, ◌^◌, ◌≡◌, some, arith, ◌==◌, Bool-cases, inl, inr, >>=-eq-some, add32,
  add32-IsWord, sext32,
}
use dbtranslator.Memory.{read8, read16, read32, write8, write16, write32}
use dbtranslator.Memory.Access.{read_bound, write-IsValid}
use dbtranslator.Cpu.{CpuState}
use dbtranslator.Instruction.Kind.{
  Instr, unknown, lui, auipc, jal, jalr, beq, bne, blt, bge, bltu, bgeu, lb, lh, lw, lbu, lhu, sb,
  sh, sw, addi, slti, sltiu, xori, ori, andi, slli, srli, srai, add, sub, sll, slt, sltu, xor, srl,
  sra, or, and, fence, fencetso, pause, ecall, ebreak,
}
use dbtranslator.Instruction.Fields.Meaning.{imm_u-IsWord, sext32-IsWord}
use dbtranslator.Riscv.Fields.{rd, rs1, rs2, imm_i, imm_u}
use dbtranslator.Riscv.Step.{
  raw_step, step_with, x, write_rd, next, register_step, immediate_step, load_address,
  store_address, load_step, store_step, step,
}
use dbtranslator.Riscv.Invariant.{
  IsLegal, IsClosed, IsLegal-IsClosed, IsValid-IsClosed, x-IsWord, done_next, done_jump,
  register_step-keeps, immediate_step-keeps, branch_step-keeps, load_step-keeps, store_step-keeps,
}
use dbtranslator.Memory.{MemoryManager}
use dbtranslator.Memory.Valid.{IsValid as MemoryIsValid}
use dbtranslator.Cpu.{IsValid, reg, reg-IsWord}

-- The steps keep what their changes of the state keep.
module _ {P : CpuState → Type 0} {write : CpuState → ℕ → ℕ → CpuState} (closed : IsClosed P write)
    (w a b : ℕ) (a_fits : IsWord a) (b_fits : IsWord b) {s : CpuState} (holds : P s) where
  bound :
      (addr v : ℕ)
      → (read8 s.manager addr ≡ some v → v < 2 ^ 8)
        × (read16 s.manager addr ≡ some v → v < 2 ^ 16)
        × (read32 s.manager addr ≡ some v → v < 2 ^ 32)
  bound addr v = read_bound s.manager addr v (closed.valid holds).memory

  kept :
      (addr v : ℕ) (m : MemoryManager)
      → (write8 s.manager addr v ≡ some m → MemoryIsValid m)
        × (write16 s.manager addr v ≡ some m → MemoryIsValid m)
        × (write32 s.manager addr v ≡ some m → MemoryIsValid m)
  kept addr v m = write-IsValid s.manager addr v m (closed.valid holds).memory

  pub step_with-keeps : (i : Instr) {s' : CpuState} → step_with write a b i w s ≡ some s' → P s'
  unfolding step_with
  step_with-keeps lui e =
      done_next closed holds w a b a_fits b_fits (closed.written holds (rd w) _ (imm_u-IsWord w)) e
  step_with-keeps auipc e =
      done_next closed holds w a b a_fits b_fits
        (closed.written holds (rd w) _ (add32-IsWord s.pc (imm_u w))) e
  step_with-keeps jal e =
      done_jump closed holds w a b a_fits b_fits _
        (closed.written holds (rd w) _ (add32-IsWord s.pc 4)) (add32-IsWord s.pc _) e
  step_with-keeps jalr e =
      done_jump closed holds w a b a_fits b_fits _
        (closed.written holds (rd w) _ (add32-IsWord s.pc 4))
        (omega (arith, add32-IsWord a (imm_i w))) e
  step_with-keeps beq e = branch_step-keeps closed holds w a b a_fits b_fits beq e
  step_with-keeps bne e = branch_step-keeps closed holds w a b a_fits b_fits bne e
  step_with-keeps blt e = branch_step-keeps closed holds w a b a_fits b_fits blt e
  step_with-keeps bge e = branch_step-keeps closed holds w a b a_fits b_fits bge e
  step_with-keeps bltu e = branch_step-keeps closed holds w a b a_fits b_fits bltu e
  step_with-keeps bgeu e = branch_step-keeps closed holds w a b a_fits b_fits bgeu e
  step_with-keeps lb e =
      load_step-keeps closed holds w a b a_fits b_fits (sext32 8)
        (read8 s.manager (load_address a w))
        (λ v at. sext32-IsWord 8 v (omega arith) ((bound (load_address a w) v).0 at) (omega arith))
        e
  step_with-keeps lh e =
      load_step-keeps closed holds w a b a_fits b_fits (sext32 16)
        (read16 s.manager (load_address a w))
        (λ v at. sext32-IsWord 16 v (omega arith) ((bound (load_address a w) v).1 at) (omega arith))
        e
  step_with-keeps lw e =
      load_step-keeps closed holds w a b a_fits b_fits (λ v. v)
        (read32 s.manager (load_address a w)) (λ v at. (bound (load_address a w) v).2 at) e
  step_with-keeps lbu e =
      load_step-keeps closed holds w a b a_fits b_fits (λ v. v) (read8 s.manager (load_address a w))
        (λ v at. omega (arith, (bound (load_address a w) v).0 at)) e
  step_with-keeps lhu e =
      load_step-keeps closed holds w a b a_fits b_fits (λ v. v)
        (read16 s.manager (load_address a w))
        (λ v at. omega (arith, (bound (load_address a w) v).1 at)) e
  step_with-keeps sb e =
      store_step-keeps closed holds w a b a_fits b_fits
        (write8 s.manager (store_address a w) (b % 2 ^ 8))
        (λ m at. (kept (store_address a w) (b % 2 ^ 8) m).0 at) e
  step_with-keeps sh e =
      store_step-keeps closed holds w a b a_fits b_fits
        (write16 s.manager (store_address a w) (b % 2 ^ 16))
        (λ m at. (kept (store_address a w) (b % 2 ^ 16) m).1 at) e
  step_with-keeps sw e =
      store_step-keeps closed holds w a b a_fits b_fits (write32 s.manager (store_address a w) b)
        (λ m at. (kept (store_address a w) b m).2 at) e
  step_with-keeps addi e = immediate_step-keeps closed holds w a b a_fits b_fits add e
  step_with-keeps slti e = immediate_step-keeps closed holds w a b a_fits b_fits slt e
  step_with-keeps sltiu e = immediate_step-keeps closed holds w a b a_fits b_fits sltu e
  step_with-keeps xori e = immediate_step-keeps closed holds w a b a_fits b_fits xor e
  step_with-keeps ori e = immediate_step-keeps closed holds w a b a_fits b_fits or e
  step_with-keeps andi e = immediate_step-keeps closed holds w a b a_fits b_fits and e
  step_with-keeps slli e = immediate_step-keeps closed holds w a b a_fits b_fits sll e
  step_with-keeps srli e = immediate_step-keeps closed holds w a b a_fits b_fits srl e
  step_with-keeps srai e = immediate_step-keeps closed holds w a b a_fits b_fits sra e
  step_with-keeps add e = register_step-keeps closed holds w a b a_fits b_fits add e
  step_with-keeps sub e = register_step-keeps closed holds w a b a_fits b_fits sub e
  step_with-keeps sll e = register_step-keeps closed holds w a b a_fits b_fits sll e
  step_with-keeps slt e = register_step-keeps closed holds w a b a_fits b_fits slt e
  step_with-keeps sltu e = register_step-keeps closed holds w a b a_fits b_fits sltu e
  step_with-keeps xor e = register_step-keeps closed holds w a b a_fits b_fits xor e
  step_with-keeps srl e = register_step-keeps closed holds w a b a_fits b_fits srl e
  step_with-keeps sra e = register_step-keeps closed holds w a b a_fits b_fits sra e
  step_with-keeps or e = register_step-keeps closed holds w a b a_fits b_fits or e
  step_with-keeps and e = register_step-keeps closed holds w a b a_fits b_fits and e
  step_with-keeps fence e = done_next closed holds w a b a_fits b_fits holds e
  step_with-keeps fencetso e = done_next closed holds w a b a_fits b_fits holds e
  step_with-keeps pause e = done_next closed holds w a b a_fits b_fits holds e
  step_with-keeps unknown e = cc
  step_with-keeps ecall e = cc
  step_with-keeps ebreak e = cc

-- A step from a legal state leads to a legal state.
pub step-IsLegal :
    (i : Instr) (w : ℕ) {s s' : CpuState} → IsLegal s → step i w s ≡ some s' → IsLegal s'
step-IsLegal i w {s} legal e =
    step_with-keeps IsLegal-IsClosed w (x s (rs1 w)) (x s (rs2 w)) (x-IsWord legal (rs1 w))
      (x-IsWord legal (rs2 w)) legal i e

pub raw_step-IsValid :
    (i : Instr) (w : ℕ) {s s' : CpuState} → IsValid s → raw_step i w s ≡ some s' → IsValid s'
raw_step-IsValid i w {s} valid e =
    step_with-keeps IsValid-IsClosed w (reg s (rs1 w)) (reg s (rs2 w)) (reg-IsWord valid (rs1 w))
      (reg-IsWord valid (rs2 w)) valid i e

-- The instructions that set the program counter themselves.
abbrev pub IsJump : Instr → Type 0
IsJump jal = Unit
IsJump jalr = Unit
IsJump beq = Unit
IsJump bne = Unit
IsJump blt = Unit
IsJump bge = Unit
IsJump bltu = Unit
IsJump bgeu = Unit
IsJump _ = ⊥

pc-write_rd : (s : CpuState) (i v : ℕ) → (write_rd s i v).pc ≡ s.pc
pc-write_rd s i v = elim (Bool-cases (i == 0)) [ inl e ↦ rw e | inr e ↦ rw e ]

pc_next :
    (s : CpuState) (i v : ℕ) {s' : CpuState}
    → some (next (write_rd s i v)) ≡ some s'
    → s'.pc ≡ add32 s.pc 4
pc_next s i v e = cc (pc-write_rd s i v)

-- Any other step moves to the next word.
pub step-pc :
    (i : Instr) (w : ℕ) (s : CpuState) {s' : CpuState}
    → ¬ IsJump i
    → step i w s ≡ some s'
    → s'.pc ≡ add32 s.pc 4
unfolding step_with register_step immediate_step load_step store_step
step-pc unknown w s n e = cc
step-pc lui w s n e = pc_next s (rd w) _ e
step-pc auipc w s n e = pc_next s (rd w) _ e
step-pc jal w s n e = absurd (n tt)
step-pc jalr w s n e = absurd (n tt)
step-pc beq w s n e = absurd (n tt)
step-pc bne w s n e = absurd (n tt)
step-pc blt w s n e = absurd (n tt)
step-pc bge w s n e = absurd (n tt)
step-pc bltu w s n e = absurd (n tt)
step-pc bgeu w s n e = absurd (n tt)
step-pc lb w s n e =
    let (v, _, result) = >>=-eq-some (read8 s.manager (load_address (x s (rs1 w)) w)) _ e in
    pc_next s (rd w) _ result
step-pc lh w s n e =
    let (v, _, result) = >>=-eq-some (read16 s.manager (load_address (x s (rs1 w)) w)) _ e in
    pc_next s (rd w) _ result
step-pc lw w s n e =
    let (v, _, result) = >>=-eq-some (read32 s.manager (load_address (x s (rs1 w)) w)) _ e in
    pc_next s (rd w) _ result
step-pc lbu w s n e =
    let (v, _, result) = >>=-eq-some (read8 s.manager (load_address (x s (rs1 w)) w)) _ e in
    pc_next s (rd w) _ result
step-pc lhu w s n e =
    let (v, _, result) = >>=-eq-some (read16 s.manager (load_address (x s (rs1 w)) w)) _ e in
    pc_next s (rd w) _ result
step-pc sb w s n e =
    let (m, _, result) =
      >>=-eq-some (write8 s.manager (store_address (x s (rs1 w)) w) (x s (rs2 w) % 2 ^ 8)) _ e in
    cc result
step-pc sh w s n e =
    let (m, _, result) =
      >>=-eq-some (write16 s.manager (store_address (x s (rs1 w)) w) (x s (rs2 w) % 2 ^ 16)) _ e in
    cc result
step-pc sw w s n e =
    let (m, _, result) =
      >>=-eq-some (write32 s.manager (store_address (x s (rs1 w)) w) (x s (rs2 w))) _ e in
    cc result
step-pc addi w s n e = pc_next s (rd w) _ e
step-pc slti w s n e = pc_next s (rd w) _ e
step-pc sltiu w s n e = pc_next s (rd w) _ e
step-pc xori w s n e = pc_next s (rd w) _ e
step-pc ori w s n e = pc_next s (rd w) _ e
step-pc andi w s n e = pc_next s (rd w) _ e
step-pc slli w s n e = pc_next s (rd w) _ e
step-pc srli w s n e = pc_next s (rd w) _ e
step-pc srai w s n e = pc_next s (rd w) _ e
step-pc add w s n e = pc_next s (rd w) _ e
step-pc sub w s n e = pc_next s (rd w) _ e
step-pc sll w s n e = pc_next s (rd w) _ e
step-pc slt w s n e = pc_next s (rd w) _ e
step-pc sltu w s n e = pc_next s (rd w) _ e
step-pc xor w s n e = pc_next s (rd w) _ e
step-pc srl w s n e = pc_next s (rd w) _ e
step-pc sra w s n e = pc_next s (rd w) _ e
step-pc or w s n e = pc_next s (rd w) _ e
step-pc and w s n e = pc_next s (rd w) _ e
step-pc fence w s n e = cc
step-pc fencetso w s n e = cc
step-pc pause w s n e = cc
step-pc ecall w s n e = cc
step-pc ebreak w s n e = cc
