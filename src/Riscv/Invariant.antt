-- ===== src/Riscv/Invariant.antt =====
-- What every RV32I step keeps: the widths of the state, and the zero in register 0.
use native.Mathlib.Decide.{ℕ_discrete}
use mathlib.Core.Path.{subst}
use native.Mathlib.Nat.{div-le_self}
use dbtranslator.Base.{
  ℕ, ◌%◌, ◌^◌, ◌≡◌, ◌∙◌, Option, some, arith, ◌==◌, >>=-eq-some, IsWord, add32, sra32, add32-IsWord,
  sub32-IsWord, Bool-cases, inl, inr, bit_or-lt, bit_xor-lt, bit_and-le,
}
use dbtranslator.Memory.{MemoryManager}
use dbtranslator.Memory.Valid.{IsValid as MemoryIsValid}
use dbtranslator.Cpu.{CpuState, IsValid, reg, set_reg, set_reg-IsValid, reg-IsWord, reg-set_reg_ne}
use dbtranslator.Instruction.Kind.{Instr, add, sub, sll, slt, sltu, xor, srl, sra, or, and}
use dbtranslator.Instruction.Fields.Meaning.{imm_i-IsWord}
use dbtranslator.Riscv.Fields.{imm_i, rd, imm_b}
use dbtranslator.Riscv.Step.{
  x, write_rd, next, jump, alu, taken, register_step, immediate_step, branch_step, load_step,
  store_step,
}

-- A well-formed state whose register 0 holds 0.
pub record IsLegal (s : CpuState) : Type 0 where
  pub valid : IsValid s
  pub zero : reg s 0 ≡ 0

sra32-IsWord : (a k : ℕ) → IsWord a → IsWord (sra32 a k)
unfolding sra32
sra32-IsWord a k h = ground (arith, div-le_self a (2 ^ k))

alu-IsWord : (i : Instr) (a b : ℕ) → IsWord a → IsWord b → IsWord (alu i a b)
unfolding alu
alu-IsWord add a b p q = add32-IsWord a b
alu-IsWord sub a b p q = sub32-IsWord a b
alu-IsWord sll a b p q = omega arith
alu-IsWord slt a b p q = ground arith
alu-IsWord sltu a b p q = ground arith
alu-IsWord xor a b p q = bit_xor-lt 32 a b p q
alu-IsWord srl a b p q = omega (arith, div-le_self a (2 ^ (b % 2 ^ 5)))
alu-IsWord sra a b p q = sra32-IsWord a (b % 2 ^ 5) p
alu-IsWord or a b p q = bit_or-lt 32 a b p q
alu-IsWord and a b p q = omega (arith, bit_and-le a a b (omega arith))
alu-IsWord _ a b p q = omega arith

module _ {s : CpuState} (legal : IsLegal s) where
  pub write_rd-IsLegal : (i v : ℕ) → IsWord v → IsLegal (write_rd s i v)
  write_rd-IsLegal i v h = elim (ℕ_discrete i 0) [
    | yes e ↦ rw e legal
    | no n ↦
        let kept : write_rd s i v ≡ set_reg s i v = ground arith in
        rw kept (record {
          valid = set_reg-IsValid legal.valid i v h;
          zero = reg-set_reg_ne s i 0 v n ∙ legal.zero;
        })
  ]

  pub jump-IsLegal : (target : ℕ) → IsWord target → IsLegal (jump s target)
  jump-IsLegal target h = record {
    valid = record {
      sized = legal.valid.sized;
      words = legal.valid.words;
      counter = h;
      memory = legal.valid.memory;
    };
    zero = legal.zero;
  }

  manager-IsLegal : (m : MemoryManager) → MemoryIsValid m → IsLegal (record s { manager = m })
  manager-IsLegal m h = record {
    valid = record {
      sized = legal.valid.sized;
      words = legal.valid.words;
      counter = legal.valid.counter;
      memory = h;
    };
    zero = legal.zero;
  }

pub x-IsWord : {s : CpuState} → IsLegal s → (i : ℕ) → IsWord (x s i)
x-IsWord {s} legal i = elim (Bool-cases (i == 0)) [
  | inl e ↦ rw e (omega arith)
  | inr e ↦ rw e (reg-IsWord legal.valid i)
]

-- What is kept by every change of a state that the steps make.
pub record IsClosed (P : CpuState → Type 0) (write : CpuState → ℕ → ℕ → CpuState) : Type 0 where
  pub valid : {s : CpuState} → P s → IsValid s
  pub written : {s : CpuState} → P s → (i v : ℕ) → IsWord v → P (write s i v)
  pub jumped : {s : CpuState} → P s → (target : ℕ) → IsWord target → P (jump s target)
  pub stored :
      {s : CpuState} → P s → (m : MemoryManager) → MemoryIsValid m → P (record s { manager = m })

-- The invariant of the processor, and that of a register file whose register 0 is written.
pub IsLegal-IsClosed : IsClosed IsLegal write_rd
IsLegal-IsClosed = record {
  valid = λ legal. legal.valid;
  written = λ legal i v h. write_rd-IsLegal legal i v h;
  jumped = λ legal target h. jump-IsLegal legal target h;
  stored = λ legal m h. manager-IsLegal legal m h;
}

pub IsValid-IsClosed : IsClosed IsValid set_reg
IsValid-IsClosed = record {
  valid = λ valid. valid;
  written = λ valid i v h. set_reg-IsValid valid i v h;
  jumped = λ valid target h. record {
    sized = valid.sized;
    words = valid.words;
    counter = h;
    memory = valid.memory;
  };
  stored = λ valid m h. record {
    sized = valid.sized;
    words = valid.words;
    counter = valid.counter;
    memory = h;
  };
}

-- The states after the steps of each format.
module _ {P : CpuState → Type 0} {write : CpuState → ℕ → ℕ → CpuState} (closed : IsClosed P write)
    {s : CpuState} (holds : P s) (w a b : ℕ) (a_fits : IsWord a) (b_fits : IsWord b) where
  pub done_next : {s' t : CpuState} → P t → some (next t) ≡ some s' → P s'
  done_next {t = t} l e = subst P (cc) (closed.jumped l (add32 t.pc 4) (add32-IsWord t.pc 4))

  pub done_jump :
      (target : ℕ) {s' t : CpuState} → P t → IsWord target → some (jump t target) ≡ some s' → P s'
  done_jump target l h e = subst P (cc) (closed.jumped l target h)

  pub register_step-keeps :
      (i : Instr) {s' : CpuState} → register_step write a b i w s ≡ some s' → P s'
  unfolding register_step
  register_step-keeps i e =
      done_next (closed.written holds (rd w) _ (alu-IsWord i a b a_fits b_fits)) e

  pub immediate_step-keeps :
      (i : Instr) {s' : CpuState} → immediate_step write a b i w s ≡ some s' → P s'
  unfolding immediate_step
  immediate_step-keeps i e =
      done_next (closed.written holds (rd w) _ (alu-IsWord i a (imm_i w) a_fits (imm_i-IsWord w))) e

  pub branch_step-keeps : (i : Instr) {s' : CpuState} → branch_step i a b w s ≡ some s' → P s'
  unfolding branch_step
  branch_step-keeps i e = elim (Bool-cases (taken i a b)) [
    | inl t ↦ done_jump _ holds (add32-IsWord s.pc (imm_b w)) (rw t at e)
    | inr t ↦ done_jump _ holds (add32-IsWord s.pc 4) (rw t at e)
  ]

  pub load_step-keeps :
      (extend : ℕ → ℕ) (loaded : Option ℕ) {s' : CpuState}
      → ((v : ℕ) → loaded ≡ some v → IsWord (extend v))
      → load_step write a b extend loaded w s ≡ some s'
      → P s'
  unfolding load_step
  load_step-keeps extend loaded fits e =
      let (v, at, result) = >>=-eq-some loaded _ e in
      done_next (closed.written holds (rd w) (extend v) (fits v at)) result

  pub store_step-keeps :
      (stored : Option MemoryManager) {s' : CpuState}
      → ((m : MemoryManager) → stored ≡ some m → MemoryIsValid m)
      → store_step stored s ≡ some s'
      → P s'
  unfolding store_step
  store_step-keeps stored kept e =
      let (m, at, result) = >>=-eq-some stored _ e in
      done_next (closed.stored holds m (kept m at)) result
