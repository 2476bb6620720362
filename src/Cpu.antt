-- ===== src/Cpu.antt =====
-- include/dbtranslator/CPU.h: the guest processor's state, and access to its register file.
pub mod Dump
pub mod Types
pub mod Layout
use dbtranslator.Base.{
  ℕ, ◌<◌, ◌≡◌, ◌≢◌, Option, some, List, arith, get_elem?, get_or, set, length, All, ◌>>=◌, IsWord,
  length-set, All-set, All-get_or, get_elem?-eq-get_or, get_or-set_self, get_or-set_ne,
}
use dbtranslator.Memory.{MemoryManager}
use dbtranslator.Memory.Valid.{IsValid as MemoryIsValid}

-- `uint32_t Registers[32]` is a list; the one memory manager stands for the pointer to it.
pub record CpuState : Type 0 where
  pub registers : List ℕ
  pub pc : ℕ
  pub manager : MemoryManager

unfoldable pub read_register : CpuState → ℕ → Option ℕ
read_register s i = get_elem? s.registers i

unfoldable pub write_register : CpuState → ℕ → ℕ → Option CpuState
write_register s i v =
    get_elem? s.registers i >>= λ _. some (record s { registers = set s.registers i v })

-- The array has its size, and registers, counter and memory hold values of their widths.
pub record IsValid (s : CpuState) : Type 0 where
  pub sized : length s.registers ≡ 32
  pub words : All IsWord s.registers
  pub counter : IsWord s.pc
  pub memory : MemoryIsValid s.manager

-- The value of a register, and the state after it is set.
abbrev pub reg : CpuState → ℕ → ℕ
reg s i = get_or s.registers i 0

abbrev pub set_reg : CpuState → ℕ → ℕ → CpuState
set_reg s i v = record s { registers = set s.registers i v }

module _ {s : CpuState} (valid : IsValid s) where
  pub read_register-lt : (i : ℕ) → i < 32 → read_register s i ≡ some (reg s i)
  unfolding read_register
  read_register-lt i h = get_elem?-eq-get_or s.registers i 0 (omega (arith, valid.sized))

  pub write_register-lt : (i v : ℕ) → i < 32 → write_register s i v ≡ some (set_reg s i v)
  unfolding write_register
  write_register-lt i v h = rw (get_elem?-eq-get_or s.registers i 0 (omega (arith, valid.sized)))

  pub reg-IsWord : (i : ℕ) → IsWord (reg s i)
  reg-IsWord i = All-get_or IsWord s.registers i 0 (omega arith) valid.words

  pub set_reg-IsValid : (i v : ℕ) → IsWord v → IsValid (set_reg s i v)
  set_reg-IsValid i v w = record {
    sized = omega (arith, length-set {0} s.registers i v, valid.sized);
    words = All-set IsWord s.registers i v w valid.words;
    counter = valid.counter;
    memory = valid.memory;
  }

  pub reg-set_reg_self : (i v : ℕ) → i < 32 → reg (set_reg s i v) i ≡ v
  reg-set_reg_self i v h = get_or-set_self s.registers i v 0 (omega (arith, valid.sized))

pub reg-set_reg_ne : (s : CpuState) (i j v : ℕ) → i ≢ j → reg (set_reg s i v) j ≡ reg s j
reg-set_reg_ne s i j v h = get_or-set_ne s.registers i j v 0 h
