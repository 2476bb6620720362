-- ===== src/Tests/Sample.antt =====
-- A guest program of four words, and the state in which it starts.
use dbtranslator.Base.{
  zero, suc, All, IsByte, length-replicate, ℕ, ◌^◌, ◌<◌, refl, List, [], ◌∷◌, arith, replicate, set,
}
use dbtranslator.Memory.{SegmentManager, MemoryManager}
use dbtranslator.Memory.Valid.{IsValid as MemoryIsValid}
use dbtranslator.Cpu.{CpuState}
use dbtranslator.Binary.{Host}
use dbtranslator.Riscv.Invariant.{IsLegal}

-- addi x1, x0, 5; add x2, x1, x1; beq x0, x0, 0; ecall
abbrev pub program : List ℕ
program =
    0x93 ∷ 0x00 ∷ 0x50 ∷ 0x00 ∷ 0x33 ∷ 0x81 ∷ 0x10 ∷ 0x00 ∷ 0x63 ∷ 0x00 ∷ 0x00 ∷ 0x00 ∷ 0x73 ∷ 0x00
    ∷ 0x00 ∷ 0x00 ∷ []

abbrev pub text : SegmentManager
text = record { memory = program; memory_size = 16; guest_address = 0x1000 }

abbrev pub manager : MemoryManager
manager = record { segment_data = text ∷ []; num_segments = 1 }

abbrev pub at : ℕ → ℕ → ℕ → CpuState
at pc one two = record {
  registers = set (set (replicate 32 0) 1 one) 2 two;
  pc = pc;
  manager = manager;
}

pub manager-IsValid : MemoryIsValid manager
manager-IsValid = record {
  counted = refl;
  segments = (record { sized = refl; bytes = (omega arith); placed = (omega arith) }, tt);
}

pub at-IsLegal :
    (pc one two : ℕ) → pc < 2 ^ 32 → one < 2 ^ 32 → two < 2 ^ 32 → IsLegal (at pc one two)
at-IsLegal pc one two p q r = record {
  valid = record { sized = refl; words = (omega arith); counter = p; memory = manager-IsValid };
  zero = refl;
}

pub zeros-bytes : (n : ℕ) → All IsByte (replicate n 0)
zeros-bytes zero = tt
zeros-bytes (suc n) = ((omega arith), zeros-bytes n)

-- New memory is zeroed.
abbrev pub zeroed_host : Host
zeroed_host = record {
  operator_new = λ n. replicate n 0;
  operator_new-length = λ n. length-replicate n 0;
  operator_new-bytes = zeros-bytes;
}
