-- ===== src/Tests/Exact.antt =====
-- A program that writes to register 0, loaded and run.
use dbtranslator.Base.{ℕ, ◌-◌, ◌^◌, List, [], ◌∷◌, set, replicate}
use dbtranslator.Memory.{SegmentManager, MemoryManager}
use dbtranslator.Cpu.{CpuState}
use dbtranslator.Binary.{Elfio, stack_segment}
use dbtranslator.Tests.Sample.{zeroed_host}

-- addi x0, x0, 5; beq x0, x0, 0
abbrev two_words : List ℕ
two_words = 0x13 ∷ 0x00 ∷ 0x50 ∷ 0x00 ∷ 0x63 ∷ 0x00 ∷ 0x00 ∷ 0x00 ∷ []

abbrev file : Elfio
file = record {
  segments =
      record { flags = 5; memory_size = 8; virtual_address = 0x1000; data_bytes = two_words } ∷ [];
  entry = 0x1000;
}

abbrev code : SegmentManager
code = record { memory = two_words; memory_size = 8; guest_address = 0x1000 }

abbrev image : MemoryManager
image = record { segment_data = code ∷ stack_segment zeroed_host ∷ []; num_segments = 2 }

-- The state at the branch, with 5 in register 0.
abbrev at_branch : CpuState
at_branch = record {
  registers = set (set (replicate 32 0) 2 (2 ^ 32 - 16)) 0 5;
  pc = 0x1004;
  manager = image;
}
