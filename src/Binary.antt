-- ===== src/Binary.antt =====
-- src/Binary.cpp: `parseElf`; tests/Main.cpp: the state that `main` starts from.
pub mod Copy
pub mod Boot
pub mod Loaded
pub mod Image
use dbtranslator.Base.{
  ℕ, zero, suc, ◌+◌, ◌-◌, ◌%◌, ◌^◌, ◌≡◌, Bool, true, ◌||◌, Option, none, some, List, [], ◌∷◌, ◌++◌,
  ◌>>=◌, ◌==◌, if◌then◌else◌, length, set, replicate, All, IsByte,
}
use dbtranslator.Memory.{SegmentManager, MemoryManager}
use dbtranslator.Cpu.{CpuState}

-- What ELFIO gives of a segment, and of a file that it has loaded.
pub record ElfSegment : Type 0 where
  pub flags : ℕ
  pub memory_size : ℕ
  pub virtual_address : ℕ
  pub data_bytes : List ℕ

pub record Elfio : Type 0 where
  pub segments : List ElfSegment
  pub entry : ℕ

-- `operator new`: memory of the size asked for, with bytes of any value.
pub record Host : Type 0 where
  pub operator_new : ℕ → List ℕ
  pub operator_new-length : (n : ℕ) → length (operator_new n) ≡ n
  pub operator_new-bytes : (n : ℕ) → All IsByte (operator_new n)

-- `std::memcpy` of `n` bytes from an array to the start of another; `none` is an access outside one
-- of them.
unfoldable pub memcpy : ℕ → List ℕ → List ℕ → Option (List ℕ)
memcpy zero from to = some to
memcpy (suc n) (b ∷ from) (_ ∷ to) = memcpy n from to >>= λ copied. some (b ∷ copied)
memcpy (suc n) _ _ = none

-- `new SegmentManager()`
abbrev empty_segment : SegmentManager
empty_segment = record { memory = []; memory_size = 0; guest_address = 0 }

-- `ELFIO::PT_LOAD`
abbrev pub pt_load : ℕ
pt_load = 1

-- The body of the loop over the segments. The fields are `uint32_t`, the file's are 64-bit.
unfoldable pub load_segment : Host → ElfSegment → Option SegmentManager
unfolding memcpy
load_segment host from =
    let size = from.memory_size % 2 ^ 32 in
    let copied = memcpy size from.data_bytes (host.operator_new size) in
    if (from.flags == pt_load) || true
    then (copied >>= λ memory. some (record {
      memory = memory;
      memory_size = size;
      guest_address = from.virtual_address % 2 ^ 32;
    }))
    else some empty_segment

unfoldable pub load_segments : Host → List ElfSegment → Option (List SegmentManager)
load_segments host [] = some []
load_segments host (from ∷ rest) = do
  segment ← load_segment host from
  later ← load_segments host rest
  some (segment ∷ later)

-- The last segment, for the stack.
abbrev pub stack_size : ℕ
stack_size = 2 ^ 24

unfoldable pub stack_segment : Host → SegmentManager
stack_segment host = record {
  memory = host.operator_new stack_size;
  memory_size = stack_size;
  guest_address = 2 ^ 32 - 1 - stack_size;
}

unfoldable pub parse_elf : Host → Elfio → Option (MemoryManager × ℕ)
parse_elf host reader = load_segments host reader.segments >>= λ loaded. some (
  record {
    segment_data = loaded ++ (stack_segment host ∷ []);
    num_segments = (length reader.segments + 1) % 2 ^ 32;
  },
  reader.entry % 2 ^ 32,
)

-- `CPUState State{{}, EntryPoint, Manager}; State.Registers[2] = -16;`
unfoldable pub initial_state : MemoryManager × ℕ → CpuState
initial_state (manager, entry_point) = record {
  registers = set (replicate 32 0) 2 (2 ^ 32 - 16);
  pc = entry_point;
  manager = manager;
}
