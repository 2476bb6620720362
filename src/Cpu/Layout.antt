-- ===== src/Cpu/Layout.antt =====
-- src/Memory.cpp and src/CPU.cpp: the structures that describe the processor state, once each.
use dbtranslator.Base.{ℕ, List, Option, none, [], ◌∷◌, get_elem?, ◌>>=◌, ◌≡◌, some, Text}
use dbtranslator.Llvm.Types.{LlvmTypes}
use dbtranslator.Llvm.Builder.{Value, cpu_at, regs_at, pc_at, manager_field_at}
use dbtranslator.Llvm.Exec.{field_ptr}
use dbtranslator.Llvm.Growth.{Defined}
use dbtranslator.Memory.Types.{segment_name, memory_name}
use dbtranslator.Cpu.Types.{cpu_state_name}

module _ (types : LlvmTypes) where
  -- The members of the C++ structures, with a pointer of LLVM for each pointer.
  abbrev pub segment_members : List (types.LlvmType)
  segment_members = types.get_unqual types.int8 ∷ types.int32 ∷ types.int32 ∷ []

  abbrev pub memory_members : types.LlvmType → List (types.LlvmType)
  memory_members seg = types.get_unqual (types.get_unqual seg) ∷ types.int32 ∷ []

  abbrev pub cpu_members : types.LlvmType → List (types.LlvmType)
  cpu_members mem = types.array types.int32 32 ∷ types.int32 ∷ types.get_unqual mem ∷ []

  -- What built code takes the fields of the processor state for.
  abbrev pub field_type : types.LlvmType → Value → Option (types.LlvmType)
  field_type mem regs_at = some (types.array types.int32 32)
  field_type mem pc_at = some (types.int32)
  field_type mem manager_field_at = some (types.get_unqual mem)
  field_type mem _ = none

  -- A structure of the program, with its elements and those that they refer to.
  abbrev pub SegmentAt : types.Context → types.LlvmType → Type 0
  SegmentAt c seg = Defined types c segment_name seg segment_members

  abbrev pub MemoryAt : types.Context → types.LlvmType → Type 0
  MemoryAt c mem =
      (seg : types.LlvmType) × SegmentAt c seg
      × Defined types c memory_name mem (memory_members seg)

  abbrev pub CpuAt : types.Context → types.LlvmType → Type 0
  CpuAt c t =
      (mem : types.LlvmType) × MemoryAt c mem × Defined types c cpu_state_name t (cpu_members mem)

  -- Whatever has one of the names is that structure. A context in which none is named is such.
  abbrev Laid : types.Context → Text → (types.LlvmType → Type 0) → Type 0
  Laid c n At = (t : types.LlvmType) → types.get_type_by_name c n ≡ some t → At t

  abbrev pub IsLaidOut : types.Context → Type 0
  IsLaidOut c =
      Laid c segment_name (SegmentAt c)
      × Laid c memory_name (MemoryAt c)
      × Laid c cpu_state_name (CpuAt c)

-- The structure that the state is described by has, at each field number, the element that built code
-- takes that field for, and no other elements.
abbrev pub HasFields : (types : LlvmTypes) → types.Context → types.LlvmType → Type 0
HasFields types c t =
    (mem : types.LlvmType) × (es : List (types.LlvmType)) × (types.get_type_by_name c memory_name
      ≡ some mem)
    × (types.elements c t ≡ some es)
    × ((i : ℕ) → get_elem? es i ≡ (field_ptr cpu_at i >>= λ p. field_type types mem p))
