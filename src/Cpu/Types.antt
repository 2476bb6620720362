-- ===== src/Cpu/Types.antt =====
-- src/CPU.cpp: the description of the processor state for LLVM.
use dbtranslator.Base.{List, [], ◌∷◌, Text}
use dbtranslator.Llvm.Types.{LlvmTypes, found_or}
use dbtranslator.Memory.Types.{get_memory_pointer_type}

abbrev pub cpu_state_name : Text
cpu_state_name = b'C' ∷ b'P' ∷ b'U' ∷ b'S' ∷ b't' ∷ b'a' ∷ b't' ∷ b'e' ∷ []

module _ (types : LlvmTypes) where
  abbrev pub cpu_state_body : types.LlvmType → List (types.LlvmType)
  cpu_state_body memory_ptr_ty = types.array types.int32 32 ∷ types.int32 ∷ memory_ptr_ty ∷ []

  unfoldable pub get_cpu_state_type : types.Context → types.LlvmType × types.Context
  get_cpu_state_type c = found_or types c (types.get_type_by_name c cpu_state_name) (
      let (cpu_struct_ty, c') = types.create c cpu_state_name in
      let (memory_ptr_ty, c'') = get_memory_pointer_type types c' in
      (cpu_struct_ty, types.set_body c'' cpu_struct_ty (cpu_state_body memory_ptr_ty)))

  unfoldable pub get_cpu_state_pointer_type : types.Context → types.LlvmType × types.Context
  get_cpu_state_pointer_type c =
      let (cpu_state_ty, c') = get_cpu_state_type c in (types.get_unqual cpu_state_ty, c')
