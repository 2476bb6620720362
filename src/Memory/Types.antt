-- ===== src/Memory/Types.antt =====
-- src/Memory.cpp: the descriptions of the memory manager's types for LLVM.
use dbtranslator.Base.{List, [], ◌∷◌, Text}
use dbtranslator.Llvm.Types.{LlvmTypes, found_or}

abbrev pub segment_name : Text
segment_name =
    b'S' ∷ b'e' ∷ b'g' ∷ b'm' ∷ b'e' ∷ b'n' ∷ b't' ∷ b'M' ∷ b'a' ∷ b'n' ∷ b'a' ∷ b'g' ∷ b'e' ∷ b'r'
    ∷ []

abbrev pub memory_name : Text
memory_name =
    b'M' ∷ b'e' ∷ b'm' ∷ b'o' ∷ b'r' ∷ b'y' ∷ b'M' ∷ b'a' ∷ b'n' ∷ b'a' ∷ b'g' ∷ b'e' ∷ b'r' ∷ []

module _ (types : LlvmTypes) where
  abbrev pub segment_body : List (types.LlvmType)
  segment_body = types.get_unqual types.int8 ∷ types.int32 ∷ types.int32 ∷ []

  unfoldable pub get_segment_type : types.Context → types.LlvmType × types.Context
  get_segment_type c = found_or types c (types.get_type_by_name c segment_name) (
      let (seg_ty, c') = types.create c segment_name in
      (seg_ty, types.set_body c' seg_ty segment_body))

  -- of a memory manager whose segments have the given type
  abbrev pub memory_body : types.LlvmType → List (types.LlvmType)
  memory_body seg_ty = types.get_unqual (types.get_unqual seg_ty) ∷ types.int32 ∷ []

  unfoldable pub get_memory_type : types.Context → types.LlvmType × types.Context
  unfolding get_segment_type
  get_memory_type c = found_or types c (types.get_type_by_name c memory_name) (
      let (mem_ty, c') = types.create c memory_name in
      let (seg_ty, c'') = get_segment_type c' in
      (mem_ty, types.set_body c'' mem_ty (memory_body seg_ty)))

  unfoldable pub get_memory_pointer_type : types.Context → types.LlvmType × types.Context
  get_memory_pointer_type c = let (mem_ty, c') = get_memory_type c in (types.get_unqual mem_ty, c')
