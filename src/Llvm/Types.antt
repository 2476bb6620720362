-- ===== src/Llvm/Types.antt =====
-- LLVM's types, as src/Memory.cpp and src/CPU.cpp make them. The library is no part of the
-- repository: a context and its types are a parameter, with what LLVM documents of named structures
-- as laws.
use dbtranslator.Base.{ℕ, ◌≡◌, ◌≢◌, Option, none, some, List, Text}

pub record LlvmTypes : Type 1 where
  pub Context : Type 0
  pub LlvmType : Type 0
  -- `Type::getInt8Ty`, `Type::getInt32Ty`, `ArrayType::get` and `PointerType::getUnqual`
  pub int8 : LlvmType
  pub int32 : LlvmType
  pub array : LlvmType → ℕ → LlvmType
  pub get_unqual : LlvmType → LlvmType
  -- `StructType::getTypeByName`, `StructType::create`, `setBody` and `elements`
  pub get_type_by_name : Context → Text → Option LlvmType
  pub create : Context → Text → LlvmType × Context
  pub set_body : Context → LlvmType → List LlvmType → Context
  pub elements : Context → LlvmType → Option (List LlvmType)
  -- A name that is free names the created type; other names keep theirs, and no elements change.
  pub create_named :
      (c : Context) (n : Text)
      → get_type_by_name c n ≡ none
      → get_type_by_name (create c n).1 n ≡ some (create c n).0
  pub create_others :
      (c : Context) (n m : Text)
      → get_type_by_name c n ≡ none
      → m ≢ n
      → get_type_by_name (create c n).1 m ≡ get_type_by_name c m
  pub create_elements :
      (c : Context) (n m : Text) (t : LlvmType)
      → get_type_by_name c n ≡ none
      → get_type_by_name c m ≡ some t
      → elements (create c n).1 t ≡ elements c t
  -- A type has one name.
  pub one_name :
      (c : Context) (n m : Text) (t : LlvmType)
      → get_type_by_name c n ≡ some t
      → get_type_by_name c m ≡ some t
      → n ≡ m
  pub set_body_names :
      (c : Context) (t : LlvmType) (b : List LlvmType) (n : Text)
      → get_type_by_name (set_body c t b) n ≡ get_type_by_name c n
  pub set_body_self :
      (c : Context) (n : Text) (t : LlvmType) (b : List LlvmType)
      → get_type_by_name c n ≡ some t
      → elements (set_body c t b) t ≡ some b
  pub set_body_others :
      (c : Context) (t u : LlvmType) (b : List LlvmType)
      → u ≢ t
      → elements (set_body c t b) u ≡ elements c u

module _ (types : LlvmTypes) where
  -- What the search by name found, or else what is made.
  abbrev pub found_or :
      types.Context
      → Option (types.LlvmType)
      → types.LlvmType × types.Context
      → types.LlvmType × types.Context
  found_or c (some t) made = (t, c)
  found_or c none made = made
