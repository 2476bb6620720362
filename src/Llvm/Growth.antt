-- ===== src/Llvm/Growth.antt =====
-- Named structures of LLVM: what making one leaves of the others.
use dbtranslator.Base.{◌≡◌, ◌≢◌, sym, ◌∙◌, none, some, List, Text}
use dbtranslator.Llvm.Types.{LlvmTypes}

module _ (types : LlvmTypes) where
  -- The name has a type with these elements.
  abbrev pub Defined : types.Context → Text → types.LlvmType → List (types.LlvmType) → Type 0
  Defined c n t b = (types.get_type_by_name c n ≡ some t) × (types.elements c t ≡ some b)

  -- Every named type keeps its name and its elements.
  abbrev pub Grows : types.Context → types.Context → Type 0
  Grows c c' =
      (n : Text) (t : types.LlvmType)
      → types.get_type_by_name c n ≡ some t
      → (types.get_type_by_name c' n ≡ some t) × (types.elements c' t ≡ types.elements c t)

  pub Defined-Grows :
      {c c' : types.Context} {n : Text} {t : types.LlvmType} {b : List (types.LlvmType)}
      → Grows c c'
      → Defined c n t b
      → Defined c' n t b
  Defined-Grows {n = n} {t = t} grows (named, body) =
      let (named', same) = grows n t named in (named', same ∙ body)

  -- A structure is made: its name is free, the types of its elements are made after it, and then it
  -- gets its elements.
  module _ (c : types.Context) (n : Text) (free : types.get_type_by_name c n ≡ none) where
    pub create-Grows : Grows c (types.create c n).1
    create-Grows m t named =
        let other : m ≢ n = λ e. let named' = rw e at named in cc in
        (types.create_others c n m free other ∙ named, types.create_elements c n m t free named)

    -- What is named in the grown context was there before, if it is not the new name.
    pub create-old :
        (m : Text) (t : types.LlvmType)
        → m ≢ n
        → types.get_type_by_name (types.create c n).1 m ≡ some t
        → types.get_type_by_name c m ≡ some t
    create-old m t other named = sym (types.create_others c n m free other) ∙ named

    module _ (c' : types.Context) (grows : Grows (types.create c n).1 c')
        (b : List (types.LlvmType)) where
      abbrev made : types.LlvmType
      made = (types.create c n).0

      still_named : types.get_type_by_name c' n ≡ some made
      still_named = (grows n made (types.create_named c n free)).0

      pub set_body-Defined : Defined (types.set_body c' made b) n made b
      set_body-Defined = (
        types.set_body_names c' made b n ∙ still_named,
        types.set_body_self c' n made b still_named,
      )

      pub set_body-others :
          (m : Text) (t : types.LlvmType) (b' : List (types.LlvmType))
          → m ≢ n
          → Defined c' m t b'
          → Defined (types.set_body c' made b) m t b'
      set_body-others m t b' other (named, body) =
          let apart : t ≢ made =
            λ e. other (types.one_name c' m n made (rw e at named) still_named) in
          (types.set_body_names c' made b m ∙ named, types.set_body_others c' made t b apart ∙ body)

      pub set_body-Grows : Grows c (types.set_body c' made b)
      set_body-Grows m t named =
          let other : m ≢ n = λ e. let named' = rw e at named in cc in
          let (named1, same1) = create-Grows m t named in
          let (named2, same2) = grows m t named1 in
          let apart : t ≢ made =
            λ e. other (types.one_name c' m n made (rw e at named2) still_named) in
          (
            types.set_body_names c' made b m ∙ named2,
            types.set_body_others c' made t b apart ∙ same2 ∙ same1,
          )
