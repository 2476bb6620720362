-- ===== src/Llvm/Registry.antt =====
-- The laws of LLVM's named structures can be met: a registry of names.
use dbtranslator.Base.{
  ℕ, ◌≡◌, ◌≢◌, refl, ap, Bool, true, false, Option, none, some, List, Text, same_text,
  same_text_self, same_text-eq, if◌then◌else◌, Bool-cases, inl, inr,
}
use dbtranslator.Llvm.Types.{LlvmTypes}

pub data RegistryType : Type 0 where
  byte_type word_type : RegistryType
  array_type : RegistryType → ℕ → RegistryType
  pointer_type : RegistryType → RegistryType
  named_type : Text → RegistryType

record Registry : Type 0 where
  known : Text → Bool
  bodies : Text → Option (List RegistryType)

abbrev find_type : Registry → Text → Option RegistryType
find_type r n = if r.known n then some (named_type n) else none

abbrev add_type : Registry → Text → RegistryType × Registry
add_type r n =
    (named_type n, record r { known = λ (m : Text). if same_text m n then true else r.known m })

abbrev set_elements : Registry → RegistryType → List RegistryType → Registry
set_elements r (named_type n) b = record r {
  bodies = λ (m : Text). if same_text m n then some b else r.bodies m;
}
set_elements r _ b = r

abbrev elements_of : Registry → RegistryType → Option (List RegistryType)
elements_of r (named_type n) = r.bodies n
elements_of r _ = none

different : (m n : Text) → m ≢ n → same_text m n ≡ false
different m n apart = elim (Bool-cases (same_text m n)) [
  | inl same ↦ absurd (apart (same_text-eq m n same))
  | inr other ↦ other
]

add_type-elements :
    (r : Registry) (n : Text) (t : RegistryType) → elements_of (add_type r n).1 t ≡ elements_of r t
add_type-elements r n (named_type m) = refl
add_type-elements r n _ = refl

found_name :
    (r : Registry) (n : Text) (t : RegistryType) → find_type r n ≡ some t → named_type n ≡ t
found_name r n t found = elim (Bool-cases (r.known n)) [
  | inl there ↦ let same : some (named_type n) ≡ some t = rw there at found in cc
  | inr missing ↦ let nothing : none ≡ some t = rw missing at found in cc
]

set_elements-names :
    (r : Registry) (t : RegistryType) (b : List RegistryType) (n : Text)
    → find_type (set_elements r t b) n ≡ find_type r n
set_elements-names r (named_type m) b n = refl
set_elements-names r _ b n = refl

set_elements_self :
    (r : Registry) (n : Text) (b : List RegistryType)
    → elements_of (set_elements r (named_type n) b) (named_type n) ≡ some b
set_elements_self r n b = rw (same_text_self n)

set_elements-others :
    (r : Registry) (t u : RegistryType) (b : List RegistryType)
    → u ≢ t
    → elements_of (set_elements r t b) u ≡ elements_of r u
set_elements-others r (named_type n) (named_type m) b apart =
    rw (different m n (λ e. apart (ap named_type e)))
set_elements-others r (named_type n) _ b apart = refl
set_elements-others r _ u b apart = refl

pub registry_types : LlvmTypes
registry_types = record {
  Context = Registry;
  LlvmType = RegistryType;
  int8 = byte_type;
  int32 = word_type;
  array = array_type;
  get_unqual = pointer_type;
  get_type_by_name = find_type;
  create = add_type;
  set_body = set_elements;
  elements = elements_of;
  create_named = λ r n free. rw (same_text_self n);
  create_others = λ r n m free apart. rw (different m n apart);
  create_elements = λ r n m t free named. add_type-elements r n t;
  one_name = λ r n m t p q. let a = found_name r n t p in let b = found_name r m t q in cc;
  set_body_names = set_elements-names;
  set_body_self = λ r n t b named. rw (← (found_name r n t named)) (set_elements_self r n b);
  set_body_others = set_elements-others;
}

-- A context without named structures.
pub no_types : registry_types.Context
unfolding registry_types
no_types = record { known = λ (n : Text). false; bodies = λ (n : Text). none }

pub no_types-free : (n : Text) → registry_types.get_type_by_name no_types n ≡ none
unfolding registry_types no_types
no_types-free n = refl
