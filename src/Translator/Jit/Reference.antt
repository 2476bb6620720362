-- ===== src/Translator/Jit/Reference.antt =====
-- The compiler's laws can be met: each function runs the code that it is compiled from.
use dbtranslator.Base.{
  List, [], ◌∷◌, ◌⊎◌, ◌↔◌, none, Text, same_text, same_text_self, same_text-eq, ◌≡◌, ◌≢◌, Option,
  some, ◌>>=◌, if◌then◌else◌, inl, inr, Bool-cases,
}
use dbtranslator.Cpu.{CpuState}
use dbtranslator.Llvm.Builder.{Build}
use dbtranslator.Llvm.Exec.{call_value, exec}
use dbtranslator.Llvm.Reference.{reference}
use dbtranslator.Translator.Name.{block_name}
use dbtranslator.Translator.Jit.{Functions, Provides, Jit}

abbrev pub IsAmong : Text → List Text → Type 0
IsAmong name [] = ⊥
IsAmong name (t ∷ names) = (name ≡ t) ⊎ IsAmong name names

-- The functions' names, what each does, and what the names of the memory interface are bound to.
pub record Compiled : Type 0 where
  pub names : List Text
  pub called : Text → CpuState → Option CpuState
  pub bound : Functions

-- No function at all, and the memory interface alone.
abbrev pub bare : Compiled
bare = record { names = []; called = λ name s. none; bound = λ f args s. none }

abbrev pub linked : Compiled
linked = record { names = []; called = λ name s. none; bound = call_value }

pub linked-Provides : Provides (linked.bound)
linked-Provides f args s r result = result

abbrev pub add_function : Text → Build (Unit {0}) → Compiled → Compiled
add_function name b compiled = record compiled {
  names = name ∷ compiled.names;
  called = λ other s.
      if same_text other name
      then (exec reference b s >>= λ (u, s'). some s')
      else compiled.called other s;
}

pub add_function_called :
    (name : Text) (b : Build (Unit {0})) (j j' : Compiled) (s s' : CpuState)
    → some (add_function name b j) ≡ some j'
    → Provides (j.bound)
    → exec reference b s ≡ some (tt, s')
    → j'.called name s ≡ some s'
add_function_called name b j j' s s' added bound runs =
    let same : add_function name b j ≡ j' = cc in rw (← same, same_text_self name, runs)

pub add_function_other :
    (name other : Text) (b : Build (Unit {0})) (j j' : Compiled) (s : CpuState)
    → some (add_function name b j) ≡ some j'
    → other ≢ name
    → j'.called other s ≡ j.called other s
add_function_other name other b j j' s added ne =
    let same : add_function name b j ≡ j' = cc in
    elim (Bool-cases (same_text other name)) [
      | inl yes_same ↦ absurd (ne (same_text-eq other name yes_same))
      | inr differs ↦ rw (← same, differs)
    ]

pub add_function_bound :
    (name : Text) (b : Build (Unit {0})) (j j' : Compiled)
    → some (add_function name b j) ≡ some j'
    → j'.bound ≡ j.bound
add_function_bound name b j j' added = let same : add_function name b j ≡ j' = cc in rw (← same)

pub add_function_names :
    (name other : Text) (b : Build (Unit {0})) (j j' : Compiled)
    → some (add_function name b j) ≡ some j'
    → IsAmong other (j'.names) ↔ ((other ≡ name) ⊎ IsAmong other (j.names))
add_function_names name other b j j' added =
    let same : add_function name b j ≡ j' = cc in rw (← same) (λ h. h, λ h. h)

abbrev pub reference_jit : Jit reference
reference_jit = record {
  State = Compiled;
  add_module = λ name b j. some (add_function name b j);
  call = λ name j s. j.called name s;
  functions = λ j. j.bound;
  defines = λ j name. IsAmong name j.names;
  names_added = add_function_names;
  call_added = add_function_called;
  call_kept = add_function_other;
  functions_kept = λ pc b j j' added. add_function_bound (block_name pc) b j j' added;
}
