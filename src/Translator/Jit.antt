-- ===== src/Translator/Jit.antt =====
-- tests/Main.cpp: what the driver uses of LLVM's just-in-time compiler, as a parameter. A module is
-- optimised and added under its function's name, and a function is looked up and called.
pub mod Reference
use dbtranslator.Base.{Text, ℕ, List, ◌≡◌, ◌↔◌, ◌⊎◌, ◌≢◌, Option, some}
use dbtranslator.Cpu.{CpuState}
use dbtranslator.Llvm.Semantics.{Llvm}
use dbtranslator.Llvm.Builder.{Build, Callee, Value}
use dbtranslator.Llvm.Exec.{call_value, exec}
use dbtranslator.Translator.Name.{block_name}

-- What functions under the six names `read8` to `write32` do when they are called.
abbrev pub Functions : Type 0
Functions = Callee → List Value → CpuState → Option (Value × CpuState)

-- They do what the functions of src/Memory.cpp do, where those have a result.
abbrev pub Provides : Functions → Type 0
Provides functions =
    (f : Callee) (args : List Value) (s : CpuState) (r : Value × CpuState)
    → call_value f args s ≡ some r
    → functions f args s ≡ some r

-- `add_module` may fail. `call` looks a function up and runs it; `none` is undefined behaviour.
-- `functions` is what the six names are bound to: nothing, before a memory implementation is added.
-- Compiled code keeps the meaning of the code that it is compiled from, where that has one and its
-- calls are bound to functions that do what they are declared for. A new block changes no other
-- function. `defines` says which functions the state has.
pub record Jit (llvm : Llvm) : Type 1 where
  pub State : Type 0
  pub add_module : Text → Build (Unit {0}) → State → Option State
  pub call : Text → State → CpuState → Option CpuState
  pub functions : State → Functions
  pub defines : State → Text → Type 0
  pub names_added :
      (name other : Text) (b : Build (Unit {0})) (j j' : State)
      → add_module name b j ≡ some j'
      → defines j' other ↔ ((other ≡ name) ⊎ defines j other)
  pub call_added :
      (name : Text) (b : Build (Unit {0})) (j j' : State) (s s' : CpuState)
      → add_module name b j ≡ some j'
      → Provides (functions j)
      → exec llvm b s ≡ some (tt, s')
      → call name j' s ≡ some s'
  pub call_kept :
      (name other : Text) (b : Build (Unit {0})) (j j' : State) (s : CpuState)
      → add_module name b j ≡ some j'
      → other ≢ name
      → call other j' s ≡ call other j s
  pub functions_kept :
      (pc : ℕ) (b : Build (Unit {0})) (j j' : State)
      → add_module (block_name pc) b j ≡ some j'
      → functions j' ≡ functions j
