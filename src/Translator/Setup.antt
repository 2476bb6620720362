-- ===== src/Translator/Setup.antt =====
-- tests/Main.cpp: `main` from its arguments on, with `initializeLLJIT` and `optimizeModuleSimple`. The
-- parser of the arguments, the reader of ELF files and the compiler are parameters.
pub mod Start
pub mod Correct
pub mod Reference
use dbtranslator.Base.{List, Text, ℕ, zero, suc, ◌≡◌, ◌≢◌, Bool, Option, none, some}
use dbtranslator.Memory.{MemoryManager}
use dbtranslator.Llvm.Semantics.{Llvm}
use dbtranslator.Binary.{Elfio, Host, parse_elf}
use dbtranslator.Cpu.{CpuState}
use dbtranslator.Llvm.Builder.{Callee, Value as LlvmValue}
use dbtranslator.Translator.Jit.{Functions, Jit}
use dbtranslator.Translator.Session.{Outcome, ok, failed, fault, Session}
use dbtranslator.Translator.Main.{first_session, run_main}

pub data OptionName : Type 0 where
  debug threshold input_elf memory_impl : OptionName

-- What `std::any` holds of an option.
pub data Value : Type 0 where
  text : Text → Value
  number : ℕ → Value
  switch : Bool → Value

-- What `add_argument` is told of an option.
pub data Declaration : Type 0 where
  flag required : Declaration
  default_value : Value → Declaration

unfoldable pub declared : OptionName → Declaration
declared debug = flag
declared threshold = default_value (number 64)
declared input_elf = required
declared memory_impl = required

-- `std::any_cast<std::string>` and `std::any_cast<int>`, which throw on a value of another type.
unfoldable pub get_text : Value → Option Text
get_text (text t) = some t
get_text _ = none

unfoldable pub get_number : Value → Option ℕ
get_number (number n) = some n
get_number _ = none

-- argparse: `given` is what the command line has after an option, and `parse_args` gives the values
-- of the options or throws. What is given is kept as text, since no option has a `scan` or an
-- `action`; an option that is not given has its default, and a required one must be given.
pub record Argparse : Type 1 where
  pub Argv : Type 0
  pub given : Argv → OptionName → Option Text
  pub parse_args : (OptionName → Declaration) → Argv → Option (OptionName → Value)
  pub text_kept :
      (d : OptionName → Declaration) (argv : Argv) (values : OptionName → Value) (o : OptionName)
      (t : Text)
      → parse_args d argv ≡ some values
      → d o ≢ flag
      → given argv o ≡ some t
      → values o ≡ text t
  pub default_kept :
      (d : OptionName → Declaration) (argv : Argv) (values : OptionName → Value) (o : OptionName)
      (v : Value)
      → parse_args d argv ≡ some values
      → d o ≡ default_value v
      → given argv o ≡ none
      → values o ≡ v
  pub required_given :
      (d : OptionName → Declaration) (argv : Argv) (values : OptionName → Value) (o : OptionName)
      → parse_args d argv ≡ some values
      → d o ≡ required
      → given argv o ≢ none

-- How the program stands: its loop runs, it has ended with EXIT_FAILURE, an exception was not caught,
-- or its behaviour is undefined.
pub data Ending {ℓ} (A : Type ℓ) : Type ℓ where
  running : A → Ending A
  exit_failure aborted undefined : Ending A

unfoldable pub and_then : {A B : Type 0} → Ending A → (A → Ending B) → Ending B
and_then (running a) next = next a
and_then exit_failure next = exit_failure
and_then aborted next = aborted
and_then undefined next = undefined

-- The exception of `parse_args` is caught; those of `get` are not.
unfoldable pub or_exit : {A : Type 0} → Option A → Ending A
or_exit none = exit_failure
or_exit (some a) = running a

unfoldable pub or_abort : {A : Type 0} → Option A → Ending A
or_abort none = aborted
or_abort (some a) = running a

unfoldable pub of_outcome : {A : Type 0} → Outcome A → Ending A
of_outcome (ok a) = running a
of_outcome failed = exit_failure
of_outcome fault = undefined

-- LLVM's part of the set-up: `create` and `add_ir_module` may fail, `parse_ir_file` may give a null
-- pointer, and `run_passes` runs the four passes on every function of a module. `defined` is what the
-- functions under the names `read8` to `write32` of a module do. The passes keep what a function does
-- where it does something, and the names of a module that is added are bound to its functions.
pub record Toolchain {llvm : Llvm} (jit : Jit llvm) : Type 1 where
  pub Module : Type 0
  pub create : Option jit.State
  pub parse_ir_file : Text → Option Module
  pub run_passes : Module → Module
  pub add_ir_module : Module → jit.State → Option jit.State
  pub defined : Module → Functions
  pub passes_keep :
      (m : Module) (f : Callee) (args : List LlvmValue) (s : CpuState) (r : LlvmValue × CpuState)
      → defined m f args s ≡ some r
      → defined (run_passes m) f args s ≡ some r
  pub module_bound :
      (m : Module) (j j' : jit.State) → add_ir_module m j ≡ some j' → jit.functions j' ≡ defined m

module _ {llvm : Llvm} (jit : Jit llvm) (tools : Toolchain jit) where
  open jit use {State}
  open tools use {Module, create, parse_ir_file, run_passes, add_ir_module}

  -- `withModuleDo` passes the module on by reference, a null pointer too.
  unfoldable pub optimize_module_simple : Option Module → Outcome Module
  optimize_module_simple none = fault
  optimize_module_simple (some m) = ok (run_passes m)

  unfoldable pub add_memory_impl : Outcome Module → State → Outcome State
  add_memory_impl (ok m) compiled = elim (add_ir_module m compiled) [
    | none ↦ failed
    | some compiled' ↦ ok compiled'
  ]
  add_memory_impl failed compiled = failed
  add_memory_impl fault compiled = fault

  unfoldable pub initialize_lljit : Text → Outcome State
  initialize_lljit file_name = elim create [
    | none ↦ failed
    | some compiled ↦ add_memory_impl (optimize_module_simple (parse_ir_file file_name)) compiled
  ]

  -- `get<int>` throws in the first round, in which the cache is empty and the block is translated.
  unfoldable pub no_threshold : State → Option (MemoryManager × ℕ) → ℕ → Ending (Session jit)
  no_threshold compiled none n = undefined
  no_threshold compiled (some image) zero = running (first_session jit compiled image)
  no_threshold compiled (some image) (suc n) = aborted

  -- `main` from the file on, for that many rounds of its loop.
  unfoldable pub run_file : Host → Elfio → State → Option ℕ → ℕ → Ending (Session jit)
  run_file host reader compiled (some limit) n =
      of_outcome (run_main jit host reader compiled limit n)
  run_file host reader compiled none n = no_threshold compiled (parse_elf host reader) n

  module _ (args : Argparse) (host : Host) (load : Text → Elfio) where
    open args use {Argv, parse_args}

    unfoldable pub main : Argv → ℕ → Ending (Session jit)
    main argv n = and_then (or_exit (parse_args declared argv)) λ program.
        and_then (or_abort (get_text (program memory_impl))) λ file_name.
          and_then (of_outcome (initialize_lljit file_name)) λ compiled.
            and_then (or_abort (get_text (program input_elf)))
              λ elf_file. run_file host (load elf_file) compiled (get_number (program threshold)) n
