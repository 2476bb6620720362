-- ===== src/Translator/Setup/Start.antt =====
-- tests/Main.cpp: how `main` comes to its loop, and when it does not.
use dbtranslator.Base.{Text, ℕ, suc, ◌≡◌, ◌≢◌, refl, ap, inl, inr, Option, none, some, Option-cases}
use dbtranslator.Memory.{MemoryManager}
use dbtranslator.Llvm.Semantics.{Llvm}
use dbtranslator.Binary.{Elfio, Host, parse_elf}
use dbtranslator.Translator.Jit.{Jit}
use dbtranslator.Translator.Session.{ok, Session, main_loop}
use dbtranslator.Translator.Main.{first_session, run_main}
use dbtranslator.Translator.Setup.{
  OptionName, threshold, input_elf, memory_impl, Value, number, declared, flag, Argparse, Ending,
  aborted, of_outcome, or_exit, or_abort, and_then, get_text, get_number, Toolchain,
  optimize_module_simple, add_memory_impl, initialize_lljit, no_threshold, run_file, main,
}

module _ {llvm : Llvm} (jit : Jit llvm) (tools : Toolchain jit) (args : Argparse) (host : Host)
    (load : Text → Elfio) where
  open jit use {State}
  open tools use {Module, create, parse_ir_file, run_passes, add_ir_module}
  open args use {Argv, given, parse_args, text_kept, default_kept, required_given}

  -- The text of an option that is no flag.
  text_of :
      {argv : Argv} {values : OptionName → Value} (o : OptionName) {t : Text}
      → parse_args declared argv ≡ some values
      → declared o ≢ flag
      → given argv o ≡ some t
      → get_text (values o) ≡ some t
  unfolding get_text
  text_of {argv} {values} o {t} parsed plain at =
      rw (text_kept declared argv values o t parsed plain at)

  -- What a number of rounds come to, by what is given as the threshold.
  abbrev pub expected : Option Text → State → MemoryManager × ℕ → ℕ → Ending (Session jit)
  expected none compiled image n =
      of_outcome (main_loop jit n 64 (first_session jit compiled image))
  expected (some t) compiled image n = aborted

  pub run_main_loop :
      (compiled : State) (reader : Elfio) (limit n : ℕ) (image : MemoryManager × ℕ)
      → parse_elf host reader ≡ some image
      → run_main jit host reader compiled limit n
        ≡ main_loop jit n limit (first_session jit compiled image)
  unfolding run_main
  run_main_loop compiled reader limit n image loaded = rw (run_main, loaded)

  -- The set-up of the compiler.
  initialized :
      (memory_file : Text) (m : Module) (j compiled : State)
      → create ≡ some j
      → parse_ir_file memory_file ≡ some m
      → add_ir_module (run_passes m) j ≡ some compiled
      → initialize_lljit jit tools memory_file ≡ ok compiled
  unfolding initialize_lljit optimize_module_simple add_memory_impl
  initialized memory_file m j compiled made read added = rw (made, read, added)

  limit_of :
      {argv : Argv} {values : OptionName → Value} (compiled : State) (reader : Elfio) (n : ℕ)
      (image : MemoryManager × ℕ)
      → parse_args declared argv ≡ some values
      → parse_elf host reader ≡ some image
      → run_file jit tools host reader compiled (get_number (values threshold)) (suc n)
        ≡ expected (given argv threshold) compiled image (suc n)
  unfolding run_file no_threshold get_number declared
  limit_of {argv} {values} compiled reader n image parsed loaded =
      elim (Option-cases (given argv threshold)) [
        | inl absent ↦
            let limit =
              default_kept declared argv values threshold (number 64) parsed refl absent in
            rw (limit, absent)
              (ap of_outcome (run_main_loop compiled reader 64 (suc n) image loaded))
        | inr (t, there) ↦
            rw (text_kept declared argv values threshold t parsed (λ e. cc) there, there, loaded)
      ]

  -- Let the arguments be parsed, the compiler be made, the memory implementation be read and added,
  -- and the file be loaded. Then one or more rounds of `main` are those of its loop with the
  -- threshold 64 where no threshold is given; where one is given, whatever it is, the program ends by
  -- an exception that is not caught.
  pub main_started :
      (argv : Argv) (values : OptionName → Value) (memory_file elf_file : Text) (m : Module)
      (j compiled : State) (image : MemoryManager × ℕ) (n : ℕ)
      → parse_args declared argv ≡ some values
      → given argv memory_impl ≡ some memory_file
      → given argv input_elf ≡ some elf_file
      → create ≡ some j
      → parse_ir_file memory_file ≡ some m
      → add_ir_module (run_passes m) j ≡ some compiled
      → parse_elf host (load elf_file) ≡ some image
      → main jit tools args host load argv (suc n)
        ≡ expected (given argv threshold) compiled image (suc n)
  unfolding main or_exit or_abort and_then of_outcome declared
  main_started argv values memory_file elf_file m j compiled image n parsed memory_at elf_at made
        read added loaded =
      rw
        (
          parsed,
          text_of memory_impl parsed (λ e. cc) memory_at,
          initialized memory_file m j compiled made read added,
          text_of input_elf parsed (λ e. cc) elf_at,
        )
        (limit_of compiled (load elf_file) n image parsed loaded)
