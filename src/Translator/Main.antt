-- ===== src/Translator/Main.antt =====
-- tests/Main.cpp: `main`, from the loaded file on.
use dbtranslator.Base.{ℕ, none, some, []}
use dbtranslator.Memory.{MemoryManager}
use dbtranslator.Llvm.Semantics.{Llvm}
use dbtranslator.Binary.{Elfio, Host, parse_elf, initial_state}
use dbtranslator.Translator.Jit.{Jit}
use dbtranslator.Translator.Session.{Outcome, fault, Session, main_loop}
use dbtranslator.Translator.Block.Follow.{Follow}

module _ {llvm : Llvm} (jit : Jit llvm) where
  open jit use {State, functions}

  -- The variables before the loop; the compiler has no block yet.
  abbrev pub first_session : State → MemoryManager × ℕ → Session jit
  first_session compiled image = record {
    cpu = initial_state image;
    pc_to_func = [];
    compiled = compiled;
  }

  -- `main` for that many rounds of its loop.
  unfoldable pub run_main : Host → Elfio → State → ℕ → ℕ → Outcome (Session jit)
  run_main host reader compiled threshold n = elim (parse_elf host reader) [
    | none ↦ fault
    | some image ↦ main_loop jit n threshold (first_session compiled image)
  ]
