-- ===== src/Translator/Session/Fresh.antt =====
-- tests/Main.cpp: the compiler is never given a function under a name that it has.
use dbtranslator.Base.{ℕ, ◌≢◌, ◌⊎◌, none, IsWord}
use dbtranslator.Llvm.Semantics.{Llvm}
use dbtranslator.Translator.Name.{block_name}
use dbtranslator.Translator.Block.Follow.{Follow}
use dbtranslator.Translator.Jit.{Jit}
use dbtranslator.Translator.Session.{BlockCache, find, Session}

module _ {llvm : Llvm} (jit : Jit llvm) where
  open jit use {State, add_module, call, defines, names_added}

  -- Every block that the compiler has, at a 32-bit address, is in the cache.
  abbrev pub IsCached : BlockCache → State → Type 0
  IsCached cache compiled =
      (pc : ℕ) → IsWord pc → defines compiled (block_name pc) → find pc cache ≢ none

  IsNamed : Session jit → Type 0
  IsNamed s = IsCached s.pc_to_func s.compiled

  -- The next block is in the cache, or its name is new to the compiler.
  abbrev pub IsFresh : Session jit → Type 0
  IsFresh s = (find s.cpu.pc s.pc_to_func ≢ none) ⊎ (¬ defines s.compiled (block_name s.cpu.pc))
