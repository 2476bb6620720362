-- ===== src/Translator/Session/Correct.antt =====
-- The loop of tests/Main.cpp runs the guest program as the processor does.
use dbtranslator.Base.{ℕ, ◌≡◌, ◌⊎◌}
use dbtranslator.Memory.{MemoryManager}
use dbtranslator.Cpu.{CpuState}
use dbtranslator.Llvm.Semantics.{Llvm}
use dbtranslator.Riscv.Invariant.{IsLegal}
use dbtranslator.Translator.Block.Correct.{Holds, Runs}
use dbtranslator.Translator.Block.Follow.{processor, Execution}
use dbtranslator.Translator.Jit.{Jit}
use dbtranslator.Translator.Session.{failed, Session, main_round, main_loop}
use dbtranslator.Translator.Session.Served.{IsServed}
use dbtranslator.Translator.Session.Follows.{Advances, main_round_follows, main_loop_follows}

module _ {llvm : Llvm} (jit : Jit llvm) (code : MemoryManager) (threshold : ℕ) where
  -- One round of the driver's loop, from a served cache and a legal state whose memory holds the
  -- program, where the processor runs one block of supported instructions, either reports that the
  -- module was refused or goes on at the state that the processor reaches in one block, again with
  -- a served cache.
  main_round_correct :
      (s : Session jit) (cpu : CpuState)
      → IsServed jit (processor llvm code threshold) s.pc_to_func s.compiled
      → IsLegal s.cpu
      → Holds code s.cpu.manager
      → Runs code threshold s.cpu cpu
      → (main_round jit threshold s ≡ failed)
        ⊎ Advances jit (processor llvm code threshold) cpu (main_round jit threshold s)
  main_round_correct s cpu served legal holds runs =
      main_round_follows jit (processor llvm code threshold) s cpu served legal holds runs

  -- Where the compiler's memory functions do what those of src/Memory.cpp do, every cached function
  -- serves its address and the state is legal, the driver's loop follows the processor's execution of
  -- the program: after as many rounds as blocks it is at the state that the processor has reached,
  -- again with a served cache, or a module was refused on the way.
  pub main_loop_correct :
      (n : ℕ) (s : Session jit) (cpu : CpuState)
      → IsServed jit (processor llvm code threshold) s.pc_to_func s.compiled
      → IsLegal s.cpu
      → Execution (processor llvm code threshold) n s.cpu cpu
      → (main_loop jit n threshold s ≡ failed)
        ⊎ Advances jit (processor llvm code threshold) cpu (main_loop jit n threshold s)
  main_loop_correct n s cpu served legal run =
      main_loop_follows jit (processor llvm code threshold) n s cpu served legal run
