-- ===== src/Translator/Block/Follow.antt =====
-- tests/Main.cpp: what the loop of `main` needs of the blocks that `generateFunc` gives: that they
-- follow some account of what a block does.
use dbtranslator.Base.{ℕ, zero, suc, ◌≡◌, some, IsWord}
use dbtranslator.Memory.{MemoryManager}
use dbtranslator.Cpu.{CpuState, IsValid}
use dbtranslator.Llvm.Semantics.{Llvm}
use dbtranslator.Llvm.Builder.{Build}
use dbtranslator.Llvm.Exec.{exec}
use dbtranslator.Riscv.Invariant.{IsLegal}
use dbtranslator.Translator.Block.{generate_func}
use dbtranslator.Translator.Block.Exact.{
  IsRunOf, IsRunOf-IsValid, generate_func_words, generate_func_words_again,
}
use dbtranslator.Translator.Block.Correct.{
  Holds, Runs, Runs-IsLegal, generate_func_correct, generate_func_again,
}

-- `Run` says where a block of the program, entered in a state that is `Ready`, ends. Blocks are
-- generated from states whose memory holds the program.
pub record Follow (llvm : Llvm) (code : MemoryManager) (threshold : ℕ) : Type 1 where
  pub Ready : CpuState → Type 0
  pub Run : CpuState → CpuState → Type 0
  pub counter : {s : CpuState} → Ready s → IsWord s.pc
  pub kept : {s s' : CpuState} → Run s s' → Ready s → Ready s'
  pub generated :
      (s s' : CpuState)
      → Ready s
      → Holds code s.manager
      → Run s s'
      → (b : Build (Unit {0})) × (generate_func s threshold ≡ some b)
        × (exec llvm b s ≡ some (tt, s'))
  pub again :
      (s c c' : CpuState) (b : Build (Unit {0}))
      → Ready s
      → Holds code s.manager
      → generate_func s threshold ≡ some b
      → c.pc ≡ s.pc
      → Ready c
      → Run c c'
      → exec llvm b c ≡ some (tt, c')

module _ (llvm : Llvm) (code : MemoryManager) (threshold : ℕ) where
  -- Blocks of supported instructions follow the processor.
  abbrev pub processor : Follow llvm code threshold
  processor = record {
    Ready = IsLegal;
    Run = λ c c'. Runs code threshold c c';
    counter = λ legal. legal.valid.counter;
    kept = λ runs legal. Runs-IsLegal runs legal;
    generated =
        λ s s' legal holds runs. generate_func_correct llvm code threshold s s' legal holds runs;
    again = λ s c c' b ready holds built at legal runs.
        generate_func_again llvm code threshold s c c' b holds built at legal runs;
  }

  -- Blocks of any words follow the steps of `built_step`.
  abbrev pub built_code : Follow llvm code threshold
  built_code = record {
    Ready = IsValid;
    Run = λ c c'. IsRunOf code threshold c c';
    counter = λ valid. valid.counter;
    kept = λ run valid. IsRunOf-IsValid code threshold run valid;
    generated =
        λ s s' valid holds run. generate_func_words llvm code threshold s s' valid holds run;
    again = λ s c c' b ready holds built at valid run.
        generate_func_words_again llvm code threshold s c c' b ready holds built at valid run;
  }

module _ {llvm : Llvm} {code : MemoryManager} {threshold : ℕ}
    (follow : Follow llvm code threshold) where
  -- The program runs for that many blocks.
  pub data Execution : ℕ → CpuState → CpuState → Type 0 where
    finish : (c : CpuState) → Execution zero c c
    block :
        {n : ℕ} {c d e : CpuState}
        → Holds code c.manager
        → follow.Run c d
        → Execution n d e
        → Execution (suc n) c e
