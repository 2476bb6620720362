-- ===== src/Translator/Setup/Correct.antt =====
-- tests/Main.cpp: `main` from its arguments to what the guest program has done.
use dbtranslator.Base.{◌≡◌, ◌⊎◌}
use dbtranslator.Cpu.{CpuState}
use dbtranslator.Llvm.Semantics.{Llvm}
use dbtranslator.Translator.Jit.{Jit}
use dbtranslator.Translator.Session.{Session}
use dbtranslator.Translator.Block.Follow.{Follow}
use dbtranslator.Translator.Setup.{Ending, running, exit_failure}

-- The program has reported an error, or its loop is at the processor state.
abbrev pub Reaches : {llvm : Llvm} (jit : Jit llvm) → CpuState → Ending (Session jit) → Type 0
Reaches jit cpu ending =
    (ending ≡ exit_failure) ⊎ ((s : Session jit) × (ending ≡ running s) × (s.cpu ≡ cpu))
