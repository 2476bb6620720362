-- ===== src/Translator/Block/Inert.antt =====
-- tests/Main.cpp: a block whose words are no instructions, or calls of the environment.
use dbtranslator.Base.{ℕ, zero, suc, ◌≡◌, refl, ◌∙◌, ◌⊎◌, inl, inr, false, some, add32}
use dbtranslator.Memory.{MemoryManager, read32}
use dbtranslator.Cpu.{CpuState}
use dbtranslator.Llvm.Semantics.{Llvm}
use dbtranslator.Llvm.Builder.{IrData, Build, done}
use dbtranslator.Llvm.Exec.{exec}
use dbtranslator.Instruction.Kind.{Instr, unknown, ecall}
use dbtranslator.Instruction.Decode.{decode}
use dbtranslator.Instruction.Build.System.{ecall_build_ir}
use dbtranslator.Instruction.Generate.{generate}
use dbtranslator.Translator.Block.{ends_block, generate_func}
use dbtranslator.Translator.Block.Rounds.{translate, generate_func-translate}

-- That many words from an address on are each unknown to `decode`, or an ecall.
abbrev pub IsInert : ℕ → MemoryManager → ℕ → Type 0
IsInert zero m pc = Unit
IsInert (suc n) m pc =
    (w : ℕ) × (read32 m pc ≡ some w)
    × ((decode w ≡ unknown) ⊎ (decode w ≡ ecall))
    × IsInert n m (add32 pc 4)

no_code :
    (i : Instr) (w : ℕ) (ir_data : IrData)
    → (i ≡ unknown) ⊎ (i ≡ ecall)
    → generate i w ir_data ≡ done tt
unfolding generate ecall_build_ir
no_code i w ir_data (inl e) = rw e
no_code i w ir_data (inr e) = rw e

goes_on : (i : Instr) → (i ≡ unknown) ⊎ (i ≡ ecall) → ends_block i ≡ false
unfolding ends_block
goes_on i (inl e) = rw e
goes_on i (inr e) = rw e

translate_inert :
    (n : ℕ) (m : MemoryManager) (pc : ℕ) (ir_data : IrData)
    → IsInert n m pc
    → translate n m pc ir_data ≡ some (done tt)
unfolding translate
translate_inert zero m pc ir_data inert = refl
translate_inert (suc n) m pc ir_data (w, fetch, kind, inert) = rw (
  fetch,
  goes_on (decode w) kind,
  no_code (decode w) w ir_data kind,
  translate_inert n m (add32 pc 4) ir_data inert,
)

-- Where as many words as the threshold allows, from the counter on, are each unknown or an ecall,
-- `generateFunc` gives a block that leaves the state as it is, the counter included.
pub generate_func_inert :
    (llvm : Llvm) (threshold : ℕ) (s : CpuState)
    → IsInert threshold s.manager s.pc
    → (b : Build (Unit {0})) × (generate_func s threshold ≡ some b) × (exec llvm b s ≡ some (tt, s))
unfolding exec
generate_func_inert llvm threshold s inert =
    let built = translate_inert threshold s.manager s.pc _ inert in
    (done tt, generate_func-translate s threshold ∙ built, refl)
