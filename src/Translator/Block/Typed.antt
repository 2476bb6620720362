-- ===== src/Translator/Block/Typed.antt =====
-- tests/Main.cpp: the types of the code of a block.
use mathlib.Core.Path.{subst}
use dbtranslator.Base.{
  ℕ, zero, suc, ◌≡◌, refl, ◌∙◌, sym, some, add32, inl, inr, >>=-eq-some, Bool-cases,
}
use dbtranslator.Memory.{MemoryManager, read32}
use dbtranslator.Cpu.{CpuState}
use dbtranslator.Llvm.Semantics.{Llvm}
use dbtranslator.Llvm.Builder.{IrData, Build, done, ◌>>◌ as then_build}
use dbtranslator.Llvm.Typing.{IsTyped, IsTyped->>=}
use dbtranslator.Llvm.Safety.{IsSized, PoisonsShifts, ComesOut, exec_safe}
use dbtranslator.Instruction.Decode.{decode}
use dbtranslator.Instruction.Generate.{generate}
use dbtranslator.Instruction.Typed.{generate-IsTyped}
use dbtranslator.Instruction.Correct.Registers.{IsWired}
use dbtranslator.Translator.Block.{add_memory_interface, no_interface, ends_block, generate_func}
use dbtranslator.Translator.Block.Rounds.{translate, generate_func-translate}

translate-IsTyped :
    (left : ℕ) (m : MemoryManager) (pc : ℕ) (ir_data : IrData) (b : Build (Unit {0}))
    → IsWired ir_data
    → translate left m pc ir_data ≡ some b
    → IsTyped b
unfolding translate
translate-IsTyped zero m pc ir_data b wired built =
    let empty : done tt ≡ b = cc in subst (λ b. IsTyped b) empty (unfold IsTyped in tt)
translate-IsTyped (suc left) m pc ir_data b wired built =
    let (w, fetched, rest) = >>=-eq-some (read32 m pc) _ built in
    let code = generate (decode w) w ir_data in
    let typed = generate-IsTyped ir_data (decode w) w wired in
    elim (Bool-cases (ends_block (decode w))) [
      | inl ends ↦
          let alone : some code ≡ some b = rw ends at rest in
          let only : code ≡ b = cc in subst (λ b. IsTyped b) only typed
      | inr stays ↦
          let (later, got, whole) =
            >>=-eq-some (translate left m (add32 pc 4) ir_data) _ (rw stays at rest) in
          let all : then_build code later ≡ b = cc in
          subst (λ b. IsTyped b) all
            (IsTyped->>= code (λ _. later) typed
              (λ _. translate-IsTyped left m (add32 pc 4) ir_data later wired got))
    ]

-- Every block that `generateFunc` gives is typed, whatever words it is made from.
pub generate_func-IsTyped :
    (s : CpuState) (threshold : ℕ) (b : Build (Unit {0}))
    → generate_func s threshold ≡ some b
    → IsTyped b
unfolding add_memory_interface
generate_func-IsTyped s threshold b built =
    translate-IsTyped threshold s.manager s.pc (add_memory_interface no_interface) b refl
      (sym (generate_func-translate s threshold) ∙ built)

-- Let no operation of LLVM but a shift by 32 or more be poison. A block that `generateFunc` gives, run
-- on any state with 32 registers, has a result, again with 32 registers; or it has none, and then the
-- instruction at which it stops is a shift of a word by 32 or more, or a call of a memory function
-- with arguments of its signature where that access has no result.
pub generate_func_safe :
    (llvm : Llvm) (s c : CpuState) (threshold : ℕ) (b : Build (Unit {0}))
    → PoisonsShifts llvm
    → generate_func s threshold ≡ some b
    → IsSized c
    → ComesOut llvm b c
generate_func_safe llvm s c threshold b poisons built sized =
    exec_safe llvm b c poisons (generate_func-IsTyped s threshold b built) sized
