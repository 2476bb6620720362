-- ===== src/Translator/Block/Correct.antt =====
-- A translated block does what the processor does from the block's first address to its end.
use dbtranslator.Base.{ℕ, zero, suc, ◌≡◌, refl, sym, ◌∙◌, true, false, Option, some}
use dbtranslator.Memory.{MemoryManager, read32}
use dbtranslator.Memory.Access.{read_bound}
use dbtranslator.Cpu.{CpuState}
use dbtranslator.Llvm.Semantics.{Llvm}
use dbtranslator.Llvm.Builder.{IrData, Build, done, ◌>>◌ as then_build}
use dbtranslator.Llvm.Exec.{exec, exec->>=}
use dbtranslator.Instruction.Kind.{Instr, jal, jalr, beq, bne, blt, bge, bltu, bgeu}
use dbtranslator.Instruction.Decode.{decode}
use dbtranslator.Instruction.Generate.{generate}
use dbtranslator.Instruction.Correct.Registers.{IsWired}
use dbtranslator.Instruction.Correct.Supported.{IsSupported, generate_correct}
use dbtranslator.Riscv.Step.{step}
use dbtranslator.Riscv.Invariant.{IsLegal}
use dbtranslator.Riscv.Preserve.{IsJump, step-IsLegal, step-pc}
use dbtranslator.Translator.Block.{add_memory_interface, ends_block, generate_func}
use dbtranslator.Translator.Block.Rounds.{translate, generate_func-translate}

-- Every word that reads in `code` reads the same in `m`.
abbrev pub Holds : MemoryManager → MemoryManager → Type 0
Holds code m = (a w : ℕ) → read32 code a ≡ some w → read32 m a ≡ some w

-- The processor runs from a state for at most the given number of supported instructions, up to
-- and including the first that transfers control, and the program stays in memory.
pub data Runs (code : MemoryManager) : ℕ → CpuState → CpuState → Type 0 where
  stop : (s : CpuState) → Runs code zero s s
  last :
      {n : ℕ} (w : ℕ) {s s' : CpuState}
      → Holds code s.manager
      → read32 code s.pc ≡ some w
      → IsSupported (decode w) w s
      → ends_block (decode w) ≡ true
      → step (decode w) w s ≡ some s'
      → Runs code (suc n) s s'
  more :
      {n : ℕ} (w : ℕ) {s t s' : CpuState}
      → Holds code s.manager
      → read32 code s.pc ≡ some w
      → IsSupported (decode w) w s
      → ends_block (decode w) ≡ false
      → step (decode w) w s ≡ some t
      → Runs code n t s'
      → Runs code (suc n) s s'

pub Runs-IsLegal :
    {code : MemoryManager} {n : ℕ} {s s' : CpuState} → Runs code n s s' → IsLegal s → IsLegal s'
Runs-IsLegal (stop s) legal = legal
Runs-IsLegal (last w h f u e r) legal = step-IsLegal (decode w) w legal r
Runs-IsLegal (more w h f u e r rest) legal = Runs-IsLegal rest (step-IsLegal (decode w) w legal r)

ends_block-IsJump : (i : Instr) → ends_block i ≡ false → ¬ IsJump i
unfolding ends_block
ends_block-IsJump jal e = cc
ends_block-IsJump jalr e = cc
ends_block-IsJump beq e = cc
ends_block-IsJump bne e = cc
ends_block-IsJump blt e = cc
ends_block-IsJump bge e = cc
ends_block-IsJump bltu e = cc
ends_block-IsJump bgeu e = cc
ends_block-IsJump _ e = λ j. j

module _ (llvm : Llvm) (ir_data : IrData) (wired : IsWired ir_data) where
  instruction_runs :
      {w : ℕ} {s s' : CpuState}
      → IsLegal s
      → read32 s.manager s.pc ≡ some w
      → IsSupported (decode w) w s
      → step (decode w) w s ≡ some s'
      → exec llvm (generate (decode w) w ir_data) s ≡ some (tt, s')
  instruction_runs {w} {s} legal fetched supported steps =
      let fits = (read_bound s.manager s.pc w legal.valid.memory).2 fetched in
      generate_correct llvm ir_data (decode w) w s wired fits legal supported ∙ rw steps

  -- The block is translated from memory that holds the program, and its code run on the state at
  -- its first address ends in the state that the processor reaches.
  pub translate_correct :
      {code : MemoryManager} {n : ℕ} {s s' : CpuState} (m : MemoryManager)
      → Holds code m
      → Runs code n s s'
      → IsLegal s
      → (b : Build (Unit {0})) × (translate n m s.pc ir_data ≡ some b)
        × (exec llvm b s ≡ some (tt, s'))
  unfolding translate exec
  translate_correct m holds (stop s) legal = (done tt, refl, refl)
  translate_correct {s} m holds (last w kept fetch supported ends steps) legal = (
    generate (decode w) w ir_data,
    rw (holds s.pc w fetch, ends),
    instruction_runs legal (kept s.pc w fetch) supported steps,
  )
  translate_correct {s} m holds (more {n = n} w {t = t} kept fetch supported ends steps rest)
        legal =
      let (later, built, runs) =
        translate_correct m holds rest (step-IsLegal (decode w) w legal steps) in
      let moved = step-pc (decode w) w s (ends_block-IsJump (decode w) ends) steps in
      (
        then_build (generate (decode w) w ir_data) later,
        rw (holds s.pc w fetch, ends, ← moved, built),
        exec->>= llvm (generate (decode w) w ir_data) (λ _. later) s
            ∙ rw (instruction_runs legal (kept s.pc w fetch) supported steps) runs,
      )

-- `generateFunc` on a legal state whose memory holds the program gives a block. Where the processor
-- runs from that state for at most as many supported instructions as the threshold allows, up to the
-- first that transfers control, the block, run on the state, ends where the processor does.
pub generate_func_correct :
    (llvm : Llvm) (code : MemoryManager) (threshold : ℕ) (s s' : CpuState)
    → IsLegal s
    → Holds code s.manager
    → Runs code threshold s s'
    → (b : Build (Unit {0})) × (generate_func s threshold ≡ some b)
      × (exec llvm b s ≡ some (tt, s'))
unfolding add_memory_interface
generate_func_correct llvm code threshold s s' legal holds runs =
    let (b, built, ends) = translate_correct llvm _ refl s.manager holds runs legal in
    (b, generate_func-translate s threshold ∙ built, ends)

pub same_block : {A : Type 0} (o : Option A) (b b' : A) → o ≡ some b → o ≡ some b' → b ≡ b'
same_block o b b' p q = cc

-- A block that is generated on a state whose memory holds the program, run on any legal state at the
-- same address, ends where the processor does after a run as long as the threshold allows.
pub generate_func_again :
    (llvm : Llvm) (code : MemoryManager) (threshold : ℕ) (s c c' : CpuState) (b : Build (Unit {0}))
    → Holds code s.manager
    → generate_func s threshold ≡ some b
    → c.pc ≡ s.pc
    → IsLegal c
    → Runs code threshold c c'
    → exec llvm b c ≡ some (tt, c')
unfolding add_memory_interface
generate_func_again llvm code threshold s c c' b holds built at legal runs =
    let (b', built', ends) = translate_correct llvm _ refl s.manager holds runs legal in
    let same =
      same_block _ b b' (sym (generate_func-translate s threshold) ∙ built) (rw (← at) built') in
    rw same ends
