-- ===== src/Translator/Block/Exact.antt =====
-- tests/Main.cpp: what a translated block does, whatever its words are.
use mathlib.Core.Path.{subst}
use dbtranslator.Base.{
  ℕ, zero, suc, ◌≡◌, refl, ◌∙◌, Option, some, List, [], ◌∷◌, ◌>>=◌, IsWord, if◌then◌else◌, add32,
  inl, inr, Bool-cases, Option-cases, >>=-eq-some,
}
use dbtranslator.Memory.{MemoryManager, read32}
use dbtranslator.Memory.Valid.{IsValid as MemoryIsValid}
use dbtranslator.Memory.Access.{read_bound}
use dbtranslator.Cpu.{CpuState, IsValid}
use dbtranslator.Llvm.Semantics.{Llvm}
use dbtranslator.Llvm.Builder.{IrData, Build, done, ◌>>◌ as then_build}
use dbtranslator.Llvm.Exec.{exec, exec->>=}
use dbtranslator.Instruction.Decode.{decode}
use dbtranslator.Instruction.Generate.{generate}
use dbtranslator.Instruction.Correct.Registers.{IsWired}
use dbtranslator.Instruction.Correct.Exact.{built_step, built_step-IsValid, generate_exact}
use dbtranslator.Translator.Block.{add_memory_interface, no_interface, ends_block, generate_func}
use dbtranslator.Translator.Block.Correct.{Holds, same_block}
use dbtranslator.Translator.Block.Rounds.{translate, generate_func-translate}

-- The words of a block: from an address on, as many as are left, up to and including the first that
-- ends the block; `none` where one of them cannot be fetched.
abbrev pub block_words : ℕ → MemoryManager → ℕ → Option (List ℕ)
block_words zero m pc = some []
block_words (suc left) m pc = read32 m pc >>= λ w.
    let rest = block_words left m (add32 pc 4) in
    if ends_block (decode w) then some (w ∷ []) else (rest >>= λ ws. some (w ∷ ws))

-- The words' steps, one after the other. No fetch and no counter is compared: the code of a block is
-- straight-line code.
abbrev pub run_words : List ℕ → CpuState → Option CpuState
run_words [] c = some c
run_words (w ∷ ws) c = built_step (decode w) w c >>= λ c'. run_words ws c'

module _ (llvm : Llvm) (ir_data : IrData) (wired : IsWired ir_data) where
  -- The code of a word before the code of a list of words.
  word_runs :
      (w : ℕ) (ws : List ℕ) (later : Build (Unit {0})) (c : CpuState)
      → IsWord w
      → IsValid c
      → ((t : CpuState) → IsValid t → exec llvm later t ≡ (run_words ws t >>= λ c'. some (tt, c')))
      → exec llvm (then_build (generate (decode w) w ir_data) later) c
        ≡ (run_words (w ∷ ws) c >>= λ c'. some (tt, c'))
  word_runs w ws later c fits valid runs =
      let code = generate (decode w) w ir_data in
      let first =
        generate_exact llvm ir_data (decode w) w c wired (record { fits = fits; valid = valid }) in
      exec->>= llvm code (λ _. later) c ∙ elim (Option-cases (built_step (decode w) w c)) [
        | inl faults ↦ rw (first, faults)
        | inr (t, steps) ↦ rw (first, steps) (runs t (built_step-IsValid (decode w) w valid steps))
      ]

  -- The code of a block's last word.
  word_alone :
      (w : ℕ) (c : CpuState)
      → IsWord w
      → IsValid c
      → exec llvm (generate (decode w) w ir_data) c ≡ (run_words (w ∷ []) c >>= λ c'. some (tt, c'))
  word_alone w c fits valid =
      let first =
        generate_exact llvm ir_data (decode w) w c wired (record { fits = fits; valid = valid }) in
      elim (Option-cases (built_step (decode w) w c)) [
        | inl faults ↦ rw (first, faults)
        | inr (t, steps) ↦ rw (first, steps)
      ]

  translate_exact :
      (left : ℕ) (m : MemoryManager) (pc : ℕ) (ws : List ℕ)
      → MemoryIsValid m
      → block_words left m pc ≡ some ws
      → (b : Build (Unit {0})) × (translate left m pc ir_data ≡ some b)
        × ((c : CpuState) → IsValid c → exec llvm b c ≡ (run_words ws c >>= λ c'. some (tt, c')))
  unfolding translate exec
  translate_exact zero m pc ws valid words =
      let none_left : [] ≡ ws = cc in (done tt, refl, λ c h. rw (← none_left))
  translate_exact (suc left) m pc ws valid words =
      let (w, fetched, rest) = >>=-eq-some (read32 m pc) _ words in
      let fits = (read_bound m pc w valid).2 fetched in
      let code = generate (decode w) w ir_data in
      elim (Bool-cases (ends_block (decode w))) [
        | inl ends ↦
            let alone : some (w ∷ []) ≡ some ws = rw ends at rest in
            let only : (w ∷ []) ≡ ws = cc in
            (code, rw (fetched, ends), λ c h. rw (← only) (word_alone w c fits h))
        | inr stays ↦
            let (ws', those, whole) =
              >>=-eq-some (block_words left m (add32 pc 4)) _ (rw stays at rest) in
            let (later, built, runs) = translate_exact left m (add32 pc 4) ws' valid those in
            let all : (w ∷ ws') ≡ ws = cc in
            (
              then_build code later,
              rw (fetched, stays, built),
              λ c h. rw (← all) (word_runs w ws' later c fits h runs),
            )
      ]

-- Where the words that the threshold allows can be fetched, `generateFunc` gives a block, and that
-- block, run on any well-formed state, does the steps of those words one after the other, or has no
-- result where one of them has none.
pub generate_func_exact :
    (llvm : Llvm) (threshold : ℕ) (s : CpuState) (ws : List ℕ)
    → IsValid s
    → block_words threshold s.manager s.pc ≡ some ws
    → (b : Build (Unit {0})) × (generate_func s threshold ≡ some b)
      × ((c : CpuState) → IsValid c → exec llvm b c ≡ (run_words ws c >>= λ c'. some (tt, c')))
unfolding add_memory_interface
generate_func_exact llvm threshold s ws valid words =
    let (b, built, runs) =
      translate_exact llvm (add_memory_interface no_interface) refl threshold s.manager s.pc ws
        valid.memory words in
    (b, generate_func-translate s threshold ∙ built, runs)

-- What is fetched from the program is fetched from memory that holds it.
block_words-Holds :
    (left : ℕ) (code m : MemoryManager) (pc : ℕ) (ws : List ℕ)
    → Holds code m
    → block_words left code pc ≡ some ws
    → block_words left m pc ≡ some ws
block_words-Holds zero code m pc ws holds words = words
block_words-Holds (suc left) code m pc ws holds words =
    let (w, fetched, rest) = >>=-eq-some (read32 code pc) _ words in
    elim (Bool-cases (ends_block (decode w))) [
      | inl ends ↦
          let alone : some (w ∷ []) ≡ some ws = rw ends at rest in
          rw (holds pc w fetched, ends) alone
      | inr stays ↦
          let (ws', those, whole) =
            >>=-eq-some (block_words left code (add32 pc 4)) _ (rw stays at rest) in
          let others = block_words-Holds left code m (add32 pc 4) ws' holds those in
          rw (holds pc w fetched, stays, others) whole
    ]

run_words-IsValid :
    (ws : List ℕ) {c c' : CpuState} → IsValid c → run_words ws c ≡ some c' → IsValid c'
run_words-IsValid [] {c} {c'} valid e = let same : c ≡ c' = cc in subst IsValid same valid
run_words-IsValid (w ∷ ws) {c} valid e =
    let (t, steps, rest) = >>=-eq-some (built_step (decode w) w c) _ e in
    run_words-IsValid ws (built_step-IsValid (decode w) w valid steps) rest

-- The words of the program's block at the counter, run one after the other, lead from the one state
-- to the other.
abbrev pub IsRunOf : MemoryManager → ℕ → CpuState → CpuState → Type 0
IsRunOf code threshold c c' =
    (ws : List ℕ) × (block_words threshold code c.pc ≡ some ws) × (run_words ws c ≡ some c')

pub IsRunOf-IsValid :
    (code : MemoryManager) (threshold : ℕ) {c c' : CpuState}
    → IsRunOf code threshold c c'
    → IsValid c
    → IsValid c'
IsRunOf-IsValid code threshold (ws, words, runs) valid = run_words-IsValid ws valid runs

pub generate_func_words :
    (llvm : Llvm) (code : MemoryManager) (threshold : ℕ) (s s' : CpuState)
    → IsValid s
    → Holds code s.manager
    → IsRunOf code threshold s s'
    → (b : Build (Unit {0})) × (generate_func s threshold ≡ some b)
      × (exec llvm b s ≡ some (tt, s'))
generate_func_words llvm code threshold s s' valid holds (ws, words, runs) =
    let fetched = block_words-Holds threshold code s.manager s.pc ws holds words in
    let (b, built, does) = generate_func_exact llvm threshold s ws valid fetched in
    (b, built, does s valid ∙ rw runs)

pub generate_func_words_again :
    (llvm : Llvm) (code : MemoryManager) (threshold : ℕ) (s c c' : CpuState) (b : Build (Unit {0}))
    → IsValid s
    → Holds code s.manager
    → generate_func s threshold ≡ some b
    → c.pc ≡ s.pc
    → IsValid c
    → IsRunOf code threshold c c'
    → exec llvm b c ≡ some (tt, c')
generate_func_words_again llvm code threshold s c c' b valid holds built at valid'
      (ws, words, runs) =
    let fetched = block_words-Holds threshold code s.manager s.pc ws holds (rw (← at) words) in
    let (b', built', does) = generate_func_exact llvm threshold s ws valid fetched in
    let same = same_block _ b b' built built' in rw same (does c valid' ∙ rw runs)
