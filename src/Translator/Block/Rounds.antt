-- ===== src/Translator/Block/Rounds.antt =====
-- tests/Main.cpp: the `while` loop of `generateFunc`, as a recursion on the rounds that are left.
use dbtranslator.Base.{
  ℕ, zero, suc, ◌+◌, ◌≡◌, refl, ap, ◌∙◌, true, false, Option, none, some, arith, ◌>>=◌,
  if◌then◌else◌, add32, inl, inr, Bool-cases, Option-cases, ltb,
}
use dbtranslator.Memory.{MemoryManager, read32}
use dbtranslator.Cpu.{CpuState}
use dbtranslator.Llvm.Builder.{IrData, Build, done, ◌>>◌ as then_build, >>=-done, >>=-assoc}
use dbtranslator.Instruction.Decode.{decode}
use dbtranslator.Instruction.Generate.{generate}
use dbtranslator.Translator.Block.{
  add_memory_interface, no_interface, ends_block, Loop, loop_round, while_loop, block_of,
  first_loop, generate_func,
}

-- The code of a block with `left` rounds to the threshold; `none` is a fetch from memory that does
-- not exist.
unfoldable pub translate : ℕ → MemoryManager → ℕ → IrData → Option (Build (Unit {0}))
translate zero m pc ir_data = some (done tt)
translate (suc left) m pc ir_data = read32 m pc >>= λ word.
    let code = generate (decode word) word ir_data in
    let rest = translate left m (add32 pc 4) ir_data in
    if ends_block (decode word) then some code else (rest >>= λ later. some (then_build code later))

then_code :
    (built code : Build (Unit {0})) (rest : Option (Build (Unit {0})))
    → (rest >>= λ later. some (then_build (then_build built code) later)) ≡ (
        rest >>= (λ later. some (then_build code later)) >>= λ later. some (then_build built later))
then_code built code none = refl
then_code built code (some later) = ap some (>>=-assoc built (λ _. code) (λ _. later))

then_nothing :
    (b : Option (Build (Unit {0}))) → (b >>= λ later. some (then_build {0, 0} (done tt) later)) ≡ b
then_nothing none = refl
then_nothing (some b) = refl

module _ (threshold : ℕ) (m : MemoryManager) (ir_data : IrData) where
  while_loop-translate :
      (left : ℕ) (l : Loop)
      → l.continues ≡ true
      → left + l.num_instrs ≡ threshold
      → block_of (while_loop (suc left) threshold m ir_data l)
        ≡ (translate left m l.temp_pc ir_data >>= λ later. some (then_build l.built later))
  unfolding while_loop loop_round translate
  while_loop-translate zero l on full =
      let done_now : ltb l.num_instrs threshold ≡ false = ground arith in
      rw (on, done_now, >>=-done l.built)
  while_loop-translate (suc left) l on count =
      let more : ltb l.num_instrs threshold ≡ true = ground arith in
      elim (Option-cases (read32 m l.temp_pc)) [
        | inl missing ↦ rw (on, more, missing)
        | inr (w, fetched) ↦ elim (Bool-cases (ends_block (decode w))) [
          | inl ends ↦ rw (on, more, fetched, ends)
          | inr stays ↦
              let code = generate (decode w) w ir_data in
              let next : Loop = record {
                continues = true;
                temp_pc = add32 l.temp_pc 4;
                num_instrs = suc l.num_instrs;
                built = then_build l.built code;
              } in
              let later = while_loop-translate left next refl (omega (arith, count)) in
              rw (on, more, fetched, stays) (later ∙ then_code l.built code _)
        ]
      ]

-- The loop of `generateFunc` gives the code of that recursion.
pub generate_func-translate :
    (s : CpuState) (threshold : ℕ)
    → generate_func s threshold
      ≡ translate threshold s.manager s.pc (add_memory_interface no_interface)
unfolding generate_func
generate_func-translate s threshold =
    while_loop-translate threshold s.manager _ threshold (first_loop s.pc) refl (omega arith)
    ∙ then_nothing _
