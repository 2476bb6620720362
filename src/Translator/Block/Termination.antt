-- ===== src/Translator/Block/Termination.antt =====
-- tests/Main.cpp: the `while` loop of `generateFunc` ends.
use dbtranslator.Base.{
  ℕ, zero, suc, ◌+◌, ◌*◌, ◌%◌, ◌^◌, ◌<◌, ◌≤◌, ◌≡◌, refl, ◌⊎◌, inl, inr, true, false, none, ltb,
  ltb→lt, arith, add32, IsWord, if◌then◌else◌, Bool-cases, Option-cases,
}
use dbtranslator.Memory.{MemoryManager, read32}
use dbtranslator.Llvm.Builder.{IrData}
use dbtranslator.Instruction.Decode.{decode}
use dbtranslator.Translator.Block.{
  ends_block, Loop, LoopOutcome, ended, crashed, unfinished, loop_round, while_loop, first_loop,
}

-- How a loop that starts at `pc` comes out: it is left for one of its two reasons, with its address
-- four on for each instruction; or one of the words that the threshold allows cannot be fetched.
abbrev pub EndsWithin : ℕ → MemoryManager → ℕ → LoopOutcome → Type 0
EndsWithin threshold m pc (ended l) =
    (l.num_instrs ≤ threshold)
    × (l.temp_pc ≡ (pc + 4 * l.num_instrs) % 2 ^ 32)
    × ((l.continues ≡ false) ⊎ (l.num_instrs ≡ threshold))
EndsWithin threshold m pc crashed =
    (k : ℕ) × (k < threshold) × (read32 m ((pc + 4 * k) % 2 ^ 32) ≡ none)
EndsWithin threshold m pc unfinished = ⊥

module _ (threshold : ℕ) (m : MemoryManager) (ir_data : IrData) (pc : ℕ) where
  -- A loop within the threshold, at its address.
  IsWithin : Loop → Type 0
  IsWithin l = (l.num_instrs ≤ threshold) × (l.temp_pc ≡ (pc + 4 * l.num_instrs) % 2 ^ 32)

  loop_ends :
      (fuel : ℕ) (l : Loop)
      → IsWithin l
      → threshold < fuel + l.num_instrs
      → EndsWithin threshold m pc (while_loop fuel threshold m ir_data l)
  unfolding while_loop loop_round IsWithin add32
  loop_ends zero l (within, at) enough = omega (arith, within, enough)
  loop_ends (suc fuel) l (within, at) enough = elim (Bool-cases l.continues) [
    | inr left ↦ rw left (within, at, inl refl)
    | inl on ↦ elim (Bool-cases (ltb l.num_instrs threshold)) [
      | inr full ↦ rw (on, full) (within, at, inr (ground arith))
      | inl more ↦ elim (Option-cases (read32 m l.temp_pc)) [
        | inl missing ↦
            rw (on, more, missing)
              (l.num_instrs, ltb→lt l.num_instrs threshold more, rw (← at) missing)
        | inr (w, fetched) ↦
            let below = ltb→lt l.num_instrs threshold more in
            rw (on, more, fetched)
              (loop_ends fuel
                (record {
                  continues = if ends_block (decode w) then false else true;
                  temp_pc = (l.temp_pc + 4) % 2 ^ 32;
                  num_instrs = suc l.num_instrs;
                  built = _;
                })
                (omega (arith, below), omega (arith, at)) (omega (arith, enough)))
      ]
    ]
  ]

-- With more rounds than the threshold, the loop of `generateFunc` never runs out of them. It is left
-- because an instruction ended the block or because the threshold is reached, never past it, with
-- `TempPC` four on for each instruction, wrapping at 2 ^ 32; or it crashes, and then a word within
-- the threshold cannot be fetched.
pub while_loop_ends :
    (fuel threshold : ℕ) (m : MemoryManager) (ir_data : IrData) (pc : ℕ)
    → IsWord pc
    → threshold < fuel
    → EndsWithin threshold m pc (while_loop fuel threshold m ir_data (first_loop pc))
unfolding IsWithin
while_loop_ends fuel threshold m ir_data pc fits enough =
    loop_ends threshold m ir_data pc fuel (first_loop pc) (omega arith, omega arith) (omega arith)
