-- ===== src/Translator/Block.antt =====
-- tests/Main.cpp: `addMemoryInterface`, and the loop of `generateFunc` that translates a block.
pub mod Termination
pub mod Rounds
pub mod Exact
pub mod Typed
pub mod Follow
pub mod Correct
pub mod Inert
use dbtranslator.Base.{
  ℕ, zero, suc, ltb, ◌&&◌, Bool, true, false, Option, none, some, [], ◌∷◌, ◌>>=◌, if◌then◌else◌,
  add32,
}
use dbtranslator.Memory.{MemoryManager, read32}
use dbtranslator.Cpu.{CpuState}
use dbtranslator.Llvm.Builder.{
  IrData, Build, done, callee_read8, callee_read16, callee_read32, callee_write8, callee_write16,
  callee_write32, ◌>>◌ as then_build,
}
use dbtranslator.Instruction.Kind.{Instr, jal, jalr, beq, bne, blt, bge, bltu, bgeu}
use dbtranslator.Instruction.Decode.{decode}
use dbtranslator.Instruction.Generate.{generate}

-- The six declarations, at the indices by which the bodies call them.
unfoldable pub add_memory_interface : IrData → IrData
add_memory_interface ir_data = record ir_data {
  memory_functions =
      callee_read8 ∷ callee_read16 ∷ callee_read32 ∷ callee_write8 ∷ callee_write16 ∷ callee_write32
      ∷ [];
}

-- The switch that sets `Continue` to false.
unfoldable pub ends_block : Instr → Bool
ends_block beq = true
ends_block bne = true
ends_block blt = true
ends_block bge = true
ends_block bltu = true
ends_block bgeu = true
ends_block jal = true
ends_block jalr = true
ends_block _ = false

-- The variables of the `while` loop, with the code that is built so far.
pub record Loop : Type 0 where
  pub continues : Bool
  pub temp_pc : ℕ
  pub num_instrs : ℕ
  pub built : Build (Unit {0})

-- The loop is left; it fetches from memory that does not exist; or the rounds that the recursion
-- counts run out.
pub data LoopOutcome : Type 0 where
  ended : Loop → LoopOutcome
  crashed unfinished : LoopOutcome

-- One round: fetch, decode, build, and the switch.
unfoldable pub loop_round : MemoryManager → IrData → Loop → Option Loop
loop_round m ir_data l = read32 m l.temp_pc >>= λ instruction_data.
    let current_instruction = decode instruction_data in
    some (record {
      continues = if ends_block current_instruction then false else l.continues;
      temp_pc = add32 l.temp_pc 4;
      num_instrs = suc l.num_instrs;
      built = then_build l.built (generate current_instruction instruction_data ir_data);
    })

abbrev pub after_round : Option Loop → (Loop → LoopOutcome) → LoopOutcome
after_round none rest = crashed
after_round (some l) rest = rest l

unfoldable pub while_loop : ℕ → ℕ → MemoryManager → IrData → Loop → LoopOutcome
while_loop zero threshold m ir_data l = unfinished
while_loop (suc fuel) threshold m ir_data l =
    let rest =
      after_round (loop_round m ir_data l) (λ l'. while_loop fuel threshold m ir_data l') in
    if l.continues && ltb l.num_instrs threshold then rest else ended l

-- The variables before the loop.
abbrev pub first_loop : ℕ → Loop
first_loop pc = record { continues = true; temp_pc = pc; num_instrs = 0; built = done tt }

-- `IRData_{M, B, F}`, with no functions yet.
abbrev pub no_interface : IrData
no_interface = record { memory_functions = [] }

abbrev pub block_of : LoopOutcome → Option (Build (Unit {0}))
block_of (ended l) = some l.built
block_of crashed = none
block_of unfinished = none

-- As many rounds as the threshold allows, and the test that ends the loop.
unfoldable pub generate_func : CpuState → ℕ → Option (Build (Unit {0}))
generate_func s threshold = block_of (
    while_loop (suc threshold) threshold s.manager (add_memory_interface no_interface)
      (first_loop s.pc))
