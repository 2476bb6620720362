-- ===== src/Tests/Translator.antt =====
-- The sample program, translated and run.
use dbtranslator.Base.{
  value, to_string, ℕ, ◌≡◌, ◌⊎◌, refl, some, [], ◌∷◌, ◌-◌, ◌^◌, set, replicate, arith, add32,
  sext32, inr,
}
use dbtranslator.Cpu.{CpuState}
use dbtranslator.Memory.{
  MemoryManager, read32, map_address, map_loop, map_round, covers, deref, load_bytes, load_byte,
}
use dbtranslator.Llvm.Builder.{Build}
use dbtranslator.Llvm.Exec.{exec}
use dbtranslator.Llvm.Reference.{reference}
use dbtranslator.Instruction.Decode.{
  decode, dispatch, opcode, funct3, funct7, decode_immediate, decode_register, decode_branch,
  decode_system,
}
use dbtranslator.Riscv.Fields.{imm_i, imm_b}
use dbtranslator.Riscv.Step.{step_with}
use dbtranslator.Translator.Block.{generate_func, ends_block}
use dbtranslator.Translator.Block.Correct.{Runs, last, more, generate_func_correct}
use dbtranslator.Translator.Jit.Reference.{reference_jit, linked, linked-Provides}
use dbtranslator.Translator.Block.Inert.{generate_func_inert}
use dbtranslator.Translator.Name.{drop_prefix, address-block_name, block_name}
use dbtranslator.Translator.Session.{Session, failed, main_loop, find}
use dbtranslator.Translator.Session.Served.{IsServed}
use dbtranslator.Translator.Session.Follows.{Advances}
use dbtranslator.Translator.Session.Correct.{main_loop_correct}
use dbtranslator.Translator.Block.Follow.{processor, finish, block}
use dbtranslator.Binary.{
  ElfSegment, Elfio, memcpy, load_segment, load_segments, stack_segment, parse_elf,
}
use dbtranslator.Tests.Sample.{zeroed_host, program, text, manager, at, at-IsLegal}

-- Three instructions, the last of which is a branch.
sample-Runs : Runs manager 64 (at 0x1000 0 0) (at 0x1008 5 10)
unfolding read32 map_address map_loop map_round covers deref load_bytes load_byte decode dispatch
    opcode funct3 funct7 decode_immediate decode_register decode_branch decode_system ends_block
    step_with add32 imm_i imm_b sext32
sample-Runs =
    more 0x00500093 (λ a w h. h) refl (tt, omega arith) refl refl
      (more 0x00108133 (λ a w h. h) refl (tt, omega arith) refl refl
        (last 0x00000063 (λ a w h. h) refl (tt, tt) refl refl))

generate_func_correct_example :
    (b : Build (Unit {0})) × (generate_func (at 0x1000 0 0) 64 ≡ some b)
    × (exec reference b (at 0x1000 0 0) ≡ some (tt, at 0x1008 5 10))
generate_func_correct_example =
    generate_func_correct reference manager 64 (at 0x1000 0 0) (at 0x1008 5 10)
      (at-IsLegal 0x1000 0 0 (omega arith) (omega arith) (omega arith)) (λ a w h. h) sample-Runs

-- A session before the first block.
abbrev fresh : Session reference_jit
fresh = record { cpu = at 0x1000 0 0; pc_to_func = []; compiled = linked }

fresh-IsServed :
    IsServed reference_jit (processor reference manager 64) fresh.pc_to_func fresh.compiled
unfolding find
fresh-IsServed = record { memory = linked-Provides; entry = λ pc name found. cc }

-- The branch jumps to itself, so that the second block is the third word.
branch-Runs : Runs manager 64 (at 0x1008 5 10) (at 0x1008 5 10)
unfolding read32 map_address map_loop map_round covers deref load_bytes load_byte decode dispatch
    opcode funct3 funct7 decode_immediate decode_register decode_branch decode_system ends_block
    step_with add32 imm_i imm_b sext32
branch-Runs = last 0x00000063 (λ a w h. h) refl (tt, tt) refl refl

main_loop_correct_example :
    (main_loop reference_jit 2 64 fresh ≡ failed)
    ⊎ Advances reference_jit
        (processor reference manager 64)
        (at 0x1008 5 10)
        (main_loop reference_jit 2 64 fresh)
main_loop_correct_example =
    main_loop_correct reference_jit manager 64 2 fresh (at 0x1008 5 10) fresh-IsServed
      (at-IsLegal 0x1000 0 0 (omega arith) (omega arith) (omega arith))
      (block (λ a w h. h) sample-Runs (block (λ a w h. h) branch-Runs (finish (at 0x1008 5 10))))

generate_func_inert_example :
    (b : Build (Unit {0})) × (generate_func (at 0x100C 0 0) 1 ≡ some b)
    × (exec reference b (at 0x100C 0 0) ≡ some (tt, at 0x100C 0 0))
unfolding read32 map_address map_loop map_round covers deref load_bytes load_byte decode dispatch
    opcode funct3 funct7 decode_system
generate_func_inert_example =
    generate_func_inert reference 1 (at 0x100C 0 0) (0x73, refl, inr refl, tt)

block_name_example :
    block_name 4096 ≡ b'b' ∷ b'l' ∷ b'o' ∷ b'c' ∷ b'k' ∷ b'_' ∷ b'4' ∷ b'0' ∷ b'9' ∷ b'6' ∷ []
unfolding block_name to_string
block_name_example = refl

-- The sample program as a file, and its memory.
abbrev pub code_segment : ElfSegment
code_segment = record {
  flags = 5;
  memory_size = 16;
  virtual_address = 0x1000;
  data_bytes = program;
}

abbrev pub file : Elfio
file = record { segments = code_segment ∷ []; entry = 0x1000 }

abbrev pub image : MemoryManager
image = record { segment_data = text ∷ stack_segment zeroed_host ∷ []; num_segments = 2 }

pub file_parses : parse_elf zeroed_host file ≡ some (image, 0x1000)
unfolding parse_elf load_segments load_segment memcpy
file_parses = refl

-- The state while the sample program runs from its image.
abbrev pub on_image : ℕ → ℕ → ℕ → CpuState
on_image pc one two = record {
  registers = set (set (replicate 32 0) 1 one) 2 two;
  pc = pc;
  manager = image;
}

pub image-Runs : Runs image 64 (on_image 0x1000 0 (2 ^ 32 - 16)) (on_image 0x1008 5 10)
unfolding read32 map_address map_loop map_round covers deref load_bytes load_byte decode dispatch
    opcode funct3 funct7 decode_immediate decode_register decode_branch decode_system ends_block
    step_with add32 imm_i imm_b sext32
image-Runs =
    more 0x00500093 (λ a w h. h) refl (tt, omega arith) refl refl
      (more 0x00108133 (λ a w h. h) refl (tt, omega arith) refl refl
        (last 0x00000063 (λ a w h. h) refl (tt, tt) refl refl))

address-block_name_example : value 0 (drop_prefix (block_name 0x1008)) ≡ 0x1008
address-block_name_example = address-block_name 0x1008 (omega arith)
