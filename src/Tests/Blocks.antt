-- ===== src/Tests/Blocks.antt =====
-- Whole blocks of the sample program, and single instructions, whatever they do.
use dbtranslator.Base.{zero, suc, ℕ, ◌≡◌, refl, some, List, [], ◌∷◌, ◌>>=◌, arith, add32}
use dbtranslator.Memory.{
  read32, map_address, map_loop, map_round, covers, deref, load_bytes, load_byte,
}
use dbtranslator.Cpu.{CpuState, IsValid}
use dbtranslator.Llvm.Builder.{
  IrData, Build, callee_read8, callee_read16, callee_read32, callee_write8, callee_write16,
  callee_write32,
}
use dbtranslator.Llvm.Exec.{exec}
use dbtranslator.Llvm.Reference.{reference}
use dbtranslator.Llvm.Typing.{IsTyped}
use dbtranslator.Llvm.Safety.{PoisonsShifts, ComesOut}
use dbtranslator.Llvm.Semantics.{shl, lshr, ashr}
use dbtranslator.Instruction.Kind.{sll, sh}
use dbtranslator.Instruction.Decode.{
  decode, dispatch, opcode, funct3, funct7, decode_immediate, decode_register, decode_branch,
}
use dbtranslator.Instruction.Generate.{generate}
use dbtranslator.Instruction.Correct.Exact.{built_step, generate_exact}
use dbtranslator.Instruction.Typed.{generate-IsTyped}
use dbtranslator.Translator.Block.{ends_block, generate_func, while_loop, first_loop}
use dbtranslator.Translator.Block.Exact.{block_words, run_words, generate_func_exact}
use dbtranslator.Translator.Block.Termination.{EndsWithin, while_loop_ends}
use dbtranslator.Translator.Block.Typed.{generate_func_safe}
use dbtranslator.Memory.Search.{IsUncovered}
use dbtranslator.Translator.Jit.Reference.{reference_jit, linked}
use dbtranslator.Translator.Session.{Session, fault, find, main_round}
use dbtranslator.Translator.Session.Fault.{main_round_unmapped}
use dbtranslator.Tests.Sample.{at, at-IsLegal, manager, text}

abbrev interface : IrData
interface = record {
  memory_functions =
      callee_read8 ∷ callee_read16 ∷ callee_read32 ∷ callee_write8 ∷ callee_write16 ∷ callee_write32
      ∷ [];
}

state-IsValid : IsValid (at 0x1000 40 7)
state-IsValid = (at-IsLegal 0x1000 40 7 (omega arith) (omega arith) (omega arith)).valid

-- sll x2, x2, x1 shifts by 40.
generate_exact_example :
    exec reference (generate sll 0x00111133 interface) (at 0x1000 40 7)
    ≡ (built_step sll 0x00111133 (at 0x1000 40 7) >>= λ s'. some (tt, s'))
generate_exact_example =
    generate_exact reference interface sll 0x00111133 (at 0x1000 40 7) refl
      (record { fits = (omega arith); valid = state-IsValid })

-- sh x2, 0(x1)
generate-IsTyped_example : IsTyped (generate sh 0x00209023 interface)
generate-IsTyped_example = generate-IsTyped interface sh 0x00209023 refl

abbrev sample_words : List ℕ
sample_words = 0x00500093 ∷ 0x00108133 ∷ 0x00000063 ∷ []

sample_words_read : block_words 64 manager 0x1000 ≡ some sample_words
unfolding read32 map_address map_loop map_round covers deref load_bytes load_byte decode dispatch
    opcode funct3 funct7 decode_immediate decode_register decode_branch ends_block add32
sample_words_read = refl

generate_func_exact_example :
    (b : Build (Unit {0})) × (generate_func (at 0x1000 40 7) 64 ≡ some b)
    × ((c : CpuState)
        → IsValid c
        → exec reference b c ≡ (run_words sample_words c >>= λ c'. some (tt, c')))
generate_func_exact_example =
    generate_func_exact reference 64 (at 0x1000 40 7) sample_words state-IsValid sample_words_read

while_loop_ends_example :
    EndsWithin 64 manager 0x1000 (while_loop 65 64 manager interface (first_loop 0x1000))
while_loop_ends_example = while_loop_ends 65 64 manager interface 0x1000 (omega arith) (omega arith)

a_block :
    (b : Build (Unit {0})) × (generate_func (at 0x1000 40 7) 64 ≡ some b)
    × ((c : CpuState)
        → IsValid c
        → exec reference b c ≡ (run_words sample_words c >>= λ c'. some (tt, c')))
a_block =
    generate_func_exact reference 64 (at 0x1000 40 7) sample_words state-IsValid sample_words_read

reference-PoisonsShifts : PoisonsShifts reference
reference-PoisonsShifts shl a b none_there = (tt, ground arith)
reference-PoisonsShifts lshr a b none_there = (tt, ground arith)
reference-PoisonsShifts ashr a b none_there = (tt, ground arith)
reference-PoisonsShifts _ a b none_there = cc

generate_func_safe_example : ComesOut reference a_block.0 (at 0x1008 1 2)
generate_func_safe_example =
    generate_func_safe reference (at 0x1000 40 7) (at 0x1008 1 2) 64 a_block.0
      reference-PoisonsShifts a_block.1 refl

-- A program that has returned to address 0.
abbrev returned : Session reference_jit
returned = record { cpu = at 0 40 7; pc_to_func = []; compiled = linked }

zero-IsUncovered : IsUncovered manager.segment_data 0
unfolding covers
zero-IsUncovered zero s at = let same : text ≡ s = cc in rw (← same)
zero-IsUncovered (suc j) s at = cc

main_round_unmapped_example : main_round reference_jit 64 returned ≡ fault
unfolding find
main_round_unmapped_example =
    main_round_unmapped reference_jit 63 returned
      (at-IsLegal 0 40 7 (omega arith) (omega arith) (omega arith)).valid zero-IsUncovered refl
