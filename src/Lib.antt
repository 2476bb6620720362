-- ===== src/Lib.antt =====
-- A dynamic binary translator for 32-bit RISC-V: it loads an ELF file, translates the guest
-- program block by block to LLVM code, compiles each block, keeps it by its address and runs it.
-- This library models the translator and relates it to the instruction set.
--
-- The parts, the code that they stand for, and how they meet:
--
--   Base         Boolean tests, lists, bits and words over native numbers; a `uint32_t` is a number
--                below 2 ^ 32 whose wrap-around is written out.
--   Memory       dbtranslator/include/dbtranslator/Memory.h and dbtranslator/src/Memory.cpp.
--                `SegmentManager` and `MemoryManager` are the structs, the bytes that a pointer
--                points to being a list. `map_address` is `mapAddress`, by `map_loop` and
--                `map_round`; `read8` to `write32` are the six functions, with `deref` and `assign`
--                for the accesses through the pointer, little-endian as on the host. `Order` and
--                `Requests` compare memories of the same segments in another order, `Flat`
--                relates memory to one array of bytes. `Types` has the functions
--                that describe the structs to LLVM.
--   Cpu          dbtranslator/include/dbtranslator/CPU.h and dbtranslator/src/CPU.cpp: `CPUState`;
--                `Dump` is `dump`, as a function to the text that it prints; `Types` describes the
--                state to LLVM, and `Layout` says what the descriptions are.
--   Llvm         what dbtranslator/src/Instruction.cpp uses of LLVM. `Builder` has the calls of
--                `IRBuilder`: code that builds instructions is the tree of its calls. `Semantics`
--                has the meaning of the instructions as a parameter, a record of results and of the
--                laws of the language reference; `Reference` shows that it can be met. `Exec` runs
--                built code on a processor state; a call of a memory function is to do what the
--                one of `Memory` does. `Typing` has the operands that each instruction takes, and `Safety` what
--                typed code can come to. `Types` has LLVM's contexts and named structures as a
--                parameter, and `Registry` shows that its laws can be met.
--   Instruction  dbtranslator/include/dbtranslator/Instruction.h and
--                dbtranslator/src/Instruction.cpp. `Kind` is `Instr`, `Fields` the fields that the
--                bodies take out of a word, `Decode` is `decode` with a function to each switch,
--                `Counter` is `updatePC`, `Build` has a function `<name>_build_ir` to each method
--                `build_ir`, `Class` has the classes and the virtual method, `Generate` is
--                `generate`. `Typed` types the built code. `Correct` relates the built code to the
--                steps of `Riscv`: `Raw` to steps that write register 0 as any other register, as
--                the bodies do, `Supported` to those of the processor, `Deviation` says where the
--                two part, and `Exact` what the code does for every word.
--   Riscv        the specification, from the manual of the unprivileged instruction set: `Fields`,
--                `Encoding`, `Step`, and the invariant that a step keeps.
--   Binary       dbtranslator/src/Binary.cpp: `parse_elf` is `parseElf`, and `initial_state` the
--                first state of `main`. ELFIO's reader and `operator new` are parameters. `Boot`
--                and `Image` say what the loaded file is.
--   Translator   dbtranslator/tests/Main.cpp. `Name` is the name of a block's function, `Block` has
--                `addMemoryInterface` and the `while` loop of `generateFunc`, `Session` the cache
--                and the loop of `main` with one function to each part of its body, `Main` is
--                `main` from the loaded file on, `Setup` is `main` from its arguments on, with
--                `initializeLLJIT`, `optimizeModuleSimple` and the declared options; argparse and
--                the compiler are parameters, and `Setup.Reference` has both. `Block.Follow` is
--                what the loop of `main` needs of blocks, as an interface with two accounts that
--                they follow: the processor's steps, and those of the built code. `Jit` is what is
--                used of LLVM's just-in-time compiler, as a parameter, with the functions that it has bound
--                to the names of the memory interface; `Jit.Reference` shows that
--                its laws can be met.
--   Tests        concrete runs.
--
-- A missing result stands for undefined behaviour: an access through a null pointer or out of an
-- array, a shift by the width or more, a copy past the end of its source. An `Outcome` also tells
-- a module that the compiler refused, which `main` reports before it exits, and an `Ending` an
-- exception that is not caught.
--
-- The `while` loop of `generateFunc` is recursion on a number of rounds, with the variables of the
-- loop as a record; `generate_func` allows one round more than the threshold, and
-- `Block.Termination` shows that this is enough. `Block.Rounds` has the same as a recursion on the
-- instructions that the threshold leaves. The threshold is any number, a `size_t` being never
-- negative. The loop of `main` does not end in the source; `main_loop` is any number of its rounds,
-- and the results hold for every number. `map_loop` is recursion on the segments that are left. A
-- number is printed with at most twenty digits, enough for every integer of the program.
--
-- An instruction is supported where the code built for it follows the manual: its destination is
-- not register 0, a jal's word has the same bits 19 and 31, a shift by a register is by less than
-- 32, a comparison of two registers does not hold, and it is no ecall, ebreak or unknown word. The
-- results also say what the code does in all other cases.
--
-- Not modelled: the output for debugging, which only prints, but for the text of `dump`; the passes
-- that the compiler runs, which are those of another library; dbtranslator/tests/Memory.ll, LLVM
-- code of the six accesses under the names that built code calls, made from another source file.
-- `Jit.Provides` says what is needed of the file that is given in its place: that its functions do
-- what those of dbtranslator/src/Memory.cpp do, where these have a result. The alignment of host
-- memory is left out: an access of two or four bytes has a result at any offset, as on the x86
-- machine that Memory.ll is for, where C++ leaves a misaligned one undefined. Guest code that
-- changes its own program is outside the results on whole runs, since a translated block is never
-- translated again.
pub mod Base
pub mod Memory
pub mod Cpu
pub mod Llvm
pub mod Instruction
pub mod Riscv
pub mod Translator
pub mod Binary
pub mod Tests
