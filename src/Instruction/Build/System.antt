-- ===== src/Instruction/Build/System.antt =====
-- src/Instruction.cpp: the bodies `build_ir` of fences, pauses and environment calls.
use dbtranslator.Base.{ℕ}
use dbtranslator.Llvm.Builder.{IrData, Build, done}
use dbtranslator.Instruction.Counter.{update_pc}

unfoldable pub fence_build_ir : ℕ → IrData → Build (Unit {0})
fence_build_ir w ir_data = update_pc

unfoldable pub fencetso_build_ir : ℕ → IrData → Build (Unit {0})
fencetso_build_ir w ir_data = update_pc

unfoldable pub pause_build_ir : ℕ → IrData → Build (Unit {0})
pause_build_ir w ir_data = update_pc

unfoldable pub ecall_build_ir : ℕ → IrData → Build (Unit {0})
ecall_build_ir w ir_data = done tt

unfoldable pub ebreak_build_ir : ℕ → IrData → Build (Unit {0})
ebreak_build_ir w ir_data = update_pc
