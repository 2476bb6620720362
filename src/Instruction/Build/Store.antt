-- ===== src/Instruction/Build/Store.antt =====
-- src/Instruction.cpp: the bodies `build_ir` of the three stores.
use dbtranslator.Base.{ℕ, [], ◌∷◌}
use dbtranslator.Llvm.Builder.{
  IrData, Build, ◌>>=◌, ◌>>◌, cpu_arg, create_add, create_call, create_in_bounds_gep, create_load,
  create_struct_gep, get_int32, i16, i32, i8, ptr,
}
use dbtranslator.Instruction.Fields.{reg_src1, reg_src2, store_offset}
use dbtranslator.Instruction.Counter.{update_pc}

unfoldable pub sb_build_ir : ℕ → IrData → Build (Unit {0})
sb_build_ir w ir_data = do
  regs_ptr ← create_struct_gep cpu_arg 0
  memory_manager_ptr_ptr ← create_struct_gep cpu_arg 2
  reg_src1_ptr ← create_in_bounds_gep regs_ptr (reg_src1 w)
  reg_src2_ptr ← create_in_bounds_gep regs_ptr (reg_src2 w)
  reg_src1_val ← create_load i32 reg_src1_ptr
  reg_src2_val ← create_load i8 reg_src2_ptr
  memory_manager_ptr ← create_load ptr memory_manager_ptr_ptr
  address ← create_add reg_src1_val (get_int32 (store_offset w))
  create_call ir_data 3 (memory_manager_ptr ∷ address ∷ reg_src2_val ∷ [])
  update_pc

unfoldable pub sh_build_ir : ℕ → IrData → Build (Unit {0})
sh_build_ir w ir_data = do
  regs_ptr ← create_struct_gep cpu_arg 0
  memory_manager_ptr_ptr ← create_struct_gep cpu_arg 2
  reg_src1_ptr ← create_in_bounds_gep regs_ptr (reg_src1 w)
  reg_src2_ptr ← create_in_bounds_gep regs_ptr (reg_src2 w)
  reg_src1_val ← create_load i32 reg_src1_ptr
  reg_src2_val ← create_load i16 reg_src2_ptr
  memory_manager_ptr ← create_load ptr memory_manager_ptr_ptr
  address ← create_add reg_src1_val (get_int32 (store_offset w))
  create_call ir_data 4 (memory_manager_ptr ∷ address ∷ reg_src2_val ∷ [])
  update_pc

unfoldable pub sw_build_ir : ℕ → IrData → Build (Unit {0})
sw_build_ir w ir_data = do
  regs_ptr ← create_struct_gep cpu_arg 0
  memory_manager_ptr_ptr ← create_struct_gep cpu_arg 2
  reg_src1_ptr ← create_in_bounds_gep regs_ptr (reg_src1 w)
  reg_src2_ptr ← create_in_bounds_gep regs_ptr (reg_src2 w)
  reg_src1_val ← create_load i32 reg_src1_ptr
  reg_src2_val ← create_load i32 reg_src2_ptr
  memory_manager_ptr ← create_load ptr memory_manager_ptr_ptr
  address ← create_add reg_src1_val (get_int32 (store_offset w))
  create_call ir_data 5 (memory_manager_ptr ∷ address ∷ reg_src2_val ∷ [])
  update_pc
