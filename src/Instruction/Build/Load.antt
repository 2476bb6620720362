-- ===== src/Instruction/Build/Load.antt =====
-- src/Instruction.cpp: the bodies `build_ir` of the five loads.
use dbtranslator.Base.{ℕ, [], ◌∷◌}
use dbtranslator.Llvm.Builder.{
  IrData, Build, ◌>>=◌, ◌>>◌, cpu_arg, create_add, create_call, create_in_bounds_gep, create_load,
  create_sext, create_store, create_struct_gep, create_zext, get_int32, i32, ptr,
}
use dbtranslator.Instruction.Fields.{reg_dest, reg_src1, low_immediate}
use dbtranslator.Instruction.Counter.{update_pc}

unfoldable pub lb_build_ir : ℕ → IrData → Build (Unit {0})
lb_build_ir w ir_data = do
  regs_ptr ← create_struct_gep cpu_arg 0
  memory_manager_ptr_ptr ← create_struct_gep cpu_arg 2
  memory_manager_ptr ← create_load ptr memory_manager_ptr_ptr
  reg_dest_ptr ← create_in_bounds_gep regs_ptr (reg_dest w)
  reg_src_ptr ← create_in_bounds_gep regs_ptr (reg_src1 w)
  reg_src_val ← create_load i32 reg_src_ptr
  address ← create_add reg_src_val (get_int32 (low_immediate w))
  read_memory ← create_call ir_data 0 (memory_manager_ptr ∷ address ∷ [])
  create_store (← create_sext read_memory) reg_dest_ptr
  update_pc

unfoldable pub lh_build_ir : ℕ → IrData → Build (Unit {0})
lh_build_ir w ir_data = do
  regs_ptr ← create_struct_gep cpu_arg 0
  memory_manager_ptr_ptr ← create_struct_gep cpu_arg 2
  memory_manager_ptr ← create_load ptr memory_manager_ptr_ptr
  reg_dest_ptr ← create_in_bounds_gep regs_ptr (reg_dest w)
  reg_src_ptr ← create_in_bounds_gep regs_ptr (reg_src1 w)
  reg_src_val ← create_load i32 reg_src_ptr
  address ← create_add reg_src_val (get_int32 (low_immediate w))
  read_memory ← create_call ir_data 1 (memory_manager_ptr ∷ address ∷ [])
  create_store (← create_sext read_memory) reg_dest_ptr
  update_pc

unfoldable pub lw_build_ir : ℕ → IrData → Build (Unit {0})
lw_build_ir w ir_data = do
  regs_ptr ← create_struct_gep cpu_arg 0
  memory_manager_ptr_ptr ← create_struct_gep cpu_arg 2
  memory_manager_ptr ← create_load ptr memory_manager_ptr_ptr
  reg_dest_ptr ← create_in_bounds_gep regs_ptr (reg_dest w)
  reg_src_ptr ← create_in_bounds_gep regs_ptr (reg_src1 w)
  reg_src_val ← create_load i32 reg_src_ptr
  address ← create_add reg_src_val (get_int32 (low_immediate w))
  read_memory ← create_call ir_data 2 (memory_manager_ptr ∷ address ∷ [])
  create_store (← create_sext read_memory) reg_dest_ptr
  update_pc

unfoldable pub lbu_build_ir : ℕ → IrData → Build (Unit {0})
lbu_build_ir w ir_data = do
  regs_ptr ← create_struct_gep cpu_arg 0
  memory_manager_ptr_ptr ← create_struct_gep cpu_arg 2
  memory_manager_ptr ← create_load ptr memory_manager_ptr_ptr
  reg_dest_ptr ← create_in_bounds_gep regs_ptr (reg_dest w)
  reg_src_ptr ← create_in_bounds_gep regs_ptr (reg_src1 w)
  reg_src_val ← create_load i32 reg_src_ptr
  address ← create_add reg_src_val (get_int32 (low_immediate w))
  read_memory ← create_call ir_data 0 (memory_manager_ptr ∷ address ∷ [])
  create_store (← create_zext read_memory) reg_dest_ptr
  update_pc

unfoldable pub lhu_build_ir : ℕ → IrData → Build (Unit {0})
lhu_build_ir w ir_data = do
  regs_ptr ← create_struct_gep cpu_arg 0
  memory_manager_ptr_ptr ← create_struct_gep cpu_arg 2
  memory_manager_ptr ← create_load ptr memory_manager_ptr_ptr
  reg_dest_ptr ← create_in_bounds_gep regs_ptr (reg_dest w)
  reg_src_ptr ← create_in_bounds_gep regs_ptr (reg_src1 w)
  reg_src_val ← create_load i32 reg_src_ptr
  address ← create_add reg_src_val (get_int32 (low_immediate w))
  read_memory ← create_call ir_data 1 (memory_manager_ptr ∷ address ∷ [])
  create_store (← create_zext read_memory) reg_dest_ptr
  update_pc
