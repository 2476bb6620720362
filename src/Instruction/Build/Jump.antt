-- ===== src/Instruction/Build/Jump.antt =====
-- src/Instruction.cpp: the bodies `build_ir` of lui, auipc, jal and jalr.
use dbtranslator.Base.{ℕ}
use dbtranslator.Llvm.Builder.{
  IrData, Build, ◌>>=◌, ◌>>◌, cpu_arg, create_add, create_and, create_in_bounds_gep, create_load,
  create_store, create_struct_gep, done, get_int32, i32,
}
use dbtranslator.Instruction.Fields.{
  reg_dest, reg_src1, upper_immediate, low_immediate, jump_offset,
}
use dbtranslator.Instruction.Counter.{update_pc}

unfoldable pub lui_build_ir : ℕ → IrData → Build (Unit {0})
lui_build_ir w ir_data = do
  regs_ptr ← create_struct_gep cpu_arg 0
  reg_dest_ptr ← create_in_bounds_gep regs_ptr (reg_dest w)
  create_store (get_int32 (upper_immediate w)) reg_dest_ptr
  update_pc

unfoldable pub auipc_build_ir : ℕ → IrData → Build (Unit {0})
auipc_build_ir w ir_data = do
  regs_ptr ← create_struct_gep cpu_arg 0
  reg_dest_ptr ← create_in_bounds_gep regs_ptr (reg_dest w)
  pc_ptr ← create_struct_gep cpu_arg 1
  pc_val ← create_load i32 pc_ptr
  create_store (← create_add (get_int32 (upper_immediate w)) pc_val) reg_dest_ptr
  new_pc_val ← create_add pc_val (get_int32 4)
  create_store new_pc_val pc_ptr
  done tt

unfoldable pub jal_build_ir : ℕ → IrData → Build (Unit {0})
jal_build_ir w ir_data = do
  regs_ptr ← create_struct_gep cpu_arg 0
  reg_dest_ptr ← create_in_bounds_gep regs_ptr (reg_dest w)
  pc_ptr ← create_struct_gep cpu_arg 1
  pc_val ← create_load i32 pc_ptr
  create_store (← create_add (get_int32 4) pc_val) reg_dest_ptr
  create_store (← create_add (get_int32 (jump_offset w)) pc_val) pc_ptr
  done tt

unfoldable pub jalr_build_ir : ℕ → IrData → Build (Unit {0})
jalr_build_ir w ir_data = do
  regs_ptr ← create_struct_gep cpu_arg 0
  reg_src_ptr ← create_in_bounds_gep regs_ptr (reg_src1 w)
  reg_src_val ← create_load i32 reg_src_ptr
  pc_ptr ← create_struct_gep cpu_arg 1
  pc_val ← create_load i32 pc_ptr
  reg_dest_ptr ← create_in_bounds_gep regs_ptr (reg_dest w)
  create_store (← create_add pc_val (get_int32 4)) reg_dest_ptr
  target ← create_add reg_src_val (get_int32 (low_immediate w))
  target_aligned ← create_and target (get_int32 0xFFFFFFFE)
  create_store target_aligned pc_ptr
  done tt
