-- ===== src/Instruction/Build/Branch.antt =====
-- src/Instruction.cpp: the bodies `build_ir` of the six conditional branches.
use dbtranslator.Base.{ℕ}
use dbtranslator.Llvm.Builder.{
  IrData, Build, ◌>>=◌, ◌>>◌, cpu_arg, create_add, create_icmp_eq, create_icmp_ne, create_icmp_sge,
  create_icmp_slt, create_icmp_uge, create_icmp_ult, create_in_bounds_gep, create_load,
  create_select, create_store, create_struct_gep, done, get_int32, i32,
}
use dbtranslator.Instruction.Fields.{reg_src1, reg_src2, branch_offset}

unfoldable pub beq_build_ir : ℕ → IrData → Build (Unit {0})
beq_build_ir w ir_data = do
  regs_ptr ← create_struct_gep cpu_arg 0
  reg1_ptr ← create_in_bounds_gep regs_ptr (reg_src1 w)
  reg2_ptr ← create_in_bounds_gep regs_ptr (reg_src2 w)
  reg1_val ← create_load i32 reg1_ptr
  reg2_val ← create_load i32 reg2_ptr
  pc_ptr ← create_struct_gep cpu_arg 1
  pc_val ← create_load i32 pc_ptr
  cond ← create_icmp_eq reg1_val reg2_val
  pc_plus_offset ← create_add pc_val (get_int32 (branch_offset w))
  pc_next ← create_select cond pc_plus_offset (← create_add pc_val (get_int32 4))
  create_store pc_next pc_ptr
  done tt

unfoldable pub bne_build_ir : ℕ → IrData → Build (Unit {0})
bne_build_ir w ir_data = do
  regs_ptr ← create_struct_gep cpu_arg 0
  reg1_ptr ← create_in_bounds_gep regs_ptr (reg_src1 w)
  reg2_ptr ← create_in_bounds_gep regs_ptr (reg_src2 w)
  reg1_val ← create_load i32 reg1_ptr
  reg2_val ← create_load i32 reg2_ptr
  pc_ptr ← create_struct_gep cpu_arg 1
  pc_val ← create_load i32 pc_ptr
  cond ← create_icmp_ne reg1_val reg2_val
  pc_plus_offset ← create_add pc_val (get_int32 (branch_offset w))
  pc_next ← create_select cond pc_plus_offset (← create_add pc_val (get_int32 4))
  create_store pc_next pc_ptr
  done tt

unfoldable pub blt_build_ir : ℕ → IrData → Build (Unit {0})
blt_build_ir w ir_data = do
  regs_ptr ← create_struct_gep cpu_arg 0
  reg1_ptr ← create_in_bounds_gep regs_ptr (reg_src1 w)
  reg2_ptr ← create_in_bounds_gep regs_ptr (reg_src2 w)
  reg1_val ← create_load i32 reg1_ptr
  reg2_val ← create_load i32 reg2_ptr
  pc_ptr ← create_struct_gep cpu_arg 1
  pc_val ← create_load i32 pc_ptr
  cond ← create_icmp_slt reg1_val reg2_val
  pc_plus_offset ← create_add pc_val (get_int32 (branch_offset w))
  pc_next ← create_select cond pc_plus_offset (← create_add pc_val (get_int32 4))
  create_store pc_next pc_ptr
  done tt

unfoldable pub bge_build_ir : ℕ → IrData → Build (Unit {0})
bge_build_ir w ir_data = do
  regs_ptr ← create_struct_gep cpu_arg 0
  reg1_ptr ← create_in_bounds_gep regs_ptr (reg_src1 w)
  reg2_ptr ← create_in_bounds_gep regs_ptr (reg_src2 w)
  reg1_val ← create_load i32 reg1_ptr
  reg2_val ← create_load i32 reg2_ptr
  pc_ptr ← create_struct_gep cpu_arg 1
  pc_val ← create_load i32 pc_ptr
  cond ← create_icmp_sge reg1_val reg2_val
  pc_plus_offset ← create_add pc_val (get_int32 (branch_offset w))
  pc_next ← create_select cond pc_plus_offset (← create_add pc_val (get_int32 4))
  create_store pc_next pc_ptr
  done tt

unfoldable pub bltu_build_ir : ℕ → IrData → Build (Unit {0})
bltu_build_ir w ir_data = do
  regs_ptr ← create_struct_gep cpu_arg 0
  reg1_ptr ← create_in_bounds_gep regs_ptr (reg_src1 w)
  reg2_ptr ← create_in_bounds_gep regs_ptr (reg_src2 w)
  reg1_val ← create_load i32 reg1_ptr
  reg2_val ← create_load i32 reg2_ptr
  pc_ptr ← create_struct_gep cpu_arg 1
  pc_val ← create_load i32 pc_ptr
  cond ← create_icmp_ult reg1_val reg2_val
  pc_plus_offset ← create_add pc_val (get_int32 (branch_offset w))
  pc_next ← create_select cond pc_plus_offset (← create_add pc_val (get_int32 4))
  create_store pc_next pc_ptr
  done tt

unfoldable pub bgeu_build_ir : ℕ → IrData → Build (Unit {0})
bgeu_build_ir w ir_data = do
  regs_ptr ← create_struct_gep cpu_arg 0
  reg1_ptr ← create_in_bounds_gep regs_ptr (reg_src1 w)
  reg2_ptr ← create_in_bounds_gep regs_ptr (reg_src2 w)
  reg1_val ← create_load i32 reg1_ptr
  reg2_val ← create_load i32 reg2_ptr
  pc_ptr ← create_struct_gep cpu_arg 1
  pc_val ← create_load i32 pc_ptr
  cond ← create_icmp_uge reg1_val reg2_val
  pc_plus_offset ← create_add pc_val (get_int32 (branch_offset w))
  pc_next ← create_select cond pc_plus_offset (← create_add pc_val (get_int32 4))
  create_store pc_next pc_ptr
  done tt
