-- ===== src/Instruction/Build/Register.antt =====
-- src/Instruction.cpp: the bodies `build_ir` of the operations on two registers.
use dbtranslator.Base.{ℕ}
use dbtranslator.Llvm.Builder.{
  IrData, Build, ◌>>=◌, ◌>>◌, cpu_arg, create_add, create_and, create_ashr, create_icmp_slt,
  create_icmp_ult, create_in_bounds_gep, create_load, create_lshr, create_or, create_shl,
  create_store, create_struct_gep, create_sub, create_xor, create_zext, i32,
}
use dbtranslator.Instruction.Fields.{reg_dest, reg_src1, reg_src2}
use dbtranslator.Instruction.Counter.{update_pc}

unfoldable pub add_build_ir : ℕ → IrData → Build (Unit {0})
add_build_ir w ir_data = do
  regs_ptr ← create_struct_gep cpu_arg 0
  reg1_ptr ← create_in_bounds_gep regs_ptr (reg_src1 w)
  reg2_ptr ← create_in_bounds_gep regs_ptr (reg_src2 w)
  reg1_val ← create_load i32 reg1_ptr
  reg2_val ← create_load i32 reg2_ptr
  result ← create_add reg1_val reg2_val
  reg_dest_ptr ← create_in_bounds_gep regs_ptr (reg_dest w)
  create_store result reg_dest_ptr
  update_pc

unfoldable pub sub_build_ir : ℕ → IrData → Build (Unit {0})
sub_build_ir w ir_data = do
  regs_ptr ← create_struct_gep cpu_arg 0
  reg1_ptr ← create_in_bounds_gep regs_ptr (reg_src1 w)
  reg2_ptr ← create_in_bounds_gep regs_ptr (reg_src2 w)
  reg1_val ← create_load i32 reg1_ptr
  reg2_val ← create_load i32 reg2_ptr
  result ← create_sub reg1_val reg2_val
  reg_dest_ptr ← create_in_bounds_gep regs_ptr (reg_dest w)
  create_store result reg_dest_ptr
  update_pc

unfoldable pub sll_build_ir : ℕ → IrData → Build (Unit {0})
sll_build_ir w ir_data = do
  regs_ptr ← create_struct_gep cpu_arg 0
  reg_src1_ptr ← create_in_bounds_gep regs_ptr (reg_src1 w)
  reg_src1_val ← create_load i32 reg_src1_ptr
  reg_src2_ptr ← create_in_bounds_gep regs_ptr (reg_src2 w)
  reg_src2_val ← create_load i32 reg_src2_ptr
  result ← create_shl reg_src1_val reg_src2_val
  reg_dest_ptr ← create_in_bounds_gep regs_ptr (reg_dest w)
  create_store result reg_dest_ptr
  update_pc

unfoldable pub srl_build_ir : ℕ → IrData → Build (Unit {0})
srl_build_ir w ir_data = do
  regs_ptr ← create_struct_gep cpu_arg 0
  reg_src1_ptr ← create_in_bounds_gep regs_ptr (reg_src1 w)
  reg_src1_val ← create_load i32 reg_src1_ptr
  reg_src2_ptr ← create_in_bounds_gep regs_ptr (reg_src2 w)
  reg_src2_val ← create_load i32 reg_src2_ptr
  result ← create_lshr reg_src1_val reg_src2_val
  reg_dest_ptr ← create_in_bounds_gep regs_ptr (reg_dest w)
  create_store result reg_dest_ptr
  update_pc

unfoldable pub sra_build_ir : ℕ → IrData → Build (Unit {0})
sra_build_ir w ir_data = do
  regs_ptr ← create_struct_gep cpu_arg 0
  reg_src1_ptr ← create_in_bounds_gep regs_ptr (reg_src1 w)
  reg_src1_val ← create_load i32 reg_src1_ptr
  reg_src2_ptr ← create_in_bounds_gep regs_ptr (reg_src2 w)
  reg_src2_val ← create_load i32 reg_src2_ptr
  result ← create_ashr reg_src1_val reg_src2_val
  reg_dest_ptr ← create_in_bounds_gep regs_ptr (reg_dest w)
  create_store result reg_dest_ptr
  update_pc

unfoldable pub xor_build_ir : ℕ → IrData → Build (Unit {0})
xor_build_ir w ir_data = do
  regs_ptr ← create_struct_gep cpu_arg 0
  reg1_ptr ← create_in_bounds_gep regs_ptr (reg_src1 w)
  reg2_ptr ← create_in_bounds_gep regs_ptr (reg_src2 w)
  reg1_val ← create_load i32 reg1_ptr
  reg2_val ← create_load i32 reg2_ptr
  result ← create_xor reg1_val reg2_val
  reg_dest_ptr ← create_in_bounds_gep regs_ptr (reg_dest w)
  create_store result reg_dest_ptr
  update_pc

unfoldable pub or_build_ir : ℕ → IrData → Build (Unit {0})
or_build_ir w ir_data = do
  regs_ptr ← create_struct_gep cpu_arg 0
  reg1_ptr ← create_in_bounds_gep regs_ptr (reg_src1 w)
  reg2_ptr ← create_in_bounds_gep regs_ptr (reg_src2 w)
  reg1_val ← create_load i32 reg1_ptr
  reg2_val ← create_load i32 reg2_ptr
  result ← create_or reg1_val reg2_val
  reg_dest_ptr ← create_in_bounds_gep regs_ptr (reg_dest w)
  create_store result reg_dest_ptr
  update_pc

unfoldable pub and_build_ir : ℕ → IrData → Build (Unit {0})
and_build_ir w ir_data = do
  regs_ptr ← create_struct_gep cpu_arg 0
  reg1_ptr ← create_in_bounds_gep regs_ptr (reg_src1 w)
  reg2_ptr ← create_in_bounds_gep regs_ptr (reg_src2 w)
  reg1_val ← create_load i32 reg1_ptr
  reg2_val ← create_load i32 reg2_ptr
  result ← create_and reg1_val reg2_val
  reg_dest_ptr ← create_in_bounds_gep regs_ptr (reg_dest w)
  create_store result reg_dest_ptr
  update_pc

unfoldable pub slt_build_ir : ℕ → IrData → Build (Unit {0})
slt_build_ir w ir_data = do
  regs_ptr ← create_struct_gep cpu_arg 0
  reg_dest_ptr ← create_in_bounds_gep regs_ptr (reg_dest w)
  reg_src1_ptr ← create_in_bounds_gep regs_ptr (reg_src1 w)
  src1_value ← create_load i32 reg_src1_ptr
  reg_src2_ptr ← create_in_bounds_gep regs_ptr (reg_src1 w)
  src2_value ← create_load i32 reg_src2_ptr
  cond ← create_icmp_slt src1_value src2_value
  create_store (← create_zext cond) reg_dest_ptr
  update_pc

unfoldable pub sltu_build_ir : ℕ → IrData → Build (Unit {0})
sltu_build_ir w ir_data = do
  regs_ptr ← create_struct_gep cpu_arg 0
  reg_dest_ptr ← create_in_bounds_gep regs_ptr (reg_dest w)
  reg_src1_ptr ← create_in_bounds_gep regs_ptr (reg_src1 w)
  src1_value ← create_load i32 reg_src1_ptr
  reg_src2_ptr ← create_in_bounds_gep regs_ptr (reg_src1 w)
  src2_value ← create_load i32 reg_src2_ptr
  cond ← create_icmp_ult src1_value src2_value
  create_store (← create_zext cond) reg_dest_ptr
  update_pc
