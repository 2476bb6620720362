-- ===== src/Instruction/Build/Immediate.antt =====
-- src/Instruction.cpp: the bodies `build_ir` of the operations on a register and an immediate.
use dbtranslator.Base.{ℕ}
use dbtranslator.Llvm.Builder.{
  IrData, Build, ◌>>=◌, ◌>>◌, cpu_arg, create_add, create_and, create_ashr, create_icmp_slt,
  create_icmp_ult, create_in_bounds_gep, create_load, create_lshr, create_or, create_shl,
  create_store, create_struct_gep, create_xor, create_zext, get_int32, i32,
}
use dbtranslator.Instruction.Fields.{reg_dest, reg_src1, shamt, low_immediate}
use dbtranslator.Instruction.Counter.{update_pc}

unfoldable pub addi_build_ir : ℕ → IrData → Build (Unit {0})
addi_build_ir w ir_data = do
  regs_ptr ← create_struct_gep cpu_arg 0
  reg_src_ptr ← create_in_bounds_gep regs_ptr (reg_src1 w)
  reg_src_val ← create_load i32 reg_src_ptr
  result ← create_add reg_src_val (get_int32 (low_immediate w))
  reg_dest_ptr ← create_in_bounds_gep regs_ptr (reg_dest w)
  create_store result reg_dest_ptr
  update_pc

unfoldable pub slti_build_ir : ℕ → IrData → Build (Unit {0})
slti_build_ir w ir_data = do
  regs_ptr ← create_struct_gep cpu_arg 0
  reg_dest_ptr ← create_in_bounds_gep regs_ptr (reg_dest w)
  reg_src_ptr ← create_in_bounds_gep regs_ptr (reg_src1 w)
  src_value ← create_load i32 reg_src_ptr
  cond ← create_icmp_slt src_value (get_int32 (low_immediate w))
  create_store (← create_zext cond) reg_dest_ptr
  update_pc

unfoldable pub sltiu_build_ir : ℕ → IrData → Build (Unit {0})
sltiu_build_ir w ir_data = do
  regs_ptr ← create_struct_gep cpu_arg 0
  reg_dest_ptr ← create_in_bounds_gep regs_ptr (reg_dest w)
  reg_src_ptr ← create_in_bounds_gep regs_ptr (reg_src1 w)
  src_value ← create_load i32 reg_src_ptr
  cond ← create_icmp_ult src_value (get_int32 (low_immediate w))
  create_store (← create_zext cond) reg_dest_ptr
  update_pc

unfoldable pub xori_build_ir : ℕ → IrData → Build (Unit {0})
xori_build_ir w ir_data = do
  regs_ptr ← create_struct_gep cpu_arg 0
  reg_src_ptr ← create_in_bounds_gep regs_ptr (reg_src1 w)
  reg_src_val ← create_load i32 reg_src_ptr
  result ← create_xor reg_src_val (get_int32 (low_immediate w))
  reg_dest_ptr ← create_in_bounds_gep regs_ptr (reg_dest w)
  create_store result reg_dest_ptr
  update_pc

unfoldable pub ori_build_ir : ℕ → IrData → Build (Unit {0})
ori_build_ir w ir_data = do
  regs_ptr ← create_struct_gep cpu_arg 0
  reg_src_ptr ← create_in_bounds_gep regs_ptr (reg_src1 w)
  reg_src_val ← create_load i32 reg_src_ptr
  result ← create_or reg_src_val (get_int32 (low_immediate w))
  reg_dest_ptr ← create_in_bounds_gep regs_ptr (reg_dest w)
  create_store result reg_dest_ptr
  update_pc

unfoldable pub andi_build_ir : ℕ → IrData → Build (Unit {0})
andi_build_ir w ir_data = do
  regs_ptr ← create_struct_gep cpu_arg 0
  reg_src_ptr ← create_in_bounds_gep regs_ptr (reg_src1 w)
  reg_src_val ← create_load i32 reg_src_ptr
  result ← create_and reg_src_val (get_int32 (low_immediate w))
  reg_dest_ptr ← create_in_bounds_gep regs_ptr (reg_dest w)
  create_store result reg_dest_ptr
  update_pc

unfoldable pub slli_build_ir : ℕ → IrData → Build (Unit {0})
slli_build_ir w ir_data = do
  regs_ptr ← create_struct_gep cpu_arg 0
  reg_src_ptr ← create_in_bounds_gep regs_ptr (reg_src1 w)
  reg_src_val ← create_load i32 reg_src_ptr
  result ← create_shl reg_src_val (get_int32 (shamt w))
  reg_dest_ptr ← create_in_bounds_gep regs_ptr (reg_dest w)
  create_store result reg_dest_ptr
  update_pc

unfoldable pub srli_build_ir : ℕ → IrData → Build (Unit {0})
srli_build_ir w ir_data = do
  regs_ptr ← create_struct_gep cpu_arg 0
  reg_src_ptr ← create_in_bounds_gep regs_ptr (reg_src1 w)
  reg_src_val ← create_load i32 reg_src_ptr
  result ← create_lshr reg_src_val (get_int32 (shamt w))
  reg_dest_ptr ← create_in_bounds_gep regs_ptr (reg_dest w)
  create_store result reg_dest_ptr
  update_pc

unfoldable pub srai_build_ir : ℕ → IrData → Build (Unit {0})
srai_build_ir w ir_data = do
  regs_ptr ← create_struct_gep cpu_arg 0
  reg_src_ptr ← create_in_bounds_gep regs_ptr (reg_src1 w)
  reg_src_val ← create_load i32 reg_src_ptr
  result ← create_ashr reg_src_val (get_int32 (shamt w))
  reg_dest_ptr ← create_in_bounds_gep regs_ptr (reg_dest w)
  create_store result reg_dest_ptr
  update_pc
