-- ===== src/Instruction/Counter.antt =====
-- src/Instruction.cpp: `updatePC`, which the bodies call last.
use dbtranslator.Llvm.Builder.{
  Build, done, ◌>>=◌, ◌>>◌, cpu_arg, i32, get_int32, create_struct_gep, create_load, create_add,
  create_store,
}

unfoldable pub update_pc : Build (Unit {0})
update_pc = do
  pc_ptr ← create_struct_gep cpu_arg 1
  pc_val ← create_load i32 pc_ptr
  new_pc_val ← create_add pc_val (get_int32 4)
  create_store new_pc_val pc_ptr
  done tt
