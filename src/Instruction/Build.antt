-- ===== src/Instruction/Build.antt =====
-- src/Instruction.cpp: the class of each instruction, with its `build_ir`.
pub mod Jump
pub mod Branch
pub mod Load
pub mod Store
pub mod Immediate
pub mod Register
pub mod System
