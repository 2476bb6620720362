-- ===== src/Instruction/Correct.antt =====
-- Code that src/Instruction.cpp builds does what the instruction does, one file to a format.
pub mod Registers
pub mod Immediate
pub mod Register
pub mod Branch
pub mod Load
pub mod Store
pub mod Jump
pub mod System
pub mod Raw
pub mod Exact
pub mod Supported
pub mod Deviation
