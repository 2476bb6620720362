-- ===== src/Riscv.antt =====
-- The RV32I base instruction set, as its manual gives it: what src/Instruction.cpp is to implement.
pub mod Fields
pub mod Encoding
pub mod Step
pub mod Invariant
pub mod Preserve
