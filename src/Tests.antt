-- ===== src/Tests.antt =====
-- Concrete runs of the translator, one file to a part of it.
pub mod Sample
pub mod Memory
pub mod Instruction
pub mod Translator
pub mod Setup
pub mod Types
pub mod Blocks
pub mod Image
pub mod Exact
