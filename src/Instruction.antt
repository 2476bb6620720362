-- ===== src/Instruction.antt =====
-- src/Instruction.cpp and include/dbtranslator/Instruction.h: decoding, and building code.
pub mod Kind
pub mod Fields
pub mod Counter
pub mod Decode
pub mod Build
pub mod Class
pub mod Generate
pub mod Correct
pub mod Typed
