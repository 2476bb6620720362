-- ===== src/Translator.antt =====
-- tests/Main.cpp: the translator's driver. A block of guest code is translated, compiled, cached by
-- its address and run; then the next one.
pub mod Name
pub mod Block
pub mod Jit
pub mod Session
pub mod Main
pub mod Setup
