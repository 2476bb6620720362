-- ===== src/Llvm.antt =====
-- LLVM as the translator uses it: the parameter, the builder and the execution of built code.
pub mod Semantics
pub mod Builder
pub mod Exec
pub mod Typing
pub mod Safety
pub mod Types
pub mod Growth
pub mod Registry
pub mod Reference
