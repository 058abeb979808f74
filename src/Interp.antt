-- ===== src/Interp.antt =====
-- The interpreter's instructions, PPCInterpreter_*.cc.
pub mod Macros
pub mod State
pub mod Alu
pub mod CondReg
pub mod Branch
pub mod Trap
pub mod Special
pub mod Memory
pub mod Strings
pub mod Execute
