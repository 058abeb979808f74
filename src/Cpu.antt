-- ===== src/Cpu.antt =====
-- The processor's state and its exceptions: PPCCPUState.h and PPCCPUState.cc.
pub mod State
pub mod Exceptions
pub mod Loop
