-- ===== src/Mmu.antt =====
-- The MMU: PPCMMU.h, PPCMMU.cc and the direct-mapped micro-TLB of PPCMMU_utlb_dm.h.
pub mod State
pub mod Utlb
pub mod Regs
pub mod Bat
pub mod Walk
pub mod Translate
pub mod Access
