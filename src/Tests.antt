-- ===== src/Tests.antt =====
-- The components' theorems at concrete states.
mod Mmu
mod Cpu
mod Interp
mod Devices
mod Bus
mod Special
mod SdCard
mod Serial
mod Jit
mod Codegen
mod Console
mod Platform
