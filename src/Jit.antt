-- ===== src/Jit.antt =====
-- What the JIT keeps of its generated code.
pub mod Blockstore
pub mod Emit
pub mod Blockgen
pub mod Runloop
