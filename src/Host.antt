-- ===== src/Host.antt =====
-- The host's side of the simulator.
pub mod Management
pub mod Serial
