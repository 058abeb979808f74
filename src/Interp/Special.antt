-- ===== src/Interp/Special.antt =====
-- PPCInterpreter_Special.cc.
mod Numbers
pub mod Spr
pub mod System
use mr_iss.Cpu.Exceptions.{return_from_interrupt}
use mr_iss.Interp.State.{Interp, blow_reservation}

-- `CHECK_YOUR_PRIVILEGE` does nothing.
unfoldable pub op_rfi : Interp → Interp
unfolding return_from_interrupt blow_reservation
op_rfi p = record (blow_reservation p) { core = return_from_interrupt p.core }
