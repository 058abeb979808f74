-- ===== src/Interp/State.antt =====
-- The interpreter's state (PPCInterpreter.h) and the helpers of its instructions. `pc` and `inst`, which
-- a trace or an unknown instruction's message prints, are left out.
use mr_iss.Base.{
  ℕ, ◌+◌, ◌-◌, bit_and, Bool, true, ◌||◌, if◌then◌else◌, truthy, u64, ◌>>>◌, Outcome, done,
}
use mr_iss.Cpu.State.{Cpu, get_gpr, get_xer_so, set_xer_so, set_xer_ov, inc_pc}
use mr_iss.Cpu.Exceptions.{Core, raise_prog_exception}
use mr_iss.Interp.Macros.{cmp, write_cr_field}

pub record Interp : Type 0 where
  pub core : Core
  pub want_break : Bool
  pub exc_generation_count : ℕ
  pub reservation_address : ℕ
  pub reservation_gencount : ℕ

unfoldable pub sim_quit : Interp → Interp
sim_quit p = record p { want_break = true }

-- `exc_generation_count` is an `unsigned long`, of 64 bits here.
unfoldable pub blow_reservation : Interp → Interp
blow_reservation p = record p { exc_generation_count = u64 (p.exc_generation_count + 1) }

abbrev pub with_cpu : Interp → Cpu → Interp
with_cpu p c = record p { core = record { cpu = c; mmu = p.core.mmu } }

-- `op_unk`.
unfoldable pub op_unk : Interp → Interp
unfolding raise_prog_exception
op_unk p = record p { core = raise_prog_exception p.core 0x8_0000 }

-- `READ_GPR_OZ`: register 0 stands for zero.
unfoldable pub read_gpr_oz : Cpu → ℕ → Outcome ℕ
unfolding get_gpr
read_gpr_oz c r = if truthy r then get_gpr c r else done 0

unfoldable pub get_crb : Cpu → ℕ → Bool
get_crb c bit = truthy (bit_and (c.cr >>> (31 - bit)) 1)

-- `SET_CR0`.
unfoldable pub set_cr0 : Cpu → ℕ → Cpu
unfolding cmp write_cr_field get_xer_so
set_cr0 c x = record c { cr = write_cr_field c.cr 0 (cmp x 0 (get_xer_so c)) }

-- `SET_SO_OV`.
unfoldable pub set_so_ov : Cpu → Bool → Cpu
unfolding get_xer_so set_xer_so set_xer_ov
set_so_ov c x = set_xer_ov (set_xer_so c (x || truthy (get_xer_so c))) x

-- The end of an arithmetic instruction: XER with `OE`, CR0 with `Rc`, then the next instruction.
unfoldable pub finish : Cpu → Bool → Bool → ℕ → Bool → Cpu
unfolding set_cr0 set_so_ov inc_pc
finish c rc oe val ov =
    let with_ov = if oe then set_so_ov c ov else c in
    inc_pc (if rc then set_cr0 with_ov val else with_ov)
