-- ===== src/Interp/Trap.antt =====
-- PPCInterpreter_Trap.cc.
use mr_iss.Base.{
  ℕ, ◌^◌, ◌≤◌, ◌<◌, ◌≡◌, ◌≢◌, ◌↔◌, Bool, true, arith, if◌then◌else◌, ◌>>=◌, Outcome, done,
}
use mr_iss.Cpu.State.{get_gpr, inc_pc}
use mr_iss.Cpu.Exceptions.{Core, raise_prog_exception, raise_sc_exception}
use mr_iss.Interp.Macros.{bias, does_trap}
use mr_iss.Interp.Branch.{sxt16}

abbrev next : Core → Core
next k = record { cpu = inc_pc k.cpu; mmu = k.mmu }

-- SRR0 of a system call is the next instruction.
unfoldable op_sc : Core → Core
unfolding raise_sc_exception inc_pc
op_sc k = raise_sc_exception (next k)

unfoldable trap_or_next : Core → Bool → Core
unfolding raise_prog_exception inc_pc
trap_or_next k trap = if trap then raise_prog_exception k 0x2_0000 else next k

unfoldable op_tw : Core → ℕ → ℕ → ℕ → Outcome Core
unfolding get_gpr does_trap trap_or_next
op_tw k to ra rb =
    get_gpr k.cpu ra >>= λ a. get_gpr k.cpu rb >>= λ b. done (trap_or_next k (does_trap to a b))

unfoldable op_twi : Core → ℕ → ℕ → ℕ → Outcome Core
unfolding get_gpr does_trap trap_or_next
op_twi k to ra si = get_gpr k.cpu ra >>= λ a. done (trap_or_next k (does_trap to a (sxt16 si)))

-- The usual values of TO: 24 traps on any difference, 4 on equality, 6 and 5 when the first word is at
-- most and at least the second, 20 and 12 the same for signed words, and 31 always.
pub does_trap_iff :
    (a b : ℕ)
    → a < 2 ^ 32
    → b < 2 ^ 32
    → ((does_trap 24 a b ≡ true) ↔ (a ≢ b))
      × ((does_trap 4 a b ≡ true) ↔ (a ≡ b))
      × ((does_trap 6 a b ≡ true) ↔ (a ≤ b))
      × ((does_trap 5 a b ≡ true) ↔ (b ≤ a))
      × ((does_trap 20 a b ≡ true) ↔ (bias a ≤ bias b))
      × ((does_trap 12 a b ≡ true) ↔ (bias b ≤ bias a))
      × (does_trap 31 a b ≡ true)
unfolding does_trap
does_trap_iff a b ha hb = ground arith
