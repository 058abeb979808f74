-- ===== src/Interp/Special/System.antt =====
-- The barriers, the segment registers' moves, the translation's maintenance and DEBUG
-- (PPCInterpreter_Special.cc). What DEBUG prints is left out, and the trace that it may turn on.
pub mod Laws
use mr_iss.Base.{
  ℕ, ◌+◌, bit_and, true, false, ◌==◌, if◌then◌else◌, u32, ◌>>>◌, ◌>>=◌, Outcome, done, fatal,
}
use mr_iss.Memory.{Memory}
use mr_iss.Mmu.State.{Mmu}
use mr_iss.Mmu.Regs.{tlbie, get_segment_reg, set_segment_reg}
use mr_iss.Mmu.Translate.{granted, denied, looping, Access}
use mr_iss.Mmu.Access.{translate}
use mr_iss.Cpu.State.{get_gpr, set_gpr, is_privileged, inc_pc}
use mr_iss.Cpu.Exceptions.{raise_mem_exception}
use mr_iss.Interp.State.{Interp, with_cpu, sim_quit, read_gpr_oz}
use mr_iss.Interp.Memory.{Machine, next, cpu_of, set_core, sys_of, set_sys}

abbrev stepped : Interp → Interp
stepped p = with_cpu p (inc_pc p.core.cpu)

unfoldable op_eieio : Interp → Interp
unfolding inc_pc
op_eieio p = stepped p

unfoldable op_isync : Interp → Interp
unfolding inc_pc
op_isync p = stepped p

-- `L` and `E` only name the barrier in a trace.
unfoldable op_sync : Interp → ℕ → ℕ → Interp
unfolding inc_pc
op_sync p l e = stepped p

abbrev with_mmu : Interp → Mmu → Interp
with_mmu p m = record p { core = record { cpu = p.core.cpu; mmu = m } }

unfoldable op_mfsr : Interp → ℕ → ℕ → Outcome Interp
unfolding get_segment_reg set_gpr inc_pc
op_mfsr p sr rt = get_segment_reg p.core.mmu sr >>= λ v.
    set_gpr p.core.cpu rt v >>= λ c. done (stepped (with_cpu p c))

-- The top four digits of an address.
abbrev segment_of_address : ℕ → ℕ
segment_of_address ea = bit_and (ea >>> 28) 0xf

pub op_mfsrin : Interp → ℕ → ℕ → Outcome Interp
unfolding get_segment_reg get_gpr set_gpr inc_pc
op_mfsrin p rb rt = get_gpr p.core.cpu rb >>= λ b.
    get_segment_reg p.core.mmu (segment_of_address b) >>= λ v.
    set_gpr p.core.cpu rt v >>= λ c. done (stepped (with_cpu p c))

unfoldable op_mtsr : Interp → ℕ → ℕ → Outcome Interp
unfolding set_segment_reg get_gpr inc_pc
op_mtsr p sr rs = get_gpr p.core.cpu rs >>= λ v.
    set_segment_reg p.core.mmu sr v >>= λ m. done (stepped (with_mmu p m))

pub op_mtsrin : Interp → ℕ → ℕ → Outcome Interp
unfolding set_segment_reg get_gpr inc_pc
op_mtsrin p rs rb = get_gpr p.core.cpu rs >>= λ v. get_gpr p.core.cpu rb >>= λ b.
    set_segment_reg p.core.mmu (segment_of_address b) v >>= λ m. done (stepped (with_mmu p m))

unfoldable op_tlbie : Interp → ℕ → ℕ → Interp
unfolding tlbie inc_pc
op_tlbie p rb l = stepped (with_mmu p (tlbie p.core.mmu))

unfoldable op_tlbiel : Interp → ℕ → ℕ → Interp
unfolding tlbie inc_pc
op_tlbiel p rb l = stepped (with_mmu p (tlbie p.core.mmu))

-- By register 0: 0 ends the run, 1 prints register 3, any other does nothing.
unfoldable op_debug : Interp → ℕ → Outcome Interp
unfolding get_gpr sim_quit inc_pc
op_debug p ra = get_gpr p.core.cpu ra >>= λ a.
    get_gpr p.core.cpu 0 >>= λ op. done (stepped (if op == 0 then sim_quit p else p))

module _ (mem : Memory) where
  -- With the answer of the translation.
  unfoldable icbi_end : Machine mem → ℕ → Access → Outcome (Machine mem)
  unfolding raise_mem_exception next
  icbi_end m va (granted pa) = done (next mem m)
  icbi_end m va (denied f) =
      raise_mem_exception m.interp.core true false va f 0 >>= λ c. done (set_core mem m c)
  icbi_end m va looping = fatal

  unfoldable op_icbi : Machine mem → ℕ → ℕ → Outcome (Machine mem)
  unfolding read_gpr_oz get_gpr is_privileged icbi_end
  op_icbi m ra0 rb = read_gpr_oz (cpu_of mem m) ra0 >>= λ a. get_gpr (cpu_of mem m) rb >>= λ b.
      let va = u32 (a + b) in
      translate mem (sys_of mem m)
        (record { addr = va; ind = false; rnw = true; priv = is_privileged (cpu_of mem m) })
      >>= λ r. icbi_end (set_sys mem m r.1) va r.0
