-- ===== src/Cpu/Exceptions.antt =====
-- Exceptions (PPCCPUState.cc), as the interpreter takes them: `exception_jmp` is null.
pub mod Laws
use mr_iss.Base.{
  ℕ, ◌+◌, bit_and, bit_or, Bool, none, if◌then◌else◌, truthy, u32, ◌<<<◌, ◌>>>◌, clear32, Outcome,
  done, fatal,
}
use mr_iss.Mmu.State.{Mmu, Fault}
use mr_iss.Mmu.Regs.{set_irdr}
use mr_iss.Cpu.State.{Cpu, msr_ir, msr_dr, msr_ip}

-- `exception_t`, of which these are raised.
pub data Exception : Type 0 where
  dsi isi irq align prog decrementer syscall : Exception

abbrev pub vector : Exception → ℕ
vector dsi = 0x300
vector isi = 0x400
vector irq = 0x500
vector align = 0x600
vector prog = 0x700
vector decrementer = 0x900
vector syscall = 0xc00

-- A processor and the MMU that it tells of MSR[IR] and MSR[DR].
pub record Core : Type 0 where
  pub cpu : Cpu
  pub mmu : Mmu

unfoldable pub take_exception : Core → Exception → ℕ → Core
unfolding set_irdr
take_exception k e new_srr1 =
    let c = k.cpu in
    let msr = bit_and c.msr msr_ip in
    record {
      cpu = record c {
        srr0 = clear32 c.pc 3;
        srr1 = new_srr1;
        msr = msr;
        pc = u32 ((if truthy (bit_and msr msr_ip) then 0xfff0_0000 else 0) + vector e);
      };
      mmu = set_irdr k.mmu (truthy (bit_and msr msr_ir)) (truthy (bit_and msr msr_dr));
    }

-- The cause in the high bits of SRR1.
abbrev srr1_cause : ℕ → ℕ → ℕ
srr1_cause msr cause = bit_or (clear32 msr 0xf800_0000) cause

pub set_dar_dsisr : Core → ℕ → ℕ → Core
set_dar_dsisr k dar dsisr = record { cpu = record k.cpu { dar = dar; dsisr = dsisr }; mmu = k.mmu }

-- The instruction's fields as the alignment handler wants them in DSISR.
unfoldable align_dsisr : ℕ → ℕ
align_dsisr inst =
    bit_or
      (bit_or
        (if truthy (bit_and inst 0x8000_0000)
          then bit_or (bit_and (inst >>> 12) 0x4000) (bit_and (inst >>> 17) 0x3c00)
          else bit_or
              (bit_or (bit_and (u32 (inst <<< 14)) 0x1_8000) (bit_and (u32 (inst <<< 8)) 0x4000))
              (bit_and (u32 (inst <<< 3)) 0x3c00))
        (bit_and (inst >>> 16) 0x3e0))
      (bit_and (inst >>> 16) 0x1f)

-- `raiseMemException`. An instruction fetch for FAULT_PERMS_NX is an `ASSERT`, and a fault that
-- has no case here ends the run.
unfoldable pub raise_mem_exception : Core → Bool → Bool → ℕ → Fault → ℕ → Outcome Core
unfolding take_exception set_dar_dsisr align_dsisr
raise_mem_exception k rnw ind addr Fault.no_page inst =
    if ind
    then done (take_exception k isi (srr1_cause k.cpu.msr 0x4000_0000))
    else done (
        take_exception (set_dar_dsisr k addr (bit_or 0x4000_0000 (if rnw then 0 else 0x0200_0000)))
          dsi k.cpu.msr)
raise_mem_exception k rnw ind addr Fault.perms inst =
    if ind
    then done (take_exception k isi (srr1_cause k.cpu.msr 0x0800_0000))
    else done (
        take_exception (set_dar_dsisr k addr (bit_or 0x0800_0000 (if rnw then 0 else 0x0200_0000)))
          dsi k.cpu.msr)
raise_mem_exception k rnw ind addr Fault.perms_nx inst =
    if ind then done (take_exception k isi (srr1_cause k.cpu.msr 0x1000_0000)) else fatal
raise_mem_exception k rnw ind addr Fault.align inst =
    done (take_exception (set_dar_dsisr k addr (align_dsisr inst)) align k.cpu.msr)
raise_mem_exception k rnw ind addr Fault.none inst = fatal
raise_mem_exception k rnw ind addr Fault.no_segment inst = fatal

unfoldable pub raise_irq_exception : Core → Core
unfolding take_exception
raise_irq_exception k = take_exception k irq k.cpu.msr

unfoldable pub raise_dec_exception : Core → Core
unfolding take_exception
raise_dec_exception k = take_exception k decrementer k.cpu.msr

unfoldable pub raise_prog_exception : Core → ℕ → Core
unfolding take_exception
raise_prog_exception k reason =
    take_exception k prog (bit_or (bit_and k.cpu.msr 0x8000_ffff) reason)

unfoldable pub raise_sc_exception : Core → Core
unfolding take_exception
raise_sc_exception k = take_exception k syscall k.cpu.msr

-- `WRITE_MSR` (PPCInterpreter.cc).
pub write_msr : Core → ℕ → Core
unfolding set_irdr
write_msr k val = record {
  cpu = record k.cpu { msr = val };
  mmu = set_irdr k.mmu (truthy (bit_and val msr_ir)) (truthy (bit_and val msr_dr));
}

-- `op_rfi` (PPCInterpreter_Special.cc): all but the reservation, which the whole of `op_rfi` drops.
unfoldable pub return_from_interrupt : Core → Core
unfolding write_msr
return_from_interrupt k =
    write_msr (record { cpu = record k.cpu { pc = clear32 k.cpu.srr0 3 }; mmu = k.mmu }) k.cpu.srr1
