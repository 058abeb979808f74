-- ===== src/Cpu/Exceptions/Laws.antt =====
-- What an exception does to the processor, and how `rfi` undoes it.
use mr_iss.Base.{
  ℕ, ◌+◌, ◌-◌, ◌%◌, ◌^◌, ◌<◌, bit_and, ◌≡◌, refl, Bool, true, false, arith, if◌then◌else◌, truthy,
  clear32, Yields,
}
use mr_iss.Bits.Fields.{bit_and_field}
use mr_iss.Mmu.State.{Fault}
use mr_iss.Mmu.Regs.{set_irdr}
use mr_iss.Cpu.State.{
  msr_ir, msr_dr, msr_ip, msr_ee, msr_pr, is_privileged, is_irq_pending, is_decrementer_pending,
}
use mr_iss.Cpu.Exceptions.{
  Core, Exception, vector, take_exception, raise_mem_exception, write_msr, return_from_interrupt,
  align, isi, dsi, set_dar_dsisr,
}

-- The MMU translates as the MSR says.
pub record InStep (k : Core) : Type 0 where
  pub inst : k.mmu.enabled_i ≡ truthy (bit_and k.cpu.msr msr_ir)
  pub dat : k.mmu.enabled_d ≡ truthy (bit_and k.cpu.msr msr_dr)

-- The handler's state: privileged, with interrupts and both translations off, at its vector.
pub record AtHandler (k : Core) (e : Exception) (after : Core) : Type 0 where
  pub privileged : is_privileged after.cpu ≡ true
  pub no_irq : is_irq_pending after.cpu ≡ false
  pub no_dec : is_decrementer_pending after.cpu ≡ false
  pub inst_off : after.mmu.enabled_i ≡ false
  pub data_off : after.mmu.enabled_d ≡ false
  pub in_step : InStep after
  pub at_vector :
      after.cpu.pc ≡ (if truthy (bit_and k.cpu.msr msr_ip) then 0xfff0_0000 else 0) + vector e
  pub return_address : after.cpu.srr0 ≡ k.cpu.pc - k.cpu.pc % 4
  pub registers_kept : after.cpu.gprs ≡ k.cpu.gprs

vector-lt : (e : Exception) → vector e < 2 ^ 12
vector-lt e = ground arith

-- Of the MSR only bit 6 is kept, so the bits that the handler's state is read from are 0.
kept_bit :
    (msr : ℕ)
    → let m = bit_and msr msr_ip in
      (bit_and m msr_pr ≡ 0)
      × (bit_and m msr_ee ≡ 0)
      × (bit_and m msr_ir ≡ 0)
      × (bit_and m msr_dr ≡ 0)
      × (bit_and m msr_ip ≡ bit_and msr msr_ip)
kept_bit msr =
    let m = bit_and msr msr_ip in
    let e = bit_and_field 6 1 msr in
    (
      omega (arith, e, bit_and_field 14 1 m),
      omega (arith, e, bit_and_field 15 1 m),
      omega (arith, e, bit_and_field 5 1 m),
      omega (arith, e, bit_and_field 4 1 m),
      omega (arith, e, bit_and_field 6 1 m),
    )

-- Every exception enters its handler so, whatever the state it interrupts.
pub take_exception-AtHandler :
    (k : Core) (e : Exception) (srr1 : ℕ)
    → k.cpu.pc < 2 ^ 32
    → AtHandler k e (take_exception k e srr1)
unfolding take_exception is_privileged is_irq_pending is_decrementer_pending set_irdr
take_exception-AtHandler k e srr1 h =
    let off = kept_bit k.cpu.msr in
    record {
      privileged = ground (arith, off);
      no_irq = ground (arith, off);
      no_dec = ground (arith, off);
      inst_off = ground (arith, off);
      data_off = ground (arith, off);
      in_step = record { inst = refl; dat = refl };
      at_vector = ground (arith, off, vector-lt e);
      return_address = ground (arith, bit_and_field 2 30 k.cpu.pc);
      registers_kept = refl;
    }

-- An exception and the `rfi` of a handler that kept SRR0 and SRR1 bring back the interrupted MSR and,
-- at a word boundary, the interrupted address, with the MMU in step again.
pub return-take_exception :
    (k : Core) (e : Exception)
    → k.cpu.pc < 2 ^ 32
    → k.cpu.pc % 4 ≡ 0
    → let after = return_from_interrupt (take_exception k e k.cpu.msr) in
      (after.cpu.pc ≡ k.cpu.pc) × (after.cpu.msr ≡ k.cpu.msr) × InStep after
unfolding return_from_interrupt take_exception write_msr set_irdr
return-take_exception k e h w = (
  ground (arith, bit_and_field 2 30 k.cpu.pc, bit_and_field 2 30 (clear32 k.cpu.pc 3)),
  refl,
  record { inst = refl; dat = refl },
)

-- The faults that a fetch and that a data access can end with.
abbrev pub Delivers : Bool → Fault → Type 0
Delivers ind Fault.none = ⊥
Delivers ind Fault.no_segment = ⊥
Delivers ind Fault.perms_nx = ind ≡ true
Delivers ind _ = Unit

abbrev pub exception_of : Bool → Fault → Exception
exception_of ind Fault.align = align
exception_of ind _ = if ind then isi else dsi

-- What a data access leaves in DAR.
abbrev pub DarHolds : Bool → ℕ → Core → Type 0
DarHolds true addr after = Unit
DarHolds false addr after = after.cpu.dar ≡ addr

after_dar :
    (k : Core) (addr dsisr : ℕ) (e : Exception) (srr1 : ℕ)
    → k.cpu.pc < 2 ^ 32
    → AtHandler k e (take_exception (set_dar_dsisr k addr dsisr) e srr1)
unfolding set_dar_dsisr
after_dar k addr dsisr e srr1 h =
    let r = take_exception-AtHandler (set_dar_dsisr k addr dsisr) e srr1 h in
    record {
      privileged = r.privileged;
      no_irq = r.no_irq;
      no_dec = r.no_dec;
      inst_off = r.inst_off;
      data_off = r.data_off;
      in_step = r.in_step;
      at_vector = r.at_vector;
      return_address = r.return_address;
      registers_kept = r.registers_kept;
    }

-- A fault that an access can end with is delivered: as an alignment interrupt, or as an instruction
-- or data storage interrupt; for a data access DAR then holds the address.
pub raise_mem_exception-Delivers :
    (k : Core) (rnw ind : Bool) (addr : ℕ) (f : Fault) (inst : ℕ)
    → k.cpu.pc < 2 ^ 32
    → Delivers ind f
    → Yields
        (λ after. AtHandler k (exception_of ind f) after × DarHolds ind addr after)
        (raise_mem_exception k rnw ind addr f inst)
unfolding raise_mem_exception set_dar_dsisr take_exception
raise_mem_exception-Delivers k rnw true addr Fault.no_page inst h d =
    (take_exception-AtHandler k isi _ h, tt)
raise_mem_exception-Delivers k rnw false addr Fault.no_page inst h d =
    (after_dar k addr _ dsi _ h, refl)
raise_mem_exception-Delivers k rnw true addr Fault.perms inst h d =
    (take_exception-AtHandler k isi _ h, tt)
raise_mem_exception-Delivers k rnw false addr Fault.perms inst h d =
    (after_dar k addr _ dsi _ h, refl)
raise_mem_exception-Delivers k rnw true addr Fault.perms_nx inst h d =
    (take_exception-AtHandler k isi _ h, tt)
raise_mem_exception-Delivers k rnw false addr Fault.perms_nx inst h d = cc
raise_mem_exception-Delivers k rnw true addr Fault.align inst h d =
    (after_dar k addr _ align _ h, tt)
raise_mem_exception-Delivers k rnw false addr Fault.align inst h d =
    (after_dar k addr _ align _ h, refl)
raise_mem_exception-Delivers k rnw ind addr Fault.none inst h d = absurd d
raise_mem_exception-Delivers k rnw ind addr Fault.no_segment inst h d = absurd d
