-- ===== src/Devices/Intc.antt =====
-- The interrupt controller, DevXpsIntc.cc and DevXpsIntc.h, with the processor that it interrupts.
pub mod Laws
pub mod Delivery
use mr_iss.Base.{
  ℕ, zero, suc, ◌^◌, bit_and, bit_or, Bool, true, false, not, ◌&&◌, Option, none, some, ltb, ◌==◌,
  if◌then◌else◌, truthy, clear32, ◌>>=◌, Outcome, done, fatal,
}
use mathlib.Core.Option.{map}
use mr_iss.Cpu.State.{Cpu, assert_irq}

-- `regs` by register number, and `cpus`, which may be null.
pub record Intc : Type 0 where
  pub regs : ℕ → ℕ
  pub triggered_cpu : Bool
  pub cpus : Option Cpu

abbrev pub isr : ℕ
isr = 0

abbrev ier : ℕ
ier = 2

abbrev ivr : ℕ
ivr = 6

-- The constructor's `init`; the registers that it does not set are 0 here.
unfoldable pub init : Intc
init = record {
  regs = λ r. if r == ivr then 0xffff_ffff else 0;
  triggered_cpu = false;
  cpus = none;
}

unfoldable pub set_cpu_state : Intc → Cpu → Intc
set_cpu_state d c = record d { cpus = some c }

pub set_reg : Intc → ℕ → ℕ → Intc
set_reg d r v = record d { regs = λ j. if j == r then v else d.regs j }

unfoldable pub get_active : Intc → ℕ
get_active d = bit_and (d.regs isr) (d.regs ier)

pub drive : Intc → Bool → Intc
unfolding assert_irq
drive d v = record d { triggered_cpu = v; cpus = map (λ c. assert_irq c v) d.cpus }

pub reassess_output : Intc → Intc
unfolding drive get_active
reassess_output d =
    let active = truthy (get_active d) in
    if active && not d.triggered_cpu
    then drive d true
    else if not active && d.triggered_cpu
    then drive d false
    else d

-- The search of IVR's read, `n` lines from line `i` on.
pub first_active : ℕ → ℕ → ℕ → ℕ
first_active zero i active = 0xffff_ffff
first_active (suc n) i active =
    let rest = first_active n (suc i) active in if truthy (bit_and active (2 ^ i)) then i else rest

-- The register at an address; each one of the eight has a case in the switches.
pub data Register : Type 0 where
  isr_reg ipr_reg ier_reg iar_reg sie_reg cie_reg ivr_reg mer_reg : Register

pub decode : ℕ → Option Register
decode addr =
    let reg = bit_and addr 0x1c in
    if reg == 0x0
    then some isr_reg
    else if reg == 0x4
    then some ipr_reg
    else if reg == 0x8
    then some ier_reg
    else if reg == 0xc
    then some iar_reg
    else if reg == 0x10
    then some sie_reg
    else if reg == 0x14
    then some cie_reg
    else if reg == 0x18
    then some ivr_reg
    else if reg == 0x1c
    then some mer_reg
    else none

pub read_reg : Intc → Option Register → Outcome ℕ
unfolding get_active first_active
read_reg d (some isr_reg) = done (d.regs 0)
read_reg d (some ier_reg) = done (d.regs 2)
read_reg d (some mer_reg) = done (d.regs 7)
read_reg d (some iar_reg) = done 0
read_reg d (some sie_reg) = done 0
read_reg d (some cie_reg) = done 0
read_reg d (some ipr_reg) = done (get_active d)
read_reg d (some ivr_reg) = done (first_active 32 0 (get_active d))
read_reg d none = fatal

pub read32 : Intc → ℕ → Outcome ℕ
unfolding read_reg decode
read32 d addr = read_reg d (decode addr)

pub write_reg : Intc → Option Register → ℕ → Outcome Intc
unfolding set_reg
write_reg d (some isr_reg) value = done (set_reg d isr value)
write_reg d (some ier_reg) value = done (set_reg d ier value)
write_reg d (some mer_reg) value = done (set_reg d 7 value)
write_reg d (some ipr_reg) value = done d
write_reg d (some ivr_reg) value = done d
write_reg d (some iar_reg) value = done (set_reg d isr (clear32 (d.regs isr) value))
write_reg d (some sie_reg) value = done (set_reg d ier (bit_or (d.regs ier) value))
write_reg d (some cie_reg) value = done (set_reg d ier (clear32 (d.regs ier) value))
write_reg d none value = fatal

unfoldable pub write32 : Intc → ℕ → ℕ → Outcome Intc
unfolding write_reg decode reassess_output
write32 d addr value = write_reg d (decode addr) value >>= λ after. done (reassess_output after)

-- The narrow accesses are `FATAL`.
unfoldable read16 : Intc → ℕ → Outcome ℕ
read16 d addr = fatal

unfoldable read8 : Intc → ℕ → Outcome ℕ
read8 d addr = fatal

unfoldable write16 : Intc → ℕ → ℕ → Outcome Intc
write16 d addr value = fatal

unfoldable write8 : Intc → ℕ → ℕ → Outcome Intc
write8 d addr value = fatal

unfoldable pub trigger_irq : Intc → ℕ → Intc
unfolding set_reg reassess_output
trigger_irq d n =
    reassess_output (if ltb n 32 then set_reg d isr (bit_or (d.regs isr) (2 ^ n)) else d)
