-- ===== src/Cpu/State.antt =====
-- The registers of PPCCPUState.h with their accessors, the tick and the pending tests. Registers are
-- 32 bits wide, the time base and the instruction count 64.
pub mod Ticks
use mr_iss.Base.{
  ℕ, ◌+◌, bit_and, bit_or, Bool, false, not, ◌&&◌, ltb, ◌==◌, if◌then◌else◌, truthy, to_int, u32,
  u64, ◌<<<◌, ◌>>>◌, sub32, clear32, Outcome, done, fatal,
}

pub record Cpu : Type 0 where
  pub gprs : ℕ → ℕ
  pub pc : ℕ
  pub ctr : ℕ
  pub lr : ℕ
  pub xer : ℕ
  pub cr : ℕ
  pub msr : ℕ
  pub sprg0 : ℕ
  pub sprg1 : ℕ
  pub sprg2 : ℕ
  pub sprg3 : ℕ
  pub srr0 : ℕ
  pub srr1 : ℕ
  pub dar : ℕ
  pub dsisr : ℕ
  pub dec : ℕ
  pub sdr1 : ℕ
  pub hid0 : ℕ
  pub hid1 : ℕ
  pub irq_flag : Bool
  pub pir : ℕ
  pub tb : ℕ
  pub cpu_inst_count : ℕ

-- The constructor. The registers that it leaves unset are 0 here.
unfoldable pub reset : Cpu
reset = record {
  gprs = λ _. 0;
  pc = 0;
  ctr = 0;
  lr = 0;
  xer = 0;
  cr = 0;
  msr = 0;
  sprg0 = 0;
  sprg1 = 0;
  sprg2 = 0;
  sprg3 = 0;
  srr0 = 0;
  srr1 = 0;
  dar = 0;
  dsisr = 0;
  dec = 0xffff_ffff;
  sdr1 = 0;
  hid0 = 0;
  hid1 = 0;
  irq_flag = false;
  pir = 0;
  tb = 0;
  cpu_inst_count = 0;
}

abbrev xer_so : ℕ
xer_so = 0x8000_0000

abbrev xer_ov : ℕ
xer_ov = 0x4000_0000

abbrev xer_ca : ℕ
xer_ca = 0x2000_0000

abbrev pub msr_dr : ℕ
msr_dr = 0x10

abbrev pub msr_ir : ℕ
msr_ir = 0x20

abbrev pub msr_ip : ℕ
msr_ip = 0x40

abbrev pub msr_pr : ℕ
msr_pr = 0x4000

abbrev pub msr_ee : ℕ
msr_ee = 0x8000

-- A register number past 31 fails an `ASSERT`.
unfoldable pub set_gpr : Cpu → ℕ → ℕ → Outcome Cpu
set_gpr c r d =
    if ltb r 32 then done (record c { gprs = λ j. if j == r then d else c.gprs j }) else fatal

unfoldable pub get_gpr : Cpu → ℕ → Outcome ℕ
get_gpr c r = if ltb r 32 then done (c.gprs r) else fatal

unfoldable pub set_xer : Cpu → ℕ → Cpu
set_xer c v = record c { xer = bit_and v 0xe000_007f }

-- `setXER_SO`, `setXER_OV` and `setXER_CA`.
unfoldable pub set_flag : ℕ → Cpu → Bool → Cpu
set_flag mask c v =
    let cleared = clear32 c.xer mask in
    record c { xer = if v then bit_or cleared mask else cleared }

unfoldable pub set_xer_so : Cpu → Bool → Cpu
unfolding set_flag
set_xer_so = set_flag xer_so

unfoldable pub set_xer_ov : Cpu → Bool → Cpu
unfolding set_flag
set_xer_ov = set_flag xer_ov

unfoldable pub set_xer_ca : Cpu → Bool → Cpu
unfolding set_flag
set_xer_ca = set_flag xer_ca

unfoldable pub get_xer_so : Cpu → ℕ
get_xer_so c = to_int (truthy (bit_and c.xer xer_so))

unfoldable pub get_xer_ov : Cpu → ℕ
get_xer_ov c = to_int (truthy (bit_and c.xer xer_ov))

unfoldable pub get_xer_ca : Cpu → ℕ
get_xer_ca c = to_int (truthy (bit_and c.xer xer_ca))

-- The time base counts ticks, four to each unit that software sees.
unfoldable pub set_tb : Cpu → ℕ → Cpu
set_tb c t = record c { tb = u64 (t <<< 2) }

unfoldable pub get_tb : Cpu → ℕ
get_tb c = c.tb >>> 2

unfoldable pub is_privileged : Cpu → Bool
is_privileged c = not (truthy (bit_and c.msr msr_pr))

-- `CPUTick`: the decrementer falls by one with every fourth tick.
unfoldable pub cpu_tick : Cpu → ℕ → Cpu
cpu_tick c t =
    let tb = u64 (c.tb + t) in
    record c {
      cpu_inst_count = u64 (c.cpu_inst_count + t);
      tb = tb;
      dec = if bit_and tb 3 == 0 then sub32 c.dec 1 else c.dec;
    }

unfoldable pub assert_irq : Cpu → Bool → Cpu
assert_irq c status = record c { irq_flag = status }

unfoldable pub is_decrementer_pending : Cpu → Bool
is_decrementer_pending c = truthy (bit_and c.msr msr_ee) && truthy (bit_and c.dec 0x8000_0000)

unfoldable pub is_irq_pending : Cpu → Bool
is_irq_pending c = truthy (bit_and c.msr msr_ee) && c.irq_flag

unfoldable pub inc_pc : Cpu → Cpu
inc_pc c = record c { pc = u32 (c.pc + 4) }
