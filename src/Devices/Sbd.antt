-- ===== src/Devices/Sbd.antt =====
-- The block device, DevSBD.cc and DevSBD.h. `intc` and `irq_number` are not used by any operation.
pub mod Laws
use mr_iss.Base.{
  ℕ, ◌+◌, ◌*◌, ◌/◌, bit_and, Bool, true, false, not, ◌||◌, Option, none, some, ltb, leb, ◌==◌,
  if◌then◌else◌, u32, ◌>>>◌, ◌>>=◌, Outcome, done, fatal,
}

abbrev reg_idr : ℕ
reg_idr = 0

abbrev pub reg_blks : ℕ
reg_blks = 1

abbrev pub reg_irq : ℕ
reg_irq = 2

abbrev pub reg_cmd : ℕ
reg_cmd = 3

abbrev pub reg_pa : ℕ
reg_pa = 4

abbrev pub reg_blk_start : ℕ
reg_blk_start = 5

abbrev pub reg_len : ℕ
reg_len = 6

abbrev reg_info : ℕ
reg_info = 7

abbrev pub cmd_idle : ℕ
cmd_idle = 0

abbrev blk_size : ℕ
blk_size = 512

-- The host that the device runs on: the bus's direct map, `pread` and `pwrite`, whose results only a
-- message prints. Offsets and lengths are the arguments of the calls.
pub record Host : Type 1 where
  pub World : Type 0
  pub direct_map : World → ℕ → Option ℕ
  pub pread : World → ℕ → ℕ → ℕ → World
  pub pwrite : World → ℕ → ℕ → ℕ → World

-- `fd >= 0` is `open`, and `bus` is set or null.
pub record Sbd : Type 0 where
  pub opened : Bool
  pub nr_blocks : ℕ
  pub has_bus : Bool
  pub regs : ℕ → ℕ

abbrev pub put : Sbd → ℕ → ℕ → Sbd
put d r v = record d { regs = λ j. if j == r then v else d.regs j }

-- The constructor.
unfoldable pub init : Sbd
init = record {
  opened = false;
  nr_blocks = 0;
  has_bus = false;
  regs = λ r. if r == reg_idr then 0xfeed_f00d else if r == reg_info then 1 else 0;
}

-- `openImage`, with the image's size in bytes when the host opened it. One of too many blocks is closed
-- again, and `fd` keeps its number.
unfoldable pub open_image : Sbd → Option ℕ → Sbd
open_image d none = record d { opened = false }
open_image d (some size) =
    let blks = size / blk_size in
    if ltb 0xffff_ffff blks
    then record d { opened = true }
    else put (record d { opened = true; nr_blocks = blks }) reg_blks blks

abbrev pub reg_of : ℕ → ℕ
reg_of addr = bit_and addr 0x1f >>> 2

unfoldable pub read32 : Sbd → ℕ → Outcome ℕ
read32 d addr = if leb (reg_of addr) reg_info then done (d.regs (reg_of addr)) else fatal

unfoldable read16 : Sbd → ℕ → Outcome ℕ
read16 d addr = fatal

unfoldable read8 : Sbd → ℕ → Outcome ℕ
read8 d addr = fatal

unfoldable write16 : Sbd → ℕ → ℕ → Outcome Sbd
write16 d addr v = fatal

unfoldable write8 : Sbd → ℕ → ℕ → Outcome Sbd
write8 d addr v = fatal

-- The test of a transfer against the image's end, whose sum is in 32 bits.
pub off_end : Sbd → ℕ → ℕ → Bool
off_end d block_start num =
    not (ltb block_start d.nr_blocks) || ltb d.nr_blocks (u32 (block_start + num))

module _ (host : Host) where
  open host use {World, direct_map, pread, pwrite}

  pub get_addr_dma : Sbd → World → ℕ → Outcome ℕ
  get_addr_dma d w addr =
      if d.has_bus then elim (direct_map w addr) [ none ↦ fatal | some a ↦ done a ] else fatal

  -- `doRead` and `doWrite`, which differ in the call. The products are in 32 bits.
  pub transfer : (World → ℕ → ℕ → ℕ → World) → Sbd → World → ℕ → ℕ → ℕ → Outcome World
  unfolding get_addr_dma off_end
  transfer move d w block_start num pa =
      if num == 0 || not d.opened
      then done w
      else get_addr_dma d w pa >>= λ ha. done (
          if off_end d block_start num
          then w
          else move w ha (u32 (num * blk_size)) (u32 (block_start * blk_size)))

  -- The transfer that a command asks for; an unknown command moves nothing.
  pub moved : Sbd → World → ℕ → Outcome World
  unfolding transfer
  moved d w value =
      if value == 1
      then transfer pread d w (d.regs reg_blk_start) (d.regs reg_len) (d.regs reg_pa)
      else if value == 3
      then transfer pwrite d w (d.regs reg_blk_start) (d.regs reg_len) (d.regs reg_pa)
      else done w

  pub command : Sbd → World → ℕ → Outcome (Sbd × World)
  unfolding moved
  command d w value =
      let busy = put d reg_cmd value in
      moved d w value >>= λ w'. done (put busy reg_cmd cmd_idle, w')

  unfoldable pub write32 : Sbd → World → ℕ → ℕ → Outcome (Sbd × World)
  unfolding command
  write32 d w addr value =
      let r = reg_of addr in
      if r == reg_irq || r == reg_pa || r == reg_len || r == reg_blk_start
      then done (put d r value, w)
      else if r == reg_cmd
      then if d.regs reg_cmd == cmd_idle then command d w value else done (d, w)
      else done (d, w)
