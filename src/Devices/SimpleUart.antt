-- ===== src/Devices/SimpleUart.antt =====
-- The simple UART (DevSimpleUart.cc, DevSimpleUart.h), over a serial line. The mutex is left out, and what a sent byte
-- prints on the terminal.
pub mod Laws
use mr_iss.Base.{
  ℕ, ◌-◌, bit_and, bit_or, Bool, true, false, not, ◌&&◌, [], ◌∷◌, if◌then◌else◌, switch, truthy,
  ◌>>=◌, Outcome, done, fatal,
}
use mr_iss.Devices.Uart.{Serial}

-- `regs[1]` to `regs[3]` by their names. `has_intc` and `has_serio` are `intc` and `serio` set or null.
pub record SimpleUart : Type 0 where
  pub status : ℕ
  pub irq_status : ℕ
  pub irq_enable : ℕ
  pub has_intc : Bool
  pub irq_active : Bool
  pub has_serio : Bool

abbrev reg_rx : ℕ
reg_rx = 0x00

abbrev reg_status : ℕ
reg_status = 0x04

abbrev reg_irq_status : ℕ
reg_irq_status = 0x08

abbrev reg_irq_enable : ℕ
reg_irq_enable = 0x0c

-- The constructor and `init`.
unfoldable pub init : Bool → Bool → SimpleUart
init intc serio = record {
  status = 2;
  irq_status = 0;
  irq_enable = 0;
  has_intc = intc;
  irq_active = false;
  has_serio = serio;
}

unfoldable pub wants_irq : SimpleUart → Bool
wants_irq u = truthy (bit_and u.irq_status u.irq_enable)

-- `assessIRQstatus`, with whether the interrupt is wanted, and whether the controller is told.
unfoldable pub assess_with : SimpleUart → Bool → SimpleUart × Bool
assess_with u want =
    if not u.irq_active && want
    then (record u { irq_active = true }, u.has_intc)
    else if u.irq_active && not want
    then (record u { irq_active = false }, false)
    else (u, false)

unfoldable pub assess_irq_status : SimpleUart → SimpleUart × Bool
unfolding wants_irq assess_with
assess_irq_status u = assess_with u (wants_irq u)

pub received : SimpleUart → SimpleUart
received u = record u { status = bit_or u.status 1; irq_status = bit_or u.irq_status 1 }

-- `asyncRxCB`.
unfoldable pub async_rx_cb : SimpleUart → SimpleUart × Bool
unfolding received assess_irq_status
async_rx_cb u = assess_irq_status (received u)

module _ (line : Serial) where
  open line use {World, get_byte, put_byte}

  unfoldable pub send_byte : SimpleUart → World → ℕ → World
  send_byte u w v = if u.has_serio then put_byte w v else w

  unfoldable pub take_byte : SimpleUart → World → ℕ × World
  take_byte u w = if u.has_serio then get_byte w else (0, w)

  -- The switch of `read8`.
  unfoldable pub read_reg : SimpleUart → World → ℕ → Outcome (ℕ × SimpleUart × World)
  unfolding take_byte
  read_reg u w reg =
      let taken = take_byte u w in
      switch reg
        ((reg_rx, done (taken.0, record u { status = bit_and u.status 0xfe }, taken.1))
          ∷ (reg_status, done (u.status, u, w))
          ∷ (reg_irq_status, done (u.irq_status, u, w))
          ∷ (reg_irq_enable, done (u.irq_enable, u, w))
          ∷ [])
        fatal

  unfoldable pub read8 : SimpleUart → World → ℕ → Outcome (ℕ × SimpleUart × World × Bool)
  unfolding read_reg assess_irq_status
  read8 u w addr = read_reg u w (bit_and addr 0xf) >>= λ r.
      let a = assess_irq_status r.1 in done (r.0, a.0, r.2, a.1)

  -- The switch of `write8`: a 1 clears a place of the interrupt's status.
  unfoldable pub write_reg : SimpleUart → World → ℕ → ℕ → Outcome (SimpleUart × World)
  unfolding send_byte
  write_reg u w reg v =
      switch reg
        ((reg_rx, done (u, send_byte u w v))
          ∷ (reg_irq_status, done (record u { irq_status = bit_and u.irq_status (0xff - v) }, w))
          ∷ (reg_irq_enable, done (record u { irq_enable = v }, w))
          ∷ [])
        fatal

  unfoldable pub write8 : SimpleUart → World → ℕ → ℕ → Outcome (SimpleUart × World × Bool)
  unfolding write_reg assess_irq_status
  write8 u w addr v = write_reg u w (bit_and addr 0xf) v >>= λ r.
      let a = assess_irq_status r.0 in done (a.0, r.1, a.1)
