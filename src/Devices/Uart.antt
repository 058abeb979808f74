-- ===== src/Devices/Uart.antt =====
-- The UART (DevUart.cc, DevUart.h), over a serial line. The mutex is left out: an operation is one step.
-- What a sent byte prints on the terminal is left out.
pub mod Laws
use mr_iss.Base.{
  ℕ, ◌+◌, bit_and, bit_or, Bool, true, false, not, ◌&&◌, ◌||◌, [], ◌∷◌, ◌==◌, if◌then◌else◌, switch,
  truthy, ◌>>=◌, Outcome, done, fatal,
}

-- The line's backend: `getByte` and `putByte`.
pub record Serial : Type 1 where
  pub World : Type 0
  pub get_byte : World → ℕ × World
  pub put_byte : World → ℕ → World

-- `has_intc` and `has_serio` are `intc` and `serio` set or null.
pub record Uart : Type 0 where
  pub regs : ℕ → ℕ
  pub has_intc : Bool
  pub irq_active : Bool
  pub has_serio : Bool
  pub thre_reported : Bool

abbrev pub reg_rbr : ℕ
reg_rbr = 0

abbrev pub reg_ier : ℕ
reg_ier = 1

abbrev reg_fcr : ℕ
reg_fcr = 2

abbrev reg_lcr : ℕ
reg_lcr = 3

abbrev reg_mcr : ℕ
reg_mcr = 4

abbrev pub reg_lsr : ℕ
reg_lsr = 5

abbrev reg_msr : ℕ
reg_msr = 6

abbrev reg_scr : ℕ
reg_scr = 7

-- `8 + UART_REG_IIR`, on the second page.
abbrev pub reg_iir : ℕ
reg_iir = 10

abbrev pub put : Uart → ℕ → ℕ → Uart
put u r v = record u { regs = λ j. if j == r then v else u.regs j }

-- The constructor; `init` sets the registers that are set here.
unfoldable pub init : Bool → Bool → Uart
init intc serio = record {
  regs = λ j. switch j ((reg_lsr, 0x60) ∷ (reg_iir, 1) ∷ (8, 0x45) ∷ (9, 1) ∷ []) 0;
  has_intc = intc;
  irq_active = false;
  has_serio = serio;
  thre_reported = false;
}

unfoldable pub is_page1 : Uart → Bool
is_page1 u = truthy (bit_and (u.regs reg_lcr) 0x80)

-- The two interrupts that are supported: received data, and the transmitter empty and not yet reported.
unfoldable pub dr_irq : Uart → Bool
dr_irq u = truthy (bit_and (u.regs reg_lsr) 0x01) && truthy (bit_and (u.regs reg_ier) 0x01)

unfoldable pub thre_irq : Uart → Bool
thre_irq u =
    (truthy (bit_and (u.regs reg_lsr) 0x20) && truthy (bit_and (u.regs reg_ier) 0x02))
    && not u.thre_reported

unfoldable iir_of : Bool → Bool → ℕ
iir_of dr thre = if dr then 4 else if thre then 2 else 1

-- `assessIRQstatus` with the two interrupts, and whether the interrupt controller is told.
unfoldable pub assess_with : Uart → Bool → Bool → Uart × Bool
unfolding iir_of
assess_with u dr thre =
    let v = put u reg_iir (iir_of dr thre) in
    if not u.irq_active && (dr || thre)
    then (
      record v { irq_active = true; thre_reported = if thre then true else u.thre_reported },
      u.has_intc,
    )
    else if u.irq_active && not (dr || thre)
    then (record v { irq_active = false }, false)
    else (v, false)

unfoldable pub assess_irq_status : Uart → Uart × Bool
unfolding assess_with dr_irq thre_irq
assess_irq_status u = assess_with u (dr_irq u) (thre_irq u)

-- `asyncRxCB`.
unfoldable pub async_rx_cb : Uart → Uart × Bool
unfolding assess_irq_status
async_rx_cb u = assess_irq_status (put u reg_lsr (bit_or (u.regs reg_lsr) 0x01))

module _ (line : Serial) where
  open line use {World, get_byte, put_byte}

  unfoldable pub send_byte : Uart → World → ℕ → World
  send_byte u w v = if u.has_serio then put_byte w v else w

  unfoldable pub take_byte : Uart → World → ℕ × World
  take_byte u w = if u.has_serio then get_byte w else (0, w)

  -- The switch of `read8`.
  unfoldable pub read_reg : Uart → World → ℕ → Outcome (ℕ × Uart × World)
  unfolding is_page1 take_byte
  read_reg u w reg =
      let plain = done (u.regs reg, u, w) in
      switch reg
        ((
          reg_rbr,
          if is_page1 u
              then done (u.regs (8 + reg), u, w)
              else done (
                (take_byte u w).0,
                put u reg_lsr (bit_and (u.regs reg_lsr) 0xfe),
                (take_byte u w).1,
              ),
        )
          ∷ (reg_ier, if is_page1 u then done (u.regs (8 + reg), u, w) else plain)
          ∷ (reg_fcr, done (u.regs (8 + reg), u, w))
          ∷ (reg_lcr, plain)
          ∷ (reg_mcr, plain)
          ∷ (reg_lsr, plain)
          ∷ (reg_msr, plain)
          ∷ (reg_scr, plain)
          ∷ [])
        fatal

  -- The byte that is read, the device, the line, and whether the interrupt controller is told.
  unfoldable pub read8 : Uart → World → ℕ → Outcome (ℕ × Uart × World × Bool)
  unfolding read_reg assess_irq_status
  read8 u w addr = read_reg u w (bit_and addr 7) >>= λ r.
      let a = assess_irq_status r.1 in done (r.0, a.0, r.2, a.1)

  -- The switch of `write8`; a byte that is sent makes the empty transmitter news again.
  unfoldable pub write_reg : Uart → World → ℕ → ℕ → Outcome (Uart × World)
  unfolding is_page1 send_byte
  write_reg u w reg v =
      let plain = done (put u reg v, w) in
      switch reg
        ((
          reg_rbr,
          if is_page1 u
              then done (put u (8 + reg) v, w)
              else done (record u { thre_reported = false }, send_byte u w v),
        )
          ∷ (reg_ier, if is_page1 u then done (put u (8 + reg) v, w) else plain)
          ∷ (reg_fcr, plain)
          ∷ (reg_lcr, plain)
          ∷ (reg_mcr, plain)
          ∷ (reg_lsr, plain)
          ∷ (reg_msr, plain)
          ∷ (reg_scr, plain)
          ∷ [])
        fatal

  unfoldable pub write8 : Uart → World → ℕ → ℕ → Outcome (Uart × World × Bool)
  unfolding write_reg assess_irq_status
  write8 u w addr v = write_reg u w (bit_and addr 7) v >>= λ r.
      let a = assess_irq_status r.0 in done (a.0, r.1, a.1)
