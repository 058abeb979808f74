-- ===== src/Devices/Sd.antt =====
-- The SD host controller (DevSD.cc, DevSD.h), with its card. The memory that a transfer uses is found by the
-- bus's direct map, a parameter.
pub mod Work
pub mod Blocks
use mr_iss.Base.{
  ℕ, bit_and, bit_or, Bool, false, not, [], ◌∷◌, ◌==◌, if◌then◌else◌, switch, truthy, bool_eq,
  ◌<<<◌, ◌>>>◌, Outcome, done, fatal,
}
use mr_iss.Devices.SdCard.{Card}

-- `regs` by register number. `has_bus` and `has_intc` are `bus` and `intc` set or null.
pub record Sd : Type 0 where
  pub regs : ℕ → ℕ
  pub has_bus : Bool
  pub has_intc : Bool
  pub card : Card
  pub irq_tx_triggered : Bool
  pub irq_tx_enabled : Bool
  pub irq_rx_triggered : Bool
  pub irq_rx_enabled : Bool
  pub txblocks : ℕ
  pub cmd_ack : Bool
  pub tx_ack : Bool
  pub rx_ack : Bool
  pub cmd_status : ℕ
  pub tx_status : ℕ
  pub rx_status : ℕ
  pub dma_status : ℕ

abbrev pub reg_cb0 : ℕ
reg_cb0 = 4

abbrev pub reg_cb1 : ℕ
reg_cb1 = 5

abbrev pub reg_ctrl : ℕ
reg_ctrl = 6

abbrev pub ctrl_cmdreq : ℕ
ctrl_cmdreq = 0x01

abbrev ctrl_rxreq : ℕ
ctrl_rxreq = 0x10

abbrev pub ctrl_txreq : ℕ
ctrl_txreq = 0x100

abbrev reg_status : ℕ
reg_status = 7

abbrev reg_status2 : ℕ
reg_status2 = 8

abbrev pub reg_datacfg : ℕ
reg_datacfg = 12

abbrev pub datacfg_wib : ℕ → ℕ
datacfg_wib x = bit_and x 0xff

abbrev pub datacfg_nrblk : ℕ → ℕ
datacfg_nrblk x = bit_and x 0xffff_0000 >>> 16

abbrev pub reg_dma_addr : ℕ
reg_dma_addr = 14

abbrev pub reg_irq : ℕ
reg_irq = 15

-- `init`, on an object as it is.
unfoldable pub init : Sd → Card → Sd
init d sdc = record d {
  regs = λ _. 0;
  txblocks = 0;
  irq_rx_triggered = false;
  irq_tx_triggered = false;
  irq_rx_enabled = false;
  irq_tx_enabled = false;
  cmd_ack = false;
  tx_ack = false;
  rx_ack = false;
  cmd_status = 0;
  tx_status = 0;
  rx_status = 0;
  dma_status = 0;
  card = sdc;
}

-- `!!(request) ^ ack`.
unfoldable pending : ℕ → ℕ → Bool → Bool
pending ctrl mask ack = not (bool_eq (truthy (bit_and ctrl mask)) ack)

pub cmd_pending : Sd → Bool
unfolding pending
cmd_pending d = pending (d.regs reg_ctrl) ctrl_cmdreq d.cmd_ack

pub tx_pending : Sd → Bool
unfolding pending
tx_pending d = pending (d.regs reg_ctrl) ctrl_txreq d.tx_ack

pub rx_pending : Sd → Bool
unfolding pending
rx_pending d = pending (d.regs reg_ctrl) ctrl_rxreq d.rx_ack

abbrev flag : Bool → ℕ → ℕ
flag b mask = if b then mask else 0

unfoldable status_word : Sd → ℕ
unfolding cmd_pending rx_pending tx_pending
status_word d =
    bit_or
      (bit_or
        (bit_or
          (bit_or
            (bit_or
              (bit_or
                (bit_or
                  (bit_or (bit_or (flag d.cmd_ack 0x1) (flag (cmd_pending d) 0x2))
                    (flag d.rx_ack 0x10))
                  (flag (rx_pending d) 0x20))
                (flag d.tx_ack 0x100))
              (flag (tx_pending d) 0x200))
            (bit_and d.cmd_status 3 <<< 2))
          (bit_and d.rx_status 3 <<< 6))
        (bit_and d.tx_status 3 <<< 10))
      (bit_and d.dma_status 3 <<< 14)

unfoldable irq_word : Sd → ℕ
irq_word d =
    bit_or
      (bit_or (bit_or (flag d.irq_rx_triggered 0x1) (flag d.irq_tx_triggered 0x2))
        (flag d.irq_rx_enabled 0x100))
      (flag d.irq_tx_enabled 0x200)

abbrev pub register_of : ℕ → ℕ
register_of addr = bit_and addr 0x3f >>> 2

-- The other widths are fatal.
unfoldable pub read32 : Sd → ℕ → Outcome ℕ
unfolding status_word irq_word
read32 d addr =
    let reg = register_of addr in
    let plain = done (d.regs reg) in
    switch reg
      ((0, plain)
        ∷ (1, plain)
        ∷ (2, plain)
        ∷ (3, plain)
        ∷ (reg_cb0, plain)
        ∷ (reg_cb1, plain)
        ∷ (reg_ctrl, plain)
        ∷ (reg_datacfg, plain)
        ∷ (reg_dma_addr, plain)
        ∷ (reg_status, done (status_word d))
        ∷ (reg_status2, done (bit_and d.txblocks 0xffff))
        ∷ (reg_irq, done (irq_word d))
        ∷ [])
      fatal

unfoldable store_reg : Sd → ℕ → ℕ → Sd
store_reg d reg v = record d { regs = λ j. if j == reg then v else d.regs j }

-- A 1 in the place of a completion clears it.
unfoldable write_irq : Sd → ℕ → Sd
write_irq d v = record d {
  irq_tx_enabled = truthy (bit_and v 0x200);
  irq_rx_enabled = truthy (bit_and v 0x100);
  irq_tx_triggered = if truthy (bit_and v 0x2) then false else d.irq_tx_triggered;
  irq_rx_triggered = if truthy (bit_and v 0x1) then false else d.irq_rx_triggered;
}

-- The effect of a write on the registers, before the work that it may ask for.
unfoldable pub write_reg : Sd → ℕ → ℕ → Outcome Sd
unfolding store_reg write_irq
write_reg d reg v =
    let plain = done (store_reg d reg v) in
    switch reg
      ((reg_cb0, plain)
        ∷ (reg_cb1, plain)
        ∷ (reg_ctrl, plain)
        ∷ (reg_datacfg, plain)
        ∷ (reg_dma_addr, plain)
        ∷ (reg_irq, done (write_irq d v))
        ∷ [])
      fatal
