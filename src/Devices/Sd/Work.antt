-- ===== src/Devices/Sd/Work.antt =====
-- The work of the SD host controller (DevSD.cc): the command, the transfers and the interrupt.
use mr_iss.Base.{
  ℕ, ◌+◌, ◌*◌, bit_and, bit_or, Bool, true, not, ◌&&◌, ◌||◌, Option, none, some, List, [], ◌∷◌, ltb,
  ◌==◌, if◌then◌else◌, truthy, get_or, u32, ◌<<<◌, ◌>>>◌, ◌>>=◌, Outcome, done, fatal,
}
use mr_iss.Devices.SdCard.{Disk, Card}
use mr_iss.Devices.SdCard.Command.{command, read, write, Ended}
use mr_iss.Devices.Sd.{
  Sd, reg_cb0, reg_cb1, reg_datacfg, reg_dma_addr, datacfg_wib, datacfg_nrblk, cmd_pending,
  rx_pending, tx_pending, register_of, write_reg,
}

-- The response lands in the first four registers.
unfoldable put_response : Sd → List ℕ → Sd
put_response d r = record d { regs = λ j. if ltb j 4 then get_or r j 0 else d.regs j }

unfoldable pub command_number : Sd → ℕ
command_number d = bit_and (d.regs reg_cb1 >>> 8) 0x3f

unfoldable pub command_argument : Sd → ℕ
command_argument d = bit_or (u32 (d.regs reg_cb1 <<< 24)) (d.regs reg_cb0 >>> 8)

-- The acknowledgement of a command.
unfoldable pub after_command : Sd → Bool × Card × List ℕ → Sd
unfolding put_response
after_command d (ok, c, r) = record (put_response d r) {
  card = c;
  cmd_status = if ok then 0 else 1;
  cmd_ack = not d.cmd_ack;
}

unfoldable pub run_command : Sd → Outcome Sd
unfolding command command_number command_argument after_command
run_command d =
    command d.card (command_number d) (command_argument d)
      (d.regs 0 ∷ d.regs 1 ∷ d.regs 2 ∷ d.regs 3 ∷ [])
    >>= λ r. done (after_command d r)

unfoldable pub rx_len : Sd → ℕ
rx_len d =
    let cfg = d.regs reg_datacfg in
    if datacfg_nrblk cfg == 0 then datacfg_wib cfg * 4 else (datacfg_nrblk cfg + 1) * 512

unfoldable pub tx_len : Sd → ℕ
tx_len d = (datacfg_nrblk (d.regs reg_datacfg) + 1) * 512

module _ (disk : Disk) (direct_map : disk.World → ℕ → Option ℕ) where
  open disk use {World}

  unfoldable pub get_addr_dma : Sd → World → ℕ → Outcome ℕ
  get_addr_dma d w addr =
      if d.has_bus then elim (direct_map w addr) [ none ↦ fatal | some p ↦ done p ] else fatal

  -- What a read leaves: nothing is acknowledged when it is not good and not an error.
  unfoldable pub after_read : Sd → Ended disk → Sd × World
  after_read d (ok, err, c, w) = (
    if ok || truthy err
        then record d {
          card = c;
          rx_status = if truthy err then 1 else 0;
          rx_ack = not d.rx_ack;
          irq_rx_triggered = true;
        }
        else record d { card = c },
    w,
  )

  -- The transfer that a command may start.
  unfoldable pub receive : Sd → World → Outcome (Sd × World)
  unfolding get_addr_dma after_read rx_len read
  receive d w =
      if rx_pending d
      then (get_addr_dma d w (d.regs reg_dma_addr) >>= λ base.
          done (after_read d (read disk d.card w base (rx_len d) 0)))
      else done (d, w)

  -- The first part of `checkForWork`.
  unfoldable pub work_command : Sd → World → Outcome (Sd × World)
  unfolding run_command receive
  work_command d w = if cmd_pending d then (run_command d >>= λ d'. receive d' w) else done (d, w)

  unfoldable pub after_write : Sd → Ended disk → Sd × World
  after_write d (ok, err, c, w) = (
    record d {
      card = c;
      tx_status = if ok then 0 else 1;
      tx_ack = not d.tx_ack;
      irq_tx_triggered = true;
    },
    w,
  )

  -- The second part.
  unfoldable pub work_tx : Sd → World → Outcome (Sd × World)
  unfolding get_addr_dma after_write tx_len write
  work_tx d w =
      if tx_pending d
      then (get_addr_dma d w (d.regs reg_dma_addr) >>= λ base.
          done (after_write d (write disk d.card w base (tx_len d) 0)))
      else done (d, w)

  -- Whether the interrupt is triggered at the end.
  unfoldable pub wants_irq : Sd → Bool
  wants_irq d =
      d.has_intc
      && ((d.irq_tx_triggered && d.irq_tx_enabled) || (d.irq_rx_triggered && d.irq_rx_enabled))

  -- `checkForWork`, with whether it triggers the interrupt.
  unfoldable pub check_for_work : Sd → World → Outcome (Sd × World × Bool)
  unfolding work_command work_tx wants_irq
  check_for_work d w =
      work_command d w >>= λ r. work_tx r.0 r.1 >>= λ s. done (s.0, s.1, wants_irq s.0)

  unfoldable pub write32 : Sd → World → ℕ → ℕ → Outcome (Sd × World × Bool)
  unfolding write_reg check_for_work
  write32 d w addr v = write_reg d (register_of addr) v >>= λ d'. check_for_work d' w
