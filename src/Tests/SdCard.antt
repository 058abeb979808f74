-- ===== src/Tests/SdCard.antt =====
-- The SD card and its controller over a file of one byte for each offset.
use mr_iss.Base.{
  ℕ, ◌+◌, ◌≡◌, refl, inl, true, false, Option, some, List, [], ◌∷◌, arith, switch, length, Yields,
}
use mr_iss.Devices.SdCard.{Disk, Card, new_card, rcmd, cmd17}
use mr_iss.Devices.SdCard.Crc.{sd_crc7}
use mr_iss.Devices.SdCard.Crc.Laws.{crc7_bits, sd_crc7-crc7_bits}
use mr_iss.Devices.SdCard.Command.{command}
use mr_iss.Devices.SdCard.Laws.{IsWellFormed, command-IsWellFormed}
use mr_iss.Devices.SdCard.Protocol.{mode, protocol, run_commands, startup, run_commands-protocol}
use mr_iss.Devices.SdCard.Transfers.{ReadsBlock, command-read}
use mr_iss.Devices.Sd.{Sd}
use mr_iss.Devices.Sd.Work.{write32}
use mr_iss.Devices.Sd.Blocks.{Moved, block_number, write32-Moved}

-- A disk whose world counts the bytes that were transferred.
abbrev counting : Disk
counting = record {
  World = ℕ;
  pread = λ w a size o. (some size, w + size);
  pwrite = λ w a size o. (some size, w + size);
  store = λ w a bytes. w + length bytes;
}

abbrev inserted : Card
inserted = record new_card { opened = true; image_blocks = 4096 }

inserted-IsWellFormed : IsWellFormed inserted
unfolding new_card
inserted-IsWellFormed = (omega arith, inl refl)

opened : inserted.opened ≡ true
unfolding new_card
opened = refl

quiet : inserted.acmd_pending ≡ false
unfolding new_card
quiet = refl

abbrev four : List ℕ
four = 0 ∷ 0 ∷ 0 ∷ 0 ∷ []

-- The checksum of CMD0, which is 0x4a before the end bit.
sd_crc7-crc7_bits_example : sd_crc7 0x40_0000_0000 ≡ crc7_bits 40 0x40_0000_0000 0
sd_crc7-crc7_bits_example = sd_crc7-crc7_bits 0x40_0000_0000

command-IsWellFormed_example : Yields (λ out. IsWellFormed out.1) (command inserted 55 0 four)
command-IsWellFormed_example = command-IsWellFormed inserted 55 0 four inserted-IsWellFormed

run_commands-protocol_example :
    let m = mode inserted in
    let cmds = startup 0x1aa 0x40ff_8000 0xbeef_0000 in
    Yields
      (λ out. (out.0 ≡ (protocol m cmds).0) × (mode out.1 ≡ (protocol m cmds).1))
      (run_commands inserted four cmds)
run_commands-protocol_example =
    run_commands-protocol inserted four (startup 0x1aa 0x40ff_8000 0xbeef_0000)
      (opened, inserted-IsWellFormed)

command-read_example :
    Yields (ReadsBlock counting 0 0x1000 7) (command inserted (rcmd cmd17) 7 four)
command-read_example = command-read counting inserted 0 0x1000 7 four opened quiet

abbrev identity_map : ℕ → ℕ → Option ℕ
identity_map w a = some a

-- A command to read block 7 is in the registers.
abbrev asking : Sd
asking = record {
  regs = λ r. switch r ((4, 0x700) ∷ (5, 0x1100) ∷ (6, 0x10) ∷ (12, 128) ∷ (14, 0x1000) ∷ []) 0;
  has_bus = true;
  has_intc = true;
  card = inserted;
  irq_tx_triggered = false;
  irq_tx_enabled = false;
  irq_rx_triggered = false;
  irq_rx_enabled = true;
  txblocks = 0;
  cmd_ack = false;
  tx_ack = false;
  rx_ack = false;
  cmd_status = 0;
  tx_status = 0;
  rx_status = 0;
  dma_status = 0;
}

write32-Moved_example :
    Yields
      (Moved counting identity_map true asking (block_number asking) 0 0x1000)
      (write32 counting identity_map asking 0 0x18 0x11)
write32-Moved_example =
    write32-Moved counting identity_map asking 0 0x11 0x1000 refl refl true opened quiet
      (omega arith) refl (refl, refl, refl)
