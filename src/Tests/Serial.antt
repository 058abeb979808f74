-- ===== src/Tests/Serial.antt =====
-- The UART and the SPI host over lines that give constant or echoed bytes, a RAM and a display line.
use mr_iss.Base.{
  ◌*◌, ℕ, ◌+◌, ◌%◌, ◌≤◌, ◌≡◌, refl, ◌⊎◌, inl, inr, true, false, [], ◌∷◌, arith, switch, Yields,
}
use mr_iss.Devices.Lcdc.{Lcdc}
use mr_iss.Devices.Lcdc.Frame.{Screen, transform_framebuffer}
use mr_iss.Devices.Lcdc.Frame.Laws.{transform_framebuffer-Shows, transform_framebuffer-inside}
use mr_iss.Devices.Uart.{
  Serial, Uart, init, assess_irq_status, reg_iir, reg_rbr, read8, is_page1, dr_irq, thre_irq,
}
use mr_iss.Devices.Uart.Laws.{
  Event, IsConsistent, Consistent, run, run-IsConsistent, read8-forgets_thre,
}
use mr_iss.Devices.Spi.{SpiDev, Spi, do_transfer}
use mr_iss.Devices.Spi.Laws.{number_of, exchange, bytes_of, do_transfer-exchange}
use mr_iss.Devices.SpiGpio.Laws.{exchange_byte, Exchanged, exchange_byte-Exchanged}
use mr_iss.Devices.Ram
use mr_iss.Devices.Ram.{Ram}
use mr_iss.Devices.Ram.Laws.{read32-write32}

-- A line that always has the byte 0x41 and counts what is sent.
abbrev teletype : Serial
teletype = record { World = ℕ; get_byte = λ w. (0x41, w); put_byte = λ w v. w + 1 }

abbrev fresh : Uart
fresh = init true true

fresh-IsConsistent : IsConsistent fresh
unfolding init
fresh-IsConsistent = record { iir-cases = inl refl; active = refl }

run-IsConsistent_example :
    Yields
      (Consistent teletype)
      (run teletype fresh 0 (Event.writes 1 3 ∷ Event.receives ∷ Event.reads 0 ∷ []))
run-IsConsistent_example =
    run-IsConsistent teletype fresh 0 (Event.writes 1 3 ∷ Event.receives ∷ Event.reads 0 ∷ [])
      fresh-IsConsistent

-- Data is ready, the transmitter is empty and both interrupts are enabled.
abbrev both : Uart
both = record {
  regs = λ r. switch r ((1, 3) ∷ (5, 0x61) ∷ []) 0;
  has_intc = true;
  irq_active = false;
  has_serio = true;
  thre_reported = false;
}

no_page1 : is_page1 both ≡ false
unfolding is_page1
no_page1 = refl

data_ready : dr_irq both ≡ true
unfolding dr_irq
data_ready = refl

empty : thre_irq both ≡ true
unfolding thre_irq
empty = refl

read8-forgets_thre_example :
    let v = (assess_irq_status both).0 in
    (v.regs reg_iir ≡ 4)
    × Yields
        (λ r. (r.1.regs reg_iir ≡ 1) × (r.1.irq_active ≡ false) × (r.3 ≡ false))
        (read8 teletype v 0 reg_rbr)
read8-forgets_thre_example = read8-forgets_thre teletype both 0 refl no_page1 data_ready empty

-- A device that answers each byte with the one before it.
abbrev delay : SpiDev
delay = record {
  World = ℕ;
  set_config = λ w cpol cpha div. w;
  get_put_byte = λ w b. (w % 256, b);
  set_cs = λ w v. w;
  start = λ w. w;
}

abbrev attached : Spi
attached = record {
  config = 0;
  len_a = 3;
  len_b = 0;
  cs = 1;
  txd_a = 0x4433_2211;
  rxd_a = 0;
  txd_b = 0;
  rxd_b = 0;
  clkdiv = 0;
  has_spidev = true;
}

do_transfer-exchange_example :
    let e = exchange delay 0xff (bytes_of (3 + 1) 0x4433_2211) in
    do_transfer delay attached 0xff 0x4433_2211 3 ≡ (number_of e.0, e.1)
do_transfer-exchange_example =
    do_transfer-exchange delay (λ w b. omega arith) attached 0xff 0x4433_2211 3 refl (omega arith)

abbrev memory : Ram
memory = record {
  is_rom = false;
  mapped = true;
  bytes = λ o. o % 256;
  base_address = 0x1000;
  address_span = 0x1000;
}

read32-write32_example :
    (memory.is_rom ≡ false
      → Ram.read32 (Ram.write32 memory 0x1010 0xcafe_f00d) 0x1010 ≡ 0xcafe_f00d)
    × ((Ram.offset_from_pa memory 0x1014 + 4 ≤ Ram.offset_from_pa memory 0x1010)
          ⊎ (Ram.offset_from_pa memory 0x1010 + 4 ≤ Ram.offset_from_pa memory 0x1014)
        → Ram.read32 (Ram.write32 memory 0x1010 0xcafe_f00d) 0x1014 ≡ Ram.read32 memory 0x1014)
    × (memory.is_rom ≡ true → Ram.write32 memory 0x1010 0xcafe_f00d ≡ memory)
read32-write32_example = read32-write32 memory 0x1010 0x1014 0xcafe_f00d (omega arith)

-- Four-bit pixels, each twice as wide and as high, with the palette's entry twice the index; a line is ten pixels and so
-- two words.
abbrev four_bit : Lcdc
four_bit = record {
  regs = λ _. 0;
  palette = λ i. i * 2;
  display_enable = true;
  border_enable = false;
  display_x = 640;
  display_y = 480;
  scale_x = 2;
  scale_y = 2;
  bpp = 4;
}

abbrev small_screen : Screen
small_screen = record { width = 20; height = 4; pixels = λ _. 0 }

transform_framebuffer-Shows_example :
    (transform_framebuffer (λ v. v) (λ i. 0x7654_3210 + i) four_bit small_screen).pixels
      (20 * (1 * 2 + 1) + (8 * 2 + 1))
    ≡ 0x6_0000
transform_framebuffer-Shows_example =
    transform_framebuffer-Shows (λ v. v) (λ i. 0x7654_3210 + i) four_bit small_screen 1 1 8 1
      (inr (inr (inr (inl refl)))) (omega arith) (omega arith) (omega arith) (omega arith)

transform_framebuffer-inside_example :
    (transform_framebuffer (λ v. v) (λ i. 0x7654_3210 + i) four_bit small_screen).pixels 80 ≡ 0
transform_framebuffer-inside_example =
    transform_framebuffer-inside (λ v. v) (λ i. 0x7654_3210 + i) four_bit small_screen 80
      (omega arith) (omega arith)

-- Mode 3, after mode 0.
exchange_byte-Exchanged_example :
    Exchanged true 0x40 0xa5
      (exchange_byte (record { cpol = false; cpha = false; clkdiv = 1 }) true true 4 0x40 0xa5)
exchange_byte-Exchanged_example =
    exchange_byte-Exchanged (record { cpol = false; cpha = false; clkdiv = 1 }) true true 4 0x40
      0xa5 (omega arith)
