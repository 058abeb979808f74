-- ===== src/Devices/SpiGpio.antt =====
-- The SPI device on the host's pins (SPIDevGPIO.cc, SPIDevGPIO.h), over the pin library.
pub mod Laws
use mr_iss.Base.{
  ℕ, zero, suc, bit_and, bit_or, bit_xor, Bool, false, not, ◌&&◌, ◌==◌, if◌then◌else◌, truthy,
  to_int, u8, ◌<<<◌,
}
use mr_iss.Devices.Spi.{SpiDev}

-- `gpioWrite`, `gpioRead`, and the library's set-up, whose calls `init` makes and leaves the program where it fails.
pub record Pins : Type 1 where
  pub World : Type 0
  pub gpio_write : World → ℕ → ℕ → World
  pub gpio_read : World → ℕ → ℕ
  pub set_up : World → World

-- The field `cs`, which nothing reads or writes after the constructor, is left out.
pub record SpiGpio : Type 0 where
  pub cpol : Bool
  pub cpha : Bool
  pub clkdiv : ℕ

abbrev pub gpio_dout : ℕ
gpio_dout = 7

abbrev pub gpio_din : ℕ
gpio_din = 8

abbrev pub gpio_clk : ℕ
gpio_clk = 9

abbrev gpio_cs : ℕ
gpio_cs = 10

module _ (pins : Pins) where
  open pins use {World, gpio_write, gpio_read, set_up}

  unfoldable set_clk : World → Bool → Bool → World
  set_clk w on cpol = gpio_write w gpio_clk (bit_xor (to_int on) (to_int cpol))

  -- A cycle of the loop of `getPutByte`, with `clk`, `r` and the pins.
  unfoldable clock_bit : Bool → Bool → ℕ → ℕ → Bool × ℕ × World → Bool × ℕ × World
  unfolding set_clk
  clock_bit cpol cpha b bit s =
      let out = gpio_write s.2 gpio_dout (to_int (truthy (bit_and b (1 <<< bit)))) in
      let r = u8 (bit_or (s.1 <<< 1) (gpio_read out gpio_din)) in
      let half = set_clk out (not s.0) cpol in
      if not (cpha && bit == 0) then (s.0, r, set_clk half s.0 cpol) else (not s.0, r, half)

  -- The loop with `n` bits left.
  clock_bits : Bool → Bool → ℕ → ℕ → Bool × ℕ × World → Bool × ℕ × World
  unfolding clock_bit
  clock_bits cpol cpha b zero s = s
  clock_bits cpol cpha b (suc n) s = clock_bits cpol cpha b n (clock_bit cpol cpha b n s)

  pub set_config : SpiGpio × World → Bool → Bool → ℕ → SpiGpio × World
  unfolding set_clk
  set_config s cpol cpha clkdiv =
      (record { cpol = cpol; cpha = cpha; clkdiv = clkdiv }, set_clk s.1 false cpol)

  pub get_put_byte : SpiGpio × World → ℕ → ℕ × (SpiGpio × World)
  unfolding clock_bits set_clk
  get_put_byte s b =
      let d = s.0 in
      let e = clock_bits d.cpol d.cpha b 8 (d.cpha, 0, set_clk s.1 d.cpha d.cpol) in
      (e.1, (d, set_clk e.2 false d.cpol))

  unfoldable pub set_cs : SpiGpio × World → Bool → SpiGpio × World
  set_cs s v = (s.0, gpio_write s.1 gpio_cs (to_int v))

  -- The device as the host sees it.
  abbrev pub spi_dev : SpiDev
  spi_dev = record {
    World = SpiGpio × World;
    set_config = set_config;
    get_put_byte = get_put_byte;
    set_cs = set_cs;
    start = λ s. (s.0, set_up s.1);
  }
