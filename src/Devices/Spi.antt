-- ===== src/Devices/Spi.antt =====
-- The SPI host (DevSPI.cc, DevSPI.h), over a device that stands on its lines (AbstractSPIDev.h).
pub mod Laws
use mr_iss.Base.{
  ℕ, zero, suc, ◌+◌, ◌*◌, bit_and, bit_or, Bool, true, false, [], ◌∷◌, if◌then◌else◌, switch,
  truthy, u32, ◌<<<◌, ◌>>>◌, Outcome, done, fatal,
}

pub record SpiDev : Type 1 where
  pub World : Type 0
  pub set_config : World → Bool → Bool → ℕ → World
  pub get_put_byte : World → ℕ → ℕ × World
  pub set_cs : World → Bool → World
  pub start : World → World

-- `has_spidev` is `spidev` set or null.
pub record Spi : Type 0 where
  pub config : ℕ
  pub len_a : ℕ
  pub len_b : ℕ
  pub cs : ℕ
  pub txd_a : ℕ
  pub rxd_a : ℕ
  pub txd_b : ℕ
  pub rxd_b : ℕ
  pub clkdiv : ℕ
  pub has_spidev : Bool

abbrev pub reg_ctrl : ℕ
reg_ctrl = 0x00

abbrev reg_txd_a : ℕ
reg_txd_a = 0x04

abbrev reg_rxd_a : ℕ
reg_rxd_a = 0x08

abbrev reg_cs : ℕ
reg_cs = 0x0c

abbrev reg_clkdiv : ℕ
reg_clkdiv = 0x10

abbrev reg_txd_b : ℕ
reg_txd_b = 0x14

abbrev reg_rxd_b : ℕ
reg_rxd_b = 0x18

-- The constructor.
unfoldable new_spi : Spi
new_spi = record {
  config = 0;
  len_a = 0;
  len_b = 0;
  cs = 0;
  txd_a = 0;
  rxd_a = 0;
  txd_b = 0;
  rxd_b = 0;
  clkdiv = 0;
  has_spidev = false;
}

unfoldable pub read32 : Spi → ℕ → Outcome ℕ
read32 d addr =
    switch (bit_and addr 0xfc)
      ((reg_ctrl, done (bit_or (bit_or d.config (u32 (d.len_a <<< 8))) (u32 (d.len_b <<< 11))))
        ∷ (reg_txd_a, done d.txd_a)
        ∷ (reg_rxd_a, done d.rxd_a)
        ∷ (reg_txd_b, done d.txd_b)
        ∷ (reg_rxd_b, done d.rxd_b)
        ∷ (reg_cs, done d.cs)
        ∷ (reg_clkdiv, done d.clkdiv)
        ∷ [])
      fatal

module _ (dev : SpiDev) where
  open dev use {World, set_config, get_put_byte, set_cs, start}

  -- The loop of `doTransfer` from byte `i` on, with `n` bytes left.
  pub transfer_from : ℕ → ℕ → ℕ → World → ℕ → ℕ × World
  transfer_from zero i txd w r = (r, w)
  transfer_from (suc n) i txd w r =
      let answer = get_put_byte w (bit_and (txd >>> (i * 8)) 0xff) in
      transfer_from n (suc i) txd answer.1 (bit_or r (u32 (answer.0 <<< (i * 8))))

  pub do_transfer : Spi → World → ℕ → ℕ → ℕ × World
  unfolding transfer_from
  do_transfer d w txd len = if d.has_spidev then transfer_from (len + 1) 0 txd w 0 else (0, w)

  -- `setConfig` with the polarity and the phase, where there is a device.
  unfoldable configure : Spi → World → World
  configure d w =
      if d.has_spidev
      then set_config w (truthy (bit_and d.config 1)) (truthy (bit_and d.config 2)) d.clkdiv
      else w

  unfoldable run_a : Spi → World → ℕ → Spi × World
  unfolding do_transfer
  run_a d w v =
      if truthy (bit_and v 0x80)
      then (let r = do_transfer d w d.txd_a d.len_a in (record d { rxd_a = r.0 }, r.1))
      else (d, w)

  unfoldable run_b : Spi → World → ℕ → Spi × World
  unfolding do_transfer
  run_b d w v =
      if truthy (bit_and v 0x400)
      then (let r = do_transfer d w d.txd_b d.len_b in (record d { rxd_b = r.0 }, r.1))
      else (d, w)

  -- A write of the control register: the mode, the lengths, and the transfers that it starts.
  unfoldable write_ctrl : Spi → World → ℕ → Spi × World
  unfolding configure run_a run_b
  write_ctrl d w v =
      let e = record d {
        config = bit_and v 3;
        len_a = bit_and (v >>> 8) 3;
        len_b = bit_and (v >>> 11) 3;
      } in
      let after_a = run_a e (configure e w) v in run_b after_a.0 after_a.1 v

  unfoldable pub write32 : Spi → World → ℕ → ℕ → Outcome (Spi × World)
  unfolding write_ctrl configure
  write32 d w addr v =
      let with_div = record d { clkdiv = bit_and v 0xff } in
      switch (bit_and addr 0xfc)
        ((reg_ctrl, done (write_ctrl d w v))
          ∷ (reg_txd_a, done (record d { txd_a = v }, w))
          ∷ (reg_rxd_a, done (d, w))
          ∷ (reg_txd_b, done (record d { txd_b = v }, w))
          ∷ (reg_rxd_b, done (d, w))
          ∷ (
            reg_cs,
            done (record d { cs = v }, if d.has_spidev then set_cs w (truthy (bit_and v 1)) else w),
          )
          ∷ (reg_clkdiv, done (with_div, configure with_div w))
          ∷ [])
        fatal

  unfoldable add_device : Spi → World → Spi × World
  add_device d w = (record d { has_spidev = true }, start w)
