-- ===== src/Devices/Lcdc.antt =====
-- The display controller's registers (DevLCDC.cc, DevLCDC.h). The style only prints; the window is the host's.
pub mod Lines
pub mod Frame
use mr_iss.Base.{
  ℕ, ◌+◌, ◌^◌, bit_and, Bool, false, [], ◌∷◌, ◌==◌, if◌then◌else◌, switch, truthy, u8, ◌>>>◌,
  Outcome, done, fatal,
}

pub record Lcdc : Type 0 where
  pub regs : ℕ → ℕ
  pub palette : ℕ → ℕ
  pub display_enable : Bool
  pub border_enable : Bool
  pub display_x : ℕ
  pub display_y : ℕ
  pub scale_x : ℕ
  pub scale_y : ℕ
  pub bpp : ℕ

abbrev reg_stat_ctrl : ℕ
reg_stat_ctrl = 0

abbrev reg_dsize : ℕ
reg_dsize = 1

abbrev reg_vsync : ℕ
reg_vsync = 2

abbrev reg_hsync : ℕ
reg_hsync = 3

abbrev reg_fb_base : ℕ
reg_fb_base = 4

abbrev reg_id : ℕ
reg_id = 5

abbrev reg_dwpl_bpp : ℕ
reg_dwpl_bpp = 6

abbrev reg_pal_idx : ℕ
reg_pal_idx = 7

abbrev reg_pal_entry : ℕ
reg_pal_entry = 8

-- The constructor. The palette, which it leaves unset, is 0 here.
unfoldable new_lcdc : Lcdc
new_lcdc = record {
  regs = λ _. 0;
  palette = λ _. 0;
  display_enable = false;
  border_enable = false;
  display_x = 640;
  display_y = 480;
  scale_x = 1;
  scale_y = 1;
  bpp = 0;
}

unfoldable pub read32 : Lcdc → ℕ → Outcome ℕ
read32 d addr =
    let reg = bit_and addr 0x3f >>> 2 in
    let plain = done (d.regs reg) in
    switch reg
      ((reg_stat_ctrl, plain)
        ∷ (reg_dsize, plain)
        ∷ (reg_vsync, plain)
        ∷ (reg_hsync, plain)
        ∷ (reg_fb_base, plain)
        ∷ (reg_dwpl_bpp, plain)
        ∷ (reg_pal_idx, plain)
        ∷ (reg_id, done 0x4443_0001)
        ∷ (reg_pal_entry, done (d.palette (bit_and (d.regs reg_pal_idx) 0xff)))
        ∷ [])
      fatal

abbrev stored : Lcdc → ℕ → ℕ → Lcdc
stored d reg v = record d { regs = λ j. if j == reg then v else d.regs j }

unfoldable write_stat_ctrl : Lcdc → ℕ → Lcdc
write_stat_ctrl d v = record (stored d reg_stat_ctrl (bit_and v 0xc000_0000)) {
  display_enable = truthy (bit_and v 0x8000_0000);
  border_enable = truthy (bit_and v 0x4000_0000);
}

-- The masks of the four fields make up the whole word.
unfoldable write_dsize : Lcdc → ℕ → Lcdc
write_dsize d v = record (stored d reg_dsize (bit_and v 0xffff_ffff)) {
  display_x = bit_and v 0x7ff;
  display_y = bit_and v 0x7ff_0000 >>> 16;
  scale_x = (bit_and v 0xf800 >>> 11) + 1;
  scale_y = (bit_and v 0xf800_0000 >>> 27) + 1;
}

unfoldable write_dwpl_bpp : Lcdc → ℕ → Lcdc
write_dwpl_bpp d v = record (stored d reg_dwpl_bpp (bit_and v 0x3fff)) {
  bpp = u8 (2 ^ (bit_and v 0x3800 >>> 11));
}

unfoldable write_pal_entry : Lcdc → ℕ → Lcdc
write_pal_entry d v = record d {
  palette = λ j. if j == d.regs reg_pal_idx then bit_and v 0xff_ffff else d.palette j;
}

unfoldable pub write32 : Lcdc → ℕ → ℕ → Outcome Lcdc
unfolding write_stat_ctrl write_dsize write_dwpl_bpp write_pal_entry
write32 d addr v =
    switch (bit_and addr 0x3f >>> 2)
      ((reg_stat_ctrl, done (write_stat_ctrl d v))
        ∷ (reg_dsize, done (write_dsize d v))
        ∷ (reg_vsync, done (stored d reg_vsync (bit_and v 0x1ff_ffff)))
        ∷ (reg_hsync, done (stored d reg_hsync (bit_and v 0x7ff_ffff)))
        ∷ (reg_fb_base, done (stored d reg_fb_base v))
        ∷ (reg_dwpl_bpp, done (write_dwpl_bpp d v))
        ∷ (reg_pal_idx, done (stored d reg_pal_idx (bit_and v 0xff)))
        ∷ (reg_pal_entry, done (write_pal_entry d v))
        ∷ [])
      fatal
