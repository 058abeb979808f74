-- ===== src/Devices/Lcdc/Frame.antt =====
-- The picture (`transformFramebuffer`, `periodic` and `getAddrDMA` of DevLCDC.cc). The window's pixels are a function
-- of their place, `w` of them in each of `h` lines; its scale (DISP_SCALE) is 1. The words of the host's memory from
-- an address on are the parameter `host`; the host's event is whether it asks to close.
pub mod Laws
pub mod Rows
use mr_iss.Base.{
  ℕ, zero, suc, ◌+◌, ◌-◌, ◌*◌, ◌/◌, Bool, true, ◌&&◌, ◌||◌, Option, none, some, List, [], ◌∷◌, ltb,
  leb, ◌==◌, if◌then◌else◌, switch, replicate, ◌>>=◌, Outcome, done, fatal,
}
use mr_iss.Memory.{Memory}
use mr_iss.Devices.Lcdc.{Lcdc}
use mr_iss.Devices.Lcdc.Lines.{copy_line_32bpp, copy_line_16bpp, copy_line_indexed}

-- Stores of a line's pixels from place `pd` on.
pub store_line : List ℕ → ℕ → (ℕ → ℕ) → ℕ → ℕ
store_line [] pd pixels = pixels
store_line (p ∷ ps) pd pixels = store_line ps (suc pd) (λ i. if i == pd then p else pixels i)

-- `memcpy` of the line at `pd`, `w` pixels wide, to the place `off` pixels on.
abbrev pub copy_row : ℕ → ℕ → ℕ → (ℕ → ℕ) → ℕ → ℕ
copy_row w pd off pixels i =
    if leb (pd + off) i && ltb i (pd + off + w) then pixels (i - off) else pixels i

-- The loop over the copies of a line, `left` of them from copy `s` on.
pub copy_rows : ℕ → ℕ → ℕ → ℕ → (ℕ → ℕ) → ℕ → ℕ
copy_rows w pd zero s pixels = pixels
copy_rows w pd (suc left) s pixels = copy_rows w pd left (suc s) (copy_row w pd (w * s) pixels)

module _ (be32toh fb : ℕ → ℕ) (d : Lcdc) (w : ℕ) where
  -- The lines of the depths.
  abbrev pub line_cases : ℕ → List (ℕ × (List ℕ × ℕ))
  line_cases ps =
      let width = w / d.scale_x in
      let by_palette = λ (n : ℕ). copy_line_indexed fb d.palette n width d.scale_x ps in
      (32, copy_line_32bpp fb be32toh width d.scale_x ps)
      ∷ (16, copy_line_16bpp fb width d.scale_x ps)
      ∷ (8, by_palette 8)
      ∷ (4, by_palette 4)
      ∷ (2, by_palette 2)
      ∷ (1, by_palette 1)
      ∷ []

  -- A line of the frame buffer at a depth: a blue one where there is no such depth.
  pub draw_line : ℕ → ℕ → List ℕ × ℕ
  draw_line bpp ps = switch bpp (line_cases ps) (replicate w 0xff, ps)

  -- The loop over the lines of the frame buffer, `left` of them.
  pub draw_lines : ℕ → ℕ → ℕ → (ℕ → ℕ) → ℕ → ℕ
  unfolding draw_line store_line copy_rows
  draw_lines zero ps pd pixels = pixels
  draw_lines (suc left) ps pd pixels =
      let line = draw_line d.bpp ps in
      draw_lines left line.1 (pd + w * d.scale_y)
        (copy_rows w pd (d.scale_y - 1) 1 (store_line line.0 pd pixels))

-- A surface, and what `periodic` asked for.
pub record Screen : Type 0 where
  pub width : ℕ
  pub height : ℕ
  pub pixels : ℕ → ℕ

pub transform_framebuffer : (ℕ → ℕ) → (ℕ → ℕ) → Lcdc → Screen → Screen
unfolding draw_lines
transform_framebuffer be32toh fb d screen = record screen {
  pixels = draw_lines be32toh fb d screen.width (screen.height / d.scale_y) 0 0 screen.pixels;
}

pub record Display : Type 0 where
  pub lcdc : Lcdc
  pub screen : Screen
  -- The field `done`.
  pub is_done : Bool
  pub quits : Bool

module _ (mem : Memory) (be32toh : ℕ → ℕ) (host : ℕ → ℕ → ℕ) where
  open mem use {World}

  -- A page with no address on the host is fatal.
  mapped : Option ℕ × World → Outcome (ℕ × World)
  mapped (some host_addr, wld) = done (host_addr, wld)
  mapped (none, wld) = fatal

  pub get_addr_dma : World → ℕ → Outcome (ℕ × World)
  unfolding mapped
  get_addr_dma wld addr = mem.get_direct_map wld addr >>= mapped

  -- `periodic`, with a window: `closes` is whether the event is SDL_QUIT.
  pub periodic : Bool → Display → World → Outcome (Display × World)
  unfolding get_addr_dma transform_framebuffer
  periodic closes v wld =
      let is_done = v.is_done || closes in
      let shown = get_addr_dma wld (v.lcdc.regs 4) >>= λ a.
      done (record v { screen = transform_framebuffer be32toh (host a.0) v.lcdc v.screen }, a.1) in
      if is_done
      then done (record v { is_done = true; quits = true }, wld)
      else (if v.lcdc.display_enable then shown else done (v, wld))
