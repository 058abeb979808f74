-- ===== src/Devices/Lcdc/Lines.antt =====
-- The lines of a picture (`copyLine32bpp`, `copyLine16bpp` and `copyLineIndexed` of DevLCDC.cc): the pixels that are
-- written from the left, and where the pointer into the frame buffer ends. The words of the frame buffer are `fb`, and
-- `be32toh` is a parameter.
pub mod Laws
pub mod Places
use mr_iss.Base.{
  ℕ, zero, suc, ◌-◌, ◌/◌, ◌^◌, bit_and, bit_or, List, [], ◌++◌, replicate, u8, ◌<<<◌, ◌>>>◌,
}

-- A pixel of five, six and five bits, as it comes out.
abbrev pub colour_565 : ℕ → ℕ
colour_565 opx =
    let r = bit_and opx 0x1f <<< 3 in
    let g = bit_and opx 0x7e0 >>> 4 in
    let b = bit_and opx 0xf800 >>> 8 in bit_or (bit_or (u8 r <<< 16) (u8 g <<< 8)) (u8 b)

-- An entry of the palette, from BGR to RGB.
abbrev pub colour_of : ℕ → ℕ
colour_of entry =
    let r = bit_and entry 0xff in
    let g = bit_and entry 0xff00 >>> 8 in
    let b = bit_and entry 0xff_0000 >>> 16 in bit_or (bit_or (r <<< 16) (g <<< 8)) b

-- The colour of the lowest digit of `bpp` bits.
abbrev pub indexed : (ℕ → ℕ) → ℕ → ℕ → ℕ
indexed palette bpp opx = colour_of (palette (bit_and opx (2 ^ bpp - 1)))

module _ (fb : ℕ → ℕ) where
  pub copy_line_32bpp : (ℕ → ℕ) → ℕ → ℕ → ℕ → List ℕ × ℕ
  copy_line_32bpp be32toh zero pscale ps = ([], ps)
  copy_line_32bpp be32toh (suc width) pscale ps =
      let rest = copy_line_32bpp be32toh width pscale (suc ps) in
      (replicate pscale (be32toh (fb ps)) ++ rest.0, rest.1)

  -- What is left of the word that was fetched, or the next word: the pixels left in it, the word, and the pointer.
  pub refill : ℕ → ℕ → ℕ → ℕ → ℕ × ℕ × ℕ
  refill per_word zero opx ps = (per_word, fb ps, suc ps)
  refill per_word (suc pcount) opx ps = (suc pcount, opx, ps)

  -- The loop of `copyLine16bpp` and `copyLineIndexed`, with `width` pixels left. They differ in the pixels of a word,
  -- the colour of a pixel and its bits.
  pub copy_packed : ℕ → (ℕ → ℕ) → ℕ → ℕ → ℕ → ℕ → ℕ → ℕ → List ℕ × ℕ
  unfolding refill
  copy_packed per_word colour bits zero pscale pcount opx ps = ([], ps)
  copy_packed per_word colour bits (suc width) pscale pcount opx ps =
      let s = refill per_word pcount opx ps in
      let rest = copy_packed per_word colour bits width pscale (s.0 - 1) (s.1 >>> bits) s.2 in
      (replicate pscale (colour s.1) ++ rest.0, rest.1)

  pub copy_line_16bpp : ℕ → ℕ → ℕ → List ℕ × ℕ
  unfolding copy_packed
  copy_line_16bpp width pscale ps = copy_packed 2 colour_565 16 width pscale 0 0 ps

  pub copy_line_indexed : (ℕ → ℕ) → ℕ → ℕ → ℕ → ℕ → List ℕ × ℕ
  unfolding copy_packed
  copy_line_indexed palette bpp width pscale ps =
      copy_packed (32 / bpp) (indexed palette bpp) bpp width pscale 0 0 ps
