-- ===== src/Devices/Lcdc/Frame/Laws.antt =====
-- The pixels of the picture by their place.
use mr_iss.Base.{
  ℕ, zero, suc, ◌+◌, ◌-◌, ◌*◌, ◌/◌, ◌≤◌, ◌<◌, ◌≡◌, refl, ap, ◌∙◌, ◌⊎◌, inl, inr, List, [], ◌∷◌,
  arith, switch, switch_all, length, replicate, length-replicate, In, All, All-In,
}
use mr_iss.Devices.Lcdc.{Lcdc}
use mr_iss.Devices.Lcdc.Lines.{colour_565, indexed}
use mr_iss.Devices.Lcdc.Lines.Laws.{
  Paints, pixel_at, copy_line_32bpp-Paints, copy_line_16bpp-Paints, copy_line_indexed-Paints,
}
use mr_iss.Devices.Lcdc.Frame.{line_cases, draw_line, draw_lines, Screen, transform_framebuffer}
use native.Mathlib.Nat.{mul-le-mul_left, div-mul-le_self}
use mr_iss.Devices.Lcdc.Frame.Rows.{block, block-outside, block-inside}

-- The words of a line of the frame buffer, for a window of `w` pixels.
abbrev pub words_per_line : Lcdc → ℕ → ℕ
words_per_line d w = (w / d.scale_x + (32 / d.bpp - 1)) / (32 / d.bpp)

-- The depths, and the colour of a pixel at each.
abbrev pub depths : List ℕ
depths = 32 ∷ 16 ∷ 8 ∷ 4 ∷ 2 ∷ 1 ∷ []

module _ (be32toh : ℕ → ℕ) (d : Lcdc) where
  abbrev pub colour_in : ℕ → ℕ → ℕ
  colour_in bpp = switch bpp ((32, be32toh) ∷ (16, colour_565) ∷ []) (indexed d.palette bpp)

  module _ (fb : ℕ → ℕ) (w : ℕ) where
    draw_line-Paints_all :
        (ps : ℕ)
        → All
            (λ bpp.
              Paints fb
                (32 / bpp)
                (colour_in bpp)
                bpp
                ps
                0
                (w / d.scale_x)
                d.scale_x
                (draw_line be32toh fb d w bpp ps))
            depths
    unfolding draw_line
    draw_line-Paints_all ps =
        let width = w / d.scale_x in
        let by_palette = copy_line_indexed-Paints fb be32toh d.palette width d.scale_x ps in
        (
          copy_line_32bpp-Paints fb be32toh d.palette width d.scale_x ps,
          (
            copy_line_16bpp-Paints fb be32toh d.palette width d.scale_x ps,
            (
              by_palette 8 (omega arith),
              (
                by_palette 4 (omega arith),
                (by_palette 2 (omega arith), (by_palette 1 (omega arith), tt)),
              ),
            ),
          ),
        )

    draw_line-Paints :
        (ps : ℕ)
        → In d.bpp depths
        → Paints fb
            (32 / d.bpp)
            (colour_in d.bpp)
            d.bpp
            ps
            0
            (w / d.scale_x)
            d.scale_x
            (draw_line be32toh fb d w d.bpp ps)
    draw_line-Paints ps hb =
        All-In
          (λ bpp.
            Paints fb (32 / bpp) (colour_in bpp) bpp ps 0 (w / d.scale_x) d.scale_x
              (draw_line be32toh fb d w bpp ps))
          depths d.bpp (draw_line-Paints_all ps) hb

    -- A line is never wider than the window.
    line_fits : (n : ℕ) → n ≡ w / d.scale_x * d.scale_x → n ≤ w
    line_fits n e = omega (arith, e, div-mul-le_self w d.scale_x)

    draw_line-width : (bpp ps : ℕ) → length (draw_line be32toh fb d w bpp ps).0 ≤ w
    unfolding draw_line
    draw_line-width bpp ps =
        let all = draw_line-Paints_all ps in
        switch_all (λ (out : List ℕ × ℕ). length out.0 ≤ w) bpp (line_cases be32toh fb d w ps)
          (replicate w 0xff, ps)
          (
            line_fits _ all.0.1,
            (
              line_fits _ all.1.0.1,
              (
                line_fits _ all.1.1.0.1,
                (
                  line_fits _ all.1.1.1.0.1,
                  (line_fits _ all.1.1.1.1.0.1, (line_fits _ all.1.1.1.1.1.0.1, tt)),
                ),
              ),
            ),
          )
          (omega (arith, length-replicate {A = ℕ} w 0xff))

    draw_lines-outside :
        (left ps pd i : ℕ) (pixels : ℕ → ℕ)
        → 0 < d.scale_y
        → (i < pd) ⊎ (pd + w * (left * d.scale_y) ≤ i)
        → draw_lines be32toh fb d w left ps pd pixels i ≡ pixels i
    unfolding draw_lines
    draw_lines-outside zero ps pd i pixels hs h = refl
    draw_lines-outside (suc left) ps pd i pixels hs h =
        let line = draw_line be32toh fb d w d.bpp ps in
        draw_lines-outside left line.1 (pd + w * d.scale_y) i (block w d.scale_y pd line.0 pixels)
          hs (later h)
        ∙ block-outside w d.scale_y pd line.0 pixels i hs (draw_line-width d.bpp ps) (now h)
      where
        later :
            (i < pd) ⊎ (pd + w * (suc left * d.scale_y) ≤ i)
            → (i < pd + w * d.scale_y) ⊎ (pd + w * d.scale_y + w * (left * d.scale_y) ≤ i)
        later (inl l) = inl (omega (arith, l))
        later (inr g) = inr (omega (arith, g))

        now : (i < pd) ⊎ (pd + w * (suc left * d.scale_y) ≤ i) → (i < pd) ⊎ (pd + w * d.scale_y ≤ i)
        now (inl l) = inl l
        now (inr g) = inr (omega (arith, g))

    abbrev DrawsLines : ℕ → ℕ → ℕ → (ℕ → ℕ) → Type 0
    DrawsLines left ps pd pixels =
        (row ys x xs : ℕ)
        → row < left
        → ys < d.scale_y
        → x < w / d.scale_x
        → xs < d.scale_x
        → draw_lines be32toh fb d w left ps pd pixels
            (pd + w * (row * d.scale_y + ys) + (x * d.scale_x + xs))
          ≡ pixel_at fb (32 / d.bpp) (colour_in d.bpp) d.bpp (ps + row * words_per_line d w) x

    column_fits : (x xs : ℕ) → x < w / d.scale_x → xs < d.scale_x → x * d.scale_x + xs < w
    column_fits x xs hx hs = omega (
      arith,
      hs,
      div-mul-le_self w d.scale_x,
      mul-le-mul_left {m = suc x} {n = w / d.scale_x} d.scale_x (omega (arith, hx)),
    )

    draw_lines-Draws :
        (left ps pd : ℕ) (pixels : ℕ → ℕ) → In d.bpp depths → DrawsLines left ps pd pixels
    unfolding draw_lines
    draw_lines-Draws zero ps pd pixels hb row ys x xs hr hy hx hs = absurd (omega (arith, hr))
    draw_lines-Draws (suc left) ps pd pixels hb zero ys x xs hr hy hx hs =
        let line = draw_line be32toh fb d w d.bpp ps in
        let c = x * d.scale_x + xs in
        let hc = column_fits x xs hx hs in
        let paints = draw_line-Paints ps hb in
        draw_lines-outside left line.1 (pd + w * d.scale_y) (pd + w * (0 * d.scale_y + ys) + c)
          (block w d.scale_y pd line.0 pixels) (omega (arith, hy))
          (inl
            (omega (arith, hc, mul-le-mul_left {m = suc ys} {n = d.scale_y} w (omega (arith, hy)))))
        ∙ ap (block w d.scale_y pd line.0 pixels) {x = pd + w * (0 * d.scale_y + ys) + c}
            {y = pd + w * ys + c} (omega arith)
        ∙ block-inside w d.scale_y pd line.0 pixels ys c hy (draw_line-width d.bpp ps) (
            omega (
              arith,
              hs,
              paints.1,
              mul-le-mul_left {m = suc x} {n = w / d.scale_x} d.scale_x (omega (arith, hx)),
            ))
        ∙ paints.0 x xs hx hs
        ∙ ap (λ b. pixel_at fb (32 / d.bpp) (colour_in d.bpp) d.bpp ps b) {x = 0 + x} {y = x}
            (omega arith)
        ∙ ap (λ a. pixel_at fb (32 / d.bpp) (colour_in d.bpp) d.bpp a x) {x = ps}
            {y = ps + 0 * words_per_line d w} (omega arith)
    draw_lines-Draws (suc left) ps pd pixels hb (suc row) ys x xs hr hy hx hs =
        let line = draw_line be32toh fb d w d.bpp ps in
        let c = x * d.scale_x + xs in
        let paints = draw_line-Paints ps hb in
        ap
          (draw_lines be32toh fb d w left line.1 (pd + w * d.scale_y)
            (block w d.scale_y pd line.0 pixels))
          {x = pd + w * (suc row * d.scale_y + ys) + c}
          {y = pd + w * d.scale_y + w * (row * d.scale_y + ys) + c} (omega arith)
        ∙ draw_lines-Draws left line.1 (pd + w * d.scale_y) (block w d.scale_y pd line.0 pixels) hb
            row ys x xs (omega (arith, hr)) hy hx hs
        ∙ ap (λ a. pixel_at fb (32 / d.bpp) (colour_in d.bpp) d.bpp a x)
            {x = line.1 + row * words_per_line d w} {y = ps + suc row * words_per_line d w}
            (omega (
              arith,
              paints.2,
              ap (λ t. (t + (32 / d.bpp - 1)) / (32 / d.bpp)) {x = 0 + w / d.scale_x}
                  {y = w / d.scale_x} (omega arith),
            ))

module _ (be32toh fb : ℕ → ℕ) (d : Lcdc) (screen : Screen) where
  -- At one of the six depths, every source pixel that the scaled window has room for shows, at each place of its
  -- scaled rectangle, the colour of its digit of its word, the lowest digit of a word first and each line's first pixel
  -- at the start of a word.
  pub transform_framebuffer-Shows :
      (row ys x xs : ℕ)
      → In d.bpp depths
      → row < screen.height / d.scale_y
      → ys < d.scale_y
      → x < screen.width / d.scale_x
      → xs < d.scale_x
      → (transform_framebuffer be32toh fb d screen).pixels
          (screen.width * (row * d.scale_y + ys) + (x * d.scale_x + xs))
        ≡ pixel_at fb
            (32 / d.bpp)
            (colour_in be32toh d d.bpp)
            d.bpp
            (row * words_per_line d screen.width)
            x
  unfolding transform_framebuffer
  transform_framebuffer-Shows row ys x xs hb hr hy hx hs =
      ap (draw_lines be32toh fb d screen.width (screen.height / d.scale_y) 0 0 screen.pixels)
        {x = screen.width * (row * d.scale_y + ys) + (x * d.scale_x + xs)}
        {y = 0 + screen.width * (row * d.scale_y + ys) + (x * d.scale_x + xs)} (omega arith)
      ∙ draw_lines-Draws be32toh d fb screen.width (screen.height / d.scale_y) 0 0 screen.pixels hb
          row ys x xs hr hy hx hs
      ∙ ap (λ a. pixel_at fb (32 / d.bpp) (colour_in be32toh d d.bpp) d.bpp a x)
          {x = 0 + row * words_per_line d screen.width} {y = row * words_per_line d screen.width}
          (omega arith)

  -- At any depth, and where the vertical scale is not 0, nothing is written past the last line of the window.
  pub transform_framebuffer-inside :
      (i : ℕ)
      → 0 < d.scale_y
      → screen.width * screen.height ≤ i
      → (transform_framebuffer be32toh fb d screen).pixels i ≡ screen.pixels i
  unfolding transform_framebuffer
  transform_framebuffer-inside i hs h =
      draw_lines-outside be32toh d fb screen.width (screen.height / d.scale_y) 0 0 i screen.pixels
        hs
        (inr (
          omega (arith, h, mul-le-mul_left screen.width (div-mul-le_self screen.height d.scale_y))))
