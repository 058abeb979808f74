-- ===== src/Devices/Lcdc/Lines/Laws.antt =====
-- A line's pixels by their place: which word of the frame buffer, and which digit of it.
use mr_iss.Base.{
  ℕ, zero, suc, ◌+◌, ◌-◌, ◌*◌, ◌/◌, ◌%◌, ◌^◌, ◌<◌, ◌≡◌, refl, sym, ap, ap₂, subst, ◌∙◌, inl, inr,
  List, ◌++◌, arith, length, get_or, replicate, ◌>>>◌,
}
use mr_iss.Devices.Lcdc.Lines.{
  refill, copy_packed, copy_line_32bpp, copy_line_16bpp, copy_line_indexed, colour_565, indexed,
}
use native.Mathlib.Nat.{add-mul-div_left, div-eq_of_lt, mod-eq_of_lt}
use mr_iss.Devices.Lcdc.Lines.Places.{
  step_cases, shift_twice, get_or-append_left, get_or-append_right, length-append_replicate,
}

module _ (fb : ℕ → ℕ) (n : ℕ) (colour : ℕ → ℕ) (bits : ℕ) where
  -- Pixel `x` of a line whose words start at `start`.
  abbrev pub pixel_at : ℕ → ℕ → ℕ
  pixel_at start x = colour (fb (start + x / n) >>> (bits * (x % n)))

  refill-some : (p opx ps : ℕ) → 0 < p → refill fb n p opx ps ≡ (p, opx, ps)
  unfolding refill
  refill-some zero opx ps h = absurd (omega (arith, h))
  refill-some (suc p) opx ps h = refl

  refill-none : (opx ps : ℕ) → refill fb n 0 opx ps ≡ (n, fb ps, suc ps)
  unfolding refill
  refill-none opx ps = refl

  -- The loop before pixel `k`.
  abbrev IsAt : ℕ → ℕ → ℕ → ℕ → ℕ → Type 0
  IsAt start k pcount opx ps =
      (refill fb n pcount opx ps
        ≡ (n - k % n, fb (start + k / n) >>> (bits * (k % n)), start + suc (k / n)))
      × (ps ≡ start + (k + (n - 1)) / n)

  abbrev loop_state : ℕ → ℕ → ℕ → ℕ × ℕ × ℕ
  loop_state a b c = (a, b, c)

  triple : {a b c a' b' c' : ℕ} → a ≡ a' → b ≡ b' → c ≡ c' → loop_state a b c ≡ loop_state a' b' c'
  triple p q r = λ i. (p i, q i, r i)

  one_more : (k : ℕ) → 0 < n → suc (k / n) ≡ (suc k + (n - 1)) / n
  one_more k h =
      omega arith
      ∙ sym (add-mul-div_left k 1 h)
      ∙ ap (λ t. t / n) {x = k + n * 1} {y = suc k + (n - 1)} (omega (arith, h))

  fresh : (w r : ℕ) → r ≡ 0 → w ≡ w >>> (bits * r)
  fresh w r e =
      omega arith
      ∙ ap (λ t. w / 2 ^ t) {x = 0} {y = bits * r} (sym (ap (λ t. bits * t) e ∙ omega arith))

  IsAt-start : (start opx : ℕ) → 0 < n → IsAt start 0 0 opx start
  IsAt-start start opx h = (
    refill-none opx start
        ∙ triple (omega (arith, m0))
            (ap fb (omega (arith, d0)) ∙ fresh (fb (start + 0 / n)) (0 % n) m0) (omega (arith, d0)),
    omega (arith, div-eq_of_lt {n = 0 + (n - 1)} {m = n} (omega (arith, h))),
  )
    where
      d0 : 0 / n ≡ 0
      d0 = div-eq_of_lt {n = 0} {m = n} h

      m0 : 0 % n ≡ 0
      m0 = mod-eq_of_lt {n = 0} {m = n} h

  IsAt-next :
      (start k : ℕ)
      → 0 < n
      → IsAt start
          (suc k)
          (n - k % n - 1)
          (fb (start + k / n) >>> (bits * (k % n)) >>> bits)
          (start + suc (k / n))
  IsAt-next start k h = elim (step_cases n k h) [
    | inl c ↦ (
      refill-some (n - k % n - 1) (fb (start + k / n) >>> (bits * (k % n)) >>> bits)
            (start + suc (k / n)) (omega (arith, c.2))
          ∙ triple (omega (arith, c.1))
              (shift_twice (fb (start + k / n)) bits (k % n)
                ∙ ap₂ (λ q r. fb (start + q) >>> (bits * r)) (sym c.0) (sym c.1))
              (omega (arith, c.0)),
      omega (arith, one_more k h),
    )
    | inr c ↦ (
      ap
            (λ p.
              refill fb n p (fb (start + k / n) >>> (bits * (k % n)) >>> bits)
                (start + suc (k / n)))
            {x = n - k % n - 1} {y = 0} (omega (arith, c.2))
          ∙ refill-none (fb (start + k / n) >>> (bits * (k % n)) >>> bits) (start + suc (k / n))
          ∙ triple (omega (arith, c.1))
              (ap fb (omega (arith, c.0)) ∙ fresh (fb (start + suc k / n)) (suc k % n) c.1)
              (omega (arith, c.0)),
      omega (arith, one_more k h),
    )
  ]

  -- What the loop writes and where its pointer ends, from pixel `k` on.
  abbrev pub Paints : ℕ → ℕ → ℕ → ℕ → List ℕ × ℕ → Type 0
  Paints start k width pscale out =
      ((x s : ℕ)
        → x < width
        → s < pscale
        → get_or out.0 (x * pscale + s) 0 ≡ pixel_at start (k + x))
      × (length out.0 ≡ width * pscale)
      × (out.1 ≡ start + (k + width + (n - 1)) / n)

  Paints-more :
      (start k width pscale v : ℕ) (out : List ℕ × ℕ)
      → v ≡ pixel_at start k
      → Paints start (suc k) width pscale out
      → Paints start k (suc width) pscale (replicate pscale v ++ out.0, out.1)
  Paints-more start k width pscale v out e p = (
    runs,
    length-append_replicate pscale v out.0 ∙ omega (arith, p.1),
    p.2 ∙ ap (λ t. start + (t + (n - 1)) / n) {x = suc k + width} {y = k + suc width} (omega arith),
  )
    where
      runs :
          (x s : ℕ)
          → x < suc width
          → s < pscale
          → get_or (replicate pscale v ++ out.0) (x * pscale + s) 0 ≡ pixel_at start (k + x)
      runs zero s hx hs =
          ap (λ i. get_or (replicate pscale v ++ out.0) i 0) {x = 0 * pscale + s} {y = s}
            (omega arith)
          ∙ get_or-append_left pscale v out.0 s hs
          ∙ e
          ∙ ap (pixel_at start) (omega arith)
      runs (suc x) s hx hs =
          ap (λ i. get_or (replicate pscale v ++ out.0) i 0) {x = suc x * pscale + s}
            {y = pscale + (x * pscale + s)} (omega arith)
          ∙ get_or-append_right pscale v out.0 (x * pscale + s)
          ∙ p.0 x s (omega (arith, hx)) hs
          ∙ ap (pixel_at start) (omega arith)

  copy_packed-Paints :
      (start width k pscale pcount opx ps : ℕ)
      → 0 < n
      → IsAt start k pcount opx ps
      → Paints start k width pscale (copy_packed fb n colour bits width pscale pcount opx ps)
  unfolding copy_packed
  copy_packed-Paints start zero k pscale pcount opx ps h at = (
    λ x s hx hs. absurd (omega (arith, hx)),
    omega arith,
    at.1 ∙ ap (λ t. start + (t + (n - 1)) / n) {x = k} {y = k + 0} (omega arith),
  )
  copy_packed-Paints start (suc width) k pscale pcount opx ps h at =
      subst
        (λ s. Paints start k (suc width) pscale (
          replicate pscale (colour s.1)
              ++ (copy_packed fb n colour bits width pscale (s.0 - 1) (s.1 >>> bits) s.2).0,
          (copy_packed fb n colour bits width pscale (s.0 - 1) (s.1 >>> bits) s.2).1,
        ))
        (sym at.0)
        (Paints-more start k width pscale (pixel_at start k) _ refl (
          copy_packed-Paints start width (suc k) pscale (n - k % n - 1)
            (fb (start + k / n) >>> (bits * (k % n)) >>> bits) (start + suc (k / n)) h
            (IsAt-next start k h)))

-- A line of words is a line of one pixel in a word.
copy_line_32bpp-packed :
    (fb be32toh : ℕ → ℕ) (width pscale opx ps : ℕ)
    → copy_packed fb 1 be32toh 32 width pscale 0 opx ps ≡ copy_line_32bpp fb be32toh width pscale ps
unfolding copy_line_32bpp copy_packed refill
copy_line_32bpp-packed fb be32toh zero pscale opx ps = refl
copy_line_32bpp-packed fb be32toh (suc width) pscale opx ps =
    ap (λ (rest : List ℕ × ℕ). (replicate pscale (be32toh (fb ps)) ++ rest.0, rest.1))
      (copy_line_32bpp-packed fb be32toh width pscale (fb ps >>> 32) (suc ps))

module _ (fb be32toh palette : ℕ → ℕ) (width pscale ps : ℕ) where
  packed-Paints :
      (n : ℕ) (colour : ℕ → ℕ) (bits : ℕ)
      → 0 < n
      → Paints fb n colour bits ps 0 width pscale (copy_packed fb n colour bits width pscale 0 0 ps)
  packed-Paints n colour bits h =
      copy_packed-Paints fb n colour bits ps width 0 pscale 0 0 ps h
        (IsAt-start fb n colour bits ps 0 h)

  pub copy_line_32bpp-Paints :
      Paints fb 1 be32toh 32 ps 0 width pscale (copy_line_32bpp fb be32toh width pscale ps)
  copy_line_32bpp-Paints =
      subst (Paints fb 1 be32toh 32 ps 0 width pscale)
        (copy_line_32bpp-packed fb be32toh width pscale 0 ps)
        (packed-Paints 1 be32toh 32 (omega arith))

  pub copy_line_16bpp-Paints :
      Paints fb 2 colour_565 16 ps 0 width pscale (copy_line_16bpp fb width pscale ps)
  unfolding copy_line_16bpp
  copy_line_16bpp-Paints = packed-Paints 2 colour_565 16 (omega arith)

  pub copy_line_indexed-Paints :
      (bpp : ℕ)
      → 0 < 32 / bpp
      → Paints fb
          (32 / bpp)
          (indexed palette bpp)
          bpp
          ps
          0
          width
          pscale
          (copy_line_indexed fb palette bpp width pscale ps)
  unfolding copy_line_indexed
  copy_line_indexed-Paints bpp h = packed-Paints (32 / bpp) (indexed palette bpp) bpp h
