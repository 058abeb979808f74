-- ===== src/Devices/Lcdc/Frame/Rows.antt =====
-- The stores of a line and the copies of it below (`transformFramebuffer` of DevLCDC.cc).
use mr_iss.Base.{
  ℕ, zero, suc, ◌+◌, ◌-◌, ◌*◌, ◌≤◌, ◌<◌, ◌≡◌, refl, ap, ◌∙◌, ◌⊎◌, inl, inr, List, [], ◌∷◌, arith,
  ◌==◌, if◌then◌else◌, length, get_or,
}
use mr_iss.Devices.Lcdc.Frame.{store_line, copy_row, copy_rows}

-- A store of a line leaves what is outside it.
store_line-outside :
    (ps : List ℕ) (pd i : ℕ) (pixels : ℕ → ℕ)
    → (i < pd) ⊎ (pd + length ps ≤ i)
    → store_line ps pd pixels i ≡ pixels i
unfolding store_line
store_line-outside [] pd i pixels h = refl
store_line-outside (p ∷ ps) pd i pixels h =
    store_line-outside ps (suc pd) i (λ j. if j == pd then p else pixels j) (ground (arith, h))
    ∙ ground (arith, h)

store_line-inside :
    (ps : List ℕ) (pd c : ℕ) (pixels : ℕ → ℕ)
    → c < length ps
    → store_line ps pd pixels (pd + c) ≡ get_or ps c 0
unfolding store_line
store_line-inside [] pd c pixels h = absurd (omega (arith, h))
store_line-inside (p ∷ ps) pd zero pixels h =
    store_line-outside ps (suc pd) (pd + 0) (λ j. if j == pd then p else pixels j)
      (inl (omega arith))
    ∙ ground arith
store_line-inside (p ∷ ps) pd (suc c) pixels h =
    ap (store_line ps (suc pd) (λ j. if j == pd then p else pixels j)) {x = pd + suc c}
      {y = suc pd + c} (omega arith)
    ∙ store_line-inside ps (suc pd) c (λ j. if j == pd then p else pixels j) (omega (arith, h))

copy_row-outside :
    (w pd off i : ℕ) (pixels : ℕ → ℕ)
    → (i < pd + off) ⊎ (pd + off + w ≤ i)
    → copy_row w pd off pixels i ≡ pixels i
copy_row-outside w pd off i pixels h = ground (arith, h)

copy_row-inside :
    (w pd off c : ℕ) (pixels : ℕ → ℕ)
    → c < w
    → copy_row w pd off pixels (pd + off + c) ≡ pixels (pd + c)
copy_row-inside w pd off c pixels h =
    ground (arith, h, ap pixels {x = pd + off + c - off} {y = pd + c} (omega arith))

-- The copies from `s` on stay between the lines `s` and `s + left`.
copy_rows-outside :
    (w pd left s i : ℕ) (pixels : ℕ → ℕ)
    → (i < pd + w * s) ⊎ (pd + w * (s + left) ≤ i)
    → copy_rows w pd left s pixels i ≡ pixels i
unfolding copy_rows
copy_rows-outside w pd zero s i pixels h = refl
copy_rows-outside w pd (suc left) s i pixels h =
    copy_rows-outside w pd left (suc s) i (copy_row w pd (w * s) pixels) (ground (arith, h))
    ∙ copy_row-outside w pd (w * s) i pixels (ground (arith, h))

copy_rows-inside :
    (w pd left s t c : ℕ) (pixels : ℕ → ℕ)
    → t < left
    → c < w
    → copy_rows w pd left (suc s) pixels (pd + w * (suc s + t) + c) ≡ pixels (pd + c)
unfolding copy_rows
copy_rows-inside w pd zero s t c pixels h hc = absurd (omega (arith, h))
copy_rows-inside w pd (suc left) s zero c pixels h hc =
    let pixels' = copy_row w pd (w * suc s) pixels in
    ap (copy_rows w pd left (suc (suc s)) pixels') {x = pd + w * (suc s + 0) + c}
      {y = pd + w * suc s + c} (omega arith)
    ∙ copy_rows-outside w pd left (suc (suc s)) (pd + w * suc s + c) pixels'
        (inl (omega (arith, hc)))
    ∙ copy_row-inside w pd (w * suc s) c pixels hc
copy_rows-inside w pd (suc left) s (suc t) c pixels h hc =
    let pixels' = copy_row w pd (w * suc s) pixels in
    ap (copy_rows w pd left (suc (suc s)) pixels') {x = pd + w * (suc s + suc t) + c}
      {y = pd + w * (suc (suc s) + t) + c} (omega arith)
    ∙ copy_rows-inside w pd left (suc s) t c pixels' (omega (arith, h)) hc
    ∙ copy_row-outside w pd (w * suc s) (pd + c) pixels (inl (omega (arith, hc)))

-- A line and its copies, `sy` of them in all.
module _ (w sy pd : ℕ) (line : List ℕ) (pixels : ℕ → ℕ) where
  abbrev pub block : ℕ → ℕ
  block = copy_rows w pd (sy - 1) 1 (store_line line pd pixels)

  pub block-outside :
      (i : ℕ) → 0 < sy → length line ≤ w → (i < pd) ⊎ (pd + w * sy ≤ i) → block i ≡ pixels i
  block-outside i hs hl h = elim h [
    | inl l ↦
        copy_rows-outside w pd (sy - 1) 1 i (store_line line pd pixels) (inl (omega (arith, l)))
        ∙ store_line-outside line pd i pixels (inl l)
    | inr g ↦
        copy_rows-outside w pd (sy - 1) 1 i (store_line line pd pixels)
          (inr (omega (arith, g, ap (λ k. w * k) {x = 1 + (sy - 1)} {y = sy} (omega (arith, hs)))))
        ∙ store_line-outside line pd i pixels (
            inr (
              omega
                (arith, g, hl, ap (λ k. w * k) {x = suc (sy - 1)} {y = sy} (omega (arith, hs)))))
  ]

  pub block-inside :
      (ys c : ℕ)
      → ys < sy
      → length line ≤ w
      → c < length line
      → block (pd + w * ys + c) ≡ get_or line c 0
  block-inside zero c hy hl h =
      copy_rows-outside w pd (sy - 1) 1 (pd + w * 0 + c) (store_line line pd pixels)
        (inl (omega (arith, hl, h)))
      ∙ ap (store_line line pd pixels) {x = pd + w * 0 + c} {y = pd + c} (omega arith)
      ∙ store_line-inside line pd c pixels h
  block-inside (suc t) c hy hl h =
      ap block {x = pd + w * suc t + c} {y = pd + w * (1 + t) + c} (omega arith)
      ∙ copy_rows-inside w pd (sy - 1) 0 t c (store_line line pd pixels) (omega (arith, hy))
          (omega (arith, hl, h))
      ∙ store_line-inside line pd c pixels h
