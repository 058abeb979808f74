-- ===== src/Devices/Lcdc/Lines/Places.antt =====
-- The places of a line's pixels: pixel `x` in its word, and a pixel among those that are written.
use mr_iss.Base.{
  ℕ, zero, suc, ◌+◌, ◌*◌, ◌/◌, ◌%◌, ◌^◌, ◌<◌, ◌≡◌, refl, ap, ◌∙◌, ◌⊎◌, inl, inr, false, List, ◌∷◌,
  ◌++◌, arith, ltb, Bool-cases, length, get_or, replicate, ◌>>>◌,
}
use mr_iss.Bits.Divide.{pow-split}
use native.Mathlib.Nat.{
  add-mul-div_left, add-mul-mod_self_left, div-eq_of_lt, div_self, mod_self, div-add-mod,
  mod-eq_of_lt, mod-lt,
}
use native.Mathlib.Nat.{div-div-eq-div-mul}

-- Where pixel `x` of a line lies, when a word has `n` of them.
pub step_cases :
    (n k : ℕ)
    → 0 < n
    → ((suc k / n ≡ k / n) × (suc k % n ≡ suc (k % n)) × (suc (k % n) < n))
      ⊎ ((suc k / n ≡ suc (k / n)) × (suc k % n ≡ 0) × (suc (k % n) ≡ n))
step_cases n k h = elim (Bool-cases (ltb (suc (k % n)) n)) [
  | inl l ↦ inl (
    ap (λ t. t / n) next
        ∙ add-mul-div_left (suc (k % n)) (k / n) h
        ∙ omega (arith, div-eq_of_lt {n = suc (k % n)} {m = n} (ground arith)),
    ap (λ t. t % n) next
        ∙ add-mul-mod_self_left (suc (k % n)) n (k / n)
        ∙ mod-eq_of_lt {n = suc (k % n)} {m = n} (ground arith),
    ground arith,
  )
  | inr l ↦ inr (
    ap (λ t. t / n) next
        ∙ add-mul-div_left (suc (k % n)) (k / n) h
        ∙ omega (arith, ap (λ t. t / n) (full l), div_self h),
    ap (λ t. t % n) next
        ∙ add-mul-mod_self_left (suc (k % n)) n (k / n)
        ∙ ap (λ t. t % n) (full l)
        ∙ mod_self n,
    full l,
  )
]
  where
    next : suc k ≡ suc (k % n) + n * (k / n)
    next = omega (arith, div-add-mod k n)

    full : ltb (suc (k % n)) n ≡ false → suc (k % n) ≡ n
    full l = ground (arith, mod-lt k h)

pub shift_twice : (w bits r : ℕ) → w >>> (bits * r) >>> bits ≡ w >>> (bits * suc r)
shift_twice w bits r =
    div-div-eq-div-mul w (2 ^ (bits * r)) (2 ^ bits)
    ∙ ap (λ t. w / t) (omega (arith, pow-split bits (bits * r)))
    ∙ ap (λ t. w / 2 ^ t) {x = bits * r + bits} {y = bits * suc r} (omega arith)

pub get_or-append_left :
    (n v : ℕ) (rest : List ℕ) (s : ℕ) → s < n → get_or (replicate n v ++ rest) s 0 ≡ v
get_or-append_left zero v rest s h = absurd (omega (arith, h))
get_or-append_left (suc n) v rest zero h = refl
get_or-append_left (suc n) v rest (suc s) h = get_or-append_left n v rest s (omega (arith, h))

pub get_or-append_right :
    (n v : ℕ) (rest : List ℕ) (i : ℕ) → get_or (replicate n v ++ rest) (n + i) 0 ≡ get_or rest i 0
get_or-append_right zero v rest i = ap (λ k. get_or rest k 0) {x = 0 + i} {y = i} (omega arith)
get_or-append_right (suc n) v rest i =
    ap (λ k. get_or (v ∷ (replicate n v ++ rest)) k 0) {x = suc n + i} {y = suc (n + i)}
      (omega arith)
    ∙ get_or-append_right n v rest i

pub length-append_replicate :
    (n v : ℕ) (rest : List ℕ) → length (replicate n v ++ rest) ≡ n + length rest
length-append_replicate zero v rest = omega arith
length-append_replicate (suc n) v rest = ap suc (length-append_replicate n v rest) ∙ omega arith
