-- ===== src/Bits/Shift.antt =====
-- The digits of shifted numbers and of runs of ones.
use native.Mathlib.Nat.{pow-suc, one-le-pow}
use mr_iss.Base.{
  Bool-cases, inl, inr, ◌&&◌, leb, ℕ, zero, suc, ◌+◌, ◌-◌, ◌*◌, ◌/◌, ◌%◌, ◌^◌, ◌<◌, ◌≡◌, refl, sym,
  ap, ap₂, ◌∙◌, arith, ltb, if◌then◌else◌,
}
use mr_iss.Bits.Digits.{digit, digit_high}
use mr_iss.Bits.Fields.{mul_pow_suc, mod_halves, div_halves}

-- `x >> k` moves digit `k + i` to place `i`.
pub digit-shift_right : (x k i : ℕ) → digit (x / 2 ^ k) i ≡ digit x (k + i)
digit-shift_right x zero i =
    ap₂ digit {x = x / 2 ^ 0} {y = x} {u = i} {v = 0 + i} (omega arith) (omega arith)
digit-shift_right x (suc k) i =
    ap (λ t. digit t i) (sym (div_halves x k))
    ∙ digit-shift_right (x / 2) k i
    ∙ ap (digit x) {x = suc (k + i)} {y = suc k + i} (omega arith)

-- `x << k` leaves zeros below place `k`.
digit-shift_left_low : (x k i : ℕ) → i < k → digit (x * 2 ^ k) i ≡ 0
digit-shift_left_low x zero i h = absurd (omega arith)
digit-shift_left_low x (suc k) zero h = omega (arith, mul_pow_suc x k)
digit-shift_left_low x (suc k) (suc i) h =
    ap (λ t. digit t i) (omega (arith, mul_pow_suc x k)) ∙ digit-shift_left_low x k i (omega arith)

-- `x << k` moves digit `i` to place `k + i`.
digit-shift_left : (x k i : ℕ) → digit (x * 2 ^ k) (k + i) ≡ digit x i
digit-shift_left x zero i =
    ap₂ digit {x = x * 2 ^ 0} {y = x} {u = 0 + i} {v = i} (omega arith) (omega arith)
digit-shift_left x (suc k) i =
    ap₂ digit {x = x * 2 ^ suc k} {y = x * 2 ^ suc k} {u = suc k + i} {v = suc (k + i)} refl
      (omega arith)
    ∙ ap (λ t. digit t (k + i)) (omega (arith, mul_pow_suc x k))
    ∙ digit-shift_left x k i

-- A narrowing cast drops the digits past its width.
pub digit-mod : (w x i : ℕ) → i < w → digit (x % 2 ^ w) i ≡ digit x i
digit-mod zero x i h = absurd (omega arith)
digit-mod (suc w) x zero h = omega (arith, mod_halves w x)
digit-mod (suc w) x (suc i) h =
    ap (λ t. digit t i) (omega (arith, mod_halves w x)) ∙ digit-mod w (x / 2) i (omega arith)

-- `w` ones.
pub digit-ones : (w i : ℕ) → digit (2 ^ w - 1) i ≡ (if ltb i w then 1 else 0)
digit-ones zero i = ground (arith, digit_high 0 0 i (omega arith) (omega arith))
digit-ones (suc w) zero = ground (arith, pow-suc 2 w, one-le-pow w 2 (omega arith))
digit-ones (suc w) (suc i) =
    ap (λ t. digit t i) (omega (arith, pow-suc 2 w, one-le-pow w 2 (omega arith)))
    ∙ digit-ones w i
    ∙ ground arith

pub digit-shift_left_at :
    (z k i : ℕ) → digit (z * 2 ^ k) i ≡ (if leb k i then digit z (i - k) else 0)
digit-shift_left_at z k i = elim (Bool-cases (leb k i)) [
  | inl h ↦
      ap (digit (z * 2 ^ k)) {x = i} {y = k + (i - k)} (ground arith)
      ∙ digit-shift_left z k (i - k)
      ∙ sym (ap (λ b. if b then digit z (i - k) else 0) h)
  | inr h ↦
      digit-shift_left_low z k i (ground arith) ∙ sym (ap (λ b. if b then digit z (i - k) else 0) h)
]

-- `w` ones from place `k` on.
pub digit-field :
    (w k i : ℕ) → digit ((2 ^ w - 1) * 2 ^ k) i ≡ (if leb k i && ltb i (k + w) then 1 else 0)
digit-field w k i = ground (arith, digit-shift_left_at (2 ^ w - 1) k i, digit-ones w (i - k))
