-- ===== src/Bits/Digits.antt =====
-- A number is its binary digits, and the bit operations work digit by digit.
use native.Mathlib.Nat.{div-div-eq-div-mul, pow-succ', one-le-pow, pow-suc}
use Prim.Native.Nat.{differ}
use mr_iss.Base.{
  if◌then◌else◌, ◌==◌, ℕ, zero, suc, ◌+◌, ◌-◌, ◌/◌, ◌%◌, ◌^◌, ◌≤◌, ◌<◌, min, max, bit_and, bit_or,
  bit_xor, ◌≡◌, refl, sym, ap, ◌∙◌, arith, not32, clear32,
}
use mr_iss.Bits.Step.{bit_and_step, bit_or_step, bit_xor_step}

-- Digit `i` of `x`, lowest first.
abbrev pub digit : ℕ → ℕ → ℕ
digit x zero = x % 2
digit x (suc i) = digit (x / 2) i

pub digit-lt : (x i : ℕ) → digit x i < 2
digit-lt x zero = omega arith
digit-lt x (suc i) = digit-lt (x / 2) i

pub digit_lem : (x i : ℕ) → digit x i ≡ x / 2 ^ i % 2
digit_lem x zero = omega arith
digit_lem x (suc i) =
    digit_lem (x / 2) i
    ∙ ap (λ t. t % 2) (div-div-eq-div-mul x 2 (2 ^ i) ∙ ap (λ t. x / t) (sym (pow-succ' 2 i)))

pub digit-bit_and : (a b i : ℕ) → digit (bit_and a b) i ≡ min (digit a i) (digit b i)
digit-bit_and a b zero = omega (arith, bit_and_step a b)
digit-bit_and a b (suc i) =
    ap (λ t. digit t i) (omega (arith, bit_and_step a b)) ∙ digit-bit_and (a / 2) (b / 2) i

pub digit-bit_or : (a b i : ℕ) → digit (bit_or a b) i ≡ max (digit a i) (digit b i)
digit-bit_or a b zero = omega (arith, bit_or_step a b)
digit-bit_or a b (suc i) =
    ap (λ t. digit t i) (omega (arith, bit_or_step a b)) ∙ digit-bit_or (a / 2) (b / 2) i

pub differ-lt : (x y : ℕ) → x < 2 → y < 2 → differ x y < 2
differ-lt zero y p q = q
differ-lt (suc x) zero p q = p
differ-lt (suc zero) (suc zero) p q = omega arith
differ-lt (suc zero) (suc (suc y)) p q = absurd (omega arith)
differ-lt (suc (suc x)) (suc y) p q = absurd (omega arith)

digit-bit_xor : (a b i : ℕ) → digit (bit_xor a b) i ≡ differ (digit a i) (digit b i)
digit-bit_xor a b zero =
    omega (arith, bit_xor_step a b, differ-lt (a % 2) (b % 2) (omega arith) (omega arith))
digit-bit_xor a b (suc i) =
    ap (λ t. digit t i)
      (omega (arith, bit_xor_step a b, differ-lt (a % 2) (b % 2) (omega arith) (omega arith)))
    ∙ digit-bit_xor (a / 2) (b / 2) i

-- Numbers with the same digits are equal.
digit_ext_below : (n a b : ℕ) → a ≤ n → b ≤ n → ((i : ℕ) → digit a i ≡ digit b i) → a ≡ b
digit_ext_below zero a b p q h = omega arith
digit_ext_below (suc n) zero zero p q h = refl
digit_ext_below (suc n) a b p q h =
    omega
      (arith, h 0, digit_ext_below n (a / 2) (b / 2) (omega arith) (omega arith) (λ i. h (suc i)))

pub digit_ext : (a b : ℕ) → ((i : ℕ) → digit a i ≡ digit b i) → a ≡ b
digit_ext a b h = digit_ext_below (a + b) a b (omega arith) (omega arith) h

-- Every digit from `w` on is 0 in a number of `w` bits.
pub digit_high : (w x i : ℕ) → x < 2 ^ w → w ≤ i → digit x i ≡ 0
digit_high zero x zero p q = omega arith
digit_high zero x (suc i) p q =
    ap (λ t. digit t i) (omega arith) ∙ digit_high zero 0 i (omega arith) (omega arith)
digit_high (suc w) x zero p q = absurd (omega arith)
digit_high (suc w) x (suc i) p q = digit_high w (x / 2) i (omega (arith, pow-suc 2 w)) (omega arith)

-- The complement within `w` bits turns each of those digits over.
pub digit-complement : (w x i : ℕ) → x < 2 ^ w → i < w → digit (2 ^ w - 1 - x) i ≡ 1 - digit x i
digit-complement zero x i p q = absurd (omega arith)
digit-complement (suc w) x zero p q = omega (arith, pow-suc 2 w, one-le-pow w 2 (omega arith))
digit-complement (suc w) x (suc i) p q =
    ap (λ t. digit t i) (omega (arith, pow-suc 2 w, one-le-pow w 2 (omega arith)))
    ∙ digit-complement w (x / 2) i (omega (arith, pow-suc 2 w)) (omega arith)

-- `x &= ~mask` keeps the digits that are not in the mask.
pub digit-clear32 :
    (x mask i : ℕ)
    → mask < 2 ^ 32
    → i < 32
    → digit (clear32 x mask) i ≡ min (digit x i) (1 - digit mask i)
digit-clear32 x mask i p q =
    digit-bit_and x (not32 mask) i ∙ ap (λ t. min (digit x i) t) (digit-complement 32 mask i p q)

pub digit-power : (n k : ℕ) → digit (2 ^ n) k ≡ (if k == n then 1 else 0)
digit-power zero zero = refl
digit-power zero (suc k) = ground (arith, digit_high zero 0 k (omega arith) (omega arith))
digit-power (suc n) zero = ground (arith, pow-suc 2 n)
digit-power (suc n) (suc k) =
    ap (λ t. digit t k) (omega (arith, pow-suc 2 n)) ∙ digit-power n k ∙ ground arith
