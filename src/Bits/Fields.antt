-- ===== src/Bits/Fields.antt =====
-- Masks of adjacent digits as `/` and `%`, `|` of disjoint fields as a sum, and widths.
use native.Mathlib.Nat.{
  div-div-eq-div-mul, pow-succ', one-le-pow, pow-suc, mul-add-mod_self_left, mod-eq_of_lt, mod-lt,
  div-add-mod,
}
use mr_iss.Base.{
  ◌↔◌, truthy, true, ℕ, zero, suc, ◌+◌, ◌-◌, ◌*◌, ◌/◌, ◌%◌, ◌^◌, ◌≤◌, ◌<◌, bit_and, bit_or, bit_xor,
  ◌≡◌, refl, sym, ap, ◌∙◌, arith,
}
use mr_iss.Bits.Step.{bit_and_step, bit_or_step, bit_xor_step}
use mr_iss.Bits.Digits.{
  digit, digit-lt, digit_lem, digit-bit_and, digit-bit_or, digit_ext, differ-lt,
}

pub mul_pow_suc : (q k : ℕ) → q * 2 ^ suc k ≡ q * 2 ^ k * 2
mul_pow_suc q k = omega (arith, ap (λ (t : ℕ). q * t) (pow-suc 2 k))

bit_and_comm : (a b : ℕ) → bit_and a b ≡ bit_and b a
bit_and_comm a b = digit_ext _ _ (λ i. omega (arith, digit-bit_and a b i, digit-bit_and b a i))

pub bit_or_comm : (a b : ℕ) → bit_or a b ≡ bit_or b a
bit_or_comm a b = digit_ext _ _ (λ i. omega (arith, digit-bit_or a b i, digit-bit_or b a i))

pub bit_or_assoc : (a b c : ℕ) → bit_or (bit_or a b) c ≡ bit_or a (bit_or b c)
bit_or_assoc a b c = digit_ext _ _ λ i. omega (
  arith,
  digit-bit_or (bit_or a b) c i,
  digit-bit_or a b i,
  digit-bit_or a (bit_or b c) i,
  digit-bit_or b c i,
)

pub zero_digit : (i : ℕ) → digit 0 i ≡ 0
zero_digit zero = refl
zero_digit (suc i) = zero_digit i

bit_and-zero : (a : ℕ) → bit_and a 0 ≡ 0
bit_and-zero a = digit_ext _ _ (λ i. omega (arith, digit-bit_and a 0 i, zero_digit i))

pub bit_or-zero : (a : ℕ) → bit_or a 0 ≡ a
bit_or-zero a = digit_ext _ _ (λ i. omega (arith, digit-bit_or a 0 i, zero_digit i))

pub div_halves : (x k : ℕ) → x / 2 / 2 ^ k ≡ x / 2 ^ suc k
div_halves x k = div-div-eq-div-mul x 2 (2 ^ k) ∙ ap (λ t. x / t) (sym (pow-succ' 2 k))

pub mod_halves : (w x : ℕ) → x % 2 ^ suc w ≡ x / 2 % 2 ^ w * 2 + x % 2
mod_halves w x =
    ap (λ t. t % 2 ^ suc w) whole
    ∙ mul-add-mod_self_left (2 ^ suc w) (x / 2 / 2 ^ w) (x / 2 % 2 ^ w * 2 + x % 2)
    ∙ mod-eq_of_lt low
  where
    room : x / 2 % 2 ^ w < 2 ^ w
    room = mod-lt (x / 2) (one-le-pow w 2 (omega arith))

    whole : x ≡ 2 ^ suc w * (x / 2 / 2 ^ w) + (x / 2 % 2 ^ w * 2 + x % 2)
    whole =
        omega
          (arith, div-add-mod (x / 2) (2 ^ w), ap (λ (t : ℕ). t * (x / 2 / 2 ^ w)) (pow-suc 2 w))

    low : x / 2 % 2 ^ w * 2 + x % 2 < 2 ^ suc w
    low = omega (arith, room, pow-suc 2 w)

-- `x & (2 ^ w - 1)`.
pub bit_and_low : (w x : ℕ) → bit_and x (2 ^ w - 1) ≡ x % 2 ^ w
bit_and_low zero x = bit_and-zero x ∙ omega arith
bit_and_low (suc w) x = ground (
  arith,
  bit_and_step x (2 ^ suc w - 1),
  pow-suc 2 w,
  one-le-pow w 2 (omega arith),
  bit_and_low w (x / 2),
  mod_halves w x,
)

-- A mask moved up by `k` places masks what stands there.
bit_and_shift : (k x m : ℕ) → bit_and x (m * 2 ^ k) ≡ bit_and (x / 2 ^ k) m * 2 ^ k
bit_and_shift zero x m = ground arith
bit_and_shift (suc k) x m = ground (
  arith,
  bit_and_step x (m * 2 ^ suc k),
  mul_pow_suc m k,
  mul_pow_suc (bit_and (x / 2 ^ suc k) m) k,
  bit_and_shift k (x / 2) m,
  div_halves x k,
)

-- `x & (((1 << w) - 1) << k)`.
pub bit_and_field : (k w x : ℕ) → bit_and x ((2 ^ w - 1) * 2 ^ k) ≡ x / 2 ^ k % 2 ^ w * 2 ^ k
bit_and_field k w x =
    bit_and_shift k x (2 ^ w - 1) ∙ ap (λ (t : ℕ). t * 2 ^ k) (bit_and_low w (x / 2 ^ k))

-- `x & (1 << k)` is 0 exactly when digit `k` is.
pub bit_and_bit : (k x : ℕ) → bit_and x (1 * 2 ^ k) ≡ digit x k * 2 ^ k
bit_and_bit k x = bit_and_field k 1 x ∙ ap (λ (t : ℕ). t * 2 ^ k) (sym (digit_lem x k))

-- `|` of a field above `k` places and one that fits in them is their sum.
pub bit_or_sum : (k q r : ℕ) → r < 2 ^ k → bit_or (q * 2 ^ k) r ≡ q * 2 ^ k + r
bit_or_sum zero q r h = ground (arith, bit_or-zero q)
bit_or_sum (suc k) q r h = ground (
  arith,
  bit_or_step (q * 2 ^ suc k) r,
  mul_pow_suc q k,
  pow-suc 2 k,
  bit_or_sum k q (r / 2) (omega (arith, pow-suc 2 k)),
)

bit_and-le_below : (n a b : ℕ) → a ≤ n → bit_and a b ≤ a
bit_and-le_below zero a b h = ground (arith, bit_and_comm 0 b, bit_and-zero b)
bit_and-le_below (suc n) a b h =
    omega (arith, bit_and_step a b, bit_and-le_below n (a / 2) (b / 2) (omega arith))

pub bit_and-le : (a b : ℕ) → bit_and a b ≤ a
bit_and-le a b = bit_and-le_below a a b (omega arith)

pub bit_or-lt : (w a b : ℕ) → a < 2 ^ w → b < 2 ^ w → bit_or a b < 2 ^ w
bit_or-lt zero a b p q = ground (arith, bit_or-zero 0)
bit_or-lt (suc w) a b p q = omega (
  arith,
  bit_or_step a b,
  pow-suc 2 w,
  bit_or-lt w (a / 2) (b / 2) (omega (arith, pow-suc 2 w)) (omega (arith, pow-suc 2 w)),
)

bit_xor-lt : (w a b : ℕ) → a < 2 ^ w → b < 2 ^ w → bit_xor a b < 2 ^ w
bit_xor-lt zero zero zero p q = omega arith
bit_xor-lt zero (suc a) b p q = absurd (omega arith)
bit_xor-lt zero zero (suc b) p q = absurd (omega arith)
bit_xor-lt (suc w) a b p q = omega (
  arith,
  bit_xor_step a b,
  pow-suc 2 w,
  differ-lt (a % 2) (b % 2) (omega arith) (omega arith),
  bit_xor-lt w (a / 2) (b / 2) (omega (arith, pow-suc 2 w)) (omega (arith, pow-suc 2 w)),
)

-- A mask of two parts, one above `k` places and one below, masks each part on its own.
pub bit_and_parts :
    (k x m r : ℕ)
    → r < 2 ^ k
    → bit_and x (m * 2 ^ k + r) ≡ bit_and (x / 2 ^ k) m * 2 ^ k + bit_and x r
bit_and_parts zero x m r h = ground (arith, bit_and-zero x)
bit_and_parts (suc k) x m r h = ground (
  arith,
  bit_and_step x (m * 2 ^ suc k + r),
  bit_and_step x r,
  mul_pow_suc m k,
  mul_pow_suc (bit_and (x / 2 ^ suc k) m) k,
  bit_and_parts k (x / 2) m (r / 2) (omega (arith, pow-suc 2 k)),
  div_halves x k,
)

pub mul-pow-eq_zero : (f k : ℕ) → f * 2 ^ k ≡ 0 → f ≡ 0
mul-pow-eq_zero zero k h = refl
mul-pow-eq_zero (suc f) k h = absurd (omega (arith, one-le-pow k 2 (omega arith)))

-- C's test of one bit.
pub bit_and-digit_iff : (x k : ℕ) → (truthy (bit_and x (2 ^ k)) ≡ true) ↔ (digit x k ≡ 1)
bit_and-digit_iff x k = ground (arith, bit_and_bit k x, digit-lt x k, mul-pow-eq_zero (digit x k) k)
