-- ===== src/Interp/Macros/Sums.antt =====
-- Sums and comparisons of inst_utility.h against arithmetic on the values that words stand for.
use mr_iss.Base.{
  ℕ, ◌+◌, ◌-◌, ◌*◌, ◌^◌, ◌<◌, bit_and, bit_or, ◌≡◌, ◌↔◌, ◌⊎◌, false, arith, ltb, leb, if◌then◌else◌,
  truthy, u32,
}
use mr_iss.Bits.Fields.{bit_and_field, bit_and_low, bit_or_sum}
use mr_iss.Interp.Macros.{bias, add_ov_co_ci, cmp, cmpu}

-- The carry out and the sum together are the exact sum.
add-carry :
    (a b ci : ℕ)
    → a < 2 ^ 32
    → b < 2 ^ 32
    → ci < 2
    → let s = add_ov_co_ci a b ci in (s.co * 2 ^ 32 + s.val ≡ a + b + ci) × (s.val < 2 ^ 32)
unfolding add_ov_co_ci
add-carry a b ci ha hb hc =
    let low = bit_and_low 32 (a + b + ci) in
    let high = bit_and_field 32 1 (a + b + ci) in (ground (arith, low, high), omega (arith, low))

sign_lem : (x : ℕ) → x < 2 ^ 32 → truthy (bit_and x 0x8000_0000) ≡ leb (2 ^ 31) x
sign_lem x h = ground (arith, bit_and_field 31 1 x)

bias_lem : (x : ℕ) → x < 2 ^ 32 → bias x ≡ (if leb (2 ^ 31) x then x - 2 ^ 31 else x + 2 ^ 31)
bias_lem x h = ground arith

-- Overflow is reported exactly when the result, read as a signed word, is not the sum of the operands
-- read as signed words.
pub add-overflow_iff :
    (a b ci : ℕ)
    → a < 2 ^ 32
    → b < 2 ^ 32
    → ci < 2
    → let s = add_ov_co_ci a b ci in (s.ov ≡ false) ↔ (bias s.val + 2 ^ 31 ≡ bias a + bias b + ci)
unfolding add_ov_co_ci
add-overflow_iff a b ci ha hb hc = ground (
  arith,
  sign_lem a ha,
  sign_lem b hb,
  sign_lem (u32 (a + b + ci)) (omega arith),
  bit_and_low 32 (a + b + ci),
  bias_lem a ha,
  bias_lem b hb,
  bias_lem (u32 (a + b + ci)) (omega arith),
)

-- The field that a comparison writes: one of less, greater and equal, with the summary overflow.
abbrev Compared : ℕ → ℕ → ℕ → ℕ → Type 0
Compared x y so field =
    ((x < y) × (field ≡ 8 + so)) ⊎ ((y < x) × (field ≡ 4 + so)) ⊎ ((x ≡ y) × (field ≡ 2 + so))

or_so : (so : ℕ) → so < 2 → (bit_or 8 so ≡ 8 + so) × (bit_or 4 so ≡ 4 + so) × (bit_or 2 so ≡ 2 + so)
or_so so h = (bit_or_sum 3 1 so (omega arith), bit_or_sum 2 1 so (omega arith), bit_or_sum 1 1 so h)

-- A signed comparison finds which of the two values is the less, and an unsigned one likewise.
cmp-Compared :
    (x y so : ℕ)
    → so < 2
    → Compared (bias x) (bias y) so (cmp x y so) × Compared x y so (cmpu x y so)
unfolding cmp cmpu
cmp-Compared x y so hs = (compared (bias x) (bias y) so hs, compared x y so hs)
  where
    compared :
        (x y so : ℕ)
        → so < 2
        → Compared x y so (bit_or (if ltb x y then 8 else if ltb y x then 4 else 2) so)
    compared x y so hs = ground (arith, or_so so hs)
