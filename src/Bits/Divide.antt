-- ===== src/Bits/Divide.antt =====
-- Division of a number and of the one before it, and of a number's complement.
use mr_iss.Base.{
  Bool-cases, inl, inr, ltb, ℕ, zero, suc, ◌+◌, ◌*◌, ◌/◌, ◌%◌, ◌^◌, ◌<◌, ◌≡◌, ap, ◌∙◌, arith,
  if◌then◌else◌, ◌==◌, ◌↔◌,
}
use mr_iss.Bits.Fields.{mul_pow_suc}
use native.Mathlib.Nat.{
  pow-suc, mul-mod_left, add-mul-div_left, add-mul-mod_self_left, div-eq_of_lt, div_self, mod_self,
  div-add-mod, add-mod, mod-eq_of_lt, mod-lt,
}

-- The quotient grows just where the remainder returns to 0.
pub div_pred : (n p : ℕ) → 0 < p → suc n / p ≡ n / p + (if suc n % p == 0 then 1 else 0)
div_pred n p h = elim (Bool-cases (ltb (suc (n % p)) p)) [
  | inl l ↦ ground (
    arith,
    next,
    ap (λ t. t / p) next ∙ add-mul-div_left (suc (n % p)) (n / p) h,
    ap (λ t. t % p) next ∙ add-mul-mod_self_left (suc (n % p)) p (n / p),
    div-eq_of_lt {n = suc (n % p)} {m = p} (ground arith),
    mod-eq_of_lt {n = suc (n % p)} {m = p} (ground arith),
  )
  | inr l ↦ ground (
    arith,
    ap (λ t. t / p) next ∙ add-mul-div_left (suc (n % p)) (n / p) h,
    ap (λ t. t % p) next ∙ add-mul-mod_self_left (suc (n % p)) p (n / p),
    ap (λ t. t / p) {x = suc (n % p)} {y = p} (ground (arith, mod-lt n h)) ∙ div_self h,
    ap (λ t. t % p) {x = suc (n % p)} {y = p} (ground (arith, mod-lt n h)) ∙ mod_self p,
  )
]
  where
    next : suc n ≡ suc (n % p) + p * (n / p)
    next = omega (arith, div-add-mod n p)

-- Two numbers whose sum `p` divides are divided by `p` both or neither.
pub mod-zero_iff : (x m p : ℕ) → 0 < p → (x + m) % p ≡ 0 → (x % p ≡ 0) ↔ (m % p ≡ 0)
mod-zero_iff x m p h e = (
  λ z. ground (
    arith,
    add-mod x m p,
    mod-lt m h,
    mod-eq_of_lt {n = m % p} {m = p} (mod-lt m h),
    ap (λ t. (t + m % p) % p) z,
  ),
  λ z. ground (
    arith,
    add-mod x m p,
    mod-lt x h,
    mod-eq_of_lt {n = x % p} {m = p} (mod-lt x h),
    ap (λ t. (x % p + t) % p) z,
  ),
)

pub pow-split : (d s : ℕ) → 2 ^ (s + d) ≡ 2 ^ d * 2 ^ s
pow-split d zero = ap (λ k. 2 ^ k) {x = 0 + d} {y = d} (omega arith) ∙ omega arith
pow-split d (suc s) =
    ap (λ k. 2 ^ k) {x = suc s + d} {y = suc (s + d)} (omega arith)
    ∙ omega (arith, pow-suc 2 (s + d), pow-split d s, mul_pow_suc (2 ^ d) s)

pub pow-mod : (d s : ℕ) → 2 ^ (s + d) % 2 ^ s ≡ 0
pow-mod d s = ap (λ t. t % 2 ^ s) (pow-split d s) ∙ mul-mod_left (2 ^ d) (2 ^ s)
