-- ===== src/Bits/Xor.antt =====
-- `^` compares: a field of `a ^ b` is 0 exactly when `a` and `b` agree on it.
use mr_iss.Base.{ℕ, zero, suc, ◌-◌, ◌*◌, ◌/◌, ◌%◌, ◌^◌, ◌<◌, bit_and, bit_xor, ◌≡◌, ◌↔◌, arith}
use Prim.Native.Nat.{differ}
use mr_iss.Bits.Step.{bit_xor_step}
use mr_iss.Bits.Digits.{differ-lt}
use mr_iss.Bits.Fields.{mul-pow-eq_zero, bit_and_field, mod_halves, div_halves}

differ_iff : (x y : ℕ) → x < 2 → y < 2 → (differ x y ≡ 0) ↔ (x ≡ y)
differ_iff zero zero p q = ground arith
differ_iff zero (suc y) p q = ground arith
differ_iff (suc x) zero p q = ground arith
differ_iff (suc zero) (suc zero) p q = ground arith
differ_iff (suc zero) (suc (suc y)) p q = absurd (omega arith)
differ_iff (suc (suc x)) (suc y) p q = absurd (omega arith)

bit_xor-mod_iff : (w x y : ℕ) → (bit_xor x y % 2 ^ w ≡ 0) ↔ (x % 2 ^ w ≡ y % 2 ^ w)
bit_xor-mod_iff zero x y = ground arith
bit_xor-mod_iff (suc w) x y = ground (
  arith,
  bit_xor_step x y,
  differ_iff (x % 2) (y % 2),
  differ-lt (x % 2) (y % 2),
  bit_xor-mod_iff w (x / 2) (y / 2),
  mod_halves w x,
  mod_halves w y,
  mod_halves w (bit_xor x y),
)

bit_xor-div : (k x y : ℕ) → bit_xor x y / 2 ^ k ≡ bit_xor (x / 2 ^ k) (y / 2 ^ k)
bit_xor-div zero x y = ground arith
bit_xor-div (suc k) x y = ground (
  arith,
  bit_xor_step x y,
  differ-lt (x % 2) (y % 2),
  bit_xor-div k (x / 2) (y / 2),
  div_halves x k,
  div_halves y k,
  div_halves (bit_xor x y) k,
)

pub bit_xor_field_iff :
    (k w x y : ℕ)
    → (bit_and (bit_xor x y) ((2 ^ w - 1) * 2 ^ k) ≡ 0) ↔ (x / 2 ^ k % 2 ^ w ≡ y / 2 ^ k % 2 ^ w)
bit_xor_field_iff k w x y = ground (
  arith,
  bit_and_field k w (bit_xor x y),
  bit_xor-div k x y,
  bit_xor-mod_iff w (x / 2 ^ k) (y / 2 ^ k),
  mul-pow-eq_zero (bit_xor (x / 2 ^ k) (y / 2 ^ k) % 2 ^ w) k,
)
