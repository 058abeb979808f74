-- ===== src/Bits/Step.antt =====
-- `&`, `|` and `^` by their lowest binary digit, from the recursion the native operations stand for.
use Prim.Native.Nat.{digits, bitwise, differ, bit_and-bitwise, bit_or-bitwise, bit_xor-bitwise}
use mr_iss.Base.{
  ℕ, zero, suc, ◌+◌, ◌*◌, ◌/◌, ◌%◌, ◌≤◌, min, max, bit_and, bit_or, bit_xor, ◌≡◌, refl, arith,
}

module _ (rest : ℕ → ℕ) (op : ℕ → ℕ → ℕ) where
  -- Two budgets that both cover the first number give the same digits.
  digits-budget : (x y b c : ℕ) → x ≤ b → x ≤ c → digits rest op b x y ≡ digits rest op c x y
  digits-budget zero y zero zero p q = refl
  digits-budget zero y zero (suc c) p q = refl
  digits-budget zero y (suc b) zero p q = refl
  digits-budget zero y (suc b) (suc c) p q = refl
  digits-budget (suc x) y zero c p q = absurd (omega arith)
  digits-budget (suc x) y (suc b) zero p q = absurd (omega arith)
  digits-budget (suc x) y (suc b) (suc c) p q =
      rw (digits-budget (suc x / 2) (y / 2) b c (omega arith) (omega arith))

  bitwise-step :
      (x y : ℕ)
      → bitwise rest op (suc x) y ≡ bitwise rest op (suc x / 2) (y / 2) * 2 + op (suc x % 2) (y % 2)
  bitwise-step x y =
      rw (digits-budget (suc x / 2) (y / 2) x (suc x / 2) (omega arith) (omega arith))

differ_digit : (y : ℕ) → differ 0 y ≡ y
differ_digit y = refl

pub bit_and_step : (a b : ℕ) → bit_and a b ≡ bit_and (a / 2) (b / 2) * 2 + min (a % 2) (b % 2)
bit_and_step zero b = omega (arith, bit_and-bitwise 0 b, bit_and-bitwise 0 (b / 2))
bit_and_step (suc a) b = simp bit_and-bitwise (bitwise-step (λ _. 0) min a b)

pub bit_or_step : (a b : ℕ) → bit_or a b ≡ bit_or (a / 2) (b / 2) * 2 + max (a % 2) (b % 2)
bit_or_step zero b = omega (arith, bit_or-bitwise 0 b, bit_or-bitwise 0 (b / 2))
bit_or_step (suc a) b = simp bit_or-bitwise (bitwise-step (λ y. y) max a b)

pub bit_xor_step : (a b : ℕ) → bit_xor a b ≡ bit_xor (a / 2) (b / 2) * 2 + differ (a % 2) (b % 2)
bit_xor_step zero b =
    omega (arith, bit_xor-bitwise 0 b, bit_xor-bitwise 0 (b / 2), differ_digit (b % 2))
bit_xor_step (suc a) b = simp bit_xor-bitwise (bitwise-step (λ y. y) differ a b)
