-- ===== src/Interp/Macros/Fields.antt =====
-- The eight fields of the condition register, and its bits.
use mr_iss.Base.{
  ℕ, ◌+◌, ◌-◌, ◌*◌, ◌^◌, ◌<◌, ◌≡◌, refl, ◌≢◌, inl, inr, ◌&&◌, arith, ltb, leb, if◌then◌else◌,
  Bool-cases, holds_below_at, u32, ◌<<<◌, ◌>>>◌, clear32,
}
use mr_iss.Bits.Digits.{
  digit, digit-lt, digit-bit_and, digit-bit_or, digit-clear32, digit_ext, digit_high,
}
use mr_iss.Bits.Fields.{bit_and_low}
use mr_iss.Bits.Shift.{digit-shift_right, digit-shift_left_at, digit-field, digit-mod, digit-ones}
use mr_iss.Interp.Macros.{write_cr_field, read_cr_field}

-- The place of field `y`'s lowest bit.
abbrev place : ℕ → ℕ
place y = (7 - y) * 4

field_mask-lt : (y : ℕ) → y < 8 → 0xf <<< place y < 2 ^ 32
field_mask-lt y h = ground (arith, holds_below_at 8 (λ k. ltb (0xf <<< place k) (2 ^ 32)) y refl h)

digit-write_cr_field :
    (x y z i : ℕ)
    → y < 8
    → z < 16
    → i < 32
    → digit (write_cr_field x y z) i
      ≡ (if leb (place y) i && ltb i (place y + 4) then digit z (i - place y) else digit x i)
unfolding write_cr_field
digit-write_cr_field x y z i hy hz hi = ground (
  arith,
  digit-bit_or (clear32 x (0xf <<< place y)) (u32 (z <<< place y)) i,
  digit-clear32 x (0xf <<< place y) i (field_mask-lt y hy) hi,
  digit-field 4 (place y) i,
  digit-mod 32 (z <<< place y) i hi,
  digit-shift_left_at z (place y) i,
  digit_high 4 z (i - place y) hz,
  digit-lt x i,
)

digit-read_cr_field :
    (x y i : ℕ) → digit (read_cr_field x y) i ≡ (if ltb i 4 then digit x (place y + i) else 0)
unfolding read_cr_field
digit-read_cr_field x y i = ground (
  arith,
  digit-bit_and (x >>> place y) 0xf i,
  digit-ones 4 i,
  digit-shift_right x (place y) i,
  digit-lt x (place y + i),
)

-- A field reads back as it was written.
pub read-write_cr_field : (x y z : ℕ) → y < 8 → z < 16 → read_cr_field (write_cr_field x y z) y ≡ z
read-write_cr_field x y z hy hz = digit_ext _ _ (λ i. elim (Bool-cases (ltb i 4)) [
  | inl h ↦ ground (
    arith,
    digit-read_cr_field (write_cr_field x y z) y i,
    digit-write_cr_field x y z (place y + i) hy hz (ground arith),
  )
  | inr h ↦ ground (arith, digit-read_cr_field (write_cr_field x y z) y i, digit_high 4 z i hz)
])

-- Writing one field leaves the seven others.
pub read-write_cr_field_other :
    (x y z k : ℕ)
    → y < 8
    → k < 8
    → z < 16
    → k ≢ y
    → read_cr_field (write_cr_field x y z) k ≡ read_cr_field x k
read-write_cr_field_other x y z k hy hk hz ne = digit_ext _ _ (λ i. elim (Bool-cases (ltb i 4)) [
  | inl h ↦ ground (
    arith,
    digit-read_cr_field (write_cr_field x y z) k i,
    digit-read_cr_field x k i,
    digit-write_cr_field x y z (place k + i) hy hz (ground arith),
  )
  | inr h ↦
      ground (arith, digit-read_cr_field (write_cr_field x y z) k i, digit-read_cr_field x k i)
])

pub read_cr_field-lt : (x y : ℕ) → read_cr_field x y < 16
unfolding read_cr_field
read_cr_field-lt x y = omega (arith, bit_and_low 4 (x >>> place y))
