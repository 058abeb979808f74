-- ===== src/Interp/Macros/Masks.antt =====
-- The masks and rotations of the rotate instructions, bit by bit.
use mr_iss.Base.{
  ℕ, ◌+◌, ◌-◌, ◌^◌, ◌<◌, bit_and, ◌≡◌, refl, ap, inl, inr, Bool, ◌&&◌, ◌||◌, arith, ltb, leb, ◌==◌,
  if◌then◌else◌, to_int, Bool-cases, holds_below_at, u32, ◌<<<◌, ◌>>>◌, not32,
}
use mr_iss.Bits.Digits.{digit, digit-lt, digit-bit_and, digit-bit_or, digit-complement, digit_high}
use native.Mathlib.Nat.{div-le_self}
use mr_iss.Bits.Fields.{bit_and-le, bit_or-lt}
use mr_iss.Bits.Shift.{digit-shift_right, digit-shift_left_at, digit-mod, digit-ones}
use mr_iss.Interp.Macros.{mkmask, rotl32}

-- The four shifts of `mkmask` as runs of ones.
mask_parts :
    (k : ℕ)
    → k < 32
    → (0xffff_ffff >>> k ≡ 2 ^ (32 - k) - 1)
      × (0x7fff_ffff >>> k ≡ 2 ^ (31 - k) - 1)
      × (u32 (0xffff_ffff <<< (31 - k)) ≡ not32 (2 ^ (31 - k) - 1))
      × (not32 (u32 (0xffff_fffe <<< (31 - k))) ≡ 2 ^ (32 - k) - 1)
mask_parts k h = ground (
  arith,
  holds_below_at 32 (λ k. 0xffff_ffff >>> k == 2 ^ (32 - k) - 1) k refl h,
  holds_below_at 32 (λ k. 0x7fff_ffff >>> k == 2 ^ (31 - k) - 1) k refl h,
  holds_below_at 32 (λ k. u32 (0xffff_ffff <<< (31 - k)) == not32 (2 ^ (31 - k) - 1)) k refl h,
  holds_below_at 32 (λ k. not32 (u32 (0xffff_fffe <<< (31 - k))) == 2 ^ (32 - k) - 1) k refl h,
)

run-lt : (k : ℕ) → k < 32 → 2 ^ (31 - k) - 1 < 2 ^ 32
run-lt k h = ground (arith, holds_below_at 32 (λ k. ltb (2 ^ (31 - k) - 1) (2 ^ 32)) k refl h)

-- Bit `b`, counted from the top, is in the mask from `mb` to `me`: between them, or, when the mask wraps
-- around, not strictly between `me` and `mb`.
abbrev pub in_mask : ℕ → ℕ → ℕ → Bool
in_mask mb me b = if leb mb me then leb mb b && leb b me else leb mb b || leb b me

-- The mask has exactly the bits from `mb` to `me`, around the end of the word when `me` is before `mb`.
pub digit-mkmask :
    (mb me b : ℕ)
    → mb < 32
    → me < 32
    → b < 32
    → digit (mkmask mb me) (31 - b) ≡ to_int (in_mask mb me b)
unfolding mkmask
digit-mkmask mb me b hb he h =
    let (from, _, _, from_wrapped) = mask_parts mb hb in
    let (_, to, to_wrapped, _) = mask_parts me he in
    ground (
      arith,
      digit-bit_and (0xffff_ffff >>> mb) (not32 (0x7fff_ffff >>> me)) (31 - b),
      digit-bit_or (u32 (0xffff_ffff <<< (31 - me))) (not32 (u32 (0xffff_fffe <<< (31 - mb))))
          (31 - b),
      ap (λ t. digit t (31 - b)) from,
      ap (λ t. digit (not32 t) (31 - b)) to,
      ap (λ t. digit t (31 - b)) to_wrapped,
      ap (λ t. digit t (31 - b)) from_wrapped,
      digit-ones (32 - mb) (31 - b),
      digit-ones (31 - me) (31 - b),
      digit-complement 32 (2 ^ (31 - me) - 1) (31 - b) (run-lt me he) (omega arith),
    )

-- A rotation moves bit `i` up by `s` places, around the end of the word.
pub digit-rotl32 :
    (x s i : ℕ)
    → x < 2 ^ 32
    → s < 32
    → i < 32
    → digit (rotl32 x s) i ≡ digit x (if leb s i then i - s else i + 32 - s)
unfolding rotl32
digit-rotl32 x s i hx hs hi = elim (Bool-cases (leb s i)) [
  | inl h ↦ ground (
    arith,
    digit-bit_or (bit_and (u32 (x <<< s)) 0xffff_ffff) (bit_and (x >>> (32 - s)) 0xffff_ffff) i,
    digit-bit_and (u32 (x <<< s)) 0xffff_ffff i,
    digit-bit_and (x >>> (32 - s)) 0xffff_ffff i,
    digit-ones 32 i,
    digit-mod 32 (x <<< s) i hi,
    digit-shift_left_at x s i,
    digit-shift_right x (32 - s) i,
    digit_high 32 x (32 - s + i) hx (ground arith),
    digit-lt x (i - s),
  )
  | inr h ↦ ground (
    arith,
    digit-bit_or (bit_and (u32 (x <<< s)) 0xffff_ffff) (bit_and (x >>> (32 - s)) 0xffff_ffff) i,
    digit-bit_and (u32 (x <<< s)) 0xffff_ffff i,
    digit-bit_and (x >>> (32 - s)) 0xffff_ffff i,
    digit-ones 32 i,
    digit-mod 32 (x <<< s) i hi,
    digit-shift_left_at x s i,
    digit-shift_right x (32 - s) i,
    ap (digit x) {x = 32 - s + i} {y = i + 32 - s} (omega arith),
    digit-lt x (i + 32 - s),
  )
]

pub mkmask-lt : (mb me : ℕ) → mb < 32 → me < 32 → mkmask mb me < 2 ^ 32
unfolding mkmask
mkmask-lt mb me hb he = ground (
  arith,
  bit_and-le (0xffff_ffff >>> mb) (not32 (0x7fff_ffff >>> me)),
  bit_or-lt 32 (u32 (0xffff_ffff <<< (31 - me))) (not32 (u32 (0xffff_fffe <<< (31 - mb))))
      (omega arith) (omega arith),
  div-le_self 0xffff_ffff (2 ^ mb),
)
