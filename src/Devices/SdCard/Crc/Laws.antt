-- ===== src/Devices/SdCard/Crc/Laws.antt =====
-- The table against the division of polynomials bit by bit.
use mr_iss.Base.{
  ℕ, zero, suc, ◌+◌, ◌*◌, ◌/◌, ◌%◌, ◌^◌, ◌≤◌, ◌<◌, bit_and, bit_xor, ◌≡◌, refl, sym, ap, ◌∙◌, true,
  arith, ltb, ◌==◌, if◌then◌else◌, ==_iff, holds_below, holds_below_at, u64,
}
use mr_iss.Bits.Fields.{bit_and_low, div_halves}
use mr_iss.Devices.SdCard.Crc.{crc7_step, sd_crc7_from, sd_crc7}

-- One bit of the division by x^7 + x^3 + 1, of a remainder held in the top seven bits of a byte.
abbrev crc7_bit : ℕ → ℕ
crc7_bit c = if ltb c 0x80 then c * 2 % 2 ^ 8 else bit_xor (c * 2 % 2 ^ 8) 0x12

-- The remainder after the lowest `n` bits of `v`, the highest first.
abbrev pub crc7_bits : ℕ → ℕ → ℕ → ℕ
crc7_bits zero v c = c
crc7_bits (suc n) v c = crc7_bits n v (crc7_bit (bit_xor c (v / 2 ^ n % 2 * 0x80)))

all_bytes : holds_below 256 (λ c. holds_below 256 (λ d. crc7_step c d == crc7_bits 8 d c)) ≡ true
unfolding crc7_step
all_bytes = refl

byte_step : (c d : ℕ) → c < 256 → d < 256 → crc7_step c d ≡ crc7_bits 8 d c
byte_step c d h k =
    let row =
      holds_below_at 256 (λ x. holds_below 256 (λ y. crc7_step x y == crc7_bits 8 y x)) c all_bytes
        h in
    let cell = holds_below_at 256 (λ y. crc7_step c y == crc7_bits 8 y c) d row k in
    let (to, from) = ==_iff (crc7_step c d) (crc7_bits 8 d c) in to cell

all_small : holds_below 256 (λ c. holds_below 256 (λ d. ltb (crc7_step c d) 256)) ≡ true
unfolding crc7_step
all_small = refl

lt_of_ltb : (a b : ℕ) → ltb a b ≡ true → a < b
lt_of_ltb a b h = ground arith

step-lt : (c d : ℕ) → c < 256 → d < 256 → crc7_step c d < 256
step-lt c d h k =
    let row =
      holds_below_at 256 (λ x. holds_below 256 (λ y. ltb (crc7_step x y) 256)) c all_small h in
    lt_of_ltb (crc7_step c d) 256 (holds_below_at 256 (λ y. ltb (crc7_step c y) 256) d row k)

-- A digit of a byte, as the digit of what the byte is the lowest part of.
byte_digit : (k w : ℕ) → k < 8 → w % 256 / 2 ^ k % 2 ≡ w / 2 ^ k % 2
byte_digit zero w h = omega arith
byte_digit (suc zero) w h = omega arith
byte_digit (suc (suc zero)) w h = omega arith
byte_digit (suc (suc (suc zero))) w h = omega arith
byte_digit (suc (suc (suc (suc zero)))) w h = omega arith
byte_digit (suc (suc (suc (suc (suc zero))))) w h = omega arith
byte_digit (suc (suc (suc (suc (suc (suc zero)))))) w h = omega arith
byte_digit (suc (suc (suc (suc (suc (suc (suc zero))))))) w h = omega arith
byte_digit (suc (suc (suc (suc (suc (suc (suc (suc k)))))))) w h = absurd (omega arith)

low_bits : (n w c : ℕ) → n ≤ 8 → crc7_bits n (w % 256) c ≡ crc7_bits n w c
low_bits zero w c h = refl
low_bits (suc n) w c h =
    low_bits n w (crc7_bit (bit_xor c (w % 256 / 2 ^ n % 2 * 0x80))) (omega arith)
    ∙ ap (λ b. crc7_bits n w (crc7_bit (bit_xor c (b * 0x80)))) (byte_digit n w (omega arith))

add_zero : (m : ℕ) → m + 0 ≡ m
add_zero m = omega arith

zero_add : (m : ℕ) → 0 + m ≡ m
zero_add m = omega arith

add_suc : (m n : ℕ) → m + suc n ≡ suc (m + n)
add_suc m n = omega arith

suc_add : (m n : ℕ) → suc m + n ≡ suc (m + n)
suc_add m n = omega arith

pow_zero : (v : ℕ) → v / 1 ≡ v
pow_zero v = omega arith

div_digits : (m n v : ℕ) → v / 2 ^ (m + n) ≡ v / 2 ^ n / 2 ^ m
div_digits m zero v = rw (add_zero m, pow_zero v) refl
div_digits m (suc n) v =
    ap (λ k. v / 2 ^ k) (add_suc m n)
    ∙ sym (div_halves v (m + n))
    ∙ div_digits m n (v / 2)
    ∙ ap (λ x. x / 2 ^ m) (div_halves v n)

-- The bits above the lowest `n` come first.
bits_split : (m n v c : ℕ) → crc7_bits (m + n) v c ≡ crc7_bits n v (crc7_bits m (v / 2 ^ n) c)
bits_split zero n v c = ap (λ k. crc7_bits k v c) (zero_add n)
bits_split (suc m) n v c =
    ap (λ k. crc7_bits k v c) (suc_add m n)
    ∙ bits_split m n v (crc7_bit (bit_xor c (v / 2 ^ (m + n) % 2 * 0x80)))
    ∙ ap (λ x. crc7_bits n v (crc7_bits m (v / 2 ^ n) (crc7_bit (bit_xor c (x % 2 * 0x80)))))
        (div_digits m n v)

-- Eight bits above the lowest `n`, as one step of the table.
bits_step :
    (n v c : ℕ) → c < 256 → crc7_bits (8 + n) v c ≡ crc7_bits n v (crc7_step c (v / 2 ^ n % 256))
bits_step n v c h =
    bits_split 8 n v c
    ∙ ap (crc7_bits n v) (
        sym (low_bits 8 (v / 2 ^ n) c (omega arith))
        ∙ sym (byte_step c (v / 2 ^ n % 256) h (omega arith)))

abbrev shift8 : ℕ → ℕ
shift8 w = u64 (w * 2 ^ 8)

round :
    (n w c d : ℕ)
    → w / 2 ^ 32 % 256 ≡ d
    → sd_crc7_from (suc n) w c ≡ sd_crc7_from n (shift8 w) (crc7_step c d)
unfolding sd_crc7_from
round n w c d e =
    ap (λ x. sd_crc7_from n (shift8 w) (crc7_step c x)) (bit_and_low 8 (w / 2 ^ 32) ∙ e)

byte1 : (v : ℕ) → shift8 v / 2 ^ 32 % 256 ≡ v / 2 ^ 24 % 256
byte1 v = omega arith

byte2 : (v : ℕ) → shift8 (shift8 v) / 2 ^ 32 % 256 ≡ v / 2 ^ 16 % 256
byte2 v = omega arith

byte3 : (v : ℕ) → shift8 (shift8 (shift8 v)) / 2 ^ 32 % 256 ≡ v / 2 ^ 8 % 256
byte3 v = omega arith

byte4 : (v : ℕ) → shift8 (shift8 (shift8 (shift8 v))) / 2 ^ 32 % 256 ≡ v / 2 ^ 0 % 256
byte4 v = omega arith

-- One round of the loop takes the next eight bits, when `n` are left after them.
round_bits :
    (k n w v c : ℕ)
    → c < 256
    → w / 2 ^ 32 % 256 ≡ v / 2 ^ n % 256
    → ((c' : ℕ) → c' < 256 → sd_crc7_from k (shift8 w) c' ≡ crc7_bits n v c')
    → sd_crc7_from (suc k) w c ≡ crc7_bits (8 + n) v c
round_bits k n w v c h e rest =
    round k w c (v / 2 ^ n % 256) e
    ∙ rest (crc7_step c (v / 2 ^ n % 256)) (step-lt c (v / 2 ^ n % 256) h (omega arith))
    ∙ sym (bits_step n v c h)

last : (v w c : ℕ) → sd_crc7_from 0 w c ≡ crc7_bits 0 v c
unfolding sd_crc7_from
last v w c = refl

-- `sd_crc7` by the table is the remainder of the lowest 40 bits by x^7 + x^3 + 1, bit by bit.
pub sd_crc7-crc7_bits : (v : ℕ) → sd_crc7 v ≡ crc7_bits 40 v 0
unfolding sd_crc7
sd_crc7-crc7_bits v =
    let v1 = shift8 v in
    let v2 = shift8 v1 in
    let v3 = shift8 v2 in
    round_bits 4 32 v v 0 (omega arith) refl λ c1 h1. round_bits 3 24 v1 v c1 h1 (byte1 v) λ c2 h2.
      round_bits 2 16 v2 v c2 h2 (byte2 v) λ c3 h3. round_bits 1 8 v3 v c3 h3 (byte3 v) λ c4 h4.
        round_bits 0 0 (shift8 v3) v c4 h4 (byte4 v) λ c5 h5. last v (shift8 (shift8 v3)) c5

from-lt : (n w c : ℕ) → c < 256 → sd_crc7_from n w c < 256
unfolding sd_crc7_from
from-lt zero w c h = h
from-lt (suc n) w c h =
    from-lt n (shift8 w) (crc7_step c (bit_and (w / 2 ^ 32) 0xff))
      (step-lt c (bit_and (w / 2 ^ 32) 0xff) h (omega (arith, bit_and_low 8 (w / 2 ^ 32))))

pub sd_crc7-lt : (v : ℕ) → sd_crc7 v < 256
unfolding sd_crc7
sd_crc7-lt v = from-lt 5 v 0 (omega arith)
