-- ===== src/Devices/SdCard/Responses.antt =====
-- The responses of 48 bits.
use mr_iss.Base.{ℕ, ◌+◌, ◌*◌, ◌/◌, ◌%◌, ◌^◌, ◌<◌, bit_and, bit_or, ◌≡◌, ap, ◌∙◌, arith}
use mr_iss.Bits.Step.{bit_or_step}
use mr_iss.Bits.Fields.{bit_and_low, bit_or_sum, bit_or_assoc, bit_or-zero}
use mr_iss.Devices.SdCard.{make_response}
use mr_iss.Devices.SdCard.Crc.{sd_crc7}
use mr_iss.Devices.SdCard.Crc.Laws.{sd_crc7-lt, sd_crc7-crc7_bits, crc7_bits}

content_sum :
    (cmd payload : ℕ)
    → payload < 2 ^ 32
    → bit_or (bit_and cmd 0x3f * 2 ^ 32) payload ≡ cmd % 64 * 2 ^ 32 + payload
content_sum cmd payload h =
    ap (λ x. bit_or (x * 2 ^ 32) payload) (bit_and_low 6 cmd) ∙ bit_or_sum 32 (cmd % 64) payload h

with_end : (c : ℕ) → bit_or c 1 ≡ c / 2 * 2 + 1
with_end c = ground (arith, bit_or_step c 1, bit_or-zero (c / 2))

framed_sum :
    (content crc : ℕ)
    → crc < 256
    → bit_or (bit_or (content * 2 ^ 8) crc) 1 ≡ content * 2 ^ 8 + (crc / 2 * 2 + 1)
framed_sum content crc h =
    bit_or_assoc (content * 2 ^ 8) crc 1
    ∙ ap (bit_or (content * 2 ^ 8)) (with_end crc)
    ∙ bit_or_sum 8 content (crc / 2 * 2 + 1) (omega arith)

word_fields :
    (m p e f : ℕ)
    → p < 2 ^ 32
    → e < 256
    → f ≡ (m * 2 ^ 32 + p) * 2 ^ 8 + e
    → (f / 2 ^ 32 / 2 ^ 8 ≡ m)
      × (f / 2 ^ 32 % 2 ^ 8 * 2 ^ 24 + bit_and f 0xffff_ffff / 2 ^ 8 ≡ p)
      × (bit_and f 0xffff_ffff % 2 ^ 8 ≡ e)
word_fields m p e f h k eq =
    (omega arith, omega (arith, bit_and_low 32 f), omega (arith, bit_and_low 32 f))

-- The two words of a response hold the command's number, the payload and, in the lowest byte, the checksum
-- of both with its end bit, the checksum being the remainder bit by bit.
pub make_response-fields :
    (cmd payload : ℕ)
    → payload < 2 ^ 32
    → let r = make_response cmd payload in
      (r.1 / 2 ^ 8 ≡ cmd % 64)
      × (r.1 % 2 ^ 8 * 2 ^ 24 + r.0 / 2 ^ 8 ≡ payload)
      × (r.0 % 2 ^ 8 ≡ crc7_bits 40 (cmd % 64 * 2 ^ 32 + payload) 0 / 2 * 2 + 1)
unfolding make_response
make_response-fields cmd payload h =
    let content = cmd % 64 * 2 ^ 32 + payload in
    let crc = sd_crc7 content in
    let small = sd_crc7-lt content in
    let framed = λ (x : ℕ). bit_or (bit_or (x * 2 ^ 8) (sd_crc7 x)) 1 in
    let parts =
      word_fields (cmd % 64) payload (crc / 2 * 2 + 1)
        (framed (bit_or (bit_and cmd 0x3f * 2 ^ 32) payload)) h (omega (arith, small))
        (ap framed (content_sum cmd payload h) ∙ framed_sum content crc small) in
    (parts.0, parts.1, parts.2 ∙ ap (λ x. x / 2 * 2 + 1) (sd_crc7-crc7_bits content))
