-- ===== src/Devices/SdCard/Data.antt =====
-- The fixed data that the card sends (DevSDCard.cc), byte 0 first.
use mr_iss.Base.{
  ℕ, ◌+◌, ◌*◌, ◌/◌, ◌^◌, bit_and, bit_or, List, [], ◌∷◌, ◌==◌, if◌then◌else◌, replicate, ◌>>>◌,
  sub32,
}
use mr_iss.Devices.SdCard.Crc.{sd_crc7_120}

-- The 15 bytes above the checksum's.
abbrev with_crc : List ℕ → List ℕ
with_crc bytes = bit_or (sd_crc7_120 bytes) 1 ∷ bytes

unfoldable pub make_cid : List ℕ
unfolding sd_crc7_120
make_cid = with_crc (
    0x55 ∷ 0x01 ∷ 0x64 ∷ 0x63 ∷ 0x62 ∷ 0x61 ∷ 123 ∷ 0x20 ∷ 0x44 ∷ 0x53 ∷ 0x79 ∷ 0x4d ∷ 0x4d ∷ 0x45
    ∷ 0x69 ∷ [])

unfoldable pub make_csd : ℕ → List ℕ
unfolding sd_crc7_120
make_csd blocks =
    let s = sub32 (blocks / 1024) 1 in
    with_crc (
      0x00
      ∷ 0x40
      ∷ 0x0a
      ∷ 0x80
      ∷ 0x7f
      ∷ bit_and s 0xff
      ∷ (bit_and s 0xff00 >>> 8)
      ∷ (bit_and s 0xff_0000 >>> 16)
      ∷ 0x00
      ∷ 0x59
      ∷ 0x5b
      ∷ 0x0b
      ∷ 0
      ∷ 0x0e
      ∷ 0x40
      ∷ [])

unfoldable pub write_scr : List ℕ
write_scr = 0x02 ∷ 0x05 ∷ 0x80 ∷ 0x02 ∷ 0 ∷ 0 ∷ 0 ∷ 0 ∷ []

unfoldable pub write_status : ℕ → List ℕ
write_status width =
    (if width == 4 then 0x80 else 0)
    ∷ 0
    ∷ 0
    ∷ 0
    ∷ 0
    ∷ 0
    ∷ 0
    ∷ 0
    ∷ 0x04
    ∷ 0xff
    ∷ 0x10
    ∷ 0
    ∷ 0
    ∷ 0
    ∷ 0
    ∷ replicate 49 0

unfoldable pub write_switch_status : List ℕ
write_switch_status = 0 ∷ 2 ∷ replicate 62 0

-- Bytes as the words of a little-endian host.
unfoldable pub words : List ℕ → List ℕ
words (a ∷ b ∷ c ∷ d ∷ rest) = (a + b * 2 ^ 8 + c * 2 ^ 16 + d * 2 ^ 24) ∷ words rest
words rest = []
