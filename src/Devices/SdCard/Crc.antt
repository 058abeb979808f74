-- ===== src/Devices/SdCard/Crc.antt =====
-- The CRC7 of SD cards (DevSDCard.cc): the table, and the sums over five and fifteen bytes.
pub mod Laws
use mr_iss.Base.{ℕ, zero, suc, bit_and, bit_xor, List, [], ◌∷◌, get_or, u64, ◌<<<◌, ◌>>>◌}

-- The checksum of one byte, shifted to the left by one.
unfoldable crc7_tab : List ℕ
crc7_tab =
    0x00 ∷ 0x12 ∷ 0x24 ∷ 0x36 ∷ 0x48 ∷ 0x5a ∷ 0x6c ∷ 0x7e ∷ 0x90 ∷ 0x82 ∷ 0xb4 ∷ 0xa6 ∷ 0xd8 ∷ 0xca
    ∷ 0xfc ∷ 0xee ∷ 0x32 ∷ 0x20 ∷ 0x16 ∷ 0x04 ∷ 0x7a ∷ 0x68 ∷ 0x5e ∷ 0x4c ∷ 0xa2 ∷ 0xb0 ∷ 0x86
    ∷ 0x94 ∷ 0xea ∷ 0xf8 ∷ 0xce ∷ 0xdc ∷ 0x64 ∷ 0x76 ∷ 0x40 ∷ 0x52 ∷ 0x2c ∷ 0x3e ∷ 0x08 ∷ 0x1a
    ∷ 0xf4 ∷ 0xe6 ∷ 0xd0 ∷ 0xc2 ∷ 0xbc ∷ 0xae ∷ 0x98 ∷ 0x8a ∷ 0x56 ∷ 0x44 ∷ 0x72 ∷ 0x60 ∷ 0x1e
    ∷ 0x0c ∷ 0x3a ∷ 0x28 ∷ 0xc6 ∷ 0xd4 ∷ 0xe2 ∷ 0xf0 ∷ 0x8e ∷ 0x9c ∷ 0xaa ∷ 0xb8 ∷ 0xc8 ∷ 0xda
    ∷ 0xec ∷ 0xfe ∷ 0x80 ∷ 0x92 ∷ 0xa4 ∷ 0xb6 ∷ 0x58 ∷ 0x4a ∷ 0x7c ∷ 0x6e ∷ 0x10 ∷ 0x02 ∷ 0x34
    ∷ 0x26 ∷ 0xfa ∷ 0xe8 ∷ 0xde ∷ 0xcc ∷ 0xb2 ∷ 0xa0 ∷ 0x96 ∷ 0x84 ∷ 0x6a ∷ 0x78 ∷ 0x4e ∷ 0x5c
    ∷ 0x22 ∷ 0x30 ∷ 0x06 ∷ 0x14 ∷ 0xac ∷ 0xbe ∷ 0x88 ∷ 0x9a ∷ 0xe4 ∷ 0xf6 ∷ 0xc0 ∷ 0xd2 ∷ 0x3c
    ∷ 0x2e ∷ 0x18 ∷ 0x0a ∷ 0x74 ∷ 0x66 ∷ 0x50 ∷ 0x42 ∷ 0x9e ∷ 0x8c ∷ 0xba ∷ 0xa8 ∷ 0xd6 ∷ 0xc4
    ∷ 0xf2 ∷ 0xe0 ∷ 0x0e ∷ 0x1c ∷ 0x2a ∷ 0x38 ∷ 0x46 ∷ 0x54 ∷ 0x62 ∷ 0x70 ∷ 0x82 ∷ 0x90 ∷ 0xa6
    ∷ 0xb4 ∷ 0xca ∷ 0xd8 ∷ 0xee ∷ 0xfc ∷ 0x12 ∷ 0x00 ∷ 0x36 ∷ 0x24 ∷ 0x5a ∷ 0x48 ∷ 0x7e ∷ 0x6c
    ∷ 0xb0 ∷ 0xa2 ∷ 0x94 ∷ 0x86 ∷ 0xf8 ∷ 0xea ∷ 0xdc ∷ 0xce ∷ 0x20 ∷ 0x32 ∷ 0x04 ∷ 0x16 ∷ 0x68
    ∷ 0x7a ∷ 0x4c ∷ 0x5e ∷ 0xe6 ∷ 0xf4 ∷ 0xc2 ∷ 0xd0 ∷ 0xae ∷ 0xbc ∷ 0x8a ∷ 0x98 ∷ 0x76 ∷ 0x64
    ∷ 0x52 ∷ 0x40 ∷ 0x3e ∷ 0x2c ∷ 0x1a ∷ 0x08 ∷ 0xd4 ∷ 0xc6 ∷ 0xf0 ∷ 0xe2 ∷ 0x9c ∷ 0x8e ∷ 0xb8
    ∷ 0xaa ∷ 0x44 ∷ 0x56 ∷ 0x60 ∷ 0x72 ∷ 0x0c ∷ 0x1e ∷ 0x28 ∷ 0x3a ∷ 0x4a ∷ 0x58 ∷ 0x6e ∷ 0x7c
    ∷ 0x02 ∷ 0x10 ∷ 0x26 ∷ 0x34 ∷ 0xda ∷ 0xc8 ∷ 0xfe ∷ 0xec ∷ 0x92 ∷ 0x80 ∷ 0xb6 ∷ 0xa4 ∷ 0x78
    ∷ 0x6a ∷ 0x5c ∷ 0x4e ∷ 0x30 ∷ 0x22 ∷ 0x14 ∷ 0x06 ∷ 0xe8 ∷ 0xfa ∷ 0xcc ∷ 0xde ∷ 0xa0 ∷ 0xb2
    ∷ 0x84 ∷ 0x96 ∷ 0x2e ∷ 0x3c ∷ 0x0a ∷ 0x18 ∷ 0x66 ∷ 0x74 ∷ 0x42 ∷ 0x50 ∷ 0xbe ∷ 0xac ∷ 0x9a
    ∷ 0x88 ∷ 0xf6 ∷ 0xe4 ∷ 0xd2 ∷ 0xc0 ∷ 0x1c ∷ 0x0e ∷ 0x38 ∷ 0x2a ∷ 0x54 ∷ 0x46 ∷ 0x70 ∷ 0x62
    ∷ 0x8c ∷ 0x9e ∷ 0xa8 ∷ 0xba ∷ 0xc4 ∷ 0xd6 ∷ 0xe0 ∷ 0xf2 ∷ []

-- A byte more: `crc7_tab[c ^ d]`.
pub crc7_step : ℕ → ℕ → ℕ
unfolding crc7_tab
crc7_step c d = get_or crc7_tab (bit_xor c d) 0

-- The loop of `sd_crc7`, with `n` rounds left: the bytes of `v`, the highest of five first.
pub sd_crc7_from : ℕ → ℕ → ℕ → ℕ
unfolding crc7_step
sd_crc7_from zero v c = c
sd_crc7_from (suc n) v c = sd_crc7_from n (u64 (v <<< 8)) (crc7_step c (bit_and (v >>> 32) 0xff))

pub sd_crc7 : ℕ → ℕ
unfolding sd_crc7_from
sd_crc7 v = sd_crc7_from 5 v 0

-- The loop of `sd_crc7_120`, from the highest of the first `n` bytes down.
unfoldable sd_crc7_120_from : ℕ → List ℕ → ℕ → ℕ
unfolding crc7_step
sd_crc7_120_from zero v c = c
sd_crc7_120_from (suc n) v c = sd_crc7_120_from n v (crc7_step c (get_or v n 0))

unfoldable pub sd_crc7_120 : List ℕ → ℕ
unfolding sd_crc7_120_from
sd_crc7_120 v = sd_crc7_120_from 15 v 0
