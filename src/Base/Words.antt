-- ===== src/Base/Words.antt =====
-- Fixed-width unsigned integers as native numbers: the casts wrap, `~` is within 32 bits.
use Prim.Native.Nat.{ℕ, ◌+◌, ◌-◌, ◌*◌, ◌/◌, ◌%◌, ◌^◌, bit_and}

abbrev pub u8 : ℕ → ℕ
u8 n = n % 2 ^ 8

abbrev pub u16 : ℕ → ℕ
u16 n = n % 2 ^ 16

abbrev pub u32 : ℕ → ℕ
u32 n = n % 2 ^ 32

abbrev pub u64 : ℕ → ℕ
u64 n = n % 2 ^ 64

-- `x << k` before the cast that follows it, and `x >> k`.
infixl 70 ◌<<<◌ ◌>>>◌
abbrev pub ◌<<<◌ : ℕ → ℕ → ℕ
x <<< k = x * 2 ^ k

abbrev pub ◌>>>◌ : ℕ → ℕ → ℕ
x >>> k = x / 2 ^ k

-- `~x` of a `uint32_t`.
abbrev pub not32 : ℕ → ℕ
not32 x = 0xffff_ffff - x

-- `a - b` of two `uint32_t`.
abbrev pub sub32 : ℕ → ℕ → ℕ
sub32 a b = u32 (a + 2 ^ 32 - b)

-- `x &= ~mask` on a `uint32_t`.
abbrev pub clear32 : ℕ → ℕ → ℕ
clear32 x mask = bit_and x (not32 mask)
