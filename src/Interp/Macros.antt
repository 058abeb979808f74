-- ===== src/Interp/Macros.antt =====
-- The value computations of inst_utility.h, and the mask and the trap condition of the instructions.
pub mod Sums
pub mod Fields
pub mod Masks
use mr_iss.Base.{
  ℕ, ◌+◌, ◌-◌, ◌*◌, ◌^◌, bit_and, bit_or, Bool, not, ◌&&◌, ◌||◌, ltb, leb, ◌==◌, if◌then◌else◌,
  truthy, to_int, u32, ◌<<<◌, ◌>>>◌, not32, clear32,
}

-- A word's sign flipped: words so changed are ordered as C orders the words as `sREG`.
abbrev pub bias : ℕ → ℕ
bias x = u32 (x + 2 ^ 31)

pub record Sum : Type 0 where
  pub val : ℕ
  pub ov : Bool
  pub co : ℕ

-- `ADD_OV_CO_CI`; the 64-bit sum of three words does not wrap.
pub add_ov_co_ci : ℕ → ℕ → ℕ → Sum
add_ov_co_ci a b ci =
    let r = a + b + ci in
    let ra = u32 r in
    let sa = truthy (bit_and a 0x8000_0000) in
    let sb = truthy (bit_and b 0x8000_0000) in
    let sr = truthy (bit_and ra 0x8000_0000) in
    record {
      val = bit_and r 0xffff_ffff;
      ov = (not sa && not sb && sr) || (sa && sb && not sr);
      co = to_int (truthy (bit_and r 0x1_0000_0000));
    }

-- `CMP` and `CMPu`, with XER.SO as `so`.
unfoldable pub cmp : ℕ → ℕ → ℕ → ℕ
cmp x y so = bit_or (if ltb (bias x) (bias y) then 8 else if ltb (bias y) (bias x) then 4 else 2) so

pub cmpu : ℕ → ℕ → ℕ → ℕ
cmpu x y so = bit_or (if ltb x y then 8 else if ltb y x then 4 else 2) so

-- `RBIT` and `WBIT`, which count bits from the top.
unfoldable rbit : ℕ → ℕ → ℕ
rbit x y = bit_and (x >>> (31 - y)) 1

unfoldable wbit : ℕ → ℕ → ℕ → ℕ
wbit x y z = bit_or (clear32 x (1 <<< (31 - y))) (bit_and z 1 <<< (31 - y))

unfoldable pub write_cr_field : ℕ → ℕ → ℕ → ℕ
write_cr_field x y z = bit_or (clear32 x (0xf <<< ((7 - y) * 4))) (u32 (z <<< ((7 - y) * 4)))

unfoldable pub read_cr_field : ℕ → ℕ → ℕ
read_cr_field x y = bit_and (x >>> ((7 - y) * 4)) 0xf

unfoldable pub rotl32 : ℕ → ℕ → ℕ
rotl32 x s = bit_or (bit_and (u32 (x <<< s)) 0xffff_ffff) (bit_and (x >>> (32 - s)) 0xffff_ffff)

unfoldable bswap16 : ℕ → ℕ
bswap16 x = bit_or (bit_and (x >>> 8) 0xff) (bit_and x 0xff <<< 8)

unfoldable bswap32 : ℕ → ℕ
bswap32 x =
    bit_or
      (bit_or (bit_or (bit_and (x >>> 24) 0xff) (bit_and (x >>> 8) 0xff00))
        (bit_and (u32 (x <<< 8)) 0xff_0000))
      (bit_and (u32 (x <<< 24)) 0xff00_0000)

-- `(s32)x >> s`.
unfoldable pub sra : ℕ → ℕ → ℕ
sra x s = if leb (2 ^ 31) x then not32 (not32 x >>> s) else x >>> s

-- `mkmask` (PPCInterpreter_Logical.cc).
unfoldable pub mkmask : ℕ → ℕ → ℕ
mkmask mb me =
    if leb mb me
    then bit_and (0xffff_ffff >>> mb) (not32 (0x7fff_ffff >>> me))
    else bit_or (u32 (0xffff_ffff <<< (31 - me))) (not32 (u32 (0xffff_fffe <<< (31 - mb))))

-- `does_trap` (PPCInterpreter_Trap.cc).
unfoldable pub does_trap : ℕ → ℕ → ℕ → Bool
does_trap to a b =
    (truthy (bit_and to 0x10) && ltb (bias a) (bias b))
    || (truthy (bit_and to 0x08) && ltb (bias b) (bias a))
    || (truthy (bit_and to 0x04) && (a == b))
    || (truthy (bit_and to 0x02) && ltb a b)
    || (truthy (bit_and to 0x01) && ltb b a)
