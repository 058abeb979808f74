-- ===== src/Interp/Alu.antt =====
-- PPCInterpreter_Arithmetic.cc and PPCInterpreter_Logical.cc. An instruction's register numbers are the
-- decoder's; one past 31 would be fatal.
pub mod Laws
use mr_iss.Base.{
  ℕ, zero, suc, ◌-◌, ◌/◌, ◌^◌, bit_and, bit_or, Bool, true, false, ◌&&◌, ltb, leb, ◌==◌,
  if◌then◌else◌, truthy, bool_eq, sub32, clear32, ◌>>=◌, Outcome, done,
}
use mr_iss.Cpu.State.{Cpu, get_gpr, set_gpr, set_xer_ca}
use mr_iss.Interp.Macros.{mkmask, rotl32, sra}
use mr_iss.Interp.State.{finish}

-- C's `/` on two signed words: the quotient of the magnitudes, with the sign of both.
abbrev pub neg : ℕ → ℕ
neg x = sub32 0 x

abbrev magnitude : ℕ → ℕ
magnitude x = if leb (2 ^ 31) x then neg x else x

pub sdiv : ℕ → ℕ → ℕ
sdiv a b =
    let q = magnitude a / magnitude b in
    if bool_eq (leb (2 ^ 31) a) (leb (2 ^ 31) b) then q else neg q

-- The value and the overflow of `op_divw`.
unfoldable divw : ℕ → ℕ → ℕ × Bool
unfolding sdiv
divw a b =
    if b == 0
    then ((if leb 0x8000_0000 a then 0x8000_0000 else 0x7fff_ffff), true)
    else if (a == 0x8000_0000) && (b == 0xffff_ffff)
    then (0x7fff_ffff, true)
    else (sdiv a b, false)

unfoldable op_divw : Cpu → ℕ → ℕ → ℕ → Bool → Bool → Outcome Cpu
unfolding get_gpr set_gpr divw finish
op_divw c ra rb rt rc oe = get_gpr c ra >>= λ a. get_gpr c rb >>= λ b.
    let (val, ov) = divw a b in set_gpr c rt val >>= λ written. done (finish written rc oe val ov)

unfoldable op_divwu : Cpu → ℕ → ℕ → ℕ → Bool → Bool → Outcome Cpu
unfolding get_gpr set_gpr finish
op_divwu c ra rb rt rc oe = get_gpr c ra >>= λ a. get_gpr c rb >>= λ b.
    let val = if b == 0 then 0xffff_ffff else a / b in
    set_gpr c rt val >>= λ written. done (finish written rc oe val (b == 0))

-- `__builtin_clz` of a number of `n` bits, with the answer `n` for 0.
pub clz : ℕ → ℕ → ℕ
clz zero x = 0
clz (suc n) x = let rest = suc (clz n x) in if leb (2 ^ n) x then 0 else rest

unfoldable op_cntlzw : Cpu → ℕ → ℕ → Bool → Outcome Cpu
unfolding get_gpr set_gpr finish clz
op_cntlzw c rs ra rc = get_gpr c rs >>= λ s.
    let val = clz 32 s in set_gpr c ra val >>= λ written. done (finish written rc false val false)

pub op_rlwimi : Cpu → ℕ → ℕ → ℕ → ℕ → ℕ → Bool → Outcome Cpu
unfolding get_gpr set_gpr finish mkmask rotl32
op_rlwimi c ra rs sh mb me rc = get_gpr c ra >>= λ a. get_gpr c rs >>= λ s.
    let mask = mkmask mb me in
    let val = bit_or (clear32 a mask) (bit_and (rotl32 s sh) mask) in
    set_gpr c ra val >>= λ written. done (finish written rc false val false)

unfoldable op_rlwinm : Cpu → ℕ → ℕ → ℕ → ℕ → ℕ → Bool → Outcome Cpu
unfolding get_gpr set_gpr finish mkmask rotl32
op_rlwinm c rs sh mb me ra rc = get_gpr c rs >>= λ s.
    let val = bit_and (rotl32 s sh) (mkmask mb me) in
    set_gpr c ra val >>= λ written. done (finish written rc false val false)

unfoldable op_rlwnm : Cpu → ℕ → ℕ → ℕ → ℕ → ℕ → Bool → Outcome Cpu
unfolding get_gpr set_gpr finish mkmask rotl32
op_rlwnm c rb rs mb me ra rc = get_gpr c rb >>= λ b. get_gpr c rs >>= λ s.
    let val = bit_and (rotl32 s (bit_and b 0x1f)) (mkmask mb me) in
    set_gpr c ra val >>= λ written. done (finish written rc false val false)

-- The carry of a right shift: a negative word lost a one.
abbrev pub shifted_out : ℕ → ℕ → Bool
shifted_out s sh = truthy (bit_and s 0x8000_0000) && truthy (bit_and s (2 ^ sh - 1))

unfoldable op_sraw : Cpu → ℕ → ℕ → ℕ → Bool → Outcome Cpu
unfolding get_gpr set_gpr finish set_xer_ca sra
op_sraw c rs rb ra rc = get_gpr c rs >>= λ s. get_gpr c rb >>= λ b.
    let sh = bit_and b 0x3f in
    let val = if ltb 31 sh then sra s 31 else sra s sh in
    let ca = if ltb 31 sh then truthy (bit_and s 0x8000_0000) else shifted_out s sh in
    set_gpr c ra val >>= λ written. done (finish (set_xer_ca written ca) rc false val false)

unfoldable op_srawi : Cpu → ℕ → ℕ → ℕ → Bool → Outcome Cpu
unfolding get_gpr set_gpr finish set_xer_ca sra
op_srawi c rs sh ra rc = get_gpr c rs >>= λ s.
    let val = sra s sh in
    set_gpr c ra val >>= λ written.
    done (finish (set_xer_ca written (shifted_out s sh)) rc false val false)
