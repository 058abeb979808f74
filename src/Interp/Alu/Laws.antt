-- ===== src/Interp/Alu/Laws.antt =====
-- What the arithmetic and the rotate instructions leave in the registers.
use mr_iss.Base.{
  ℕ, zero, suc, ◌+◌, ◌-◌, ◌/◌, ◌%◌, ◌^◌, ◌≤◌, ◌<◌, max, bit_and, bit_or, ◌≡◌, refl, sym, ap, subst,
  ◌∙◌, inl, inr, Bool, true, false, ◌||◌, arith, ltb, leb, ◌==◌, if◌then◌else◌, truthy, to_int,
  Bool-cases, holds_below_at, u32, not32, clear32, Yields, done,
}
use native.Mathlib.Nat.{div-le_self, one-le-pow, pow-suc}
use mr_iss.Bits.Divide.{div_pred, mod-zero_iff, pow-mod}
use mr_iss.Bits.Fields.{bit_and-digit_iff, bit_and_low, bit_and_field}
use mr_iss.Bits.Digits.{digit-power, digit, digit-lt, digit-bit_and, digit-bit_or, digit-clear32}
use mr_iss.Cpu.State.{
  Cpu, get_gpr, set_gpr, inc_pc, get_xer_so, get_xer_ov, get_xer_ca, set_xer_so, set_xer_ov,
  set_flag,
}
use mr_iss.Interp.Macros.{mkmask, rotl32, sra}
use mr_iss.Interp.Macros.Masks.{in_mask, digit-mkmask, digit-rotl32, mkmask-lt}
use mr_iss.Interp.State.{finish, set_cr0, set_so_ov}
use mr_iss.Interp.Alu.{sdiv, neg, clz, shifted_out, op_rlwimi}

flag-set_flag :
    (c : Cpu) (v : Bool) (k j : ℕ)
    → k < 32
    → j < 32
    → 2 ^ k < 2 ^ 32
    → to_int (truthy (bit_and (set_flag (2 ^ k) c v).xer (2 ^ j)))
      ≡ (if j == k then to_int v else to_int (truthy (bit_and c.xer (2 ^ j))))
unfolding set_flag
flag-set_flag c v k j hk hj hm = ground (
  arith,
  bit_and-digit_iff (set_flag (2 ^ k) c v).xer j,
  bit_and-digit_iff c.xer j,
  digit-clear32 c.xer (2 ^ k) j hm hj,
  digit-bit_or (clear32 c.xer (2 ^ k)) (2 ^ k) j,
  digit-power k j,
  digit-lt c.xer j,
)

-- The summary overflow stays set, the overflow is the last one, and the carry is left alone.
set_so_ov_sticky :
    (c : Cpu) (v : Bool)
    → let after = set_so_ov c v in
      (get_xer_so after ≡ max (get_xer_so c) (to_int v))
      × (get_xer_ov after ≡ to_int v)
      × (get_xer_ca after ≡ get_xer_ca c)
unfolding set_so_ov get_xer_so get_xer_ov get_xer_ca set_xer_so set_xer_ov set_flag
set_so_ov_sticky c v =
    let so = set_xer_so c (v || truthy (get_xer_so c)) in
    ground (
      arith,
      flag-set_flag c (v || truthy (get_xer_so c)) 31 31 (omega arith) (omega arith) (omega arith),
      flag-set_flag c (v || truthy (get_xer_so c)) 31 29 (omega arith) (omega arith) (omega arith),
      flag-set_flag so v 30 31 (omega arith) (omega arith) (omega arith),
      flag-set_flag so v 30 30 (omega arith) (omega arith) (omega arith),
      flag-set_flag so v 30 29 (omega arith) (omega arith) (omega arith),
    )

-- The count of leading zeros of a word places its highest one.
clz-bounds :
    (n x : ℕ)
    → x < 2 ^ n
    → 0 < x
    → (clz n x < n) × (2 ^ (n - 1 - clz n x) ≤ x) × (x < 2 ^ (n - clz n x))
unfolding clz
clz-bounds zero x h p = absurd (omega arith)
clz-bounds (suc n) x h p = ground (
  arith,
  clz-bounds n x,
  pow-suc 2 n,
  ap (λ k. 2 ^ k) {x = suc n - 1 - suc (clz n x)} {y = n - 1 - clz n x} (omega arith),
  ap (λ k. 2 ^ k) {x = suc n - suc (clz n x)} {y = n - clz n x} (omega arith),
)

-- An arithmetic right shift and the carry it leaves, added up, divide by the power of two toward zero.
pub shift_and_carry-sdiv :
    (x s : ℕ) → x < 2 ^ 32 → s < 31 → u32 (sra x s + to_int (shifted_out x s)) ≡ sdiv x (2 ^ s)
unfolding sra sdiv
shift_and_carry-sdiv x s hx hs = elim (Bool-cases (leb (2 ^ 31) x)) [
  | inl n ↦ ground (
    arith,
    div_pred (m - 1) (2 ^ s) (one-le-pow s 2 (omega arith)),
    mod-zero_iff x m (2 ^ s) (one-le-pow s 2 (omega arith)) whole,
    bit_and_field 31 1 x,
    bit_and_low s x,
    ap (λ t. t / 2 ^ s) {x = suc (m - 1)} {y = m} (omega arith),
    ap (λ t. t % 2 ^ s) {x = suc (m - 1)} {y = m} (omega arith),
    ap (λ t. t / 2 ^ s) {x = not32 x} {y = m - 1} (omega arith),
    ap (λ t. t / 2 ^ s) {x = neg x} {y = m} (ground arith),
    short,
    div-le_self m (2 ^ s),
    div-le_self (m - 1) (2 ^ s),
  )
  | inr n ↦ ground (arith, bit_and_field 31 1 x, short, div-le_self x (2 ^ s))
]
  where
    m : ℕ
    m = 2 ^ 32 - x

    short : ltb (2 ^ s) (2 ^ 31) ≡ true
    short = holds_below_at 31 (λ k. ltb (2 ^ k) (2 ^ 31)) s refl hs

    whole : (x + m) % 2 ^ s ≡ 0
    whole =
        ap (λ t. t % 2 ^ s) {x = x + m} {y = 2 ^ 32} (omega arith)
        ∙ ap (λ k. 2 ^ k % 2 ^ s) {x = 32} {y = s + (32 - s)} (omega arith)
        ∙ pow-mod (32 - s) s

finish-gprs : (c : Cpu) (rc oe : Bool) (val : ℕ) (ov : Bool) → (finish c rc oe val ov).gprs ≡ c.gprs
unfolding finish set_cr0 set_so_ov inc_pc set_xer_so set_xer_ov set_flag
finish-gprs c true true val ov = refl
finish-gprs c true false val ov = refl
finish-gprs c false true val ov = refl
finish-gprs c false false val ov = refl

abbrev with_gpr : Cpu → ℕ → ℕ → Cpu
with_gpr c r v = record c { gprs = λ j. if j == r then v else c.gprs j }

op_rlwimi_lem :
    (c : Cpu) (ra rs sh mb me : ℕ) (rc : Bool)
    → ra < 32
    → rs < 32
    → let val =
        bit_or
          (clear32 (c.gprs ra) (mkmask mb me))
          (bit_and (rotl32 (c.gprs rs) sh) (mkmask mb me)) in
      op_rlwimi c ra rs sh mb me rc ≡ done (finish (with_gpr c ra val) rc false val false)
unfolding op_rlwimi get_gpr set_gpr
op_rlwimi_lem c ra rs sh mb me rc ha hs = ground arith

-- `rlwimi` inserts: inside the mask RA gets the bits of the rotated RS, outside it keeps its own.
pub op_rlwimi-inserts :
    (c : Cpu) (ra rs sh mb me : ℕ) (rc : Bool) (b : ℕ)
    → ra < 32
    → rs < 32
    → sh < 32
    → mb < 32
    → me < 32
    → b < 32
    → c.gprs rs < 2 ^ 32
    → Yields
        (λ after. digit (after.gprs ra) (31 - b) ≡ (
          if in_mask mb me b
          then digit (c.gprs rs) (if leb sh (31 - b) then 31 - b - sh else 31 - b + 32 - sh)
          else digit (c.gprs ra) (31 - b)))
        (op_rlwimi c ra rs sh mb me rc)
op_rlwimi-inserts c ra rs sh mb me rc b ha hs hh hb he h hv =
    let mask = mkmask mb me in
    let rotated = rotl32 (c.gprs rs) sh in
    let val = bit_or (clear32 (c.gprs ra) mask) (bit_and rotated mask) in
    subst (Yields _) (sym (op_rlwimi_lem c ra rs sh mb me rc ha hs)) (
      ap (λ g. digit (g ra) (31 - b)) (finish-gprs (with_gpr c ra val) rc false val false)
      ∙ ground (
        arith,
        digit-bit_or (clear32 (c.gprs ra) mask) (bit_and rotated mask) (31 - b),
        digit-clear32 (c.gprs ra) mask (31 - b) (mkmask-lt mb me hb he) (omega arith),
        digit-bit_and rotated mask (31 - b),
        digit-mkmask mb me b hb he h,
        digit-rotl32 (c.gprs rs) sh (31 - b) hv hh (omega arith),
        digit-lt (c.gprs ra) (31 - b),
        digit-lt rotated (31 - b),
      ))
