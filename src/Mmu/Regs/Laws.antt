-- ===== src/Mmu/Regs/Laws.antt =====
-- Register round trips, and which translations a register write drops.
use mr_iss.Base.{
  ℕ, zero, suc, ◌+◌, ◌-◌, ◌*◌, ◌/◌, ◌%◌, ◌^◌, ◌≤◌, ◌<◌, bit_and, bit_or, get_or, done, ◌≡◌, refl,
  ap, arith, length, ◌∙◌, get_or-set_self, ◌>>=◌, to_int,
}
use native.Mathlib.Nat.{pow-suc, one-le-pow}
use mr_iss.Mmu.State.{Mmu, Bat, Segment, zero_bat, zero_segment}
use mr_iss.Mmu.Utlb.{iutlb_inv, dutlb_inv}
use mr_iss.Bits.Fields.{
  bit_and_field, bit_and_low, bit_or_sum, bit_or_assoc, bit_or-zero, bit_or_comm, bit_and_parts,
}
use mr_iss.Mmu.Regs.{
  segment_of, segment_word, set_segment_reg, get_segment_reg, bit_length, m_fls, upper_of,
  bat_upper, set_ibat_upper, get_ibat_upper, seg_ks, seg_kp, seg_n,
}

-- The three flags of a segment register, in bits 30 to 28.
abbrev flag_bits : Segment → ℕ
flag_bits s = to_int s.ks * 4 + to_int s.kp * 2 + to_int s.n

or_flags :
    (v f a b c : ℕ)
    → v < 2 ^ 28
    → bit_or a (bit_or b c) ≡ f * 2 ^ 28
    → bit_or (bit_or (bit_or v a) b) c ≡ f * 2 ^ 28 + v
or_flags v f a b c h e =
    bit_or_assoc (bit_or v a) b c
    ∙ bit_or_assoc v a (bit_or b c)
    ∙ ap (bit_or v) e
    ∙ bit_or_comm v (f * 2 ^ 28)
    ∙ bit_or_sum 28 f v h

segment_word_sum : (s : Segment) → s.vsid < 2 ^ 28 → segment_word s ≡ flag_bits s * 2 ^ 28 + s.vsid
unfolding segment_word
segment_word_sum s h = ground (
  arith,
  bit_or-zero s.vsid,
  bit_or-zero (bit_or s.vsid seg_ks),
  bit_or-zero (bit_or s.vsid seg_kp),
  bit_or-zero (bit_or (bit_or s.vsid seg_ks) seg_kp),
  or_flags s.vsid 7 seg_ks seg_kp seg_n h refl,
  or_flags s.vsid 6 seg_ks seg_kp 0 h refl,
  or_flags s.vsid 5 seg_ks 0 seg_n h refl,
  or_flags s.vsid 4 seg_ks 0 0 h refl,
  or_flags s.vsid 3 0 seg_kp seg_n h refl,
  or_flags s.vsid 2 0 seg_kp 0 h refl,
  or_flags s.vsid 1 0 0 seg_n h refl,
)

segment_word_of : (val : ℕ) → segment_word (segment_of val) ≡ bit_and val 0x70ff_ffff
unfolding segment_of
segment_word_of val = ground (
  arith,
  segment_word_sum (segment_of val),
  bit_and_low 24 val,
  bit_and_field 28 1 val,
  bit_and_field 29 1 val,
  bit_and_field 30 1 val,
  bit_and_parts 24 val 0x70 0xff_ffff (omega arith),
  bit_and_field 4 3 (val / 2 ^ 24),
)

-- A segment register reads back as it was written, less the bits that it does not have.
pub get-set_segment_reg :
    (m : Mmu) (sr val : ℕ)
    → sr < 16
    → length m.segreg ≡ 16
    → (set_segment_reg m sr val >>= λ m'. get_segment_reg m' sr) ≡ done (bit_and val 0x70ff_ffff)
unfolding set_segment_reg get_segment_reg iutlb_inv dutlb_inv
get-set_segment_reg m sr val h l =
    ground (arith, get_or-set_self m.segreg sr (segment_of val) zero_segment, segment_word_of val)

bit_length-ones : (w k : ℕ) → k ≤ w → bit_length w (2 ^ k - 1) ≡ k
unfolding bit_length
bit_length-ones zero k h = omega arith
bit_length-ones (suc w) zero h = refl
bit_length-ones (suc w) (suc k) h =
    ground (arith, pow-suc 2 k, one-le-pow k 2 (omega arith), bit_length-ones w k (omega arith))

m_fls-ones : (k : ℕ) → k ≤ 32 → m_fls (2 ^ k - 1) ≡ k
unfolding m_fls
m_fls-ones zero h = refl
m_fls-ones (suc k) h =
    ground (arith, pow-suc 2 k, one-le-pow k 2 (omega arith), bit_length-ones 32 (suc k) h)

-- The fields of a BAT's upper word.
upper_sum :
    (q ones s p : ℕ)
    → ones < 2 ^ 11
    → s < 2
    → p < 2
    → bit_or (bit_or (bit_or (q * 2 ^ 17) (ones * 2 ^ 2)) (s * 2 ^ 1)) p
      ≡ q * 2 ^ 17 + ones * 4 + s * 2 + p
upper_sum q ones s p h i j = ground (
  arith,
  bit_or_sum 17 q (ones * 4) (omega arith),
  bit_or_sum 2 (q * 2 ^ 15 + ones) (s * 2) (omega arith),
  bit_or_sum 1 (q * 2 ^ 16 + ones * 2 + s) p (omega arith),
)

bat_upper_of :
    (b : Bat) (val k : ℕ)
    → val < 2 ^ 32
    → k ≤ 11
    → val / 4 % 2 ^ 11 ≡ 2 ^ k - 1
    → val / 2 ^ 13 % 2 ^ 4 ≡ 0
    → bat_upper (upper_of b val) ≡ val
unfolding bat_upper upper_of
bat_upper_of b val k v h e z = ground (
  arith,
  bit_and_field 17 15 val,
  bit_and_low 11 (val / 4),
  ap m_fls (bit_and_low 11 (val / 4) ∙ e),
  m_fls-ones k (omega arith),
  bit_and_field 1 1 val,
  bit_and_low 1 val,
  upper_sum (val / 2 ^ 17) (2 ^ k - 1) (val / 2 % 2) (val % 2),
)

-- A BAT's upper word reads back as it was written, when its block length is a run of ones and its
-- reserved bits are 0.
get-set_ibat_upper :
    (m : Mmu) (bat val k : ℕ)
    → bat < 4
    → length m.ibat ≡ 4
    → val < 2 ^ 32
    → k ≤ 11
    → val / 4 % 2 ^ 11 ≡ 2 ^ k - 1
    → val / 2 ^ 13 % 2 ^ 4 ≡ 0
    → (set_ibat_upper m bat val >>= λ m'. get_ibat_upper m' bat) ≡ done val
unfolding set_ibat_upper get_ibat_upper iutlb_inv
get-set_ibat_upper m bat val k b l v h e z = ground (
  arith,
  get_or-set_self m.ibat bat (upper_of (get_or m.ibat bat zero_bat) val) zero_bat,
  bat_upper_of (get_or m.ibat bat zero_bat) val k v h e z,
)
