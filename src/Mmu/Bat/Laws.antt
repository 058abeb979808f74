-- ===== src/Mmu/Bat/Laws.antt =====
-- Block translation as arithmetic on 128 KiB blocks and their powers of two.
use mr_iss.Base.{
  ℕ, zero, suc, ◌+◌, ◌-◌, ◌*◌, ◌/◌, ◌%◌, ◌^◌, ◌≤◌, ◌<◌, ◌≡◌, refl, ◌≢◌, ◌↔◌, Bool, true, false,
  some, arith, ◌==◌, if◌then◌else◌, ==_iff, u32, ◌<<<◌, not32, holds_below_at,
}
use native.Mathlib.Nat.{one-le-pow, mod-lt, div-add-mod'}
use mr_iss.Bits.Xor.{bit_xor_field_iff}
use mr_iss.Bits.Fields.{bit_and_low, bit_or_sum}
use mr_iss.Mmu.State.{Bat}
use mr_iss.Mmu.Bat.{hit, bat_mask, bat_matches, bat_translate}

-- The size of the block that an entry maps, as a power of two.
abbrev block_bits : Bat → ℕ
block_bits b = 17 + b.bl_shift

abbrev pub block_size : Bat → ℕ
block_size b = 2 ^ (17 + b.bl_shift)

-- An entry as `setIBATupper` and `setIBATlower` make them, its block aligned to its size.
pub record IsAligned (b : Bat) : Type 0 where
  pub shift_le : b.bl_shift ≤ 11
  pub bepi_lt : b.bepi < 2 ^ 32
  pub brpn_lt : b.brpn < 2 ^ 32
  pub brpn_aligned : b.brpn % block_size b ≡ 0

-- The mask and its complement, at each of the twelve block lengths.
abbrev mask_up : ℕ → Bool
mask_up k = u32 (0xfffe_0000 <<< k) == (2 ^ (15 - k) - 1) * 2 ^ (17 + k)

abbrev mask_down : ℕ → Bool
mask_down k = not32 (u32 (0xfffe_0000 <<< k)) == 2 ^ (17 + k) - 1

mask_table :
    (k : ℕ)
    → k < 12
    → (u32 (0xfffe_0000 <<< k) ≡ (2 ^ (15 - k) - 1) * 2 ^ (17 + k))
      × (not32 (u32 (0xfffe_0000 <<< k)) ≡ 2 ^ (17 + k) - 1)
mask_table k h = (
  (==_iff _ _).0 (holds_below_at 12 mask_up k refl h),
  (==_iff _ _).0 (holds_below_at 12 mask_down k refl h),
)

-- A 32-bit address has no more block numbers than the mask compares.
block_number : (k a : ℕ) → k < 12 → a < 2 ^ 32 → a / 2 ^ (17 + k) % 2 ^ (15 - k) ≡ a / 2 ^ (17 + k)
block_number zero a h p = omega arith
block_number (suc zero) a h p = omega arith
block_number (suc (suc zero)) a h p = omega arith
block_number (suc (suc (suc zero))) a h p = omega arith
block_number (suc (suc (suc (suc zero)))) a h p = omega arith
block_number (suc (suc (suc (suc (suc zero))))) a h p = omega arith
block_number (suc (suc (suc (suc (suc (suc zero)))))) a h p = omega arith
block_number (suc (suc (suc (suc (suc (suc (suc zero))))))) a h p = omega arith
block_number (suc (suc (suc (suc (suc (suc (suc (suc zero)))))))) a h p = omega arith
block_number (suc (suc (suc (suc (suc (suc (suc (suc (suc zero))))))))) a h p = omega arith
block_number (suc (suc (suc (suc (suc (suc (suc (suc (suc (suc zero)))))))))) a h p = omega arith
block_number (suc (suc (suc (suc (suc (suc (suc (suc (suc (suc (suc zero))))))))))) a h p =
    omega arith
block_number (suc (suc (suc (suc (suc (suc (suc (suc (suc (suc (suc (suc k)))))))))))) a h p =
    absurd (omega arith)

-- Whether an entry is enabled for an access of this privilege.
abbrev pub serves : Bat → Bool → Bool
serves b priv = if priv then b.vs else b.vp

-- An entry of a legal, aligned block matches exactly when it is enabled for the privilege and the address lies in the block
-- that its `bepi` lies in.
pub bat_matches_iff :
    (b : Bat) (addr : ℕ) (priv : Bool)
    → IsAligned b
    → addr < 2 ^ 32
    → (bat_matches b addr priv ≡ true)
      ↔ ((serves b priv ≡ true) × (addr / block_size b ≡ b.bepi / block_size b))
unfolding bat_matches bat_mask
bat_matches_iff b addr priv al lt = ground (
  arith,
  al.shift_le,
  al.bepi_lt,
  mask_table b.bl_shift (omega (arith, al.shift_le)),
  bit_xor_field_iff (17 + b.bl_shift) (15 - b.bl_shift) addr b.bepi,
  block_number b.bl_shift addr,
  block_number b.bl_shift b.bepi,
)

-- A matching entry with access maps the block onto the one at `brpn`, byte for byte: readable, and
-- writable when `pp` is 2.
bat_translate_block :
    (b : Bat) (addr : ℕ)
    → IsAligned b
    → b.pp ≢ 0
    → bat_translate b addr
      ≡ hit
          (some (b.brpn + addr % block_size b))
          (record { r = true; w = b.pp == 2; clean = false })
unfolding bat_translate bat_mask
bat_translate_block b addr al pp = ground (
  arith,
  mask_table b.bl_shift (omega (arith, al.shift_le)),
  bit_and_low (17 + b.bl_shift) addr,
  bit_or_sum (17 + b.bl_shift) (b.brpn / block_size b) (addr % block_size b),
  mod-lt addr (one-le-pow (17 + b.bl_shift) 2 (omega arith)),
  div-add-mod' b.brpn (block_size b),
  al.brpn_aligned,
)
