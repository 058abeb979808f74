-- ===== src/Mmu/Walk/Groups.antt =====
-- Where the walk looks for page table entries.
use mr_iss.Base.{
  ℕ, ◌+◌, ◌-◌, ◌*◌, ◌/◌, ◌%◌, ◌^◌, ◌<◌, bit_or, ◌≡◌, refl, Bool, arith, ◌==◌, ==_iff,
  holds_below_at, u32, ◌<<<◌,
}
use native.Mathlib.Nat.{one-le-pow, mod-lt, div-add-mod'}
use mr_iss.Bits.Fields.{bit_and_field, bit_or_sum}
use mr_iss.Mmu.State.{Mmu}
use mr_iss.Mmu.Walk.{pteg_address}

-- The table's base and mask, as SDR1 gives them: a table of `2 ^ k` times 64 KiB, aligned to it.
pub record IsTable (m : Mmu) (k : ℕ) : Type 0 where
  pub small : k < 10
  pub mask : m.htab_mask ≡ 2 ^ k - 1
  pub aligned : m.htab_phys % 2 ^ (16 + k) ≡ 0

mask_test : ℕ → Bool
mask_test k = bit_or (u32 ((2 ^ k - 1) <<< 16)) 0xffc0 == (2 ^ (10 + k) - 1) * 2 ^ 6

mask_fields :
    (k : ℕ) → k < 10 → bit_or (u32 ((2 ^ k - 1) <<< 16)) 0xffc0 ≡ (2 ^ (10 + k) - 1) * 2 ^ 6
unfolding mask_test
mask_fields k h = (==_iff _ _).0 (holds_below_at 10 mask_test k refl h)

size_test : ℕ → Bool
size_test k = 2 ^ (10 + k) * 64 == 2 ^ (16 + k)

table_size : (k : ℕ) → k < 10 → 2 ^ (10 + k) * 64 ≡ 2 ^ (16 + k)
unfolding size_test
table_size k h = (==_iff _ _).0 (holds_below_at 10 size_test k refl h)

-- Every group of eight entries lies inside the page table, on a 64-byte boundary of it.
pteg_address_inside :
    (m : Mmu) (k hashfn : ℕ)
    → IsTable m k
    → (n : ℕ) × (n < 2 ^ (10 + k)) × (pteg_address m hashfn ≡ m.htab_phys + n * 64)
unfolding pteg_address
pteg_address_inside m k hashfn t =
    let n = u32 (hashfn <<< 6) / 2 ^ 6 % 2 ^ (10 + k) in
    let fits : n < 2 ^ (10 + k) = mod-lt _ (one-le-pow (10 + k) 2 (omega arith)) in
    (
      n,
      fits,
      ground (
        arith,
        t.mask,
        t.aligned,
        mask_fields k t.small,
        table_size k t.small,
        fits,
        bit_and_field 6 (10 + k) (u32 (hashfn <<< 6)),
        div-add-mod' m.htab_phys (2 ^ (16 + k)),
        bit_or_sum (16 + k) (m.htab_phys / 2 ^ (16 + k)) (n * 2 ^ 6),
      ),
    )
