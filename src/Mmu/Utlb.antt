-- ===== src/Mmu/Utlb.antt =====
-- The four direct-mapped micro-TLBs (PPCMMU_utlb_dm.h).
pub mod Laws
pub mod Real
use mr_iss.Base.{
  ℕ, ◌==◌, ◌>>>◌, if◌then◌else◌, Bool, true, false, bit_and, bit_or, Option, none, some,
}
use mr_iss.Mmu.State.{Mmu, Utlb, UtlbEntry, Perms, field_of, perms_of, empty_utlb}

-- `PPCMMU_ADDR_TO_IDX`.
unfoldable pub utlb_index : ℕ → ℕ
utlb_index x = bit_and (x >>> 12) 127

-- `select_utlb`.
unfoldable pub select_utlb : Mmu → Bool → Bool → Utlb
select_utlb m true true = m.pi_utlb
select_utlb m false true = m.pd_utlb
select_utlb m true false = m.ui_utlb
select_utlb m false false = m.ud_utlb

unfoldable pub store_utlb : Mmu → Bool → Bool → Utlb → Mmu
store_utlb m true true u = record m { pi_utlb = u }
store_utlb m false true u = record m { pd_utlb = u }
store_utlb m true false u = record m { ui_utlb = u }
store_utlb m false false u = record m { ud_utlb = u }

unfoldable pub iutlb_inv : Mmu → Mmu
iutlb_inv m = record m { pi_utlb = empty_utlb; ui_utlb = empty_utlb }

unfoldable pub dutlb_inv : Mmu → Mmu
dutlb_inv m = record m { pd_utlb = empty_utlb; ud_utlb = empty_utlb }

-- Whether translation is on for instruction or data accesses.
unfoldable pub enabled : Mmu → Bool → Bool
enabled m ind = if ind then m.enabled_i else m.enabled_d

-- `PPCMMU_UTLB_TR` and `PPCMMU_UTLB_VALID`.
abbrev utlb_tr : ℕ
utlb_tr = 1

abbrev utlb_valid : ℕ
utlb_valid = 2

-- The tag that `utlbLookup` looks for.
unfoldable pub find_ea : Bool → ℕ → ℕ
find_ea on addr = bit_or (bit_or (bit_and addr 0xffff_f000) utlb_valid) (if on then utlb_tr else 0)

-- `~0xfff` in 64 bits.
abbrev pub page_mask64 : ℕ
page_mask64 = 0xffff_ffff_ffff_f000

-- `utlb_t::set`.
unfoldable pub entry : Bool → ℕ → ℕ → ℕ → UtlbEntry
entry on addr pa field = record {
  ea = bit_or (bit_or (bit_and addr 0xffff_f000) (if on then utlb_tr else 0)) utlb_valid;
  pa = bit_or (bit_and pa page_mask64) (bit_and field 0xff);
}

unfoldable pub utlb_lookup : Mmu → Bool → Bool → ℕ → Option (ℕ × Perms)
utlb_lookup m ind priv addr =
    let t = select_utlb m ind priv (utlb_index addr) in
    if t.ea == find_ea (enabled m ind) addr
    then some (bit_or (bit_and t.pa page_mask64) (bit_and addr 0xfff), perms_of (bit_and t.pa 0xff))
    else none

-- `PPCMMU_HVA_IO_BIT`.
abbrev pub io_bit : ℕ
io_bit = 0x8000_0000_0000_0000

-- What an entry points at: the host page of a direct mapping, else the physical address, marked.
unfoldable pub target : ℕ → Option ℕ → ℕ
target out_addr none = bit_or out_addr io_bit
target out_addr (some host_addr) = host_addr

-- `utlbInsert`, once `get_direct_map` has answered.
unfoldable pub utlb_insert : Mmu → Bool → Bool → ℕ → ℕ → Option ℕ → Perms → Mmu
utlb_insert m ind priv addr out_addr direct perms =
    let e = entry (enabled m ind) addr (target out_addr direct) (field_of perms) in
    let u = select_utlb m ind priv in
    store_utlb m ind priv (λ j. if j == utlb_index addr then e else u j)
