-- ===== src/Mmu/State.antt =====
-- The data of PPCMMU (PPCMMU.h): faults, permissions, BATs, segments, micro-TLB entries, and the
-- object's fields.
use mr_iss.Base.{
  ℕ, ◌+◌, ◌*◌, if◌then◌else◌, Bool, true, false, List, replicate, bit_and, truthy, to_int, not,
  ◌&&◌, ◌||◌,
}

pub data Fault : Type 0 where
  none no_page no_segment perms perms_nx align : Fault

-- `mmuperms_t`: the bit-fields `r`, `w` and `clean`, which lie in bits 0, 1 and 2 of `field`.
pub record Perms : Type 0 where
  pub r : Bool
  pub w : Bool
  pub clean : Bool

unfoldable pub field_of : Perms → ℕ
field_of p = to_int p.r + to_int p.w * 2 + to_int p.clean * 4

unfoldable pub perms_of : ℕ → Perms
perms_of f = record {
  r = truthy (bit_and f 1);
  w = truthy (bit_and f 2);
  clean = truthy (bit_and f 4);
}

-- `PPCMMU_PERMS_ANY`.
unfoldable pub perms_any : Perms
perms_any = record { r = true; w = true; clean = false }

pub record Bat : Type 0 where
  pub bepi : ℕ
  pub bl_shift : ℕ
  pub vs : Bool
  pub vp : Bool
  pub brpn : ℕ
  pub wimg : ℕ
  pub pp : ℕ

pub record Segment : Type 0 where
  pub vsid : ℕ
  pub ks : Bool
  pub kp : Bool
  pub n : Bool

-- Bit 0 of `ea`: translation on; bit 1: valid. Bits 7 to 0 of `pa`: the permissions.
pub record UtlbEntry : Type 0 where
  pub ea : ℕ
  pub pa : ℕ

-- A micro-TLB by index; every index is below 128 (`utlb_index`).
abbrev pub Utlb : Type 0
Utlb = ℕ → UtlbEntry

pub record Mmu : Type 0 where
  pub enabled_i : Bool
  pub enabled_d : Bool
  pub htab_phys : ℕ
  pub htab_mask : ℕ
  pub ibat : List Bat
  pub dbat : List Bat
  pub segreg : List Segment
  pub generation_count : ℕ
  pub pi_utlb : Utlb
  pub pd_utlb : Utlb
  pub ui_utlb : Utlb
  pub ud_utlb : Utlb

-- `memset(utlb, 0, …)`.
unfoldable pub empty_utlb : Utlb
empty_utlb i = record { ea = 0; pa = 0 }

abbrev pub zero_bat : Bat
zero_bat = record { bepi = 0; bl_shift = 0; vs = false; vp = false; brpn = 0; wimg = 0; pp = 0 }

abbrev pub zero_segment : Segment
zero_segment = record { vsid = 0; ks = false; kp = false; n = false }

abbrev pub nr_bats : ℕ
nr_bats = 4

abbrev pub nr_segs : ℕ
nr_segs = 16

-- The constructor. It leaves some fields unset, which are 0 here.
unfoldable pub init : Mmu
init = record {
  enabled_i = false;
  enabled_d = false;
  htab_phys = 0;
  htab_mask = 0;
  ibat = replicate nr_bats zero_bat;
  dbat = replicate nr_bats zero_bat;
  segreg = replicate nr_segs zero_segment;
  generation_count = 0;
  pi_utlb = empty_utlb;
  pd_utlb = empty_utlb;
  ui_utlb = empty_utlb;
  ud_utlb = empty_utlb;
}

-- A load, or an instruction fetch, wants `r`; a store wants `w` on a page whose C bit is set.
unfoldable pub check_perms : Perms → Bool → Bool → Bool
check_perms p rnw ind = if ind || rnw then p.r else p.w && not p.clean

-- The check failed only because the C bit was clear.
unfoldable pub check_fault_was_cleanliness : Perms → Bool → Bool → Bool
check_fault_was_cleanliness p rnw ind = (not rnw && not ind) && p.w && p.clean
