-- ===== src/Mmu/Regs.antt =====
-- The MMU's registers (PPCMMU.cc): SDR1, the BATs and the segment registers, each write of which
-- drops the micro-TLBs it may affect; `tlbia`, `tlbie` and `setIRDR`.
pub mod Laws
use mr_iss.Base.{
  ℕ, zero, suc, ◌+◌, ◌-◌, ◌/◌, ◌<<<◌, ◌>>>◌, ◌==◌, ltb, if◌then◌else◌, Bool, bit_and, bit_or,
  get_or, set, Outcome, done, fatal, truthy, u32,
}
use mr_iss.Mmu.State.{Mmu, Bat, Segment, zero_bat, zero_segment, nr_bats, nr_segs}
use mr_iss.Mmu.Utlb.{iutlb_inv, dutlb_inv}

bump_generation : Mmu → Mmu
bump_generation m = record m { generation_count = u32 (m.generation_count + 1) }

unfoldable pub set_sdr1 : Mmu → ℕ → Mmu
unfolding bump_generation
set_sdr1 m val =
    let m' = record m { htab_phys = bit_and val 0xffff_0000; htab_mask = bit_and val 0x1ff } in
    bump_generation (dutlb_inv (iutlb_inv m'))

-- The place of the highest 1 among the lowest `w` digits, counted from 1; 0 if there is none.
pub bit_length : ℕ → ℕ → ℕ
bit_length zero x = 0
bit_length (suc w) x = if x == 0 then 0 else suc (bit_length w (x / 2))

-- `__builtin_clz` of a `uint32_t`.
clz32 : ℕ → ℕ
unfolding bit_length
clz32 x = 32 - bit_length 32 x

pub m_fls : ℕ → ℕ
unfolding clz32
m_fls x = if truthy x then 32 - clz32 x else 0

upper_of : Bat → ℕ → Bat
upper_of b val = record b {
  bepi = bit_and val 0xfffe_0000;
  bl_shift = m_fls (bit_and (val >>> 2) 0x7ff);
  vs = truthy (bit_and val 2);
  vp = truthy (bit_and val 1);
}

lower_of : Bat → ℕ → Bat
lower_of b val = record b {
  brpn = bit_and val 0xfffe_0000;
  wimg = bit_and val 0x78;
  pp = bit_and val 3;
}

unfoldable pub set_ibat_upper : Mmu → ℕ → ℕ → Outcome Mmu
unfolding upper_of bump_generation
set_ibat_upper m bat val =
    if ltb bat nr_bats
    then done (
        bump_generation (
          iutlb_inv
            (record m { ibat = set m.ibat bat (upper_of (get_or m.ibat bat zero_bat) val) })))
    else fatal

unfoldable pub set_ibat_lower : Mmu → ℕ → ℕ → Outcome Mmu
unfolding lower_of bump_generation
set_ibat_lower m bat val =
    if ltb bat nr_bats
    then done (
        bump_generation (
          iutlb_inv
            (record m { ibat = set m.ibat bat (lower_of (get_or m.ibat bat zero_bat) val) })))
    else fatal

unfoldable pub set_dbat_upper : Mmu → ℕ → ℕ → Outcome Mmu
unfolding upper_of bump_generation
set_dbat_upper m bat val =
    if ltb bat nr_bats
    then done (
        bump_generation (
          dutlb_inv
            (record m { dbat = set m.dbat bat (upper_of (get_or m.dbat bat zero_bat) val) })))
    else fatal

unfoldable pub set_dbat_lower : Mmu → ℕ → ℕ → Outcome Mmu
unfolding lower_of bump_generation
set_dbat_lower m bat val =
    if ltb bat nr_bats
    then done (
        bump_generation (
          dutlb_inv
            (record m { dbat = set m.dbat bat (lower_of (get_or m.dbat bat zero_bat) val) })))
    else fatal

bat_upper : Bat → ℕ
bat_upper b =
    bit_or (bit_or (bit_or b.bepi (((1 <<< b.bl_shift) - 1) <<< 2)) (if b.vs then 2 else 0))
      (if b.vp then 1 else 0)

bat_lower : Bat → ℕ
bat_lower b = bit_or (bit_or b.brpn b.wimg) b.pp

unfoldable pub get_ibat_upper : Mmu → ℕ → Outcome ℕ
unfolding bat_upper
get_ibat_upper m bat =
    if ltb bat nr_bats then done (bat_upper (get_or m.ibat bat zero_bat)) else fatal

unfoldable pub get_ibat_lower : Mmu → ℕ → Outcome ℕ
unfolding bat_lower
get_ibat_lower m bat =
    if ltb bat nr_bats then done (bat_lower (get_or m.ibat bat zero_bat)) else fatal

unfoldable pub get_dbat_upper : Mmu → ℕ → Outcome ℕ
unfolding bat_upper
get_dbat_upper m bat =
    if ltb bat nr_bats then done (bat_upper (get_or m.dbat bat zero_bat)) else fatal

unfoldable pub get_dbat_lower : Mmu → ℕ → Outcome ℕ
unfolding bat_lower
get_dbat_lower m bat =
    if ltb bat nr_bats then done (bat_lower (get_or m.dbat bat zero_bat)) else fatal

-- `B(30)`, `B(29)` and `B(28)`.
abbrev seg_ks : ℕ
seg_ks = 0x4000_0000

abbrev seg_kp : ℕ
seg_kp = 0x2000_0000

abbrev seg_n : ℕ
seg_n = 0x1000_0000

segment_of : ℕ → Segment
segment_of val = record {
  vsid = bit_and val 0x00ff_ffff;
  ks = truthy (bit_and val seg_ks);
  kp = truthy (bit_and val seg_kp);
  n = truthy (bit_and val seg_n);
}

unfoldable pub set_segment_reg : Mmu → ℕ → ℕ → Outcome Mmu
unfolding segment_of bump_generation
set_segment_reg m sr val =
    if ltb sr nr_segs
    then done (
        bump_generation
          (iutlb_inv (dutlb_inv (record m { segreg = set m.segreg sr (segment_of val) }))))
    else fatal

segment_word : Segment → ℕ
segment_word s =
    let r = s.vsid in
    let r = if s.ks then bit_or r seg_ks else r in
    let r = if s.kp then bit_or r seg_kp else r in if s.n then bit_or r seg_n else r

unfoldable pub get_segment_reg : Mmu → ℕ → Outcome ℕ
unfolding segment_word
get_segment_reg m sr =
    if ltb sr nr_segs then done (segment_word (get_or m.segreg sr zero_segment)) else fatal

unfoldable tlbia : Mmu → Mmu
unfolding bump_generation
tlbia m = bump_generation (iutlb_inv (dutlb_inv m))

unfoldable pub tlbie : Mmu → Mmu
unfolding bump_generation
tlbie m = bump_generation (iutlb_inv (dutlb_inv m))

unfoldable pub set_irdr : Mmu → Bool → Bool → Mmu
set_irdr m ir dr = record m { enabled_d = dr; enabled_i = ir }
