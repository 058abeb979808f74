-- ===== src/Mmu/Walk/Pages.antt =====
-- A page table entry against the architecture's protection table, and where the groups of entries
-- lie.
use mr_iss.Base.{
  ℕ, ◌<◌, ◌≡◌, refl, inl, inr, Bool, true, false, not, ◌&&◌, ◌||◌, arith, ltb, ◌==◌, if◌then◌else◌,
  ==_iff, Bool-cases, holds_below_at,
}
use mr_iss.Bits.Digits.{digit, digit-lt, digit-bit_or, digit_high}
use mr_iss.Bits.Fields.{bit_and_low, bit_and_bit, zero_digit}
use mr_iss.Mmu.State.{Segment, check_perms}
use mr_iss.Mmu.Walk.{Request, page_perms, updates_c, touched_pte, pp_of}

-- What a page's protection bits grant, by the key that the segment gives the access.
pub data Right : Type 0 where
  no_access read_only read_write : Right

abbrev pub protection : Bool → ℕ → Right
protection false pp = if pp == 3 then read_only else read_write
protection true pp = if pp == 0 then no_access else if pp == 2 then read_write else read_only

abbrev pub allows : Right → Bool → Bool
allows no_access is_read = false
allows read_only is_read = is_read
allows read_write is_read = true

abbrev pub key_of : Segment → Request → Bool
key_of sr q = if q.priv then sr.ks else sr.kp

pp-lt : (pteh : ℕ) → pp_of pteh < 4
pp-lt pteh = omega (arith, bit_and_low 2 pteh)

-- The access that caused the walk passes the check exactly when the protection table allows it; a
-- store is never held up by a clear C bit.
pub page_perms-protection :
    (sr : Segment) (q : Request) (pteh : ℕ)
    → check_perms (page_perms sr q pteh) q.rnw q.ind
      ≡ allows (protection (key_of sr q) (pp_of pteh)) (q.ind || q.rnw)
unfolding check_perms page_perms
page_perms-protection sr q pteh = ground (arith, pp-lt pteh)

r_table : ℕ → Bool
r_table i = digit 0x100 i == (if i == 8 then 1 else 0)

rc_table : ℕ → Bool
rc_table i = digit 0x180 i == (if i == 8 then 1 else if i == 7 then 1 else 0)

digit-r : (i : ℕ) → digit 0x100 i ≡ (if i == 8 then 1 else 0)
unfolding r_table
digit-r i = elim (Bool-cases (ltb i 9)) [
  | inl below ↦ (==_iff _ _).0 (holds_below_at 9 r_table i refl (ground arith))
  | inr above ↦ ground (arith, digit_high 9 0x100 i)
]

digit-rc : (i : ℕ) → digit 0x180 i ≡ (if i == 8 then 1 else if i == 7 then 1 else 0)
unfolding rc_table
digit-rc i = elim (Bool-cases (ltb i 9)) [
  | inl below ↦ (==_iff _ _).0 (holds_below_at 9 rc_table i refl (ground arith))
  | inr above ↦ ground (arith, digit_high 9 0x180 i)
]

-- A hit sets the R bit of the entry, and the C bit if it is for a store that the protection table
-- allows; it changes no other bit.
touched_pte_digits :
    (sr : Segment) (q : Request) (pteh i : ℕ)
    → digit (touched_pte sr q pteh) i ≡ (
        if i == 8
        then 1
        else if i == 7 && not q.rnw && allows (protection (key_of sr q) (pp_of pteh)) false
        then 1
        else digit pteh i)
unfolding touched_pte updates_c
touched_pte_digits sr q pteh i = ground (
  arith,
  digit-bit_or pteh 0x180 i,
  digit-bit_or pteh 0x100 i,
  digit-bit_or pteh 0 i,
  digit-r i,
  digit-rc i,
  zero_digit i,
  digit-lt pteh i,
  bit_and_bit 7 pteh,
  bit_and_bit 8 pteh,
  pp-lt pteh,
)
