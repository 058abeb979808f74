-- ===== src/Mmu/Utlb/Laws.antt =====
-- The micro-TLB as a cache: what a lookup finds after an insertion and after an invalidation.
use mr_iss.Base.{
  ℕ, ◌+◌, ◌*◌, ◌/◌, ◌%◌, ◌^◌, ◌<◌, ◌==◌, if◌then◌else◌, Bool, true, false, bit_and, bit_or, Option,
  none, some, ◌&&◌, ◌≡◌, refl, ap, ap₂, ◌∙◌, arith, bool_eq, bool_eq_iff,
}
use mr_iss.Bits.Fields.{bit_and_field, bit_and_low, bit_or_sum, bit_or_assoc}
use mr_iss.Mmu.State.{Mmu, Utlb, Perms, field_of, perms_of, empty_utlb}
use mr_iss.Mmu.Utlb.{
  iutlb_inv, dutlb_inv, utlb_index, select_utlb, store_utlb, enabled, find_ea, entry, page_mask64,
  utlb_lookup, utlb_insert, target,
}

-- The number of the 4 KiB page that a 32-bit address lies in.
abbrev pub page : ℕ → ℕ
page addr = addr / 4096 % 2 ^ 20

abbrev on_bit : Bool → ℕ
on_bit on = if on then 1 else 0

masked_page : (addr : ℕ) → bit_and addr 0xffff_f000 ≡ page addr * 2 ^ 12
masked_page addr = bit_and_field 12 20 addr

tag_sum :
    (addr a b : ℕ)
    → bit_or a b < 2 ^ 12
    → bit_or (bit_or (bit_and addr 0xffff_f000) a) b ≡ page addr * 4096 + bit_or a b
tag_sum addr a b h =
    bit_or_assoc (bit_and addr 0xffff_f000) a b
    ∙ ap (λ t. bit_or t (bit_or a b)) (masked_page addr)
    ∙ bit_or_sum 12 (page addr) (bit_or a b) h

-- The tag as a number.
abbrev pub tag : Bool → ℕ → ℕ
tag on addr = page addr * 4096 + (if on then 3 else 2)

pub find_ea-tag : (on : Bool) (addr : ℕ) → find_ea on addr ≡ tag on addr
unfolding find_ea
find_ea-tag true addr = tag_sum addr 2 1 (omega arith)
find_ea-tag false addr = tag_sum addr 2 0 (omega arith)

pub entry-ea-tag : (on : Bool) (addr pa f : ℕ) → (entry on addr pa f).ea ≡ tag on addr
unfolding entry
entry-ea-tag true addr pa f = tag_sum addr 1 2 (omega arith)
entry-ea-tag false addr pa f = tag_sum addr 0 2 (omega arith)

entry-pa_sum :
    (on : Bool) (addr pa f : ℕ) → (entry on addr pa f).pa ≡ pa / 4096 % 2 ^ 52 * 4096 + f % 256
unfolding entry
entry-pa_sum on addr pa f =
    ap₂ bit_or (bit_and_field 12 52 pa) (bit_and_low 8 f)
    ∙ bit_or_sum 12 (pa / 4096 % 2 ^ 52) (f % 256) (omega arith)

pub entry-page :
    (on : Bool) (addr pa f : ℕ)
    → bit_and (entry on addr pa f).pa page_mask64 ≡ bit_and pa page_mask64
entry-page on addr pa f = omega (
  arith,
  bit_and_field 12 52 (entry on addr pa f).pa,
  bit_and_field 12 52 pa,
  entry-pa_sum on addr pa f,
)

perms_of-field_of : (p : Perms) → perms_of (field_of p) ≡ p
unfolding perms_of field_of
perms_of-field_of p = ground arith

field_of-lt : (p : Perms) → field_of p < 8
unfolding field_of
field_of-lt p = ground arith

pub entry-perms :
    (on : Bool) (addr pa : ℕ) (p : Perms)
    → perms_of (bit_and (entry on addr pa (field_of p)).pa 0xff) ≡ p
entry-perms on addr pa p =
    ap perms_of (
      omega (
        arith,
        bit_and_low 8 (entry on addr pa (field_of p)).pa,
        entry-pa_sum on addr pa (field_of p),
        field_of-lt p,
      ))
    ∙ perms_of-field_of p

-- What a hit returns for an address on the page of an entry.
unfoldable pub translation : ℕ → Option ℕ → ℕ → ℕ
translation out_addr direct addr =
    bit_or (bit_and (target out_addr direct) page_mask64) (bit_and addr 0xfff)

select-store_self : (m : Mmu) (i p : Bool) (u : Utlb) → select_utlb (store_utlb m i p u) i p ≡ u
unfolding select_utlb store_utlb
select-store_self m true true u = refl
select-store_self m false true u = refl
select-store_self m true false u = refl
select-store_self m false false u = refl

-- The address whose lookups an insertion may change: the same micro-TLB and the same slot.
abbrev pub same_slot : Bool → Bool → ℕ → Bool → Bool → ℕ → Bool
same_slot ind priv addr ind' priv' addr' =
    bool_eq ind ind' && bool_eq priv priv' && utlb_index addr == utlb_index addr'

enabled-store :
    (m : Mmu) (i p : Bool) (u : Utlb) (j : Bool) → enabled (store_utlb m i p u) j ≡ enabled m j
unfolding enabled store_utlb
enabled-store m true true u j = refl
enabled-store m false true u j = refl
enabled-store m true false u j = refl
enabled-store m false false u j = refl

pub select-store :
    (m : Mmu) (i p : Bool) (u : Utlb) (i' p' : Bool)
    → select_utlb (store_utlb m i p u) i' p'
      ≡ (if bool_eq i i' && bool_eq p p' then u else select_utlb m i' p')
unfolding select_utlb store_utlb
select-store m true true u i' p' = ground arith
select-store m false true u i' p' = ground arith
select-store m true false u i' p' = ground arith
select-store m false false u i' p' = ground arith

-- A lookup after an insertion. In the slot that was written, an address on the inserted page hits
-- with the inserted permissions, and any other address misses, since its entry is gone; all other
-- lookups are as before.
pub utlb_lookup-insert :
    (m : Mmu) (ind priv : Bool) (addr out_addr : ℕ) (direct : Option ℕ) (perms : Perms)
    (ind' priv' : Bool) (addr' : ℕ)
    → utlb_lookup (utlb_insert m ind priv addr out_addr direct perms) ind' priv' addr' ≡ (
        if same_slot ind priv addr ind' priv' addr'
        then if page addr == page addr'
          then some (translation out_addr direct addr', perms)
          else none
        else utlb_lookup m ind' priv' addr')
unfolding utlb_lookup utlb_insert translation
utlb_lookup-insert m ind priv addr out_addr direct perms ind' priv' addr' = ground (
  arith,
  select-store m ind priv written ind' priv',
  enabled-store m ind priv written ind',
  bool_eq_iff ind ind',
  find_ea-tag (enabled m ind') addr',
  entry-ea-tag (enabled m ind) addr (target out_addr direct) (field_of perms),
  entry-page (enabled m ind) addr (target out_addr direct) (field_of perms),
  entry-perms (enabled m ind) addr (target out_addr direct) perms,
)
  where
    written : Utlb
    written j =
        if j == utlb_index addr
        then entry (enabled m ind) addr (target out_addr direct) (field_of perms)
        else select_utlb m ind priv j

-- Every lookup in an emptied micro-TLB misses: the tag looked for has its valid bit set.
pub empty_misses : (on : Bool) (addr : ℕ) → (0 == find_ea on addr) ≡ false
empty_misses on addr = ground (arith, find_ea-tag on addr)

-- After an invalidation of the instruction micro-TLBs every instruction lookup misses, and every data
-- lookup is as before.
utlb_lookup-iutlb_inv :
    (m : Mmu) (ind priv : Bool) (addr : ℕ)
    → utlb_lookup (iutlb_inv m) ind priv addr ≡ (if ind then none else utlb_lookup m ind priv addr)
unfolding utlb_lookup iutlb_inv select_utlb empty_utlb enabled
utlb_lookup-iutlb_inv m true true addr = rw (empty_misses m.enabled_i addr)
utlb_lookup-iutlb_inv m true false addr = rw (empty_misses m.enabled_i addr)
utlb_lookup-iutlb_inv m false true addr = refl
utlb_lookup-iutlb_inv m false false addr = refl

-- The same of the data micro-TLBs.
utlb_lookup-dutlb_inv :
    (m : Mmu) (ind priv : Bool) (addr : ℕ)
    → utlb_lookup (dutlb_inv m) ind priv addr ≡ (if ind then utlb_lookup m ind priv addr else none)
unfolding utlb_lookup dutlb_inv select_utlb empty_utlb enabled
utlb_lookup-dutlb_inv m true true addr = refl
utlb_lookup-dutlb_inv m true false addr = refl
utlb_lookup-dutlb_inv m false true addr = rw (empty_misses m.enabled_d addr)
utlb_lookup-dutlb_inv m false false addr = rw (empty_misses m.enabled_d addr)
