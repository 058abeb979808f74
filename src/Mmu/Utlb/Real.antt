-- ===== src/Mmu/Utlb/Real.antt =====
-- The micro-TLB's entries for fetches with translation off: with them a fetch is always allowed.
use mr_iss.Mmu.State.{Mmu, Perms, Utlb, field_of}
use mr_iss.Mmu.Regs.{set_irdr}
use mr_iss.Mmu.Utlb.{
  utlb_index, select_utlb, store_utlb, enabled, find_ea, entry, utlb_lookup, utlb_insert, target,
}
use mr_iss.Mmu.Utlb.Laws.{
  select-store, find_ea-tag, entry-ea-tag, entry-page, entry-perms, translation, same_slot, page,
}
use mr_iss.Base.{
  ℕ, ◌≡◌, refl, sym, ◌∙◌, Bool, true, false, not, ◌&&◌, Option, none, some, arith, ◌==◌,
  if◌then◌else◌, bool_eq, bool_eq_iff,
}
use mr_iss.Mmu.State.{init}
use mr_iss.Mmu.State.{empty_utlb}
use mr_iss.Mmu.Utlb.Laws.{empty_misses}

-- The MMU with the translation of fetches off.
abbrev pub real : Mmu → Mmu
real m = record m { enabled_i = false }

-- Every entry that answers a fetch with translation off allows it.
abbrev pub IsPlain : Mmu → Type 0
IsPlain m =
    (priv : Bool) (addr pa : ℕ) (p : Perms)
    → utlb_lookup (real m) true priv addr ≡ some (pa, p)
    → p.r ≡ true

select-real : (m : Mmu) (i p : Bool) → select_utlb (real m) i p ≡ select_utlb m i p
unfolding select_utlb
select-real m true true = refl
select-real m false true = refl
select-real m true false = refl
select-real m false false = refl

enabled-real : (m : Mmu) → enabled (real m) true ≡ false
unfolding enabled
enabled-real m = refl

-- What answers a fetch with translation off after an insertion.
utlb_lookup-real_insert :
    (m : Mmu) (ind priv : Bool) (addr out : ℕ) (direct : Option ℕ) (perms : Perms) (priv' : Bool)
    (addr' : ℕ)
    → utlb_lookup (real (utlb_insert m ind priv addr out direct perms)) true priv' addr' ≡ (
        if same_slot ind priv addr true priv' addr'
        then if page addr == page addr' && not (enabled m ind)
          then some (translation out direct addr', perms)
          else none
        else utlb_lookup (real m) true priv' addr')
unfolding utlb_lookup utlb_insert translation
utlb_lookup-real_insert m ind priv addr out direct perms priv' addr' = ground (
  arith,
  select-real m true priv',
  select-real (store_utlb m ind priv written) true priv',
  select-store m ind priv written true priv',
  enabled-real m,
  enabled-real (store_utlb m ind priv written),
  find_ea-tag false addr',
  entry-ea-tag (enabled m ind) addr (target out direct) (field_of perms),
  entry-page (enabled m ind) addr (target out direct) (field_of perms),
  entry-perms (enabled m ind) addr (target out direct) perms,
)
  where
    written : Utlb
    written j =
        if j == utlb_index addr
        then entry (enabled m ind) addr (target out direct) (field_of perms)
        else select_utlb m ind priv j

chosen :
    (a b : Bool) (l : Option (ℕ × Perms)) (t pa : ℕ) (x p : Perms)
    → (a ≡ true → b ≡ true → x.r ≡ true)
    → (l ≡ some (pa, p) → p.r ≡ true)
    → (if a then if b then some (t, x) else none else l) ≡ some (pa, p)
    → p.r ≡ true
chosen true true l t pa x p h k e = cc (h refl refl, e)
chosen true false l t pa x p h k e = absurd (cc e)
chosen false b l t pa x p h k e = k e

slot_ind : (ind a b : Bool) → (bool_eq ind true && a && b) ≡ true → ind ≡ true
slot_ind ind a b h = ground (arith, bool_eq_iff ind true)

slot_off :
    (m : Mmu) (ind a b c : Bool)
    → (bool_eq ind true && a && b) ≡ true
    → (c && not (enabled m ind)) ≡ true
    → m.enabled_i ≡ false
unfolding enabled
slot_off m true a b c h k = ground arith
slot_off m false a b c h k = absurd (cc (slot_ind false a b h))

-- An insertion keeps it, if one for a fetch with translation off has the permissions for one.
pub insert-IsPlain :
    (m : Mmu) (ind priv : Bool) (addr out : ℕ) (direct : Option ℕ) (perms : Perms)
    → (ind ≡ true → m.enabled_i ≡ false → perms.r ≡ true)
    → IsPlain m
    → IsPlain (utlb_insert m ind priv addr out direct perms)
unfolding enabled
insert-IsPlain m ind priv addr out direct perms h plain priv' addr' pa p e =
    chosen (same_slot ind priv addr true priv' addr')
      (page addr == page addr' && not (enabled m ind)) (utlb_lookup (real m) true priv' addr')
      (translation out direct addr') pa perms p
      (λ a b. h (slot_ind ind _ _ a) (slot_off m ind _ _ _ a b)) (plain priv' addr' pa p)
      (sym (utlb_lookup-real_insert m ind priv addr out direct perms priv' addr') ∙ e)

no_hit :
    (tag : ℕ) (x y : ℕ × Perms)
    → (0 == tag) ≡ false
    → (if 0 == tag then some x else none) ≡ some y
    → ⊥
no_hit tag x y h e = absurd (cc (h, e))

pub init-IsPlain : IsPlain init
unfolding utlb_lookup init empty_utlb select_utlb enabled
init-IsPlain true addr pa p e = absurd (no_hit (find_ea false addr) _ _ (empty_misses false addr) e)
init-IsPlain false addr pa p e =
    absurd (no_hit (find_ea false addr) _ _ (empty_misses false addr) e)

-- It is a matter of the entries alone.
pub set_irdr-IsPlain : (m : Mmu) (ir dr : Bool) → IsPlain m → IsPlain (set_irdr m ir dr)
unfolding utlb_lookup set_irdr select_utlb enabled
set_irdr-IsPlain m ir dr plain true addr pa p e = plain true addr pa p e
set_irdr-IsPlain m ir dr plain false addr pa p e = plain false addr pa p e

pub insert-enabled :
    (m : Mmu) (ind priv : Bool) (addr out : ℕ) (direct : Option ℕ) (perms : Perms)
    → (utlb_insert m ind priv addr out direct perms).enabled_i ≡ m.enabled_i
unfolding utlb_insert store_utlb
insert-enabled m true true addr out direct perms = refl
insert-enabled m true false addr out direct perms = refl
insert-enabled m false true addr out direct perms = refl
insert-enabled m false false addr out direct perms = refl
