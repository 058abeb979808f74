-- ===== src/Mmu/Translate/Real.antt =====
-- Translation and the entries for fetches with translation off: such a fetch is always granted.
use mr_iss.Memory.{Memory}
use mr_iss.Mmu.State.{Mmu, Perms, perms_any, check_perms, check_fault_was_cleanliness}
use mr_iss.Mmu.Utlb.{utlb_lookup, utlb_insert}
use mr_iss.Mmu.Utlb.Real.{IsPlain, insert-IsPlain, insert-enabled}
use mr_iss.Mmu.Walk.{Sys, Request, Lookup, mapped, faulted, translate_ea}
use mr_iss.Mmu.Walk.Fills.{Fills, translate_ea-Fills, IsMapped, translate_ea-IsMapped}
use mr_iss.Mmu.Translate.{
  Access, granted, denied, looping, check_access, after_walk, do_lookup, translate_addr, settle,
}
use mr_iss.Base.{
  ℕ, zero, suc, ◌≡◌, refl, sym, ap, subst, ◌∙◌, inl, inr, Bool, true, false, some, Option-cases,
  Allows, Allows-test, Allows-then, Outcome,
}
use mr_iss.Mmu.Utlb.{store_utlb}
use mr_iss.Base.{Allows-and}

any_reads : perms_any.r ≡ true
unfolding perms_any
any_reads = refl

-- The entries stay plain, and translation as it is.
abbrev pub Plainly : Bool → Mmu → Type 0
Plainly on m = IsPlain m × (m.enabled_i ≡ on)

Fills-Plainly :
    (mem : Memory) (q : Request) (on : Bool) (m m' : Mmu)
    → Fills mem q m m'
    → Plainly on m
    → Plainly on m'
unfolding utlb_insert store_utlb
Fills-Plainly mem q on m m' (inl e) h = subst (Plainly on) (sym e) h
Fills-Plainly mem q on m m' (inr (out, direct, p, e, k)) (plain, at) = subst (Plainly on) (sym e) (
  insert-IsPlain m q.ind q.priv q.addr out direct p
      (λ a b. ap (λ (x : Perms). x.r) (k a b) ∙ any_reads) plain,
  insert-enabled m q.ind q.priv q.addr out direct p ∙ at,
)

module _ (mem : Memory) where
  Keeps : Bool → Outcome (Access × Sys mem) → Type 0
  Keeps on = Allows (λ r. Plainly on r.1.mmu)

  check_access-Keeps :
      (on : Bool) (q : Request) (s : Sys mem) (pa : ℕ) (p : Perms)
      (again : Outcome (Access × Sys mem))
      → Plainly on s.mmu
      → Keeps on again
      → Keeps on (check_access mem q s pa p again)
  unfolding check_access Keeps
  check_access-Keeps on q s pa p again h k =
      Allows-test (λ r. Plainly on r.1.mmu) (check_perms p q.rnw q.ind) _ _ (λ _. h)
        (λ _.
          Allows-test (λ r. Plainly on r.1.mmu) (check_fault_was_cleanliness p q.rnw q.ind) _ _
            (λ _. k) (λ _. h))

  settle-Keeps :
      (on : Bool) (again : Sys mem → Outcome (Access × Sys mem)) (q : Request) (l : Lookup)
      (s : Sys mem)
      → Plainly on s.mmu
      → Keeps on (again s)
      → Keeps on (settle mem again q (l, s))
  unfolding settle Keeps
  settle-Keeps on again q (faulted f) s h k = h
  settle-Keeps on again q (mapped out p) s h k =
      elim (Option-cases (utlb_lookup s.mmu q.ind q.priv q.addr)) [
        | inl miss ↦ rw (miss, settle) tt
        | inr (x, found) ↦ rw (found, settle) (check_access-Keeps on q s x.0 x.1 (again s) h k)
      ]

  after_walk-Keeps :
      (on : Bool) (again : Sys mem → Outcome (Access × Sys mem)) (s : Sys mem) (q : Request)
      → Plainly on s.mmu
      → ((s' : Sys mem) → Plainly on s'.mmu → Keeps on (again s'))
      → Keeps on (after_walk mem again s q)
  unfolding after_walk Keeps
  after_walk-Keeps on again s q h k =
      Allows-then (λ r. Fills mem q s.mmu r.1.mmu) (λ r. Plainly on r.1.mmu) (translate_ea mem s q)
        (settle mem again q) (translate_ea-Fills mem s q)
        (λ r f.
          let kept = Fills-Plainly mem q on s.mmu r.1.mmu f h in
          settle-Keeps on again q r.0 r.1 kept (k r.1 kept))

  do_lookup-Keeps :
      (on : Bool) (fuel : ℕ) (s : Sys mem) (q : Request)
      → Plainly on s.mmu
      → Keeps on (do_lookup mem fuel s q)
  unfolding do_lookup Keeps
  do_lookup-Keeps on zero s q h = after_walk-Keeps on _ s q h (λ s' k. k)
  do_lookup-Keeps on (suc fuel) s q h =
      after_walk-Keeps on _ s q h (λ s' k. do_lookup-Keeps on fuel s' q k)

  -- Over any bus, a translation that returns keeps the entries for fetches with translation off plain, and translation
  -- on or off as it is.
  pub translate_addr-Plainly :
      (on : Bool) (fuel : ℕ) (s : Sys mem) (q : Request)
      → Plainly on s.mmu
      → Allows (λ r. Plainly on r.1.mmu) (translate_addr mem fuel s q)
  unfolding translate_addr Keeps
  translate_addr-Plainly on fuel s q h =
      elim (Option-cases (utlb_lookup s.mmu q.ind q.priv q.addr)) [
        | inl miss ↦ rw (miss, translate_addr) (do_lookup-Keeps on fuel s q h)
        | inr (x, found) ↦
            rw (found, translate_addr)
              (check_access-Keeps on q s x.0 x.1 (do_lookup mem fuel s q) h
                (do_lookup-Keeps on fuel s q h))
      ]

  -- Granted, if it ends.
  abbrev pub Grants : Access × Sys mem → Type 0
  Grants (granted pa, s) = Unit
  Grants (denied f, s) = ⊥
  Grants (looping, s) = Unit

  check_access-Grants :
      (q : Request) (s : Sys mem) (pa : ℕ) (p : Perms) (again : Outcome (Access × Sys mem))
      → q.ind ≡ true
      → p.r ≡ true
      → Allows Grants (check_access mem q s pa p again)
  unfolding check_access check_perms
  check_access-Grants q s pa p again h k = rw (h, k) tt

  found-plain :
      (m : Mmu) (q : Request) (pa : ℕ) (p : Perms)
      → q.ind ≡ true
      → Plainly false m
      → utlb_lookup m q.ind q.priv q.addr ≡ some (pa, p)
      → p.r ≡ true
  found-plain m q pa p h (plain, off) e = plain q.priv q.addr pa p (
      subst
        (λ (b : Bool). utlb_lookup (record m { enabled_i = b }) true q.priv q.addr ≡ some (pa, p))
        off (subst (λ (i : Bool). utlb_lookup m i q.priv q.addr ≡ some (pa, p)) h e))

  settle-Grants :
      (again : Sys mem → Outcome (Access × Sys mem)) (q : Request) (l : Lookup) (s : Sys mem)
      → q.ind ≡ true
      → Plainly false s.mmu
      → IsMapped mem l
      → Allows Grants (settle mem again q (l, s))
  unfolding settle
  settle-Grants again q (faulted f) s h k a = absurd a
  settle-Grants again q (mapped out p) s h k a =
      elim (Option-cases (utlb_lookup s.mmu q.ind q.priv q.addr)) [
        | inl miss ↦ rw (miss, settle) tt
        | inr (x, found) ↦
            rw (found, settle)
              (check_access-Grants q s x.0 x.1 (again s) h (found-plain s.mmu q x.0 x.1 h k found))
      ]

  after_walk-Grants :
      (again : Sys mem → Outcome (Access × Sys mem)) (s : Sys mem) (q : Request)
      → q.ind ≡ true
      → Plainly false s.mmu
      → Allows Grants (after_walk mem again s q)
  unfolding after_walk
  after_walk-Grants again s q h k =
      Allows-then (λ r. Fills mem q s.mmu r.1.mmu × IsMapped mem r.0) Grants (translate_ea mem s q)
        (settle mem again q)
        (Allows-and (λ r. Fills mem q s.mmu r.1.mmu) (λ r. IsMapped mem r.0) (translate_ea mem s q)
          (translate_ea-Fills mem s q) (translate_ea-IsMapped mem s q h k.1))
        (λ r f. settle-Grants again q r.0 r.1 h (Fills-Plainly mem q false s.mmu r.1.mmu f.0 k) f.1)

  do_lookup-Grants :
      (fuel : ℕ) (s : Sys mem) (q : Request)
      → q.ind ≡ true
      → Plainly false s.mmu
      → Allows Grants (do_lookup mem fuel s q)
  unfolding do_lookup
  do_lookup-Grants zero s q h k = after_walk-Grants _ s q h k
  do_lookup-Grants (suc fuel) s q h k = after_walk-Grants _ s q h k

  -- A fetch with translation off is never denied, where the entries for such fetches are plain.
  pub translate_addr-Grants :
      (fuel : ℕ) (s : Sys mem) (q : Request)
      → q.ind ≡ true
      → Plainly false s.mmu
      → Allows Grants (translate_addr mem fuel s q)
  unfolding translate_addr
  translate_addr-Grants fuel s q h k = elim (Option-cases (utlb_lookup s.mmu q.ind q.priv q.addr)) [
    | inl miss ↦ rw (miss, translate_addr) (do_lookup-Grants fuel s q h k)
    | inr (x, found) ↦
        rw (found, translate_addr)
          (check_access-Grants q s x.0 x.1 (do_lookup mem fuel s q) h
            (found-plain s.mmu q x.0 x.1 h k found))
  ]
