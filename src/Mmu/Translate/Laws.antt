-- ===== src/Mmu/Translate/Laws.antt =====
-- Over a bus that answers, `translateAddr` ends after at most one walk, hits in the micro-TLB that
-- the walk filled, and grants only accesses that the permissions allow.
use mr_iss.Base.{
  ℕ, zero, suc, ◌≡◌, ◌⊎◌, inl, inr, Bool, true, false, some, if◌then◌else◌, Bool-cases,
  Option-cases, Yields, Yields-bind, Outcome, done, refl,
}
use mr_iss.Memory.{Memory}
use mr_iss.Mmu.State.{Fault, Perms, check_perms, check_fault_was_cleanliness}
use mr_iss.Mmu.Utlb.{utlb_lookup}
use mr_iss.Mmu.Utlb.Laws.{translation}
use mr_iss.Mmu.Walk.{Sys, Request, Lookup, mapped, faulted, translate_ea}
use mr_iss.Mmu.Walk.Laws.{Answers, Settled, Walked, Reports, translate_ea-Walked}
use mr_iss.Mmu.Translate.{
  Access, granted, denied, looping, check_access, after_walk, do_lookup, translate_addr, settle,
}

module _ (mem : Memory) (ans : Answers mem) where
  -- An access is granted only with permissions that allow it, and a walk is never asked for twice.
  abbrev pub Settles : Request → Access × Sys mem → Type 0
  Settles q (granted pa, s) =
      (p : Perms) × (utlb_lookup s.mmu q.ind q.priv q.addr ≡ some (pa, p))
      × (check_perms p q.rnw q.ind ≡ true)
  Settles q (denied f, s) = Reports q.ind f
  Settles q (looping, s) = ⊥

  check_access-Settles :
      (q : Request) (s : Sys mem) (pa : ℕ) (p : Perms) (again : Outcome (Access × Sys mem))
      → utlb_lookup s.mmu q.ind q.priv q.addr ≡ some (pa, p)
      → (Settled q p) ⊎ (Yields (Settles q) again)
      → Yields (Settles q) (check_access mem q s pa p again)
  unfolding check_access
  check_access-Settles q s pa p again found next = elim (Bool-cases (check_perms p q.rnw q.ind)) [
    | inl e ↦ rw e (p, found, e)
    | inr e ↦ rw e (elim (Bool-cases (check_fault_was_cleanliness p q.rnw q.ind)) [
      | inl dirty ↦ rw dirty (elim next [ inl ok ↦ absurd (cc) | inr y ↦ y ])
      | inr ok ↦ rw ok tt
    ])
  ]

  settle-Settles :
      (again : Sys mem → Outcome (Access × Sys mem)) (q : Request) (r : Lookup × Sys mem)
      → Walked mem ans q r
      → Yields (Settles q) (settle mem again q r)
  unfolding settle
  settle-Settles again q (faulted f, s) w = w
  settle-Settles again q (mapped out p, s) w =
      rw (w.1, settle)
        (check_access-Settles q s (translation out w.0 q.addr) p (again s) w.1 (inl w.2))

  after_walk-Settles :
      (again : Sys mem → Outcome (Access × Sys mem)) (s : Sys mem) (q : Request)
      → Yields (Settles q) (after_walk mem again s q)
  unfolding after_walk
  after_walk-Settles again s q =
      Yields-bind (Walked mem ans q) (Settles q) (translate_ea mem s q) _
        (translate_ea-Walked mem ans s q) (settle-Settles again q)

  do_lookup-Settles :
      (fuel : ℕ) (s : Sys mem) (q : Request) → Yields (Settles q) (do_lookup mem fuel s q)
  unfolding do_lookup
  do_lookup-Settles zero s q = after_walk-Settles _ s q
  do_lookup-Settles (suc fuel) s q = after_walk-Settles _ s q

  -- Over a bus that answers, `translateAddr` returns whatever fuel it has, with no fuel too: the jump
  -- back to the walk is taken once at most and the micro-TLB hits after it. An access is granted only
  -- where the micro-TLB then holds permissions that allow it: `r` for a load or a fetch, and for a
  -- store `w` on a page whose C bit is set. A denied access reports a missing page, the permissions or, for a fetch only,
  -- a segment without execution.
  pub translate_addr-Settles :
      (fuel : ℕ) (s : Sys mem) (q : Request) → Yields (Settles q) (translate_addr mem fuel s q)
  unfolding translate_addr
  translate_addr-Settles fuel s q = elim (Option-cases (utlb_lookup s.mmu q.ind q.priv q.addr)) [
    | inl miss ↦ rw (miss, translate_addr) (do_lookup-Settles fuel s q)
    | inr (e, found) ↦
        rw (found, translate_addr)
          (check_access-Settles q s e.0 e.1 (do_lookup mem fuel s q) found
            (inr (do_lookup-Settles fuel s q)))
  ]

  -- What the micro-TLB answers with the right to it is granted at once, and nothing changes.
  pub translate_addr-Settled :
      (fuel : ℕ) (s : Sys mem) (q : Request) (pa : ℕ)
      → Settles q (granted pa, s)
      → translate_addr mem fuel s q ≡ done (granted pa, s)
  unfolding translate_addr check_access
  translate_addr-Settled fuel s q pa (p, found, allowed) = rw (found, translate_addr, allowed) refl

  -- A load of a page that the micro-TLB has is decided by the right to read it.
  pub translate_addr-hit :
      (fuel : ℕ) (s : Sys mem) (addr pa : ℕ) (priv : Bool) (p : Perms)
      → utlb_lookup s.mmu false priv addr ≡ some (pa, p)
      → translate_addr mem fuel s (record { addr = addr; ind = false; rnw = true; priv = priv })
        ≡ done (if p.r then granted pa else denied Fault.perms, s)
  unfolding translate_addr check_access check_perms check_fault_was_cleanliness
  translate_addr-hit fuel s addr pa priv p hit = elim (Bool-cases p.r) [
    | inl e ↦ rw (hit, translate_addr, e) refl
    | inr e ↦ rw (hit, translate_addr, e) refl
  ]
