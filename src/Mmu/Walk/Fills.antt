-- ===== src/Mmu/Walk/Fills.antt =====
-- What `translateEA` does to the MMU: nothing, or one insertion into the micro-TLB.
use mr_iss.Memory.{Memory}
use mr_iss.Mmu.State.{Mmu, Perms, perms_any, Segment, zero_segment}
use mr_iss.Mmu.Bat.{BatResult, miss, hit, match_bat}
use mr_iss.Mmu.Utlb.{utlb_insert}
use mr_iss.Mmu.Walk.{
  Sys, Request, Lookup, mapped, faulted, translate_ea, fill_mapped, utlb_fill, use_pte, page_perms,
  updates_c, probe_pteg, walk_htab, pte_hits, referenced, api_of, touched_pte, after_bat, or_else,
  pte_h, page_address,
}
use mr_iss.Base.{
  ℕ, zero, suc, ◌+◌, ◌*◌, bit_and, ◌≡◌, refl, sym, ap₂, subst, ◌⊎◌, inl, inr, Bool, true, false,
  not, ◌&&◌, ◌||◌, Option, none, some, arith, if◌then◌else◌, get_or, u32, ◌>>>◌, Allows,
  Allows-bind, Allows-test, Outcome, done,
}
use mr_iss.Base.{Allows-then}
use mr_iss.Mmu.State.{Fault}

first_false : (a b : Bool) → (a || b) ≡ false → a ≡ false
first_false a b h = ground arith

not_off :
    (q : Request) (m : Mmu) (p : Perms)
    → (q.ind && not m.enabled_i) ≡ false
    → q.ind ≡ true
    → m.enabled_i ≡ false
    → p ≡ perms_any
not_off q m p h a b = absurd (cc (h, ap₂ (λ x y. x && not y) a b))

module _ (mem : Memory) where
  -- The MMU after a walk, from the one before it. With the translation of fetches off, a fetch inserts all permissions.
  abbrev pub Fills : Request → Mmu → Mmu → Type 0
  Fills q m m' =
      (m' ≡ m)
      ⊎ ((out : ℕ) × (direct : Option ℕ) × (p : Perms) × (m'
            ≡ utlb_insert m q.ind q.priv q.addr out direct p)
          × (q.ind ≡ true → m.enabled_i ≡ false → p ≡ perms_any))

  fill_mapped-Fills :
      (s : Sys mem) (q : Request) (out : ℕ) (p : Perms)
      → (q.ind ≡ true → s.mmu.enabled_i ≡ false → p ≡ perms_any)
      → Allows (λ r. Fills q s.mmu r.1.mmu) (fill_mapped mem s q out p)
  unfolding fill_mapped utlb_fill
  fill_mapped-Fills s q out p h =
      Allows-then (λ s'. Fills q s.mmu s'.mmu) (λ r. Fills q s.mmu r.1.mmu)
        (utlb_fill mem s q out p) _
        (Allows-bind (λ s'. Fills q s.mmu s'.mmu) (mem.get_direct_map s.bus out) _
          (λ r e. inr (out, r.0, p, refl, h)))
        (λ s' f. f)

  use_pte-Fills :
      (s : Sys mem) (q : Request) (sr : Segment) (pte_pa : ℕ)
      → (q.ind && not s.mmu.enabled_i) ≡ false
      → Allows (λ r. Fills q s.mmu r.1.mmu) (use_pte mem s q sr pte_pa)
  unfolding use_pte
  use_pte-Fills s q sr pte_pa h =
      Allows-bind (λ r. Fills q s.mmu r.1.mmu) (mem.read32 s.bus (u32 (pte_pa + 4))) _
        (λ r e.
          let pteh : ℕ = mem.htonl r.0 in
          let p : Perms = page_perms sr q pteh in
          let written : Outcome mem.World =
            (if not (referenced pteh) || updates_c sr q pteh
              then mem.write32 r.1 (u32 (pte_pa + 4)) (mem.htonl (touched_pte sr q pteh))
              else done r.1) in
          Allows-bind (λ r. Fills q s.mmu r.1.mmu) written
            (λ w'. fill_mapped mem (record s { bus = w' }) q (page_address q.addr pteh) p)
            (λ w' e'.
              fill_mapped-Fills (record s { bus = w' }) q (page_address q.addr pteh) p
                (not_off q s.mmu p h)))

  -- A miss in a group leaves the MMU.
  abbrev Probes : Request → Mmu → Option Lookup × Sys mem → Type 0
  Probes q m (none, s) = s.mmu ≡ m
  Probes q m (some l, s) = Fills q m s.mmu

  probe_pteg-Fills :
      (left pte : ℕ) (s : Sys mem) (q : Request) (sr : Segment) (pteg want_h : ℕ)
      → (q.ind && not s.mmu.enabled_i) ≡ false
      → Allows (Probes q s.mmu) (probe_pteg mem left pte s q sr pteg want_h)
  unfolding probe_pteg
  probe_pteg-Fills zero pte s q sr pteg want_h h = refl
  probe_pteg-Fills (suc left) pte s q sr pteg want_h h =
      Allows-bind (Probes q s.mmu) (mem.read32 s.bus (u32 (pteg + pte * 8))) _ (λ r e.
        Allows-test (Probes q s.mmu) (pte_hits sr (api_of q.addr) want_h (mem.htonl r.0)) _ _
          (λ _.
            Allows-then (λ a. Fills q s.mmu a.1.mmu) (Probes q s.mmu)
              (use_pte mem (record s { bus = r.1 }) q sr (u32 (pteg + pte * 8))) _
              (use_pte-Fills (record s { bus = r.1 }) q sr _ h) (λ a f. f))
          (λ _. probe_pteg-Fills left (pte + 1) (record s { bus = r.1 }) q sr pteg want_h h))

  or_else-Fills :
      (q : Request) (m : Mmu) (a : Option Lookup × Sys mem)
      (next : Sys mem → Outcome (Lookup × Sys mem))
      → Probes q m a
      → ((s : Sys mem) → s.mmu ≡ m → Allows (λ r. Fills q m r.1.mmu) (next s))
      → Allows (λ r. Fills q m r.1.mmu) (or_else mem a next)
  or_else-Fills q m (some l, s) next h k = h
  or_else-Fills q m (none, s) next h k = k s h

  probe-Fills :
      (m : Mmu) (s : Sys mem) (q : Request) (sr : Segment) (pteg want_h : ℕ)
      → s.mmu ≡ m
      → (q.ind && not m.enabled_i) ≡ false
      → Allows (Probes q m) (probe_pteg mem 8 0 s q sr pteg want_h)
  probe-Fills m s q sr pteg want_h e h =
      subst (λ (m : Mmu). Allows (Probes q m) (probe_pteg mem 8 0 s q sr pteg want_h)) e
        (probe_pteg-Fills 8 0 s q sr pteg want_h
          (subst (λ (m : Mmu). (q.ind && not m.enabled_i) ≡ false) (sym e) h))

  walk_htab-Fills :
      (s : Sys mem) (q : Request) (sr : Segment)
      → (q.ind && not s.mmu.enabled_i) ≡ false
      → Allows (λ r. Fills q s.mmu r.1.mmu) (walk_htab mem s q sr)
  unfolding walk_htab
  walk_htab-Fills s q sr h =
      Allows-then (Probes q s.mmu) (λ r. Fills q s.mmu r.1.mmu) _ _
        (probe-Fills s.mmu s q sr _ 0 refl h)
        (λ a p. or_else-Fills q s.mmu a _ p (λ s' e.
          Allows-then (Probes q s.mmu) (λ r. Fills q s.mmu r.1.mmu) _ _
            (probe-Fills s.mmu s' q sr _ pte_h e h)
            (λ b p'. or_else-Fills q s.mmu b _ p' (λ s'' e'. inl e'))))

  after_bat-Fills :
      (r : BatResult) (s : Sys mem) (q : Request)
      → (q.ind && not s.mmu.enabled_i) ≡ false
      → Allows (λ x. Fills q s.mmu x.1.mmu) (after_bat mem r s q)
  unfolding after_bat
  after_bat-Fills (hit none p) s q h = inl refl
  after_bat-Fills (hit (some pa) p) s q h =
      Allows-test (λ x. Fills q s.mmu x.1.mmu) (not p.r && not p.w) _ _ (λ _. inl refl)
        (λ _. fill_mapped-Fills s q pa p (not_off q s.mmu p h))
  after_bat-Fills miss s q h =
      let sr : Segment = get_or s.mmu.segreg (bit_and (q.addr >>> 28) 0xf) zero_segment in
      Allows-test (λ x. Fills q s.mmu x.1.mmu) (q.ind && sr.n) (done (faulted Fault.perms_nx, s))
        (walk_htab mem s q sr) (λ _. inl refl) (λ _. walk_htab-Fills s q sr h)

  pub translate_ea-Fills :
      (s : Sys mem) (q : Request) → Allows (λ r. Fills q s.mmu r.1.mmu) (translate_ea mem s q)
  unfolding translate_ea
  translate_ea-Fills s q =
      let off_i : Bool = q.ind && not s.mmu.enabled_i in
      let off_d : Bool = not q.ind && not s.mmu.enabled_d in
      Allows-test (λ r. Fills q s.mmu r.1.mmu) (off_i || off_d)
        (fill_mapped mem s q q.addr perms_any)
        (after_bat mem (match_bat s.mmu q.addr q.ind q.priv) s q)
        (λ _. fill_mapped-Fills s q q.addr perms_any (λ _ _. refl))
        (λ e. after_bat-Fills (match_bat s.mmu q.addr q.ind q.priv) s q (first_false off_i off_d e))

  -- With the translation of fetches off a walk for a fetch maps it.
  abbrev pub IsMapped : Lookup → Type 0
  IsMapped (mapped out p) = Unit
  IsMapped (faulted f) = ⊥

  pub translate_ea-IsMapped :
      (s : Sys mem) (q : Request)
      → q.ind ≡ true
      → s.mmu.enabled_i ≡ false
      → Allows (λ r. IsMapped r.0) (translate_ea mem s q)
  unfolding translate_ea fill_mapped
  translate_ea-IsMapped s q h k =
      let off_i : Bool = q.ind && not s.mmu.enabled_i in
      let off_d : Bool = not q.ind && not s.mmu.enabled_d in
      Allows-test (λ r. IsMapped r.0) (off_i || off_d) (fill_mapped mem s q q.addr perms_any)
        (after_bat mem (match_bat s.mmu q.addr q.ind q.priv) s q)
        (λ _.
          Allows-bind (λ r. IsMapped r.0) (utlb_fill mem s q q.addr perms_any)
            (λ s'. done (mapped q.addr perms_any, s')) (λ s' e. tt))
        (λ e. absurd (cc (first_false off_i off_d e, ap₂ (λ x y. x && not y) h k)))
