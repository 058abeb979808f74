-- ===== src/Mmu/Access/Real.antt =====
-- The fetch of an instruction, with translation on or off.
use mr_iss.Memory.{Memory}
use mr_iss.Mmu.State.{Mmu, Fault}
use mr_iss.Mmu.Walk.{Sys, Request}
use mr_iss.Mmu.Walk.Laws.{Answers, Reports}
use mr_iss.Mmu.Translate.{Access, granted, denied, looping}
use mr_iss.Mmu.Translate.Laws.{Settles}
use mr_iss.Mmu.Translate.Real.{Plainly, Grants, translate_addr-Plainly, translate_addr-Grants}
use mr_iss.Mmu.Access.{translate, read_at32, load_with, load_inst32}
use mr_iss.Mmu.Access.Fetch.{translate-Settles, read_at32-mmu}
use mr_iss.Base.{
  ℕ, ◌≡◌, refl, sym, subst, ◌⊎◌, inl, inr, Bool, true, false, Option, some, Yields, Yields-bind,
  Allows, Allows-map, Yields-and, Allows-and, Allows-always,
}

-- An instruction, or, with translation on, a fault that may be reported; the MMU's entries stay plain.
abbrev pub Fetched : Bool → Fault × Option ℕ × Mmu → Type 0
Fetched on (f, o, m) =
    Plainly on m
    × (((inst : ℕ) × (f ≡ Fault.none) × (o ≡ some inst)) ⊎ ((on ≡ true) × Reports true f))

module _ (mem : Memory) (ans : Answers mem) where
  GrantsIf : Bool → Access × Sys mem → Type 0
  GrantsIf on t = on ≡ false → Grants mem t

  translate-GrantsIf :
      (on : Bool) (s : Sys mem) (q : Request)
      → q.ind ≡ true
      → Plainly on s.mmu
      → Allows (GrantsIf on) (translate mem s q)
  unfolding translate GrantsIf
  translate-GrantsIf true s q h k = Allows-always _ (translate mem s q) (λ a e. absurd (cc e))
  translate-GrantsIf false s q h k =
      Allows-map (Grants mem) (GrantsIf false) (translate mem s q) (λ a g e. g)
        (translate_addr-Grants mem 1 s q h k)

  -- Over a bus that answers, where the entries for fetches with translation off are plain, the fetch of an instruction
  -- returns, with a fault only if translation is on.
  pub load_inst32-Fetched :
      (on : Bool) (s : Sys mem) (addr : ℕ) (priv : Bool)
      → Plainly on s.mmu
      → Yields (λ l. Fetched on (l.0, l.1, l.2.mmu)) (load_inst32 mem s addr priv)
  unfolding load_inst32 load_with translate GrantsIf
  load_inst32-Fetched on s addr priv h =
      Yields-bind (λ t. Settles mem ans q t × (Plainly on t.1.mmu × GrantsIf on t))
        (λ l. Fetched on (l.0, l.1, l.2.mmu)) (translate mem s q)
        (load_with mem (read_at32 mem) (λ _. false))
        (Yields-and (Settles mem ans q) (λ t. Plainly on t.1.mmu × GrantsIf on t)
          (translate mem s q) (translate-Settles mem ans s q)
          (Allows-and (λ t. Plainly on t.1.mmu) (GrantsIf on) (translate mem s q)
            (translate_addr-Plainly mem on 1 s q h) (translate-GrantsIf on s q refl h)))
        (λ t k. loaded t.0 t.1 k.0 k.1.0 k.1.1)
    where
      q : Request
      q = record { addr = addr; ind = true; rnw = true; priv = priv }

      loaded :
          (a : Access) (s' : Sys mem)
          → Settles mem ans q (a, s')
          → Plainly on s'.mmu
          → GrantsIf on (a, s')
          → Yields
              (λ l. Fetched on (l.0, l.1, l.2.mmu))
              (load_with mem (read_at32 mem) (λ _. false) (a, s'))
      loaded (granted pa) s' h p g =
          Yields-bind (λ r. r.1.mmu ≡ s'.mmu) (λ l. Fetched on (l.0, l.1, l.2.mmu))
            (read_at32 mem s' pa) _ (read_at32-mmu mem ans s' pa)
            (λ r e. (subst (Plainly on) (sym e) p, inl (r.0, refl, refl)))
      loaded (denied f) s' h p g = (p, inr (denied_on on g, h))
        where
          denied_on : (b : Bool) → GrantsIf b (denied f, s') → b ≡ true
          denied_on true g = refl
          denied_on false g = absurd (g refl)
      loaded looping s' h p g = absurd h
