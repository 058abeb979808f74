-- ===== src/Mmu/Access/Fetch.antt =====
-- The fetch of an instruction returns over a bus that answers.
use mr_iss.Memory.{Memory}
use mr_iss.Mmu.State.{Mmu, Fault, Perms, check_perms}
use mr_iss.Mmu.Utlb.{utlb_lookup}
use mr_iss.Mmu.Walk.{Sys, Request}
use mr_iss.Mmu.Walk.Laws.{Answers}
use mr_iss.Mmu.Translate.{Access, granted, denied, looping}
use mr_iss.Mmu.Translate.Laws.{Settles, translate_addr-Settles, translate_addr-Settled}
use mr_iss.Mmu.Access.{is_direct, translate, read_at32, load_with, load_inst32}
use mr_iss.Base.{ℕ, ◌≡◌, refl, some, done, Bool, true, false, u32, Yields, Yields-bind, Yields-test}

-- The micro-TLB answers an access with the right to it.
abbrev pub Granted : Request → Mmu → Type 0
Granted q m =
    (pa : ℕ) × (p : Perms) × (utlb_lookup m q.ind q.priv q.addr ≡ some (pa, p))
    × (check_perms p q.rnw q.ind ≡ true)

module _ (mem : Memory) (ans : Answers mem) where
  pub translate-Settles :
      (s : Sys mem) (q : Request) → Yields (Settles mem ans q) (translate mem s q)
  unfolding translate
  translate-Settles s q = translate_addr-Settles mem ans 1 s q

  read_at32-Returns : (s : Sys mem) (pa : ℕ) → Yields (λ _. Unit {0}) (read_at32 mem s pa)
  unfolding read_at32
  read_at32-Returns s pa =
      Yields-test (λ _. Unit {0}) (is_direct pa) _ _ (λ _. tt)
        (λ _.
          Yields-bind (λ _. Unit {0}) _ (mem.read32 s.bus (u32 pa)) _ (ans.reads s.bus (u32 pa))
            (λ r _. tt))

  pub load_inst32-Returns :
      (s : Sys mem) (addr : ℕ) (priv : Bool) → Yields (λ _. Unit {0}) (load_inst32 mem s addr priv)
  unfolding load_inst32 load_with
  load_inst32-Returns s addr priv =
      let q : Request = record { addr = addr; ind = true; rnw = true; priv = priv } in
      Yields-bind (Settles mem ans q) (λ _. Unit {0}) (translate mem s q) _ (translate-Settles s q)
        (λ t h. loaded t q h)
    where
      loaded :
          (t : Access × Sys mem) (q : Request)
          → Settles mem ans q t
          → Yields (λ _. Unit {0}) (load_with mem (read_at32 mem) (λ _. false) t)
      loaded (granted pa, s') q h =
          Yields-bind (λ _. Unit {0}) _ (read_at32 mem s' pa) _ (read_at32-Returns s' pa)
            (λ r _. tt)
      loaded (denied f, s') q h = tt
      loaded (looping, s') q h = absurd h

  pub read_at32-mmu : (s : Sys mem) (pa : ℕ) → Yields (λ r. r.1.mmu ≡ s.mmu) (read_at32 mem s pa)
  unfolding read_at32
  read_at32-mmu s pa =
      Yields-test (λ r. r.1.mmu ≡ s.mmu) (is_direct pa) _ _ (λ _. refl)
        (λ _.
          Yields-bind (λ _. Unit {0}) (λ r. r.1.mmu ≡ s.mmu) (mem.read32 s.bus (u32 pa)) _
            (ans.reads s.bus (u32 pa)) (λ r _. refl))

  pub translate-Granted :
      (s : Sys mem) (q : Request)
      → (g : Granted q s.mmu) → translate mem s q ≡ done (granted g.0, s)
  unfolding translate
  translate-Granted s q (pa, p, hit, ok) = translate_addr-Settled mem ans 1 s q pa (p, hit, ok)

  -- The load of an instruction whose fetch is granted has no fault, and keeps the MMU.
  pub load_inst32-Granted :
      (s : Sys mem) (addr : ℕ) (priv : Bool)
      → Granted (record { addr = addr; ind = true; rnw = true; priv = priv }) s.mmu
      → Yields
          (λ l. (inst : ℕ) × (l.0 ≡ Fault.none) × (l.1 ≡ some inst) × (l.2.mmu ≡ s.mmu))
          (load_inst32 mem s addr priv)
  unfolding load_inst32 load_with
  load_inst32-Granted s addr priv g =
      rw (translate-Granted s (record { addr = addr; ind = true; rnw = true; priv = priv }) g) (
        Yields-bind (λ r. r.1.mmu ≡ s.mmu) _ (read_at32 mem s g.0) _ (read_at32-mmu s g.0)
          (λ r kept. (r.0, refl, refl, kept)))
