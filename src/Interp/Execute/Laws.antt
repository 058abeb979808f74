-- ===== src/Interp/Execute/Laws.antt =====
-- The interpreter's fetch ends with an instruction after one fault at most.
use mr_iss.Memory.{Memory}
use mr_iss.Mmu.State.{Mmu, Fault}
use mr_iss.Mmu.Walk.{Sys}
use mr_iss.Mmu.Walk.Laws.{Answers, Reports}
use mr_iss.Mmu.Utlb.Real.{IsPlain, set_irdr-IsPlain}
use mr_iss.Mmu.Translate.Real.{Plainly}
use mr_iss.Mmu.Access.{load_inst32}
use mr_iss.Mmu.Access.Real.{Fetched, load_inst32-Fetched}
use mr_iss.Cpu.State.{is_privileged}
use mr_iss.Cpu.Exceptions.{Core, take_exception, raise_mem_exception, isi}
use mr_iss.Cpu.Exceptions.Laws.{AtHandler, take_exception-AtHandler}
use mr_iss.Interp.Memory.{Machine, cpu_of, sys_of, set_core, set_sys}
use mr_iss.Interp.Execute.{fetched, fetch}
use mr_iss.Base.{
  ℕ, suc, ◌^◌, ◌<◌, ◌≡◌, refl, ◌⊎◌, inl, inr, true, false, Option, some, ◌>>=◌, Yields, Yields-bind,
  Yields-weaken,
}

-- The handler of the fault of a fetch has the translation of fetches off, and the entries stay plain.
raise-Plainly :
    (k : Core) (f : Fault)
    → k.cpu.pc < 2 ^ 32
    → Reports true f
    → IsPlain k.mmu
    → Yields
        (λ a. Plainly false a.mmu × AtHandler k isi a)
        (raise_mem_exception k true true k.cpu.pc f 0)
unfolding raise_mem_exception take_exception
raise-Plainly k Fault.none p h i = absurd h
raise-Plainly k Fault.no_segment p h i = absurd h
raise-Plainly k Fault.align p h i = absurd h
raise-Plainly k Fault.no_page p h i =
    let a = take_exception-AtHandler k isi _ p in
    ((set_irdr-IsPlain k.mmu false _ i, a.inst_off), a)
raise-Plainly k Fault.perms p h i =
    let a = take_exception-AtHandler k isi _ p in
    ((set_irdr-IsPlain k.mmu false _ i, a.inst_off), a)
raise-Plainly k Fault.perms_nx p h i =
    let a = take_exception-AtHandler k isi _ p in
    ((set_irdr-IsPlain k.mmu false _ i, a.inst_off), a)

module _ (mem : Memory) (ans : Answers mem) where
  abbrev mmu_of : Machine mem → Mmu
  mmu_of m = m.interp.core.mmu

  -- An instruction, fetched where the processor was or at the handler of the fetch's fault.
  abbrev pub Gets : Machine mem → Option ℕ × Machine mem → Type 0
  Gets m r =
      ((inst : ℕ) × (r.0 ≡ some inst))
      × IsPlain (mmu_of r.1)
      × ((cpu_of mem r.1 ≡ cpu_of mem m)
          ⊎ ((mmu : Mmu) × (after : Core) × AtHandler (record { cpu = cpu_of mem m; mmu = mmu }) isi
                after
              × (cpu_of mem r.1 ≡ after.cpu)))

  -- With translation off, the first pass has the instruction.
  real-Gets :
      (fuel : ℕ) (m : Machine mem)
      → Plainly false (mmu_of m)
      → Yields
          (λ r.
            ((inst : ℕ) × (r.0 ≡ some inst))
            × IsPlain (mmu_of r.1)
            × (cpu_of mem r.1 ≡ cpu_of mem m))
          (fetch mem (suc fuel) m)
  unfolding fetch fetched
  real-Gets fuel m h =
      Yields-bind (λ l. Fetched false (l.0, l.1, l.2.mmu)) _
        (load_inst32 mem (sys_of mem m) (cpu_of mem m).pc (is_privileged (cpu_of mem m)))
        (fetched mem (fetch mem fuel) m)
        (load_inst32-Fetched mem ans false (sys_of mem m) (cpu_of mem m).pc
          (is_privileged (cpu_of mem m)) h)
        (λ l k. go l.0 l.1 l.2 k)
    where
      go :
          (f : Fault) (o : Option ℕ) (s : Sys mem)
          → Fetched false (f, o, s.mmu)
          → Yields
              (λ r.
                ((inst : ℕ) × (r.0 ≡ some inst))
                × IsPlain (mmu_of r.1)
                × (cpu_of mem r.1 ≡ cpu_of mem m))
              (fetched mem (fetch mem fuel) m (f, o, s))
      go f o s ((plain, _), inl (inst, e, e')) = rw (e, e') ((inst, refl), plain, refl)
      go f o s ((plain, _), inr (e, _)) = absurd (cc e)

  -- Over a bus that answers, from a 32-bit address, where the entries for fetches with translation off allow them, the
  -- fetch of `execute` ends with an instruction after one fault at most: where the processor was, or at the handler of an
  -- instruction storage interrupt. The entries stay so.
  pub fetch-Gets :
      (fuel : ℕ) (m : Machine mem)
      → (cpu_of mem m).pc < 2 ^ 32
      → IsPlain (mmu_of m)
      → Yields (Gets m) (fetch mem (suc (suc fuel)) m)
  unfolding fetch
  fetch-Gets fuel m p h =
      Yields-bind (λ l. Fetched (mmu_of m).enabled_i (l.0, l.1, l.2.mmu)) (Gets m)
        (load_inst32 mem (sys_of mem m) (cpu_of mem m).pc (is_privileged (cpu_of mem m)))
        (fetched mem (fetch mem (suc fuel)) m)
        (load_inst32-Fetched mem ans (mmu_of m).enabled_i (sys_of mem m) (cpu_of mem m).pc
          (is_privileged (cpu_of mem m)) (h, refl))
        (λ l k. first l.0 l.1 l.2 k)
    where
      retried :
          (f : Fault) (s : Sys mem)
          → Reports true f
          → IsPlain s.mmu
          → Yields (Gets m) (
              raise_mem_exception
                (record { cpu = cpu_of mem m; mmu = s.mmu })
                true
                true
                (cpu_of mem m).pc
                f
                0
              >>= λ k. fetch mem (suc fuel) (set_core mem (set_sys mem m s) k))
      retried f s rep plain =
          Yields-bind
            (λ a.
              Plainly false a.mmu × AtHandler (record { cpu = cpu_of mem m; mmu = s.mmu }) isi a)
            (Gets m)
            (raise_mem_exception (record { cpu = cpu_of mem m; mmu = s.mmu }) true true
              (cpu_of mem m).pc f 0)
            (λ k. fetch mem (suc fuel) (set_core mem (set_sys mem m s) k))
            (raise-Plainly (record { cpu = cpu_of mem m; mmu = s.mmu }) f p rep plain)
            (λ a k.
              Yields-weaken _ (Gets m) (fetch mem (suc fuel) (set_core mem (set_sys mem m s) a))
                (λ r g. (g.0, g.1, inr (s.mmu, a, k.1, g.2)))
                (real-Gets fuel (set_core mem (set_sys mem m s) a) k.0))

      jumps :
          (f : Fault) (o : Option ℕ) (s : Sys mem)
          → Reports true f
          → IsPlain s.mmu
          → Yields (Gets m) (fetched mem (fetch mem (suc fuel)) m (f, o, s))
      jumps Fault.none o s rep plain = absurd rep
      jumps Fault.no_page o s rep plain = retried Fault.no_page s rep plain
      jumps Fault.no_segment o s rep plain = absurd rep
      jumps Fault.perms o s rep plain = retried Fault.perms s rep plain
      jumps Fault.perms_nx o s rep plain = retried Fault.perms_nx s rep plain
      jumps Fault.align o s rep plain = absurd rep

      first :
          (f : Fault) (o : Option ℕ) (s : Sys mem)
          → Fetched (mmu_of m).enabled_i (f, o, s.mmu)
          → Yields (Gets m) (fetched mem (fetch mem (suc fuel)) m (f, o, s))
      first f o s ((plain, _), inl (inst, e, e')) = rw (e, e') ((inst, refl), plain, inl refl)
      first f o s ((plain, _), inr (_, rep)) = jumps f o s rep plain
