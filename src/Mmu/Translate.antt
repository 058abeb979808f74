-- ===== src/Mmu/Translate.antt =====
-- `PPCMMU::translateAddr` (PPCMMU.h): the micro-TLB first, then the walk, and the walk once more for
-- a store to a page that was entered clean.
pub mod Laws
pub mod Real
use mr_iss.Base.{ℕ, zero, suc, none, some, if◌then◌else◌, ◌>>=◌, Outcome, done, fatal}
use mr_iss.Memory.{Memory}
use mr_iss.Mmu.State.{Fault, Perms, check_perms, check_fault_was_cleanliness}
use mr_iss.Mmu.Utlb.{utlb_lookup}
use mr_iss.Mmu.Walk.{Sys, Request, Lookup, mapped, faulted, translate_ea}

-- True with an address, false with a fault. `looping` is a `goto do_lookup` with no fuel left.
pub data Access : Type 0 where
  granted : ℕ → Access
  denied : Fault → Access
  looping : Access

module _ (mem : Memory) where
  -- From the permission check on. `again` is the `goto do_lookup`.
  pub check_access :
      Request → Sys mem → ℕ → Perms → Outcome (Access × Sys mem) → Outcome (Access × Sys mem)
  check_access q s pa perms again =
      if check_perms perms q.rnw q.ind
      then done (granted pa, s)
      else if check_fault_was_cleanliness perms q.rnw q.ind
      then again
      else done (denied Fault.perms, s)

  -- With the answer of the walk. "TLB miss after insert" is fatal.
  pub settle :
      (Sys mem → Outcome (Access × Sys mem))
      → Request
      → Lookup × Sys mem
      → Outcome (Access × Sys mem)
  unfolding check_access
  settle again q (faulted f, s) = done (denied f, s)
  settle again q (mapped out perms, s) = elim (utlb_lookup s.mmu q.ind q.priv q.addr) [
    | none ↦ fatal
    | some (pa, perms') ↦ check_access q s pa perms' (again s)
  ]

  pub after_walk :
      (Sys mem → Outcome (Access × Sys mem)) → Sys mem → Request → Outcome (Access × Sys mem)
  unfolding settle
  after_walk again s q = do r ← translate_ea mem s q; settle again q r

  -- From `do_lookup` on, with fuel for that many more jumps back to it.
  pub do_lookup : ℕ → Sys mem → Request → Outcome (Access × Sys mem)
  unfolding after_walk
  do_lookup zero s q = after_walk (λ s'. done (looping, s')) s q
  do_lookup (suc fuel) s q = after_walk (λ s'. do_lookup fuel s' q) s q

  unfoldable pub translate_addr : ℕ → Sys mem → Request → Outcome (Access × Sys mem)
  unfolding do_lookup check_access
  translate_addr fuel s q = elim (utlb_lookup s.mmu q.ind q.priv q.addr) [
    | none ↦ do_lookup fuel s q
    | some (pa, perms) ↦ check_access q s pa perms (do_lookup fuel s q)
  ]
