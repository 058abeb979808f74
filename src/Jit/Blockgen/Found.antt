-- ===== src/Jit/Blockgen/Found.antt =====
-- `createBlock` (blockgen.cc) where the counter's fetch is granted, as it is after findBlock: it makes a block.
use mr_iss.Memory.{Memory}
use mr_iss.Mmu.State.{Fault}
use mr_iss.Mmu.Walk.{Sys, Request}
use mr_iss.Mmu.Walk.Laws.{Answers}
use mr_iss.Mmu.Access.{load_inst32}
use mr_iss.Mmu.Access.Fetch.{Granted, translate-Granted, load_inst32-Granted}
use mr_iss.Cpu.State.{Cpu, is_privileged}
use mr_iss.Jit.Blockstore.{Block, Blockstore, reset_blockstore, alloc_block}
use mr_iss.Jit.Emit.{Site}
use mr_iss.Jit.Blockgen.{
  Jit, Created, faulted, created, starved, got, translated, first_loaded, attempt, create_block,
}
use mr_iss.Jit.Blockgen.Retry.{Retries, fill_block-Answers, fresh-Retries, second-Retries, retry}
use mr_iss.Base.{ℕ, ◌≡◌, refl, sym, subst, Option, some, u32, true, Yields, Yields-bind, Outcome}

-- The fetch of the counter.
abbrev pub fetch_of : Cpu → Request
fetch_of c = record { addr = c.pc; ind = true; rnw = true; priv = is_privileged c }

-- A store that was emptied.
abbrev pub IsFresh : Jit → Type 0
IsFresh jit = (t : Blockstore) × (jit.store ≡ reset_blockstore t)

module _ (mem : Memory) (ans : Answers mem) (decode : ℕ → Option (Site × ℕ))
    (op_unk buffer : ℕ) where
  -- A block, or, after a retry, a fault with the store emptied.
  abbrev pub Makes : Created × Jit × Sys mem → Type 0
  Makes (created b, jit, s) = Unit
  Makes (faulted, jit, s) = IsFresh jit
  Makes (starved, jit, s) = ⊥

  abbrev pub IsMade : Created × Jit × Sys mem → Type 0
  IsMade (created b, jit, s) = Unit
  IsMade _ = ⊥

  module _ (P : Created × Jit × Sys mem → Type 0)
      (made : (b : Block) (jit : Jit) (s : Sys mem) → P (created b, jit, s))
      (again : Jit → Sys mem → Outcome (Created × Jit × Sys mem)) (jit : Jit) (cpu : Cpu)
      (more : (pa : ℕ)
        → Retries mem ans decode op_unk buffer P made again
            (alloc_block jit.store cpu.pc pa cpu.msr).1) where
    first_loaded-Granted :
        (inst : ℕ) (s : Sys mem)
        → Granted (fetch_of cpu) s.mmu
        → Yields P (first_loaded mem decode op_unk buffer again jit cpu (some inst) s)
    unfolding first_loaded translated
    first_loaded-Granted inst s g = rw (translate-Granted mem ans s (fetch_of cpu) g) (
        fill_block-Answers mem ans decode op_unk buffer P made again jit cpu (u32 g.0) inst s
          (more (u32 g.0)))

    loaded-Granted :
        (f : Fault) (o : Option ℕ) (s : Sys mem) (inst : ℕ)
        → f ≡ Fault.none
        → o ≡ some inst
        → Granted (fetch_of cpu) s.mmu
        → Yields P (first_loaded mem decode op_unk buffer again jit cpu (got f o) s)
    loaded-Granted f o s inst e e' g = rw (e, e') (first_loaded-Granted inst s g)

    attempt-Granted :
        (sys : Sys mem)
        → Granted (fetch_of cpu) sys.mmu
        → Yields P (attempt mem decode op_unk buffer again jit sys cpu)
    unfolding attempt
    attempt-Granted sys g =
        Yields-bind _ P (load_inst32 mem sys cpu.pc (is_privileged cpu)) _
          (load_inst32-Granted mem ans sys cpu.pc (is_privileged cpu) g)
          (λ l h.
            loaded-Granted l.0 l.1 l.2 h.0 h.1 h.2 (subst (Granted (fetch_of cpu)) (sym h.3) g))

  pub create_block-Makes :
      (jit : Jit) (sys : Sys mem) (cpu : Cpu)
      → Granted (fetch_of cpu) sys.mmu
      → Yields Makes (create_block mem decode op_unk buffer 2 jit sys cpu)
  unfolding create_block
  create_block-Makes jit sys cpu g =
      attempt-Granted Makes (λ b j s. tt) (retry mem ans decode op_unk buffer cpu 1) jit cpu
        (λ pa.
          second-Retries mem ans decode op_unk buffer Makes (λ b j s. tt) cpu 0
            (alloc_block jit.store cpu.pc pa cpu.msr).1 (λ store code s. (store, refl)))
        sys g

  pub create_block-IsMade :
      (jit : Jit) (sys : Sys mem) (cpu : Cpu)
      → IsFresh jit
      → Granted (fetch_of cpu) sys.mmu
      → Yields IsMade (create_block mem decode op_unk buffer 2 jit sys cpu)
  unfolding create_block
  create_block-IsMade jit sys cpu (t, e) g =
      attempt-Granted IsMade (λ b j s. tt) (retry mem ans decode op_unk buffer cpu 1) jit cpu
        (λ pa.
          subst
            (λ (store : Blockstore).
              Retries mem ans decode op_unk buffer IsMade (λ b j s. tt)
                (retry mem ans decode op_unk buffer cpu 1) (alloc_block store cpu.pc pa cpu.msr).1)
            (sym e)
            (fresh-Retries mem ans decode op_unk buffer IsMade (λ b j s. tt)
              (retry mem ans decode op_unk buffer cpu 1) t cpu.pc pa cpu.msr))
        sys g
