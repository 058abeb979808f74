-- ===== src/Jit/Runloop/Laws.antt =====
-- A round of the JIT's loop (runloop.cc) always gets on: with a block that it finds or makes, or with a fault.
use mr_iss.Memory.{Memory}
use mr_iss.Mmu.State.{Mmu, Fault}
use mr_iss.Mmu.Walk.{Sys}
use mr_iss.Mmu.Walk.Laws.{Answers, Reports}
use mr_iss.Mmu.Access.Fetch.{Granted}
use mr_iss.Cpu.State.{Cpu}
use mr_iss.Jit.Blockstore.{Block, Blockstore, find_block_fast}
use mr_iss.Cpu.Exceptions.{Core, irq, decrementer, raise_mem_exception}
use mr_iss.Cpu.Exceptions.Laws.{
  AtHandler, Delivers, exception_of, take_exception-AtHandler, raise_mem_exception-Delivers,
}
use mr_iss.Cpu.State.{is_irq_pending, is_decrementer_pending}
use mr_iss.Cpu.Loop.{Delivered}
use mr_iss.Jit.Blockgen.{Created, faulted, created, starved, create_block, Jit}
use mr_iss.Jit.Blockgen.Found.{
  fetch_of, IsFresh, Makes, IsMade, create_block-Makes, create_block-IsMade,
}
use mr_iss.Jit.Runloop.{Exit, restarted, ran, run_next, round}
use mr_iss.Jit.Runloop.{
  Next, run_block, take_fault, stuck, made, looked, next_block, Sim, core, after_ticks, after_block,
}
use mr_iss.Base.{
  ℕ, suc, ◌^◌, ◌<◌, ◌≡◌, ◌∙◌, subst, sym, refl, ◌>>=◌, ◌⊎◌, inl, inr, true, Option, none, some,
  Bool-cases, Yields, Yields-bind, Outcome, done, fatal,
}
use mr_iss.Cpu.Exceptions.{raise_irq_exception}
use mr_iss.Cpu.Exceptions.{raise_dec_exception}
use mr_iss.Cpu.State.{cpu_tick}
use mr_iss.Jit.Runloop.{Site}
use mr_iss.Base.{suc}
use mr_iss.Jit.Runloop.Lookup.{Looked, find_block_fast-Looked}

first_Yields :
    {A : Type 0} (P Q : A → Type 0) (m : Outcome A) → Yields (λ a. P a × Q a) m → Yields P m
first_Yields P Q (done a) h = h.0
first_Yields P Q fatal h = h

delivers : (f : Fault) → Reports true f → Delivers true f
delivers Fault.none h = absurd h
delivers Fault.no_page h = tt
delivers Fault.no_segment h = absurd h
delivers Fault.perms h = tt
delivers Fault.perms_nx h = refl
delivers Fault.align h = absurd h

module _ (mem : Memory) (ans : Answers mem) where
  -- A fault that findBlock reports is one that the loop can raise: at the handler of the storage interrupt.
  fault_raised :
      (k : Core) (f : Fault)
      → Reports true f
      → k.cpu.pc < 2 ^ 32
      → Yields (AtHandler k (exception_of true f)) (raise_mem_exception k true true k.cpu.pc f 0)
  fault_raised k f h p =
      first_Yields (AtHandler k (exception_of true f)) _
        (raise_mem_exception k true true k.cpu.pc f 0)
        (raise_mem_exception-Delivers k true true k.cpu.pc f 0 p (delivers f h))

  -- After a block that has returned, the pending interrupt is taken, the external one first, or none was pending.
  after_block-Delivered :
      (limit n : ℕ) (s : Sim mem)
      → s.cpu.pc < 2 ^ 32
      → Delivered (after_ticks mem s n) (core mem (after_block mem limit s n).1)
  unfolding after_block raise_irq_exception raise_dec_exception
  after_block-Delivered limit n s h =
      let k = after_ticks mem s n in
      elim (Bool-cases (is_irq_pending k.cpu)) [
        | inl e ↦ inl (e, rw e (take_exception-AtHandler k irq k.cpu.msr (unfold cpu_tick in h)))
        | inr e ↦ elim (Bool-cases (is_decrementer_pending k.cpu)) [
          | inl f ↦ inr (
              inl (
                e,
                f,
                rw (e, f) (take_exception-AtHandler k decrementer k.cpu.msr (unfold cpu_tick in h)),
              ))
          | inr f ↦ inr (inr (e, f, rw (e, f) refl))
        ]
      ]

module _ (mem : Memory) (ans : Answers mem) (decode : ℕ → Option (Site × ℕ))
    (op_unk buffer : ℕ) where
  -- The loop has a block to run, or a fault that it can raise, at the same state of the processor.
  abbrev IsNext : Sim mem → Next × Sim mem → Type 0
  IsNext s (run_block b, s') = s'.cpu ≡ s.cpu
  IsNext s (take_fault f, s') = Reports true f × (s'.cpu ≡ s.cpu)
  IsNext s (stuck, s') = ⊥

  looked-IsNext :
      (again : Sim mem → Outcome (Next × Sim mem)) (s : Sim mem)
      (r : Option Block × Fault × Blockstore × Sys mem)
      → Looked s.cpu s.jit.store (r.0, r.1, r.2, r.3.mmu)
      → (Granted (fetch_of s.cpu) r.3.mmu
          → r.2 ≡ s.jit.store
          → Yields (IsNext s) (
              create_block mem decode op_unk buffer 2 (record s.jit { store = r.2 }) r.3 s.cpu
              >>= made mem decode op_unk buffer again s))
      → Yields (IsNext s) (looked mem decode op_unk buffer again s r)
  unfolding looked
  looked-IsNext again s (some b, f, store, sys) h k = refl
  looked-IsNext again s (none, Fault.none, store, sys) h k = k h.0 h.1
  looked-IsNext again s (none, Fault.no_page, store, sys) h k = (h, refl)
  looked-IsNext again s (none, Fault.no_segment, store, sys) h k = (h, refl)
  looked-IsNext again s (none, Fault.perms, store, sys) h k = (h, refl)
  looked-IsNext again s (none, Fault.perms_nx, store, sys) h k = (h, refl)
  looked-IsNext again s (none, Fault.align, store, sys) h k = (h, refl)

  -- With an emptied store a block is made at once.
  fresh-IsNext :
      (fuel : ℕ) (s : Sim mem)
      → IsFresh s.jit
      → Yields (IsNext s) (next_block mem decode op_unk buffer (suc fuel) s)
  unfolding next_block made
  fresh-IsNext fuel s (t, e) =
      Yields-bind (λ r. Looked s.cpu s.jit.store (r.0, r.1, r.2, r.3.mmu)) (IsNext s)
        (find_block_fast mem s.jit.store s.sys s.cpu Fault.none) _
        (find_block_fast-Looked mem ans s.jit.store s.sys s.cpu Fault.none)
        (λ r h. looked-IsNext (next_block mem decode op_unk buffer fuel) s r h (λ g kept.
          Yields-bind (IsMade mem ans decode op_unk buffer) (IsNext s)
            (create_block mem decode op_unk buffer 2 (record s.jit { store = r.2 }) r.3 s.cpu) _
            (create_block-IsMade mem ans decode op_unk buffer (record s.jit { store = r.2 }) r.3
              s.cpu (t, kept ∙ e) g)
            (λ c m. block_made c m)))
    where
      block_made :
          (c : Created × Jit × Sys mem)
          → IsMade mem ans decode op_unk buffer c
          → Yields
              (IsNext s)
              (made mem decode op_unk buffer (next_block mem decode op_unk buffer fuel) s c)
      block_made (created b, jit, sys) h = refl
      block_made (faulted, jit, sys) h = absurd h
      block_made (starved, jit, sys) h = absurd h

  -- From the `find_block` label the loop comes in two passes at most to a block, or to a fault that it can raise.
  next_block-IsNext :
      (fuel : ℕ) (s : Sim mem)
      → Yields (IsNext s) (next_block mem decode op_unk buffer (suc (suc fuel)) s)
  unfolding next_block made
  next_block-IsNext fuel s =
      Yields-bind (λ r. Looked s.cpu s.jit.store (r.0, r.1, r.2, r.3.mmu)) (IsNext s)
        (find_block_fast mem s.jit.store s.sys s.cpu Fault.none) _
        (find_block_fast-Looked mem ans s.jit.store s.sys s.cpu Fault.none)
        (λ r h. looked-IsNext (next_block mem decode op_unk buffer (suc fuel)) s r h (λ g kept.
          Yields-bind (Makes mem ans decode op_unk buffer) (IsNext s)
            (create_block mem decode op_unk buffer 2 (record s.jit { store = r.2 }) r.3 s.cpu) _
            (create_block-Makes mem ans decode op_unk buffer (record s.jit { store = r.2 }) r.3
              s.cpu g)
            (λ c m. block_made c m)))
    where
      block_made :
          (c : Created × Jit × Sys mem)
          → Makes mem ans decode op_unk buffer c
          → Yields
              (IsNext s)
              (made mem decode op_unk buffer (next_block mem decode op_unk buffer (suc fuel)) s c)
      block_made (created b, jit, sys) h = refl
      block_made (faulted, jit, sys) h =
          fresh-IsNext fuel (record { cpu = s.cpu; sys = sys; jit = jit }) h
      block_made (starved, jit, sys) h = absurd h

  module _ (call_block : Block → Sim mem → Outcome (Option ℕ × Sim mem)) (limit : ℕ) where
    -- What a round leaves: the handler of a fault of the counter; what the block left, if an instruction of it took an
    -- exception; or, after the block's ticks, the pending interrupt taken or none pending.
    abbrev pub Turned : Sim mem → Exit × Sim mem → Type 0
    Turned s r =
        ((f : Fault) × (mmu : Mmu) × Reports true f
          × AtHandler (record { cpu = s.cpu; mmu = mmu }) (exception_of true f) (core mem r.1)
          × (r.0 ≡ restarted))
        ⊎ ((b : Block) × (from : Sim mem) × (from.cpu ≡ s.cpu)
            × (call_block b from ≡ done (none, r.1))
            × (r.0 ≡ restarted))
        ⊎ ((b : Block) × (from : Sim mem) × (after : Sim mem) × (n : ℕ) × (from.cpu ≡ s.cpu)
            × (call_block b from ≡ done (some n, after))
            × Delivered (after_ticks mem after n) (core mem r.1))

    block_Turned :
        (s from : Sim mem) (b : Block) (m : Outcome (Option ℕ × Sim mem))
        → from.cpu ≡ s.cpu
        → call_block b from ≡ m
        → Yields (λ r. r.1.cpu.pc < 2 ^ 32) m
        → Yields (Turned s) (m >>= λ r. done (ran mem decode op_unk buffer call_block limit r))
    unfolding ran
    block_Turned s from b (done (none, after)) e q h = inr (inl (b, from, e, q, refl))
    block_Turned s from b (done (some n, after)) e q h =
        inr (inr (b, from, after, n, e, q, after_block-Delivered mem ans limit n after h))
    block_Turned s from b fatal e q h = absurd h

    fault_Turned :
        (s s' : Sim mem) (f : Fault)
        → Reports true f
        → s'.cpu ≡ s.cpu
        → s.cpu.pc < 2 ^ 32
        → Yields (Turned s) (run_next mem decode op_unk buffer call_block limit (take_fault f, s'))
    unfolding run_next
    fault_Turned s s' f h e p =
        Yields-bind (AtHandler (core mem s') (exception_of true f)) (Turned s)
          (raise_mem_exception (core mem s') true true s'.cpu.pc f 0) _
          (fault_raised mem ans (core mem s') f h (subst (λ (c : Cpu). c.pc < 2 ^ 32) (sym e) p))
          (λ k a. inl (
            f,
            s'.sys.mmu,
            h,
            subst
                (λ (c : Cpu).
                  AtHandler (record { cpu = c; mmu = s'.sys.mmu }) (exception_of true f) k)
                e a,
            refl,
          ))

    next_Turned :
        (s : Sim mem) (r : Next × Sim mem)
        → s.cpu.pc < 2 ^ 32
        → ((b : Block) (from : Sim mem) → Yields (λ x. x.1.cpu.pc < 2 ^ 32) (call_block b from))
        → IsNext s r
        → Yields (Turned s) (run_next mem decode op_unk buffer call_block limit r)
    unfolding run_next
    next_Turned s (run_block b, s') p calls e =
        block_Turned s s' b (call_block b s') e refl (calls b s')
    next_Turned s (take_fault f, s') p calls (h, e) = fault_Turned s s' f h e p
    next_Turned s (stuck, s') p calls h = absurd h

    -- Over a bus that answers, from a 32-bit address, and where the call of a block returns and leaves a 32-bit address, a
    -- round of the loop returns after two passes of its search at most, in one of three ways. It is at the handler of a
    -- fault that the fetch reported. Or a block was called and an instruction of it took an exception. Or a block was
    -- called, and after its ticks the pending interrupt was taken, the external one first, or none was pending.
    pub round-Turned :
        ((b : Block) (from : Sim mem) → Yields (λ r. r.1.cpu.pc < 2 ^ 32) (call_block b from))
        → (fuel : ℕ) (s : Sim mem) → s.cpu.pc < 2 ^ 32
        → Yields (Turned s) (round mem decode op_unk buffer call_block limit (suc (suc fuel)) s)
    unfolding round
    round-Turned calls fuel s p =
        Yields-bind (IsNext s) (Turned s) (next_block mem decode op_unk buffer (suc (suc fuel)) s)
          (run_next mem decode op_unk buffer call_block limit) (next_block-IsNext fuel s)
          (λ r h. next_Turned s r p calls h)
