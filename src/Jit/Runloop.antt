-- ===== src/Jit/Runloop.antt =====
-- The JIT's loop (runloop.cc). Under it takeException jumps to the start of the loop, with `longjmp`: a round ends there.
-- The code of a block runs on the host: it is the parameter `call_block`, which gives the count that the code returns, or
-- nothing where an instruction takes an exception. The call of raiseMemException leaves out the instruction, without which
-- it does not compile; the model gives it 0, as the interpreter does for a fetch. The dump of the state, the traces and
-- the counters are not modelled.
pub mod Lookup
pub mod Laws
use mr_iss.Memory.{Memory}
use mr_iss.Mmu.State.{Fault}
use mr_iss.Mmu.Walk.{Sys}
use mr_iss.Cpu.State.{Cpu, cpu_tick, is_irq_pending, is_decrementer_pending}
use mr_iss.Cpu.Exceptions.{Core, raise_mem_exception, raise_irq_exception, raise_dec_exception}
use mr_iss.Cpu.Loop.{limit_hit}
use mr_iss.Jit.Blockstore.{Block, Blockstore, find_block_fast}
use mr_iss.Jit.Emit.{Site}
use mr_iss.Jit.Blockgen.{Jit, Created, faulted, created, starved, create_block}
use mr_iss.Base.{ℕ, zero, suc, Bool, Option, none, some, if◌then◌else◌, ◌>>=◌, Outcome, done}
use mr_iss.Base.{true}

pub record Sim (mem : Memory) : Type 0 where
  pub cpu : Cpu
  pub sys : Sys mem
  pub jit : Jit

-- What the loop does next: runs a block, or takes the fault of the counter. `stuck` is a loop with no fuel left.
pub data Next : Type 0 where
  run_block : Block → Next
  take_fault : Fault → Next
  stuck : Next

-- How a round ends: by the jump of takeException, or after a block, with the request to stop.
pub data Exit : Type 0 where
  restarted : Exit
  went_on : Bool → Exit
  no_fuel : Exit

module _ (mem : Memory) where
  abbrev pub core : Sim mem → Core
  core s = record { cpu = s.cpu; mmu = s.sys.mmu }

  abbrev pub with_core : Sim mem → Core → Sim mem
  with_core s k = record s { cpu = k.cpu; sys = record s.sys { mmu = k.mmu } }

  abbrev pub after_ticks : Sim mem → ℕ → Core
  after_ticks s n = record { cpu = cpu_tick s.cpu n; mmu = s.sys.mmu }

  -- What follows a block that has returned: its ticks, and an interrupt or the limit on instructions.
  pub after_block : ℕ → Sim mem → ℕ → Exit × Sim mem
  unfolding limit_hit raise_irq_exception raise_dec_exception is_irq_pending is_decrementer_pending
  after_block limit s n =
      let k = after_ticks s n in
      if is_irq_pending k.cpu
      then (restarted, with_core s (raise_irq_exception k))
      else if is_decrementer_pending k.cpu
      then (restarted, with_core s (raise_dec_exception k))
      else (went_on (limit_hit limit k), with_core s k)

module _ (mem : Memory) (decode : ℕ → Option (Site × ℕ)) (op_unk buffer : ℕ) where
  -- After `createBlock`: `again` is the `goto find_block`.
  pub made :
      (Sim mem → Outcome (Next × Sim mem))
      → Sim mem
      → Created × Jit × Sys mem
      → Outcome (Next × Sim mem)
  made again s (created b, jit, sys) =
      done (run_block b, record { cpu = s.cpu; sys = sys; jit = jit })
  made again s (faulted, jit, sys) = again (record { cpu = s.cpu; sys = sys; jit = jit })
  made again s (starved, jit, sys) = done (stuck, record { cpu = s.cpu; sys = sys; jit = jit })

  -- After `findBlock`.
  pub looked :
      (Sim mem → Outcome (Next × Sim mem))
      → Sim mem
      → Option Block × Fault × Blockstore × Sys mem
      → Outcome (Next × Sim mem)
  unfolding made
  looked again s (some b, fault, store, sys) =
      done (run_block b, record { cpu = s.cpu; sys = sys; jit = record s.jit { store = store } })
  looked again s (none, Fault.none, store, sys) =
      create_block mem decode op_unk buffer 2 (record s.jit { store = store }) sys s.cpu
      >>= made again s
  looked again s (none, fault, store, sys) =
      done
        (take_fault fault, record { cpu = s.cpu; sys = sys; jit = record s.jit { store = store } })

  -- From the `find_block` label, with fuel for that many passes.
  pub next_block : ℕ → Sim mem → Outcome (Next × Sim mem)
  unfolding looked find_block_fast
  next_block zero s = done (stuck, s)
  next_block (suc fuel) s =
      find_block_fast mem s.jit.store s.sys s.cpu Fault.none >>= looked (λ s'. next_block fuel s') s

  module _ (call_block : Block → Sim mem → Outcome (Option ℕ × Sim mem)) (instr_limit : ℕ) where
    pub ran : Option ℕ × Sim mem → Exit × Sim mem
    unfolding after_block
    ran (none, s) = (restarted, s)
    ran (some n, s) = after_block mem instr_limit s n

    pub run_next : Next × Sim mem → Outcome (Exit × Sim mem)
    unfolding ran raise_mem_exception
    run_next (run_block b, s) = call_block b s >>= λ r. done (ran r)
    run_next (take_fault f, s) = raise_mem_exception (core mem s) true true s.cpu.pc f 0 >>= λ k.
        done (restarted, with_core mem s k)
    run_next (stuck, s) = done (no_fuel, s)

    -- A round of the loop.
    pub round : ℕ → Sim mem → Outcome (Exit × Sim mem)
    unfolding next_block run_next
    round fuel s = next_block fuel s >>= run_next
