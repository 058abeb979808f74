-- ===== src/Interp/Execute.antt =====
-- `execute` of PPCInterpreter.h and the loop of main.cc around it. The decoder is made by the build: it is the
-- parameter `decode`, which runs the instruction of a word. The poll of the host's devices is the parameter `poll`.
pub mod Laws
use mr_iss.Memory.{Memory}
use mr_iss.Mmu.State.{Fault}
use mr_iss.Mmu.Walk.{Sys}
use mr_iss.Mmu.Access.{load_inst32}
use mr_iss.Cpu.State.{is_privileged}
use mr_iss.Cpu.Exceptions.{raise_mem_exception}
use mr_iss.Cpu.Loop.{after_execute, limit_hit}
use mr_iss.Interp.State.{sim_quit}
use mr_iss.Interp.Memory.{Machine, cpu_of, sys_of, set_core, set_sys}
use mr_iss.Base.{ℕ, zero, suc, true, Option, none, some, if◌then◌else◌, ◌>>=◌, Outcome, done}

module _ (mem : Memory) where
  -- After the load: an instruction, or the exception of its fault and the jump back to `fetch`.
  pub fetched :
      (Machine mem → Outcome (Option ℕ × Machine mem))
      → Machine mem
      → Fault × Option ℕ × Sys mem
      → Outcome (Option ℕ × Machine mem)
  unfolding raise_mem_exception
  fetched again m (Fault.none, inst, s) = done (inst, set_sys mem m s)
  fetched again m (fault, inst, s) =
      let m' : Machine mem = set_sys mem m s in
      raise_mem_exception m'.interp.core true true (cpu_of mem m).pc fault 0 >>= λ k.
      again (set_core mem m' k)

  -- From the `fetch` label, with fuel for that many passes; without an instruction the fuel is used up.
  pub fetch : ℕ → Machine mem → Outcome (Option ℕ × Machine mem)
  unfolding fetched is_privileged load_inst32
  fetch zero m = done (none, m)
  fetch (suc fuel) m =
      load_inst32 mem (sys_of mem m) (cpu_of mem m).pc (is_privileged (cpu_of mem m))
      >>= fetched (fetch fuel) m

  module _ (decode : ℕ → Machine mem → Outcome (Machine mem)) where
    pub run_inst : Option ℕ × Machine mem → Outcome (Machine mem)
    run_inst (none, m) = done m
    run_inst (some inst, m) = decode inst m

    pub execute : ℕ → Machine mem → Outcome (Machine mem)
    unfolding fetch run_inst
    execute fuel m = fetch fuel m >>= run_inst

    module _ (poll : ℕ → Machine mem → Machine mem) (instr_limit : ℕ) where
      -- What follows `execute` in the loop of `main`: the tick, an interrupt, the limit and the poll.
      pub finish_round : Machine mem → Machine mem
      unfolding after_execute limit_hit sim_quit
      finish_round m =
          let m1 : Machine mem = set_core mem m (after_execute m.interp.core) in
          let m2 : Machine mem =
            (if limit_hit instr_limit m1.interp.core
              then record m1 { interp = record m1.interp { want_break = true } }
              else m1) in
          poll m2.interp.core.cpu.cpu_inst_count m2

      -- The loop, for at most `rounds` rounds.
      pub main_loop : ℕ → Machine mem → Outcome (Machine mem)
      unfolding execute finish_round
      main_loop zero m = done m
      main_loop (suc rounds) m =
          let rest = execute 2 m >>= λ m'. main_loop rounds (finish_round m') in
          if m.interp.want_break then done m else rest
