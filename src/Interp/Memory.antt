-- ===== src/Interp/Memory.antt =====
-- PPCInterpreter_Memory.cc, with the load and store helpers and `MFCHECK` of PPCInterpreter.h. `inst` is
-- the instruction's word, which an alignment interrupt reports. A displacement is not yet
-- sign-extended.
pub mod Laws
use mr_iss.Base.{
  ℕ, zero, suc, ◌+◌, ◌-◌, bit_or, Bool, true, false, ◌&&◌, none, some, ◌==◌, u32, ◌>>=◌, Outcome,
  done,
}
use mr_iss.Memory.{Memory}
use mr_iss.Mmu.State.{Fault}
use mr_iss.Mmu.Walk.{Sys}
use mr_iss.Mmu.Access.{load32, store32}
use mr_iss.Cpu.State.{Cpu, get_gpr, set_gpr, get_xer_so, is_privileged, inc_pc}
use mr_iss.Cpu.Exceptions.{Core, raise_mem_exception}
use mr_iss.Interp.Macros.{write_cr_field}
use mr_iss.Interp.State.{Interp, with_cpu, read_gpr_oz, blow_reservation}
use mr_iss.Interp.Branch.{sxt16}

-- The interpreter with all that lies behind the bus.
pub record Machine (mem : Memory) : Type 0 where
  pub interp : Interp
  pub bus : mem.World

module _ (mem : Memory) where
  abbrev pub cpu_of : Machine mem → Cpu
  cpu_of m = m.interp.core.cpu

  abbrev pub set_cpu : Machine mem → Cpu → Machine mem
  set_cpu m c = record m { interp = with_cpu m.interp c }

  abbrev pub sys_of : Machine mem → Sys mem
  sys_of m = record { mmu = m.interp.core.mmu; bus = m.bus }

  abbrev pub set_core : Machine mem → Core → Machine mem
  set_core m k = record m { interp = record m.interp { core = k } }

  abbrev pub set_sys : Machine mem → Sys mem → Machine mem
  set_sys m s = record (set_core m (record { cpu = m.interp.core.cpu; mmu = s.mmu })) {
    bus = s.bus;
  }

  -- `LOAD32`. A value that a fault left unset is 0 here; no caller goes on with it.
  unfoldable pub load_word : Machine mem → ℕ → Outcome (Fault × ℕ × Machine mem)
  unfolding load32 is_privileged
  load_word m addr = load32 mem (sys_of m) addr (is_privileged (cpu_of m)) >>= λ r.
      done (r.0, elim r.1 [ none ↦ 0 | some v ↦ v ], set_sys m r.2)

  -- `STORE32`.
  unfoldable pub store_word : Machine mem → ℕ → ℕ → Outcome (Fault × Machine mem)
  unfolding store32 is_privileged
  store_word m addr value = store32 mem (sys_of m) addr value (is_privileged (cpu_of m)) >>= λ r.
      done (r.0, set_sys m r.1)

  -- `MFCHECK`: a fault ends the instruction with its exception.
  unfoldable pub mfcheck :
      Machine mem
      → Bool
      → ℕ
      → ℕ
      → Fault
      → (Machine mem → Outcome (Machine mem))
      → Outcome (Machine mem)
  unfolding raise_mem_exception
  mfcheck m rnw addr inst Fault.none k = k m
  mfcheck m rnw addr inst f k =
      raise_mem_exception m.interp.core rnw false addr f inst >>= λ c. done (set_core m c)

  unfoldable pub next : Machine mem → Machine mem
  unfolding inc_pc
  next m = set_cpu m (inc_pc (cpu_of m))

  -- The loop of `op_lmw` from register `n` on, `k` registers.
  unfoldable lmw_from : ℕ → ℕ → ℕ → ℕ → Machine mem → Outcome (Machine mem)
  unfolding load_word mfcheck set_gpr next
  lmw_from zero n base inst m = done (next m)
  lmw_from (suc k) n base inst m = load_word m base >>= λ r. mfcheck r.2 true base inst r.0 λ m1.
      set_gpr (cpu_of m1) n r.1 >>= λ c. lmw_from k (suc n) (u32 (base + 4)) inst (set_cpu m1 c)

  unfoldable op_lmw : Machine mem → ℕ → ℕ → ℕ → ℕ → Outcome (Machine mem)
  unfolding read_gpr_oz lmw_from
  op_lmw m rt d ra0 inst =
      read_gpr_oz (cpu_of m) ra0 >>= λ a. lmw_from (32 - rt) rt (u32 (a + sxt16 d)) inst m

  -- The loop of `op_stmw`.
  unfoldable stmw_from : ℕ → ℕ → ℕ → ℕ → Machine mem → Outcome (Machine mem)
  unfolding store_word mfcheck get_gpr next
  stmw_from zero n base inst m = done (next m)
  stmw_from (suc k) n base inst m = get_gpr (cpu_of m) n >>= λ v. store_word m base v >>= λ r.
      mfcheck r.1 false base inst r.0 λ m1. stmw_from k (suc n) (u32 (base + 4)) inst m1

  unfoldable op_stmw : Machine mem → ℕ → ℕ → ℕ → ℕ → Outcome (Machine mem)
  unfolding read_gpr_oz stmw_from
  op_stmw m rs d ra0 inst =
      read_gpr_oz (cpu_of m) ra0 >>= λ a. stmw_from (32 - rs) rs (u32 (a + sxt16 d)) inst m

  -- The reservation is taken before the fault is looked at.
  unfoldable reserve : Machine mem → ℕ → Machine mem
  reserve m addr = record m {
    interp = record m.interp {
      reservation_address = addr;
      reservation_gencount = m.interp.exc_generation_count;
    };
  }

  unfoldable op_lwarx : Machine mem → ℕ → ℕ → ℕ → ℕ → Outcome (Machine mem)
  unfolding read_gpr_oz get_gpr set_gpr load_word mfcheck reserve next
  op_lwarx m ra0 rb rt inst = read_gpr_oz (cpu_of m) ra0 >>= λ a. get_gpr (cpu_of m) rb >>= λ b.
      let addr = u32 (a + b) in
      load_word m addr >>= λ r.
      mfcheck (reserve r.2 addr) true addr inst r.0
        λ m1. set_gpr (cpu_of m1) rt r.1 >>= λ c. done (next (set_cpu m1 c))

  -- The end of `op_stwcx`, with the value for the first condition field.
  pub stwcx_end : Machine mem → ℕ → Machine mem
  unfolding blow_reservation write_cr_field next
  stwcx_end m cr0 =
      let blown = record m { interp = blow_reservation m.interp } in
      next (set_cpu blown (record (cpu_of blown) { cr = write_cr_field (cpu_of blown).cr 0 cr0 }))

  pub holds_reservation : Machine mem → ℕ → Bool
  holds_reservation m base =
      base == m.interp.reservation_address
      && m.interp.reservation_gencount == m.interp.exc_generation_count

  -- The store of `op_stwcx` when the reservation holds.
  pub stwcx_with : Machine mem → Bool → ℕ → ℕ → ℕ → Outcome (Machine mem)
  unfolding store_word mfcheck stwcx_end get_xer_so
  stwcx_with m false base v inst = done (stwcx_end m (get_xer_so (cpu_of m)))
  stwcx_with m true base v inst = store_word m base v >>= λ r.
      mfcheck r.1 false base inst r.0 λ m1. done (stwcx_end m1 (bit_or (get_xer_so (cpu_of m)) 2))

  pub op_stwcx : Machine mem → ℕ → ℕ → ℕ → ℕ → Outcome (Machine mem)
  unfolding read_gpr_oz get_gpr stwcx_with holds_reservation
  op_stwcx m rs ra0 rb inst = read_gpr_oz (cpu_of m) ra0 >>= λ a. get_gpr (cpu_of m) rb >>= λ b.
      get_gpr (cpu_of m) rs >>= λ v.
      let base = u32 (a + b) in stwcx_with m (holds_reservation m base) base v inst
