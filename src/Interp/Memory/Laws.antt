-- ===== src/Interp/Memory/Laws.antt =====
-- The reservation of `lwarx` and `stwcx.`.
use mr_iss.Base.{
  ℕ, ◌+◌, ◌^◌, ◌≤◌, ◌<◌, ◌≡◌, refl, false, arith, if◌then◌else◌, truthy, u32, Yields, done,
}
use mr_iss.Memory.{Memory}
use mr_iss.Cpu.State.{Cpu, get_gpr, get_xer_so, inc_pc}
use mr_iss.Interp.Macros.{read_cr_field}
use mr_iss.Interp.Macros.Fields.{read-write_cr_field}
use mr_iss.Interp.State.{blow_reservation, read_gpr_oz}
use mr_iss.Interp.Special.{op_rfi}
use mr_iss.Interp.Memory.{Machine, cpu_of, holds_reservation, stwcx_end, stwcx_with, op_stwcx, next}

get_gpr-done : (c : Cpu) (r : ℕ) → r < 32 → get_gpr c r ≡ done (c.gprs r)
unfolding get_gpr
get_gpr-done c r h = ground arith

read_gpr_oz-done :
    (c : Cpu) (r : ℕ) → r < 32 → read_gpr_oz c r ≡ done (if truthy r then c.gprs r else 0)
unfolding read_gpr_oz get_gpr
read_gpr_oz-done c r h = ground arith

module _ (mem : Memory) where
  -- `stwcx.` without a reservation stores nothing, and clears EQ.
  pub record Refused (m after : Machine mem) : Type 0 where
    pub memory_kept : after.bus ≡ m.bus
    pub not_equal : read_cr_field (cpu_of mem after).cr 0 ≡ get_xer_so (cpu_of mem m)
    pub goes_on : (cpu_of mem after).pc ≡ u32 ((cpu_of mem m).pc + 4)

  get_xer_so-lt : (c : Cpu) → get_xer_so c < 16
  unfolding get_xer_so
  get_xer_so-lt c = ground arith

  stwcx_end-Refused : (m : Machine mem) → Refused m (stwcx_end mem m (get_xer_so (cpu_of mem m)))
  unfolding stwcx_end next inc_pc blow_reservation
  stwcx_end-Refused m = record {
    memory_kept = refl;
    not_equal = read-write_cr_field _ 0 _ (omega arith) (get_xer_so-lt (cpu_of mem m));
    goes_on = refl;
  }

  op_stwcx-Refused :
      (m : Machine mem) (rs ra0 rb inst : ℕ)
      → rs < 32
      → ra0 < 32
      → rb < 32
      → ((base : ℕ) → holds_reservation mem m base ≡ false)
      → Yields (Refused m) (op_stwcx mem m rs ra0 rb inst)
  unfolding op_stwcx stwcx_with
  op_stwcx-Refused m rs ra0 rb inst hs ha hb h =
      let c = cpu_of mem m in
      rw
        (
          read_gpr_oz-done c ra0 ha,
          get_gpr-done c rb hb,
          get_gpr-done c rs hs,
          h (u32 ((if truthy ra0 then c.gprs ra0 else 0) + c.gprs rb)),
        )
        (stwcx_end-Refused m)

  -- `rfi` takes the reservation away: a `stwcx.` after it stores nothing and clears EQ, whatever its
  -- address.
  pub op_stwcx-after_rfi :
      (m : Machine mem) (rs ra0 rb inst : ℕ)
      → rs < 32
      → ra0 < 32
      → rb < 32
      → m.interp.reservation_gencount ≤ m.interp.exc_generation_count
      → m.interp.exc_generation_count + 1 < 2 ^ 64
      → let back = record m { interp = op_rfi m.interp } in
        Yields (Refused back) (op_stwcx mem back rs ra0 rb inst)
  unfolding op_rfi blow_reservation holds_reservation
  op_stwcx-after_rfi m rs ra0 rb inst hs ha hb hg hc =
      op_stwcx-Refused (record m { interp = op_rfi m.interp }) rs ra0 rb inst hs ha hb
        (λ base. ground arith)
