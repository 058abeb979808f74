-- ===== src/Interp/Branch/Laws.antt =====
-- Branches: the manual's conditions, subroutine return, and counted loops.
use mr_iss.Base.{
  ℕ, zero, suc, ◌+◌, ◌-◌, ◌%◌, ◌^◌, ◌≤◌, ◌<◌, ◌≡◌, Bool, true, false, arith, ◌==◌, if◌then◌else◌,
  u32,
}
use mr_iss.Bits.Fields.{bit_and_field}
use mr_iss.Cpu.State.{Cpu, inc_pc}
use mr_iss.Interp.State.{Interp, sim_quit}
use mr_iss.Interp.Branch.{op_b, op_bc, op_bclr, count_down, branch_taken, sxt16}

-- A call and the unconditional return of the subroutine come back behind the call.
return-call :
    (p : Interp) (li : ℕ) (aa : Bool)
    → p.core.cpu.pc % 4 ≡ 0
    → (op_bclr (op_b p li aa true).core.cpu 20 0 false).pc ≡ u32 (p.core.cpu.pc + 4)
unfolding op_b op_bclr sim_quit count_down branch_taken
return-call p li aa h = ground (arith, bit_and_field 2 30 (u32 (p.core.cpu.pc + 4)))

-- `n` passes over the `bdnz` at an address: before each one the loop's body, which keeps CTR, has come
-- back to that address.
pub spin : ℕ → ℕ → Cpu → Cpu
unfolding op_bc
spin zero bd c = c
spin (suc n) bd c = op_bc (record (spin n bd c) { pc = c.pc }) 16 0 bd false false

bdnz :
    (c : Cpu) (bd : ℕ)
    → 0 < c.ctr
    → c.ctr < 2 ^ 32
    → let after = op_bc c 16 0 bd false false in
      (after.ctr ≡ c.ctr - 1)
      × (after.pc ≡ (if c.ctr == 1 then u32 (c.pc + 4) else u32 (c.pc + sxt16 bd)))
unfolding op_bc count_down branch_taken inc_pc
bdnz c bd p h = ground arith

spin-ctr : (n bd : ℕ) (c : Cpu) → n ≤ c.ctr → c.ctr < 2 ^ 32 → (spin n bd c).ctr ≡ c.ctr - n
unfolding spin
spin-ctr zero bd c l h = omega arith
spin-ctr (suc n) bd c l h =
    let before = spin-ctr n bd c (omega arith) h in
    let (counted, _) =
      bdnz (record (spin n bd c) { pc = c.pc }) bd (omega (arith, before))
        (omega (arith, before)) in
    omega (arith, before, counted)

-- A loop that `bdnz` closes runs as often as CTR said at its start: every pass before the last goes
-- back, and the last falls through with CTR at 0.
pub spin-counts :
    (n bd : ℕ) (c : Cpu)
    → n < c.ctr
    → c.ctr < 2 ^ 32
    → let after = spin (suc n) bd c in
      (after.ctr ≡ c.ctr - suc n)
      × (after.pc ≡ (if suc n == c.ctr then u32 (c.pc + 4) else u32 (c.pc + sxt16 bd)))
unfolding spin
spin-counts n bd c l h =
    let before = spin-ctr n bd c (omega arith) h in
    let (counted, target) =
      bdnz (record (spin n bd c) { pc = c.pc }) bd (omega (arith, before))
        (omega (arith, before)) in
    (omega (arith, before, counted), ground (arith, before, target))
