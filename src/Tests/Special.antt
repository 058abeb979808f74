-- ===== src/Tests/Special.antt =====
-- The special instructions on a processor with distinct registers.
use mr_iss.Base.{◌+◌, ◌≡◌, refl, inl, inr, false, arith, ◌>>=◌, Yields, fatal}
use mr_iss.Cpu.State.{Cpu, reset}
use mr_iss.Mmu.State
use mr_iss.Interp.State.{Interp}
use mr_iss.Interp.Special.Spr.{op_mfspr, op_mtspr}
use mr_iss.Interp.Special.Spr.Laws.{Read, op_mtspr-op_mfspr, op_mtspr-fatal}

abbrev numbered : Cpu
numbered = record reset { gprs = λ r. 0xdead_0000 + r; pc = 0x2000 }

abbrev program : Interp
program = record {
  core = record { cpu = numbered; mmu = State.init };
  want_break = false;
  exc_generation_count = 0;
  reservation_address = 0;
  reservation_gencount = 0;
}

-- XER, register 1.
op_mtspr-op_mfspr_example :
    Yields (Read program 1 3 4) (op_mtspr program 1 3 >>= λ q. op_mfspr q 1 4)
op_mtspr-op_mfspr_example =
    op_mtspr-op_mfspr program 1 3 4 (inr (inr (inl refl))) (omega arith) (omega arith)

-- IBAT4L.
op_mtspr-fatal_example : op_mtspr program 561 3 ≡ fatal
op_mtspr-fatal_example = op_mtspr-fatal program 561 3 (inr (inl refl)) (omega arith)
