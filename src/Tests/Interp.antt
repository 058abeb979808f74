-- ===== src/Tests/Interp.antt =====
-- Instructions on concrete registers.
use mr_iss.Base.{
  ℕ, ◌+◌, ◌-◌, ◌^◌, ◌≡◌, ◌↔◌, true, false, arith, leb, if◌then◌else◌, to_int, u32, Yields,
}
use mr_iss.Bits.Digits.{digit}
use mr_iss.Cpu.State.{Cpu, reset}
use mr_iss.Mmu.State
use mr_iss.Interp.Macros.{bias, add_ov_co_ci, sra, rotl32, write_cr_field, read_cr_field}
use mr_iss.Interp.Macros.Sums.{add-overflow_iff}
use mr_iss.Interp.Macros.Fields.{read-write_cr_field}
use mr_iss.Interp.Macros.Masks.{in_mask, digit-rotl32}
use mr_iss.Interp.State.{Interp}
use mr_iss.Interp.Alu.{sdiv, shifted_out, op_rlwimi}
use mr_iss.Interp.Alu.Laws.{shift_and_carry-sdiv, op_rlwimi-inserts}
use mr_iss.Interp.Special.{op_rfi}
use mr_iss.Interp.Memory.{Machine, op_stwcx}
use mr_iss.Interp.Memory.Laws.{Refused, op_stwcx-after_rfi}
use mr_iss.Tests.Mmu.{words, words-Answers}
use mr_iss.Mmu.Regs.{set_irdr}
use mr_iss.Mmu.Utlb.Real.{init-IsPlain, set_irdr-IsPlain}
use mr_iss.Interp.Execute.{fetch}
use mr_iss.Interp.Execute.Laws.{Gets, fetch-Gets}

abbrev registers : Cpu
registers = record reset { gprs = λ r. 0xdead_0000 + r; pc = 0x2000; ctr = 3; cr = 0x1234_5678 }

abbrev program : Interp
program = record {
  core = record { cpu = registers; mmu = State.init };
  want_break = false;
  exc_generation_count = 0;
  reservation_address = 0;
  reservation_gencount = 0;
}

add-overflow_iff_example :
    let s = add_ov_co_ci 0x7fff_ffff 0 1 in
    (s.ov ≡ false) ↔ (bias s.val + 2 ^ 31 ≡ bias 0x7fff_ffff + bias 0 + 1)
add-overflow_iff_example =
    add-overflow_iff 0x7fff_ffff 0 1 (omega arith) (omega arith) (omega arith)

read-write_cr_field_example : read_cr_field (write_cr_field 0x1234_5678 2 9) 2 ≡ 9
read-write_cr_field_example = read-write_cr_field 0x1234_5678 2 9 (omega arith) (omega arith)

digit-rotl32_example : digit (rotl32 0x8000_0001 4) 3 ≡ digit 0x8000_0001 31
digit-rotl32_example = digit-rotl32 0x8000_0001 4 3 (omega arith) (omega arith) (omega arith)

shift_and_carry-sdiv_example :
    u32 (sra 0xffff_fff9 1 + to_int (shifted_out 0xffff_fff9 1)) ≡ sdiv 0xffff_fff9 (2 ^ 1)
shift_and_carry-sdiv_example = shift_and_carry-sdiv 0xffff_fff9 1 (omega arith) (omega arith)

op_rlwimi-inserts_example :
    Yields
      (λ end. digit (end.gprs 4) (31 - 20) ≡ (
        if in_mask 16 23 20
        then digit (registers.gprs 5) (if leb 8 (31 - 20) then 31 - 20 - 8 else 31 - 20 + 32 - 8)
        else digit (registers.gprs 4) (31 - 20)))
      (op_rlwimi registers 4 5 8 16 23 true)
op_rlwimi-inserts_example =
    op_rlwimi-inserts registers 4 5 8 16 23 true 20 (omega arith) (omega arith) (omega arith)
      (omega arith) (omega arith) (omega arith) (omega arith)

abbrev five : ℕ
five = 5

abbrev minus_one : ℕ
minus_one = 0xffff_ffff

abbrev machine : Machine words
machine = record { interp = program; bus = λ a. a }

op_stwcx-after_rfi_example :
    let back : Machine words = record machine { interp = op_rfi program } in
    Yields (Refused words back) (op_stwcx words back 3 0 4 0x7c60_212d)
op_stwcx-after_rfi_example =
    op_stwcx-after_rfi words machine 3 0 4 0x7c60_212d (omega arith) (omega arith) (omega arith)
      (omega arith) (omega arith)

-- With translation on and an empty table, the fetch faults and goes on at the handler.
abbrev unmapped : Machine words
unmapped = record {
  interp = record program {
    core = record { cpu = registers; mmu = set_irdr State.init true true };
  };
  bus = λ a. 0;
}

fetch-Gets_example : Yields (Gets words words-Answers unmapped) (fetch words 2 unmapped)
fetch-Gets_example =
    fetch-Gets words words-Answers 0 unmapped (omega arith)
      (set_irdr-IsPlain State.init true true init-IsPlain)
