-- ===== src/Interp/CondReg.antt =====
-- PPCInterpreter_CondReg.cc.
use mr_iss.Base.{
  ℕ, ◌<◌, bit_and, bit_or, ◌≡◌, ap, inl, inr, arith, ◌==◌, if◌then◌else◌, truthy, Bool-cases, ◌>>>◌,
  clear32, ◌>>=◌, Outcome, done,
}
use mr_iss.Cpu.State.{Cpu, get_gpr, set_gpr, set_xer, inc_pc}
use mr_iss.Interp.Macros.{write_cr_field, read_cr_field}
use mr_iss.Interp.Macros.Fields.{read-write_cr_field, read-write_cr_field_other, read_cr_field-lt}

op_mcrf : Cpu → ℕ → ℕ → Cpu
unfolding write_cr_field read_cr_field inc_pc
op_mcrf c bf bfa = inc_pc (record c { cr = write_cr_field c.cr bf (read_cr_field c.cr bfa) })

unfoldable op_mcrxr : Cpu → ℕ → Cpu
unfolding write_cr_field set_xer inc_pc
op_mcrxr c bf = inc_pc (set_xer (record c { cr = write_cr_field c.cr bf (c.xer >>> 28) }) 0)

unfoldable op_mfcr : Cpu → ℕ → Outcome Cpu
unfolding set_gpr inc_pc
op_mfcr c rt = set_gpr c rt c.cr >>= λ written. done (inc_pc written)

unfoldable fxm_mask : ℕ → ℕ
fxm_mask fxm =
    let part = λ (bit field : ℕ). if truthy (bit_and fxm bit) then field else 0 in
    bit_or
      (bit_or
        (bit_or
          (bit_or
            (bit_or
              (bit_or (bit_or (part 0x80 0xf000_0000) (part 0x40 0x0f00_0000))
                (part 0x20 0x00f0_0000))
              (part 0x10 0x000f_0000))
            (part 0x08 0xf000))
          (part 0x04 0x0f00))
        (part 0x02 0xf0))
      (part 0x01 0xf)

unfoldable op_mtcrf : Cpu → ℕ → ℕ → Outcome Cpu
unfolding get_gpr fxm_mask inc_pc
op_mtcrf c fxm rs = get_gpr c rs >>= λ s.
    let mask = fxm_mask fxm in
    done (inc_pc (record c { cr = bit_or (clear32 c.cr mask) (bit_and s mask) }))

-- Moving a field copies it, wherever it was, and leaves the other fields.
op_mcrf-copies :
    (c : Cpu) (bf bfa k : ℕ)
    → bf < 8
    → k < 8
    → read_cr_field (op_mcrf c bf bfa).cr k
      ≡ (if k == bf then read_cr_field c.cr bfa else read_cr_field c.cr k)
unfolding op_mcrf inc_pc
op_mcrf-copies c bf bfa k hb hk = elim (Bool-cases (k == bf)) [
  | inl h ↦ ground (
    arith,
    read-write_cr_field c.cr bf (read_cr_field c.cr bfa) hb (read_cr_field-lt c.cr bfa),
    ap (read_cr_field (write_cr_field c.cr bf (read_cr_field c.cr bfa))) {x = k} {y = bf}
        (ground arith),
  )
  | inr h ↦ ground (
    arith,
    read-write_cr_field_other c.cr bf (read_cr_field c.cr bfa) k hb hk (read_cr_field-lt c.cr bfa)
        (ground arith),
  )
]
