-- ===== src/Interp/Special/Spr/Laws.antt =====
-- What is read back of a special-purpose register after a write, and which writes end the run.
use mr_iss.Base.{
  ℕ, ◌+◌, ◌*◌, ◌/◌, ◌%◌, ◌^◌, ◌<◌, bit_and, bit_or, ◌≡◌, refl, ap, ◌∙◌, true, List, [], ◌∷◌, arith,
  ltb, ◌==◌, if◌then◌else◌, u32, u64, ◌>>=◌, Yields, fatal, ltb_of_lt, ==_self, All, In, All-In,
}
use mr_iss.Bits.Fields.{bit_and_field, bit_and_low, bit_or_sum, bit_or_comm}
use mr_iss.Interp.State.{Interp}
use mr_iss.Interp.Special.Numbers.{
  spr_ctr, spr_lr, spr_tb, spr_tbu, spr_xer, spr_tb_w, spr_tbu_w, spr_dar, spr_dec, spr_dsisr,
  spr_sdr1, spr_srr0, spr_srr1, spr_sprg0, spr_sprg1, spr_sprg2, spr_sprg3, spr_hid0, spr_hid1,
}
use mr_iss.Interp.Special.Spr.{op_mftb, op_mfspr, op_mtspr}

-- The registers that hold what is written to them.
abbrev plain_sprs : List ℕ
plain_sprs =
    spr_lr ∷ spr_ctr ∷ spr_xer ∷ spr_sprg0 ∷ spr_sprg1 ∷ spr_sprg2 ∷ spr_sprg3 ∷ spr_srr0 ∷ spr_srr1
    ∷ spr_dsisr ∷ spr_dar ∷ spr_sdr1 ∷ spr_dec ∷ spr_hid0 ∷ spr_hid1 ∷ []

-- XER has bits that cannot be set.
abbrev held : ℕ → ℕ → ℕ
held spr v = if spr == spr_xer then bit_and v 0xe000_007f else v

-- After `mtspr spr, rs; mfspr rt, spr`.
abbrev pub Read : Interp → ℕ → ℕ → ℕ → Interp → Type 0
Read p spr rs rt q =
    (q.core.cpu.gprs rt ≡ held spr (p.core.cpu.gprs rs))
    × (q.core.cpu.pc ≡ u32 (u32 (p.core.cpu.pc + 4) + 4))

abbrev Back : Interp → ℕ → ℕ → ℕ → Type 0
Back p rs rt spr = Yields (Read p spr rs rt) (op_mtspr p spr rs >>= λ q. op_mfspr q spr rt)

All-Back :
    (p : Interp) (rs rt : ℕ)
    → ltb rs 32 ≡ true
    → ltb rt 32 ≡ true
    → (rt == rt) ≡ true
    → All (Back p rs rt) plain_sprs
unfolding op_mfspr op_mtspr
All-Back p rs rt h k e =
    rw (h, k, e)
      (
        (refl, refl),
        (
          (refl, refl),
          (
            (refl, refl),
            (
              (refl, refl),
              (
                (refl, refl),
                (
                  (refl, refl),
                  (
                    (refl, refl),
                    (
                      (refl, refl),
                      (
                        (refl, refl),
                        (
                          (refl, refl),
                          (
                            (refl, refl),
                            ((refl, refl), ((refl, refl), ((refl, refl), ((refl, refl), tt)))),
                          ),
                        ),
                      ),
                    ),
                  ),
                ),
              ),
            ),
          ),
        ),
      )

-- A register that holds what it is given reads back, after `mtspr` and `mfspr`, as the general register
-- that was written to it, but for the bits of XER that are always 0, and both instructions end.
pub op_mtspr-op_mfspr :
    (p : Interp) (spr rs rt : ℕ)
    → In spr plain_sprs
    → rs < 32
    → rt < 32
    → Yields (Read p spr rs rt) (op_mtspr p spr rs >>= λ q. op_mfspr q spr rt)
op_mtspr-op_mfspr p spr rs rt m h k =
    All-In (Back p rs rt) plain_sprs spr
      (All-Back p rs rt (ltb_of_lt rs 32 h) (ltb_of_lt rt 32 k) (==_self rt)) m

-- The upper BATs.
abbrev high_bats : List ℕ
high_bats =
    560 ∷ 561 ∷ 562 ∷ 563 ∷ 564 ∷ 565 ∷ 566 ∷ 567 ∷ 568 ∷ 569 ∷ 570 ∷ 571 ∷ 572 ∷ 573 ∷ 574 ∷ 575
    ∷ []

All-fatal :
    (p : Interp) (rs : ℕ) → ltb rs 32 ≡ true → All (λ spr. op_mtspr p spr rs ≡ fatal) high_bats
unfolding op_mtspr
All-fatal p rs h = rw h (
  refl,
  (
    refl,
    (
      refl,
      (
        refl,
        (
          refl,
          (
            refl,
            (refl, (refl, (refl, (refl, (refl, (refl, (refl, (refl, (refl, (refl, tt)))))))))),
          ),
        ),
      ),
    ),
  ),
)

-- A write of any half of a BAT register 4 to 7, instruction or data, ends the run.
pub op_mtspr-fatal :
    (p : Interp) (spr rs : ℕ) → In spr high_bats → rs < 32 → op_mtspr p spr rs ≡ fatal
op_mtspr-fatal p spr rs m h =
    All-In (λ n. op_mtspr p n rs ≡ fatal) high_bats spr (All-fatal p rs (ltb_of_lt rs 32 h)) m

low_half :
    (t v : ℕ)
    → v < 2 ^ 32
    → bit_or v (bit_and t 0xffff_ffff_0000_0000) ≡ t / 2 ^ 32 % 2 ^ 32 * 2 ^ 32 + v
low_half t v h =
    ap (bit_or v) (bit_and_field 32 32 t)
    ∙ bit_or_comm v (t / 2 ^ 32 % 2 ^ 32 * 2 ^ 32)
    ∙ bit_or_sum 32 (t / 2 ^ 32 % 2 ^ 32) v h

high_half : (t v : ℕ) → bit_or (v * 2 ^ 32) (bit_and t 0xffff_ffff) ≡ v * 2 ^ 32 + t % 2 ^ 32
high_half t v =
    ap (bit_or (v * 2 ^ 32)) (bit_and_low 32 t) ∙ bit_or_sum 32 v (t % 2 ^ 32) (omega arith)

tb_low :
    (t v : ℕ)
    → v < 2 ^ 32
    → bit_and (u64 (bit_or v (bit_and t 0xffff_ffff_0000_0000) * 4) / 4) 0xffff_ffff ≡ v
tb_low t v h =
    bit_and_low 32 (u64 (bit_or v (bit_and t 0xffff_ffff_0000_0000) * 4) / 4)
    ∙ omega (arith, low_half t v h)

tb_high :
    (t v : ℕ)
    → v < 2 ^ 32
    → u32 (u64 (bit_or (v * 2 ^ 32) (bit_and t 0xffff_ffff) * 4) / 4 / 2 ^ 32) ≡ v % 2 ^ 30
tb_high t v h = omega (arith, high_half t v)

-- The two words that `mftb` gives for the time base.
abbrev pub ReadHalf : ℕ → ℕ → Interp → Type 0
ReadHalf rt v q = q.core.cpu.gprs rt ≡ v

low_back :
    (p : Interp) (rs rt : ℕ)
    → ltb rs 32 ≡ true
    → ltb rt 32 ≡ true
    → (rt == rt) ≡ true
    → p.core.cpu.gprs rs < 2 ^ 32
    → Yields
        (ReadHalf rt (p.core.cpu.gprs rs))
        (op_mtspr p spr_tb_w rs >>= λ q. op_mftb q spr_tb rt)
unfolding op_mftb op_mtspr
low_back p rs rt h k e b = rw (h, k, e) (tb_low (p.core.cpu.tb / 4) (p.core.cpu.gprs rs) b)

high_back :
    (p : Interp) (rs rt : ℕ)
    → ltb rs 32 ≡ true
    → ltb rt 32 ≡ true
    → (rt == rt) ≡ true
    → p.core.cpu.gprs rs < 2 ^ 32
    → Yields
        (ReadHalf rt (p.core.cpu.gprs rs % 2 ^ 30))
        (op_mtspr p spr_tbu_w rs >>= λ q. op_mftb q spr_tbu rt)
unfolding op_mftb op_mtspr
high_back p rs rt h k e b = rw (h, k, e) (tb_high (p.core.cpu.tb / 4) (p.core.cpu.gprs rs) b)

-- `mttbl` then `mftb` gives back all the 32 bits of the register; `mttbu` then `mftbu` only the lowest
-- 30, since the time base is held shifted to the left by two within 64 bits.
pub op_mtspr-op_mftb :
    (p : Interp) (rs rt : ℕ)
    → rs < 32
    → rt < 32
    → p.core.cpu.gprs rs < 2 ^ 32
    → Yields
        (ReadHalf rt (p.core.cpu.gprs rs))
        (op_mtspr p spr_tb_w rs >>= λ q. op_mftb q spr_tb rt)
      × Yields
          (ReadHalf rt (p.core.cpu.gprs rs % 2 ^ 30))
          (op_mtspr p spr_tbu_w rs >>= λ q. op_mftb q spr_tbu rt)
op_mtspr-op_mftb p rs rt h k b = (
  low_back p rs rt (ltb_of_lt rs 32 h) (ltb_of_lt rt 32 k) (==_self rt) b,
  high_back p rs rt (ltb_of_lt rs 32 h) (ltb_of_lt rt 32 k) (==_self rt) b,
)
